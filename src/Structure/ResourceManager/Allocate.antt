-- ===== src/Structure/ResourceManager/Allocate.antt =====
-- `AllocateResources` and `DeallocateResources` (structure/resource_manager.go): what they do to
-- the chosen core and to the others, and when the one undoes the other.
use kws_control.Common.{map, ◌∙◌, ℕ, ◌+◌, ◌≤◌, ◌<◌, ◌≡◌, none, some, arith, [], ◌∷◌}
use kws_control.Common.Lists.{
  get_elem?, modify, modify_at, map-modify, All-modify, All-get_elem?, modify-modify,
  get_elem?-modify_self, All,
}
use kws_control.Common.Text.{GoString}
use kws_control.Common.Table.{Table, lookup, insert, entries, erase-insert}
use kws_control.Common.Word.{u32_mod, add32-sub32}
use kws_control.Structure.{Core, VmInfo}
use kws_control.Structure.ResourceManager.{
  ResourceManager, HardwareRequirement, allocate_resources, deallocate_resources, take_resources,
  give_resources, select_core,
}
use kws_control.Structure.ResourceManager.Select.{HasRoom, selected_room}

-- The three free amounts of a core are `uint32` values.
pub record IsWord (core : Core) : Type 0 where
  pub memory : core.free_memory < u32_mod
  pub cpu : core.free_cpu < u32_mod
  pub disk : core.free_disk < u32_mod

-- A requirement of `uint32` values.
pub record IsWordReq (req : HardwareRequirement) : Type 0 where
  pub memory : req.memory < u32_mod
  pub cpu : req.cpu < u32_mod
  pub disk : req.disk < u32_mod

-- A core that agrees with another but for a `VMInfoIdx` that was nil and is now made.
abbrev pub made_map : Core → Core
made_map core = record core { vm_info_idx = some (entries core.vm_info_idx) }

give-take :
    (uuid : GoString) (vm : VmInfo) (req : HardwareRequirement) (core : Core)
    → IsWord core
    → IsWordReq req
    → lookup uuid (entries core.vm_info_idx) ≡ none
    → give_resources uuid req (take_resources uuid vm req core) ≡ made_map core
give-take uuid vm req core w v fresh = ground (
  arith,
  erase-insert uuid vm (entries core.vm_info_idx) fresh,
  add32-sub32 core.free_memory req.memory w.memory v.memory,
  add32-sub32 core.free_cpu req.cpu w.cpu v.cpu,
  add32-sub32 core.free_disk req.disk w.disk v.disk,
)

-- `DeallocateResources` undoes `AllocateResources` for the same core, VM and requirement, for any
-- `uint32` amounts, if the core has no VM of that UUID before: all cores, the running VMs and the places of
-- the VMs are as before, but for a nil `VMInfoIdx` of that core, which is now an empty map.
pub deallocate-allocate :
    (k : ℕ) (uuid : GoString) (vm : VmInfo) (req : HardwareRequirement) (rm : ResourceManager)
    (core : Core)
    → get_elem? rm.cores k ≡ some core
    → IsWord core
    → IsWordReq req
    → lookup uuid (entries core.vm_info_idx) ≡ none
    → deallocate_resources k uuid req (allocate_resources k uuid vm req rm)
      ≡ record rm { cores = modify rm.cores k made_map }
unfolding allocate_resources deallocate_resources
deallocate-allocate k uuid vm req rm core at w v fresh =
    let same =
      modify-modify rm.cores k (take_resources uuid vm req) (give_resources uuid req)
      ∙ modify_at rm.cores k (λ c. give_resources uuid req (take_resources uuid vm req c)) made_map
          core at (give-take uuid vm req core w v fresh) in
    ground (arith, same)

-- What the VMs of a core use, by one of their sizes.
abbrev pub used : (VmInfo → ℕ) → Table VmInfo → ℕ
used size [] = 0
used size ((_, vm) ∷ m) = size vm + used size m

used-insert :
    (size : VmInfo → ℕ) (uuid : GoString) (vm : VmInfo) (m : Table VmInfo)
    → lookup uuid m ≡ none
    → used size (insert uuid vm m) ≡ used size m + size vm
unfolding lookup insert
used-insert size uuid vm [] fresh = omega arith
used-insert size uuid vm ((j, w) ∷ m) fresh = ground (arith, used-insert size uuid vm m)

-- The memory, processors and disk of a core that are free or used by its VMs.
abbrev pub budget : Core → ℕ × ℕ × ℕ
budget core =
    let vms = entries core.vm_info_idx in
    (
      core.free_memory + used (λ vm. vm.memory) vms,
      core.free_cpu + used (λ vm. vm.cpu) vms,
      core.free_disk + used (λ vm. vm.disk) vms,
    )

-- The sizes of a VM are those that were asked for.
pub record IsSized (vm : VmInfo) (req : HardwareRequirement) : Type 0 where
  pub memory : vm.memory ≡ req.memory
  pub cpu : vm.cpu ≡ req.cpu
  pub disk : vm.disk ≡ req.disk

take_resources-budget :
    (uuid : GoString) (vm : VmInfo) (req : HardwareRequirement) (core : Core)
    → HasRoom req core
    → IsWord core
    → IsSized vm req
    → lookup uuid (entries core.vm_info_idx) ≡ none
    → budget (take_resources uuid vm req core) ≡ budget core
take_resources-budget uuid vm req core room w s fresh = ground (
  arith,
  used-insert (λ v. v.memory) uuid vm (entries core.vm_info_idx) fresh,
  used-insert (λ v. v.cpu) uuid vm (entries core.vm_info_idx) fresh,
  used-insert (λ v. v.disk) uuid vm (entries core.vm_info_idx) fresh,
)

take_resources-IsWord :
    (uuid : GoString) (vm : VmInfo) (req : HardwareRequirement) (core : Core)
    → IsWord (take_resources uuid vm req core)
take_resources-IsWord uuid vm req core = record {
  memory = omega arith;
  cpu = omega arith;
  disk = omega arith;
}

-- A VM placed on the core that `SelectCore` has just returned, with the sizes that were asked for
-- and a UUID new to that core, keeps the sum of free and used memory, processors and disk of every
-- core: nothing wraps around and nothing is lost. The free amounts stay `uint32` values, as they
-- were before.
pub allocate-select_core :
    (uuid : GoString) (vm : VmInfo) (req : HardwareRequirement) (rm : ResourceManager) (k : ℕ)
    (core : Core)
    → (select_core req rm).core ≡ some k
    → get_elem? rm.cores k ≡ some core
    → lookup uuid (entries core.vm_info_idx) ≡ none
    → All IsWord rm.cores
    → IsSized vm req
    → let rm' = allocate_resources k uuid vm req rm in
      (map budget rm'.cores ≡ map budget rm.cores) × All IsWord rm'.cores
unfolding allocate_resources
allocate-select_core uuid vm req rm k core chosen at fresh words s =
    let room = selected_room req rm k core chosen at in
    let w = All-get_elem? IsWord rm.cores k core at words in
    (
      map-modify budget rm.cores k (take_resources uuid vm req) core at
          (take_resources-budget uuid vm req core room w s fresh),
      All-modify IsWord rm.cores k (take_resources uuid vm req) core at
          (take_resources-IsWord uuid vm req core) words,
    )

-- Two requests that have both searched before either has allocated get the same core. If that core
-- has less than twice the memory that each asks for (and that is at most 2^32), the second allocation takes the free memory
-- below zero and it wraps around: the core then claims at least the free memory that it had.
pub allocate_twice_wraps :
    (u v : GoString) (a b : VmInfo) (req : HardwareRequirement) (rm : ResourceManager) (k : ℕ)
    (core : Core)
    → (select_core req rm).core ≡ some k
    → get_elem? rm.cores k ≡ some core
    → IsWord core
    → core.free_memory < req.memory + req.memory
    → req.memory + req.memory ≤ u32_mod
    → (after : Core) × (get_elem?
          (allocate_resources k v b req (allocate_resources k u a req rm)).cores
          k
        ≡ some after)
      × (core.free_memory ≤ after.free_memory)
      × (after.free_memory + req.memory + req.memory ≡ core.free_memory + u32_mod)
unfolding allocate_resources
allocate_twice_wraps u v a b req rm k core chosen at w short bounded =
    let room = selected_room req rm k core chosen at in
    let first = get_elem?-modify_self rm.cores k (take_resources u a req) core at in
    (
      take_resources v b req (take_resources u a req core),
      get_elem?-modify_self _ k (take_resources v b req) _ first,
      omega arith,
      omega arith,
    )
