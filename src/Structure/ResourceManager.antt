-- ===== src/Structure/ResourceManager.antt =====
-- structure/resource_manager.go: the cores, the running VMs and the place of each VM. Each method
-- holds the lock from its first statement to its return, so a method is one step on the state.
pub mod Select
pub mod Allocate
pub mod Alive
use kws_control.Common.{
  ℕ, zero, suc, ◌+◌, Bool, true, false, ◌&&◌, not, Option, none, some, List, [], ◌∷◌, ◌++◌, map,
  leb, if◌then◌else◌,
}
use kws_control.Common.Lists.{length, modify}
use kws_control.Common.Int.{ℤ, pos, minus_one}
use kws_control.Common.Text.{GoString, str_eq}
use kws_control.Common.Table.{Table, insert, erase, entries}
use kws_control.Common.Word.{add32, sub32}
use kws_control.Structure.{Core, VmInfo}

-- `type ResourceManager struct`, its mutex left out
pub record ResourceManager : Type 0 where
  pub cores : List Core
  pub alive_vm : List VmInfo
  pub vm_location : Table ℕ

-- `NewResourceManager`
abbrev pub new_resource_manager : ResourceManager
new_resource_manager = record { cores = []; alive_vm = []; vm_location = [] }

-- `type HardwareRequirement struct`
pub record HardwareRequirement : Type 0 where
  pub memory : ℕ
  pub cpu : ℕ
  pub disk : ℕ

-- `type CoreSelectionResult struct`
pub record CoreSelectionResult : Type 0 where
  pub core : Option ℕ
  pub index : ℤ
  pub alive_count : ℕ
  pub total_cores : ℕ

-- The test of the loop in `SelectCore`.
abbrev pub fits : HardwareRequirement → Core → Bool
fits req core =
    leb req.memory core.free_memory && leb req.cpu core.free_cpu && leb req.disk core.free_disk

-- `for i := range rm.Cores`, from the core `i` on.
unfoldable pub select_loop :
    HardwareRequirement → CoreSelectionResult → ℕ → List Core → CoreSelectionResult
select_loop req result i [] = result
select_loop req result i (core ∷ rest) =
    let skipped = select_loop req result (suc i) rest in
    let counted : CoreSelectionResult = record result { alive_count = result.alive_count + 1 } in
    let next = select_loop req counted (suc i) rest in
    if not core.is_alive
    then skipped
    else if fits req core
    then record counted { core = some i; index = pos i }
    else next

-- The result before the loop, with no core found.
abbrev pub no_core : List Core → CoreSelectionResult
no_core cores = record {
  core = none;
  index = minus_one;
  alive_count = 0;
  total_cores = length cores;
}

-- `SelectCore`
unfoldable pub select_core : HardwareRequirement → ResourceManager → CoreSelectionResult
unfolding select_loop
select_core req rm = select_loop req (no_core rm.cores) 0 rm.cores

-- The writes of `AllocateResources` to its core. The map is made if it is nil.
abbrev pub take_resources : GoString → VmInfo → HardwareRequirement → Core → Core
take_resources uuid vm req core = record core {
  vm_info_idx = some (insert uuid vm (entries core.vm_info_idx));
  free_memory = sub32 core.free_memory req.memory;
  free_cpu = sub32 core.free_cpu req.cpu;
  free_disk = sub32 core.free_disk req.disk;
}

-- `AllocateResources`
unfoldable pub allocate_resources :
    ℕ → GoString → VmInfo → HardwareRequirement → ResourceManager → ResourceManager
allocate_resources core uuid vm req rm = record rm {
  cores = modify rm.cores core (take_resources uuid vm req);
}

-- `delete(m, k)` on a map that may be nil
abbrev erase_key : GoString → Option (Table VmInfo) → Option (Table VmInfo)
erase_key uuid none = none
erase_key uuid (some m) = some (erase uuid m)

-- The writes of `DeallocateResources` to its core.
abbrev pub give_resources : GoString → HardwareRequirement → Core → Core
give_resources uuid req core = record core {
  vm_info_idx = erase_key uuid core.vm_info_idx;
  free_memory = add32 core.free_memory req.memory;
  free_cpu = add32 core.free_cpu req.cpu;
  free_disk = add32 core.free_disk req.disk;
}

-- `DeallocateResources`
unfoldable pub deallocate_resources :
    ℕ → GoString → HardwareRequirement → ResourceManager → ResourceManager
deallocate_resources core uuid req rm = record rm {
  cores = modify rm.cores core (give_resources uuid req);
}

-- `RegisterVM`
unfoldable pub register_vm : GoString → ℕ → VmInfo → ResourceManager → ResourceManager
register_vm uuid core vm rm = record rm {
  vm_location = insert uuid core rm.vm_location;
  alive_vm = rm.alive_vm ++ vm ∷ [];
}

-- The loop of `UnregisterAlive`: the list with the first hit taken out, and whether there is one.
unfoldable pub unregister_loop : GoString → List VmInfo → List VmInfo × Bool
unregister_loop uuid [] = ([], false)
unregister_loop uuid (vm ∷ rest) =
    let (kept, found) = unregister_loop uuid rest in
    if str_eq vm.uuid uuid then (rest, true) else (vm ∷ kept, found)

-- `UnregisterAlive`
unfoldable pub unregister_alive : GoString → ResourceManager → ResourceManager × Bool
unfolding unregister_loop
unregister_alive uuid rm =
    let (kept, found) = unregister_loop uuid rm.alive_vm in (record rm { alive_vm = kept }, found)
