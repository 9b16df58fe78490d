-- ===== src/Startup.antt =====
-- startup/init.go: the list of cores and the VMs that are loaded into it.
pub mod Places
pub mod Load
pub mod Cores
pub mod Address
pub mod Config
pub mod Sizes
pub mod Initialize
use kws_control.Common.{
  ℕ, zero, suc, Bool, true, false, ◌&&◌, Option, none, some, List, [], ◌∷◌, ◌++◌, ◌==◌,
  if◌then◌else◌,
}
use kws_control.Common.Lists.{length, modify, get_elem?}
use kws_control.Common.Int.{ℤ}
use kws_control.Common.Text.{GoString, str_eq}
use kws_control.Common.Table.{Table, lookup, insert, entries}
use kws_control.Structure.{Core, VmInfo}
use kws_control.Structure.ResourceManager.{ResourceManager}
use kws_control.Structure.Control.{index_in}

-- `findCore`
unfoldable pub find_core : List Core → GoString → ℕ → Option ℕ
find_core [] ip port = none
find_core (core ∷ cores) ip port =
    let rest = find_core cores ip port in
    if str_eq core.ip ip && core.port == port
    then some 0
    else elim rest [ none ↦ none | some i ↦ some (suc i) ]

-- `newCore` of `InitializeCoreData`, before its sizes are known
abbrev pub new_core : GoString → ℕ → Core
new_core ip port = record {
  ip = ip;
  port = port;
  core_info_idx = record { memory = 0; cpu = 0; disk = 0 };
  is_alive = true;
  vm_info_idx = none;
  free_memory = 0;
  free_cpu = 0;
  free_disk = 0;
}

-- `core.IsAlive = true`
abbrev pub revive : Core → Core
revive core = record core { is_alive = true }

-- `core.VMInfoIdx[vmInfo.UUID] = &vmInfo`, in a map that is made if it is nil
abbrev pub put_vm : VmInfo → Core → Core
put_vm vm core = record core { vm_info_idx = some (insert vm.uuid vm (entries core.vm_info_idx)) }

-- A row of a core in range: a UUID that the core has already is skipped.
unfoldable pub load_on : VmInfo → ℕ → Option Core → ResourceManager → Option ResourceManager
load_on vm k none rm = none
load_on vm k (some core) rm = elim (lookup vm.uuid (entries core.vm_info_idx)) [
  | none ↦ some (record rm {
    cores = modify rm.cores k (put_vm vm);
    vm_location = insert vm.uuid k rm.vm_location;
  })
  | some _ ↦ some rm
]

-- One round of the loop; `none` is the error for an index out of range.
unfoldable pub load_one : VmInfo × ℤ → ResourceManager → Option ResourceManager
load_one (vm, z) rm = elim (index_in (length rm.cores) z) [
  | none ↦ none
  | some k ↦ load_on vm k (get_elem? rm.cores k) rm
]

-- `for i, vmInfo := range vmInfoList`
unfoldable pub load_instances : List (VmInfo × ℤ) → ResourceManager → Option ResourceManager
load_instances [] rm = some rm
load_instances (row ∷ rows) rm = elim (load_one row rm) [
  | none ↦ none
  | some rm' ↦ load_instances rows rm'
]
