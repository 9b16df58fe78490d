-- ===== src/Structure/Control.antt =====
-- structure/control_infra.go: the state that the handlers share, and the search for a VM's core.
pub mod Find
pub mod Sound
use kws_control.Common.{
  ℕ, Bool, true, false, Option, none, some, List, [], ◌∷◌, ◌<◌, ltb, if◌then◌else◌,
}
use kws_control.Common.Lists.{length}
use kws_control.Common.Int.{ℤ, pos, negsuc}
use kws_control.Common.Text.{GoString}
use kws_control.Common.Table.{Table, lookup, insert}
use kws_control.Sql.{Db}
use kws_control.Pkg.Guacamole.{GuacTables}
use kws_control.Structure.ResourceManager.{ResourceManager}
use kws_control.Structure.Repository.{VmRepository}

-- A request to another service, as it was sent.
pub data Call : Type 0 where
  cms_new : GoString → Call
  cms_delete : GoString → Call
  core_create core_delete core_start core_shutdown : ℕ → GoString → Call
  core_vm_cpu core_vm_memory core_vm_disk : ℕ → GoString → Call

-- `type ControlContext struct`, with the stores behind its handles: the repository, the row of the
-- table `subnet`, the Guacamole tables and Redis, whose values are texts. `calls` are the requests
-- sent so far, the newest first.
pub record ControlContext (R : Type 0) : Type 0 where
  pub vm_repo : R
  pub resources : ResourceManager
  pub subnet_db : Db GoString
  pub guac_db : Db GuacTables
  pub last_subnet : GoString
  pub redis : Db (Table GoString)
  pub calls : List Call

-- `coreIdx < 0 || coreIdx >= len(cores)`, or the index
abbrev pub index_in : ℕ → ℤ → Option ℕ
index_in n (negsuc k) = none
index_in n (pos k) = if ltb k n then some k else none

module _ {R : Type 0} (repo : VmRepository R) where
  -- The part of `FindCoreByVmUUID` behind the query: a core found in range is put in the cache.
  unfoldable pub found_location :
      GoString → ControlContext R → Option ℤ → Option ℕ × ControlContext R
  found_location uuid c none = (none, c)
  found_location uuid c (some z) = elim (index_in (length c.resources.cores) z) [
    | none ↦ (none, c)
    | some k ↦
        let located = record (c.resources) {
          vm_location = insert uuid k c.resources.vm_location;
        } in
        (some k, record c { resources = located })
  ]

  -- `FindCoreByVmUUID`; `none` is nil.
  unfoldable pub find_core_by_vm_uuid : GoString → ControlContext R → Option ℕ × ControlContext R
  unfolding found_location
  find_core_by_vm_uuid uuid c = elim (lookup uuid c.resources.vm_location) [
    | some k ↦ (some k, c)
    | none ↦
        let (found, r) = repo.get_instance_location uuid c.vm_repo in
        found_location uuid (record c { vm_repo = r }) found
  ]
