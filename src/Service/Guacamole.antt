-- ===== src/Service/Guacamole.antt =====
-- service/guacamole.go: the token with which a user gets to the console of a VM.
pub mod Token
use kws_control.Common.{ℕ, Option, none, some}
use kws_control.Common.Lists.{get_elem?}
use kws_control.Common.Text.{GoString}
use kws_control.Common.Table.{lookup, entries}
use kws_control.Structure.{Core, VmInfo}
use kws_control.Structure.Repository.{VmRepository}
use kws_control.Structure.Control.{ControlContext, find_core_by_vm_uuid}
use kws_control.Service.Action.{
  core_not_found, vm_not_found, authentication, ok, err, panic, Services, Action, ◌>>=◌, or_raise,
  gets,
}

module _ {R : Type 0} where
  -- `core.VMInfoIdx[uuid]`, or the error; a place is a core of the list, else the pointer would be bad.
  unfoldable pub vm_on : GoString → Option Core → Action R VmInfo
  vm_on uuid none c = (panic, c)
  vm_on uuid (some core) c = elim (lookup uuid (entries core.vm_info_idx)) [
    | none ↦ (err vm_not_found, c)
    | some vm ↦ (ok vm, c)
  ]

  -- `GetGuacamoleToken`
  unfoldable pub get_guacamole_token : VmRepository R → Services → GoString → Action R GoString
  get_guacamole_token repo services uuid = do
    found ← (λ c. let (found, c') = find_core_by_vm_uuid repo uuid c in (ok found, c'))
    k ← or_raise found core_not_found
    core ← gets (λ c. get_elem? c.resources.cores k)
    vm ← vm_on uuid core
    or_raise (services.guac_authenticate uuid vm.guac_password) authentication
