-- ===== src/Service/Network.antt =====
-- service/network.go: how a VM gets its address from the CMS, and gives it back.
pub mod Places
pub mod Subnets
use kws_control.Common.{ℕ, Bool, true, false, Option, none, some, List, [], ◌∷◌, if◌then◌else◌}
use kws_control.Common.Lists.{get_elem?}
use kws_control.Common.Text.{GoString, codes, str_eq}
use kws_control.Common.Table.{Table, lookup, entries}
use kws_control.Sql.{Db, Sql, exec}
use kws_control.Pkg.Network.{find_subnet, get_subnet_from_ip}
use kws_control.Structure.{Core, VmInfo}
use kws_control.Structure.Control.{ControlContext, Call, cms_new, cms_delete}
use kws_control.Service.Action.{
  Error, not_in_location, not_in_core, invalid_ip, cms_request, subnet_update, subnet_rollback,
  Outcome, ok, err, panic, Services, CmsNewInstanceResponse, Action, pure, raise, ◌>>=◌, ◌>>◌,
  or_raise, raise_unless, gets, modify_state, send, on_subnet,
}

-- `UPDATE subnet SET last_subnet = ? WHERE id = 1`
unfoldable pub set_last_subnet : GoString → Sql GoString (Unit {0})
set_last_subnet subnet = exec (λ _. some (tt, subnet))

module _ {R : Type 0} where
  -- The VM in the map of its core. A place is a core of the list; else the pointer would be bad.
  unfoldable pub vm_ip_on : GoString → Option Core → Action R GoString
  vm_ip_on uuid none c = (panic, c)
  vm_ip_on uuid (some core) c = elim (lookup uuid (entries core.vm_info_idx)) [
    | none ↦ (err not_in_core, c)
    | some vm ↦ (ok vm.ip_vm, c)
  ]

  -- `GetVMIPByUUID`
  unfoldable pub get_vm_ip_by_uuid : GoString → Action R GoString
  unfolding vm_ip_on
  get_vm_ip_by_uuid uuid = do
    place ← gets (λ c. lookup uuid c.resources.vm_location)
    k ← or_raise place not_in_location
    core ← gets (λ c. get_elem? c.resources.cores k)
    vm_ip_on uuid core

  -- The end of `NewCmsSubnet` if the CMS has refused: the row is set back.
  unfoldable pub set_back : GoString → Option (Unit {0}) → Action R CmsNewInstanceResponse
  set_back last none c = (err subnet_rollback, c)
  set_back last (some _) c = (err cms_request, record c { last_subnet = last })

  module _ (services : Services) where
    -- `RequestNewInstance` of client/cms.go, as its callers see it
    unfoldable pub request_new_instance : GoString → Action R CmsNewInstanceResponse
    request_new_instance subnet =
        send (cms_new subnet) >> or_raise (services.cms_new_instance subnet) cms_request

    -- `AddCmsSubnet`
    unfoldable pub add_cms_subnet : GoString → Action R CmsNewInstanceResponse
    unfolding request_new_instance
    add_cms_subnet uuid = do
      ip ← get_vm_ip_by_uuid uuid
      subnet ← or_raise (get_subnet_from_ip ip) invalid_ip
      request_new_instance subnet

    -- The request, after the row and the field were set to the next subnet.
    unfoldable pub answered :
        GoString → Option CmsNewInstanceResponse → Action R CmsNewInstanceResponse
    unfolding set_back
    answered last (some resp) = pure resp
    answered last none = do done ← on_subnet (set_last_subnet last); set_back last done

    unfoldable pub reserve : GoString → Option GoString → Action R CmsNewInstanceResponse
    unfolding answered
    reserve last none = λ c. (panic, c)
    reserve last (some next) = do
      done ← on_subnet (set_last_subnet next)
      or_raise done subnet_update
      modify_state (λ c. record c { last_subnet = next })
      send (cms_new next)
      answered last (services.cms_new_instance next)

    -- `NewCmsSubnet`
    unfoldable pub new_cms_subnet : Action R CmsNewInstanceResponse
    unfolding reserve
    new_cms_subnet = do last ← gets (λ c. c.last_subnet); reserve last (find_subnet last)

    -- `DeleteCmsSubnet`
    unfoldable pub delete_cms_subnet : GoString → Action R (Unit {0})
    delete_cms_subnet uuid = do
      ip ← get_vm_ip_by_uuid uuid
      send (cms_delete ip)
      raise_unless (services.cms_delete_instance ip) cms_request

    -- `allocateCmsSubnet` of service/vm.go: the response, and whether the subnet is new
    unfoldable pub allocate_cms_subnet :
        GoString → GoString → Action R (CmsNewInstanceResponse × Bool)
    allocate_cms_subnet subnet_type uuid =
        if str_eq subnet_type (codes "Add")
        then add_cms_subnet uuid >>= (λ resp. pure (resp, false))
        else new_cms_subnet >>= (λ resp. pure (resp, true))
