-- ===== src/Service/Vm.antt =====
-- service/vm.go: the life of a VM, from core to database.
pub mod Stages
pub mod Create
pub mod Created
pub mod Add
pub mod Delete
pub mod Places
pub mod Budget
use kws_control.Common.{ℕ, Bool, true, false, Option, none, some, List, [], ◌∷◌, map}
use kws_control.Common.Text.{GoString}
use kws_control.Sql.{Db}
use kws_control.Pkg.Guacamole.{Configured, user_pass, not_configured, panics, configure, cleanup}
use kws_control.Structure.{VmInfo}
use kws_control.Structure.ResourceManager.{
  ResourceManager, HardwareRequirement, select_core, allocate_resources, deallocate_resources,
  register_vm, unregister_alive,
}
use kws_control.Structure.Repository.{VmRepository}
use kws_control.Structure.Control.{
  ControlContext, find_core_by_vm_uuid, core_create, core_delete, core_start, core_shutdown,
}
use kws_control.Service.Cleanup.{CleanupChain, no_steps, push, run}
use kws_control.Service.Redis.{
  store_vm_info_to_redis, update_vm_status_in_redis, remove_vm_info_from_redis, vm_status_unknown,
  vm_status_stopped,
}
use kws_control.Service.Redis
use kws_control.Service.Network.{allocate_cms_subnet, delete_cms_subnet, set_last_subnet}
use kws_control.Service.Action.{
  Error, no_suitable_core, ssh_key, no_user, guacamole, core_request, persist, vm_not_found,
  Outcome, ok, err, panic, Services, CmsNewInstanceResponse, UserSpec, HardwareSpec, CreateVmInput,
  CreateVmRequest, Action, pure, raise, ◌>>=◌, ◌>>◌, or_raise, raise_unless, gets, modify_state,
  send, update_resources, on_repo, on_subnet, on_guac, on_redis,
}

-- The first user gets the new key in place of those that were sent.
unfoldable pub with_key : GoString → List UserSpec → List UserSpec
with_key key [] = []
with_key key (u ∷ users) = record u { ssh_authorized_keys = key ∷ [] } ∷ users

-- `buildCoreCreateVMRequest`
unfoldable pub build_core_create_vm_request :
    CreateVmInput → CmsNewInstanceResponse → GoString → CreateVmRequest
unfolding with_key
build_core_create_vm_request input resp public_key = record {
  dom_type = input.dom_type;
  dom_name = input.dom_name;
  uuid = input.uuid;
  os = input.os;
  hardware_info = input.hardware_info;
  net_ips = resp.ip ∷ [];
  net_type = 0;
  users = with_key public_key input.users;
  sdn_uuid = resp.sdn_uuid;
  mac_addr = resp.mac_addr;
  subnet_type = input.subnet_type;
}

-- `hwReq` of `CreateVM`
abbrev pub requirement : CreateVmInput → HardwareRequirement
requirement input = record {
  memory = input.hardware_info.memory;
  cpu = input.hardware_info.cpu;
  disk = input.hardware_info.disk;
}

-- `newVM` of `CreateVM`
abbrev pub new_vm : CreateVmInput → CmsNewInstanceResponse → GoString → VmInfo
new_vm input resp pass = record {
  ip_vm = resp.ip;
  uuid = input.uuid;
  guac_password = pass;
  mac_addr = resp.mac_addr;
  memory = input.hardware_info.memory;
  cpu = input.hardware_info.cpu;
  disk = input.hardware_info.disk;
}

-- What `CreateVM` stores in Redis.
abbrev pub first_state : CreateVmInput → CmsNewInstanceResponse → Redis.VmInfo
first_state input resp = record {
  uuid = input.uuid;
  cpu = input.hardware_info.cpu;
  memory = input.hardware_info.memory;
  disk = input.hardware_info.disk;
  ip = resp.ip;
  status = vm_status_unknown;
}

module _ {R : Type 0} where
  -- `cleanup.run()` and the error
  unfoldable pub fail_with : {A : Type 0} → CleanupChain (ControlContext R) → Error → Action R A
  fail_with chain e c = (err e, (run chain c).1)

  -- `selectCoreOrFail`; the index that it returns beside the core is the core's own.
  unfoldable pub select_core_or_fail : HardwareRequirement → Action R ℕ
  select_core_or_fail req = do
    result ← gets (λ c. select_core req c.resources)
    or_raise result.core no_suitable_core

  -- The first function of the chain
  unfoldable pub guac_cleanup : GoString → ControlContext R → ControlContext R
  guac_cleanup uuid c = record c { guac_db = (cleanup uuid c.guac_db).1 }

  -- The second one
  unfoldable pub give_back :
      ℕ → GoString → HardwareRequirement → ControlContext R → ControlContext R
  give_back core uuid req c = record c {
    resources = deallocate_resources core uuid req c.resources;
  }

  unfoldable pub chain_after_allocation : CreateVmInput → ℕ → CleanupChain (ControlContext R)
  unfolding guac_cleanup give_back
  chain_after_allocation input core =
      push (give_back core input.uuid (requirement input)) (push (guac_cleanup input.uuid) no_steps)

  module _ (repo : VmRepository R) (services : Services) where
    -- The answer to a step, or the cleanup and the error.
    unfoldable pub or_clean_up :
        {A : Type 0} → CleanupChain (ControlContext R) → Error → Option A → Action R A
    or_clean_up chain e none = fail_with chain e
    or_clean_up chain e (some a) = pure a

    unfoldable pub asked : Bool → Option (Unit {0})
    asked true = some tt
    asked false = none

    -- Step 8-1
    unfoldable pub correct_subnet : Bool → GoString → Action R (Unit {0})
    correct_subnet false ip = pure tt
    correct_subnet true ip = on_subnet (set_last_subnet ip) >> pure tt

    -- Steps 6 to 8-1 and the registration
    unfoldable pub launch :
        CreateVmInput
        → ℕ
        → CmsNewInstanceResponse
        → Bool
        → GoString
        → GoString
        → Action R (Unit {0})
    unfolding or_clean_up asked correct_subnet
    launch input core resp is_new public_key pass = do
      on_redis (store_vm_info_to_redis services.json (first_state input resp) services.now)
      send (core_create core input.uuid)
      or_clean_up (chain_after_allocation input core) core_request (
          asked (services.core_create_vm core (build_core_create_vm_request input resp public_key)))
      added ← on_repo (repo.add_instance (new_vm input resp pass) core)
      or_clean_up (chain_after_allocation input core) persist added
      correct_subnet is_new resp.ip
      update_resources (register_vm input.uuid core (new_vm input resp pass))

    -- Step 5, and what follows
    unfoldable pub provision :
        CreateVmInput
        → ℕ
        → CmsNewInstanceResponse
        → Bool
        → GoString
        → Configured
        → Action R (Unit {0})
    provision input core resp is_new public_key (user_pass pass) = do
      update_resources
          (allocate_resources core input.uuid (new_vm input resp pass) (requirement input))
      launch input core resp is_new public_key pass
    provision input core resp is_new public_key not_configured = fail_with no_steps guacamole
    provision input core resp is_new public_key panics = λ c. (panic, c)

    -- Step 4 for the first user, and what follows
    unfoldable pub configure_and_provision :
        CreateVmInput
        → ℕ
        → GoString
        → GoString
        → UserSpec
        → CmsNewInstanceResponse × Bool
        → Action R (Unit {0})
    configure_and_provision input core private_key public_key first (resp, is_new) = do
      configured ←
          on_guac (
            configure services.sha256 services.randomness first.name input.uuid resp.ip private_key)
      provision input core resp is_new public_key configured

    -- Step 3, and what follows
    unfoldable pub connect :
        CreateVmInput → ℕ → GoString → GoString → List UserSpec → Action R (Unit {0})
    connect input core private_key public_key [] = fail_with no_steps no_user
    connect input core private_key public_key (first ∷ _) = do
      subnet ← allocate_cms_subnet services input.subnet_type input.uuid
      configure_and_provision input core private_key public_key first subnet

    -- `CreateVM`
    unfoldable pub create_vm : CreateVmInput → Action R (Unit {0})
    create_vm input = do
      core ← select_core_or_fail (requirement input)
      (private_key, public_key) ← or_raise services.generate_ssh_key ssh_key
      connect input core private_key public_key input.users

    -- `FindCoreByVmUUID` and the error that every operation makes of nil
    unfoldable pub core_of : GoString → Action R ℕ
    core_of uuid = do
      core ← (λ c. let (found, c') = find_core_by_vm_uuid repo uuid c in (ok found, c'))
      or_raise core vm_not_found

    -- A call whose error is only logged.
    unfoldable pub ignore_error : Action R (Unit {0}) → Action R (Unit {0})
    ignore_error m c = elim ((m c).0) [
      | ok _ ↦ (ok tt, (m c).1)
      | err _ ↦ (ok tt, (m c).1)
      | panic ↦ (panic, (m c).1)
    ]

    -- `DeleteVM` behind the request to the core: the rows, the Guacamole tables and Redis
    unfoldable pub forget_vm : GoString → Action R (Unit {0})
    forget_vm uuid = do
      deleted ← on_repo (repo.delete_instance uuid)
      or_raise deleted persist
      on_guac (cleanup uuid)
      on_redis (remove_vm_info_from_redis uuid)
      pure tt

    -- `DeleteVM` on the core that it has found
    unfoldable pub delete_on : GoString → ℕ → Action R (Unit {0})
    delete_on uuid core = do
      send (core_delete core uuid)
      raise_unless (services.core_delete_vm core uuid) core_request
      ignore_error (delete_cms_subnet services uuid)
      forget_vm uuid

    -- `DeleteVM`
    unfoldable pub delete_vm : GoString → Action R (Unit {0})
    delete_vm uuid = core_of uuid >>= delete_on uuid

    -- `StartVM`
    unfoldable pub start_vm : GoString → Action R (Unit {0})
    start_vm uuid = do
      core ← core_of uuid
      send (core_start core uuid)
      raise_unless (services.core_start_vm core uuid) core_request

    -- `ShutdownVM`
    unfoldable pub shutdown_vm : GoString → Action R (Unit {0})
    shutdown_vm uuid = do
      core ← core_of uuid
      send (core_shutdown core uuid)
      raise_unless (services.core_force_shutdown_vm core uuid) core_request
      update_resources (λ rm. (unregister_alive uuid rm).0)
      on_redis (update_vm_status_in_redis services.json uuid vm_status_stopped services.now)
      pure tt
