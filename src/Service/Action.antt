-- ===== src/Service/Action.antt =====
-- A call into the service layer: it changes the shared state and returns, fails or panics. What the
-- other services answer during the call is a parameter, as are the key pair, the random bytes, the
-- clock, JSON and SHA-256.
use kws_control.Common.{ℕ, Bool, true, false, Option, none, some, List, ◌∷◌}
use kws_control.Common.Text.{GoString}
use kws_control.Common.Table.{Table}
use kws_control.Client.Model.{
  CoreMachineCpuInfoResponse, CoreMachineMemoryInfoResponse, CoreMachineDiskInfoResponse,
}
use kws_control.Client.Rustfs.{RustfsClient}
use kws_control.Sql.{Db, Sql}
use kws_control.Pkg.Guacamole.{GuacTables, Randomness}
use kws_control.Structure.ResourceManager.{ResourceManager}
use kws_control.Structure.Control.{ControlContext, Call}
use kws_control.Service.Redis.{Json}

-- The errors that the service layer makes; the text that it wraps around an inner error is left out.
pub data Error : Type 0 where
  no_suitable_core ssh_key no_user not_in_location not_in_core invalid_ip cms_request : Error
  subnet_update subnet_rollback guacamole core_request persist vm_not_found core_not_found : Error
  authentication rustfs_unavailable rustfs_request : Error
  redis_update redis_get redis_missing : Error

pub data Outcome (A : Type 0) : Type 0 where
  ok : A → Outcome A
  err : Error → Outcome A
  panic : Outcome A

-- `type CmsNewInstanceResponse struct` of client/cms.go
pub record CmsNewInstanceResponse : Type 0 where
  pub ip : GoString
  pub mac_addr : GoString
  pub sdn_uuid : GoString

-- `type UserSpec struct` of service/dto.go, and `UserInfoVM` of client/model/vm.go, which has the
-- same fields
pub record UserSpec : Type 0 where
  pub name : GoString
  pub groups : GoString
  pub password : GoString
  pub ssh_authorized_keys : List GoString

-- `type HardwareSpec struct`, and `HardwareInfo` of client/model/vm.go
pub record HardwareSpec : Type 0 where
  pub cpu : ℕ
  pub memory : ℕ
  pub disk : ℕ

-- `type CreateVMInput struct`
pub record CreateVmInput : Type 0 where
  pub uuid : GoString
  pub dom_type : GoString
  pub dom_name : GoString
  pub os : GoString
  pub hardware_info : HardwareSpec
  pub network_ips : List GoString
  pub users : List UserSpec
  pub subnet_type : GoString

-- `type CreateVMRequest struct` of client/model/vm.go
pub record CreateVmRequest : Type 0 where
  pub dom_type : GoString
  pub dom_name : GoString
  pub uuid : GoString
  pub os : GoString
  pub hardware_info : HardwareSpec
  pub net_ips : List GoString
  pub net_type : ℕ
  pub users : List UserSpec
  pub sdn_uuid : GoString
  pub mac_addr : GoString
  pub subnet_type : GoString

-- The answers of the other services; a core is named by its index.
pub record Services : Type 0 where
  pub cms_new_instance : GoString → Option CmsNewInstanceResponse
  pub cms_delete_instance : GoString → Bool
  pub core_create_vm : ℕ → CreateVmRequest → Bool
  pub core_delete_vm : ℕ → GoString → Bool
  pub core_start_vm : ℕ → GoString → Bool
  pub core_force_shutdown_vm : ℕ → GoString → Bool
  pub core_vm_cpu_info : ℕ → GoString → Option CoreMachineCpuInfoResponse
  pub core_vm_memory_info : ℕ → GoString → Option CoreMachineMemoryInfoResponse
  pub core_vm_disk_info : ℕ → GoString → Option CoreMachineDiskInfoResponse
  pub rustfs : Option RustfsClient
  pub guac_authenticate : GoString → GoString → Option GoString
  pub generate_ssh_key : Option (GoString × GoString)
  pub randomness : Randomness
  pub sha256 : GoString → GoString
  pub json : Json
  pub now : ℕ

abbrev pub Action : Type 0 → Type 0 → Type 0
Action R A = ControlContext R → Outcome A × ControlContext R

module _ {R : Type 0} where
  abbrev pub pure : {A : Type 0} → A → Action R A
  pure a c = (ok a, c)

  abbrev pub raise : {A : Type 0} → Error → Action R A
  raise e c = (err e, c)

  infixl 5 ◌>>=◌ ◌>>◌
  abbrev pub ◌>>=◌ : {A B : Type 0} → Action R A → (A → Action R B) → Action R B
  ◌>>=◌ m f c =
      let (r, c') = m c in elim r [ ok a ↦ f a c' | err e ↦ (err e, c') | panic ↦ (panic, c') ]

  abbrev pub ◌>>◌ : {A B : Type 0} → Action R A → Action R B → Action R B
  m >> k = m >>= λ _. k

  abbrev pub or_raise : {A : Type 0} → Option A → Error → Action R A
  or_raise none e = raise e
  or_raise (some a) e = pure a

  abbrev pub raise_unless : Bool → Error → Action R (Unit {0})
  raise_unless true e = pure tt
  raise_unless false e = raise e

  abbrev pub gets : {A : Type 0} → (ControlContext R → A) → Action R A
  gets f c = (ok (f c), c)

  abbrev pub modify_state : (ControlContext R → ControlContext R) → Action R (Unit {0})
  modify_state f c = (ok tt, f c)

  -- A request is sent.
  abbrev pub send : Call → Action R (Unit {0})
  send call = modify_state (λ c. record c { calls = call ∷ c.calls })

  abbrev pub update_resources : (ResourceManager → ResourceManager) → Action R (Unit {0})
  update_resources f = modify_state (λ c. record c { resources = f c.resources })

  -- A call of one of the stores; `none` is its error.
  abbrev pub on_repo : {A : Type 0} → (R → Option A × R) → Action R (Option A)
  on_repo m c = (ok ((m c.vm_repo).0), record c { vm_repo = (m c.vm_repo).1 })

  abbrev pub on_subnet : {A : Type 0} → Sql GoString A → Action R (Option A)
  on_subnet m c = (ok ((m c.subnet_db).0), record c { subnet_db = (m c.subnet_db).1 })

  abbrev pub on_guac : {A : Type 0} → (Db GuacTables → A × Db GuacTables) → Action R A
  on_guac m c = (ok ((m c.guac_db).0), record c { guac_db = (m c.guac_db).1 })

  abbrev pub on_redis : {A : Type 0} → Sql (Table GoString) A → Action R (Option A)
  on_redis m c = (ok ((m c.redis).0), record c { redis = (m c.redis).1 })
