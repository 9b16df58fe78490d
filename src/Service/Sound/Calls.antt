-- ===== src/Service/Sound/Calls.antt =====
-- The other calls of the handlers on sound resources: the console (service/guacamole.go), the figures
-- of a VM (service/vm.go), its record in Redis (service/redis.go) and its snapshots
-- (service/external_snap.go).
use kws_control.Common.{ℕ, ◌≡◌, some, Option, arith, List}
use kws_control.Common.Lists.{get_elem?}
use kws_control.Common.Text.{GoString}
use kws_control.Structure.Repository.{VmRepository}
use kws_control.Structure.Control.{ControlContext, core_vm_cpu, core_vm_memory, core_vm_disk}
use kws_control.Structure.Control.Sound.{Identity, Sound}
use kws_control.Client.Rustfs.{presign_put_object}
use kws_control.Service.Action.{
  core_request, core_not_found, authentication, rustfs_unavailable, rustfs_request, Services,
  Action, ◌>>=◌, ◌>>◌, pure, or_raise, send, gets,
}
use kws_control.Service.Guacamole.{vm_on, get_guacamole_token}
use kws_control.Service.Usage.{
  cpu_status, memory_status, disk_status, get_vm_cpu_info, get_vm_memory_info, get_vm_disk_info,
}
use kws_control.Service.Snapshot.{
  list_snapshots, delete_snapshot, take_snapshot, snapshot_presign_ttl,
}
use kws_control.Service.Preserve.{Any, bind_keeps}
use kws_control.Service.Sound.{find, find_keeps, Index}
use kws_control.Service.Sound.Vm.{SoundAfter, quiet, core_call-Sound}

module _ {R : Type 0} (identities : List Identity) (repo : VmRepository R) (services : Services)
    (uuid : GoString) where
  abbrev Sounds : {A : Type 0} → Action R A → Type 0
  Sounds m = SoundAfter identities repo services m

  pub get_vm_cpu_info-Sound : Sounds (get_vm_cpu_info repo services uuid)
  unfolding get_vm_cpu_info
  get_vm_cpu_info-Sound =
      core_call-Sound identities repo services uuid
        (λ k.
          send (core_vm_cpu k uuid)
          >> (or_raise (services.core_vm_cpu_info k uuid) core_request
              >>= (λ info. pure (cpu_status info))))
        (λ k c. ground arith)

  pub get_vm_memory_info-Sound : Sounds (get_vm_memory_info repo services uuid)
  unfolding get_vm_memory_info
  get_vm_memory_info-Sound =
      core_call-Sound identities repo services uuid
        (λ k.
          send (core_vm_memory k uuid)
          >> (or_raise (services.core_vm_memory_info k uuid) core_request
              >>= (λ info. pure (memory_status info))))
        (λ k c. ground arith)

  pub get_vm_disk_info-Sound : Sounds (get_vm_disk_info repo services uuid)
  unfolding get_vm_disk_info
  get_vm_disk_info-Sound =
      core_call-Sound identities repo services uuid
        (λ k.
          send (core_vm_disk k uuid)
          >> (or_raise (services.core_vm_disk_info k uuid) core_request
              >>= (λ info. pure (disk_status info))))
        (λ k c. ground arith)

  pub list_snapshots-Sound : Sounds (list_snapshots services uuid)
  unfolding list_snapshots
  list_snapshots-Sound =
      quiet identities repo services (list_snapshots services uuid) (λ c. ground arith)

  pub delete_snapshot-Sound : (key : GoString) → Sounds (delete_snapshot services uuid key)
  unfolding delete_snapshot
  delete_snapshot-Sound key =
      quiet identities repo services (delete_snapshot services uuid key) (λ c. ground arith)

  pub take_snapshot-Sound : (name : GoString) → Sounds (take_snapshot services repo uuid name)
  unfolding take_snapshot
  take_snapshot-Sound name =
      core_call-Sound identities repo services uuid
        (λ _. or_raise services.rustfs rustfs_unavailable >>= (λ rustfs.
          or_raise (presign_put_object rustfs uuid name snapshot_presign_ttl) rustfs_request
          >> pure tt))
        (λ k c. ground arith)

  -- `GetGuacamoleToken` behind its search
  abbrev console : Option ℕ → Action R GoString
  console o = or_raise o core_not_found >>= (λ k.
      gets (λ c. get_elem? c.resources.cores k) >>= (λ core.
        vm_on uuid core
        >>= (λ vm. or_raise (services.guac_authenticate uuid vm.guac_password) authentication)))

  console-quiet : (o : Option ℕ) (c : ControlContext R) → (console o c).1.resources ≡ c.resources
  unfolding vm_on
  console-quiet o c = ground arith

  pub get_guacamole_token-Sound : Sounds (get_guacamole_token repo services uuid)
  unfolding get_guacamole_token
  get_guacamole_token-Sound =
      bind_keeps R (Sound identities) (find identities repo uuid) console
        (λ o. (k : ℕ) → o ≡ some k → Index identities repo k) Any (find_keeps identities repo uuid)
        (λ o _. quiet identities repo services (console o) (console-quiet o))
