-- ===== src/Service/Sound/Vm.antt =====
-- The life of a VM (service/vm.go) on sound resources.
use kws_control.Common.{ℕ, ◌≡◌, refl, Bool, true, false, arith, List}
use kws_control.Common.Text.{GoString}
use kws_control.Structure.ResourceManager.{unregister_alive}
use kws_control.Structure.Repository.{VmRepository}
use kws_control.Structure.Control.{ControlContext, core_start, core_shutdown}
use kws_control.Structure.Control.Sound.{Identity, Sound, unregister-Sound}
use kws_control.Service.Action.{
  Error, Services, Action, pure, ◌>>=◌, ◌>>◌, raise_unless, send, core_request, update_resources,
  on_redis,
}
use kws_control.Service.Redis.{update_vm_status_in_redis, vm_status_stopped}
use kws_control.Service.Vm.{core_of, start_vm, shutdown_vm, delete_vm, delete_on}
use kws_control.Service.Vm.Delete.{delete_on_keeps}
use kws_control.Service.Preserve.{Keeps, Any, bind_keeps, quiet_keeps, update_keeps}
use kws_control.Service.Sound.{core_of_keeps, Index}

module _ {R : Type 0} (identities : List Identity) (repo : VmRepository R)
    (services : Services) where
  abbrev pub SoundAfter : {A : Type 0} → Action R A → Type 0
  SoundAfter m = Keeps R (Sound identities) m Any

  pub then :
      {A B : Type 0} (m : Action R A) (f : A → Action R B)
      → SoundAfter m
      → ((a : A) → SoundAfter (f a))
      → SoundAfter (m >>= f)
  then m f first next = bind_keeps R (Sound identities) m f Any Any first (λ a _. next a)

  pub quiet :
      {A : Type 0} (m : Action R A)
      → ((c : ControlContext R) → (m c).1.resources ≡ c.resources)
      → SoundAfter m
  quiet m same = quiet_keeps R (Sound identities) m same

  checked : (b : Bool) (e : Error) → SoundAfter (raise_unless b e)
  checked true e = quiet (raise_unless true e) (λ c. refl)
  checked false e = quiet (raise_unless false e) (λ c. refl)

  -- A call on the core of a VM that leaves the resources alone
  pub core_call-Sound :
      {A : Type 0} (uuid : GoString) (f : ℕ → Action R A)
      → ((k : ℕ) (c : ControlContext R) → (f k c).1.resources ≡ c.resources)
      → SoundAfter (core_of repo services uuid >>= f)
  core_call-Sound uuid f same =
      bind_keeps R (Sound identities) (core_of repo services uuid) f (Index identities repo) Any
        (core_of_keeps identities repo services uuid) (λ k _. quiet (f k) (same k))

  pub start_vm-Sound : (uuid : GoString) → SoundAfter (start_vm repo services uuid)
  unfolding start_vm
  start_vm-Sound uuid =
      core_call-Sound uuid
        (λ k. send (core_start k uuid) >> raise_unless (services.core_start_vm k uuid) core_request)
        (λ k c. ground arith)

  pub delete_vm-Sound : (uuid : GoString) → SoundAfter (delete_vm repo services uuid)
  unfolding delete_vm
  delete_vm-Sound uuid =
      core_call-Sound uuid (delete_on repo services uuid) (delete_on_keeps repo services uuid)

  -- `ShutdownVM` behind the answer of the core
  abbrev pub stopped : GoString → Action R (Unit {0})
  stopped uuid =
      update_resources (λ rm. (unregister_alive uuid rm).0)
      >> (on_redis (update_vm_status_in_redis services.json uuid vm_status_stopped services.now)
          >> pure tt)

  stopped-Sound : (uuid : GoString) → SoundAfter (stopped uuid)
  stopped-Sound uuid =
      then (update_resources (λ rm. (unregister_alive uuid rm).0)) (λ _. _)
        (update_keeps R (Sound identities) _ (λ rm s. unregister-Sound identities rm s uuid))
        (λ _.
          quiet
            (on_redis (update_vm_status_in_redis services.json uuid vm_status_stopped services.now)
              >> pure tt)
            (λ c. refl))

  pub shutdown_vm-Sound : (uuid : GoString) → SoundAfter (shutdown_vm repo services uuid)
  unfolding shutdown_vm
  shutdown_vm-Sound uuid =
      bind_keeps R (Sound identities) (core_of repo services uuid)
        (λ k.
          send (core_shutdown k uuid)
          >> (raise_unless (services.core_force_shutdown_vm k uuid) core_request >> stopped uuid))
        (Index identities repo) Any (core_of_keeps identities repo services uuid)
        (λ k _.
          then (send (core_shutdown k uuid)) (λ _. _) (quiet _ (λ c. refl))
            (λ _.
              then (raise_unless (services.core_force_shutdown_vm k uuid) core_request)
                (λ _. stopped uuid) (checked _ _) (λ _. stopped-Sound uuid)))
