-- ===== src/Service/Sound/Calm.antt =====
-- Panics of the service layer (service/*.go): the calls other than `CreateVM`.
use kws_control.Common.{
  ℕ, ◌≡◌, ◌≢◌, ◌<◌, refl, sym, subst, some, arith, Option-cases, inl, inr, List, ◌∷◌,
}
use kws_control.Common.Lists.{length, get_elem?, get_elem?_total}
use kws_control.Common.Text.{GoString}
use kws_control.Common.Table.{lookup}
use kws_control.Structure.{Core}
use kws_control.Structure.Repository.{VmRepository}
use kws_control.Structure.Control.{
  ControlContext, find_core_by_vm_uuid, core_start, core_shutdown, core_delete, core_vm_cpu,
  core_vm_memory, core_vm_disk,
}
use kws_control.Structure.Control.Sound.{Identity, Sound, length-Sound}
use kws_control.Service.Action.{
  Outcome, ok, err, panic, core_request, Services, Action, ◌>>=◌, ◌>>◌, pure, or_raise,
  raise_unless, send, rustfs_unavailable, rustfs_request,
}
use kws_control.Service.Network.{get_vm_ip_by_uuid, vm_ip_on, delete_cms_subnet}
use kws_control.Service.Vm.{
  core_of, start_vm, shutdown_vm, delete_vm, delete_on, forget_vm, ignore_error,
}
use kws_control.Service.Guacamole.{vm_on, get_guacamole_token}
use kws_control.Service.Usage.{
  cpu_status, memory_status, disk_status, get_vm_cpu_info, get_vm_memory_info, get_vm_disk_info,
}
use kws_control.Service.Snapshot.{
  snapshot_presign_ttl, list_snapshots, delete_snapshot, take_snapshot,
}
use kws_control.Service.Preserve.{Keeps}
use kws_control.Service.Sound.{find_keeps, core_of_keeps}
use kws_control.Service.Sound.Vm.{stopped}
use kws_control.Client.Rustfs.{presign_put_object}

module _ {R : Type 0} (identities : List Identity) (repo : VmRepository R) (services : Services)
    (uuid : GoString) where
  abbrev pub Calm : {A : Type 0} → Action R A → Type 0
  Calm m = (c : ControlContext R) → Sound identities c.resources → (m c).0 ≢ panic

  core_of-Calm : Calm (core_of repo services uuid)
  unfolding core_of
  core_of-Calm c s h = elim (Option-cases ((find_core_by_vm_uuid repo uuid c).0)) [
    | inl missing ↦ ground arith
    | inr (k, found) ↦ ground arith
  ]

  -- A call on the core of a VM
  core_call-Calm :
      {A : Type 0} (f : ℕ → Action R A)
      → ((k : ℕ) → Calm (f k))
      → Calm (core_of repo services uuid >>= f)
  unfolding Keeps
  core_call-Calm {A} f calm c s h = by_outcome ((core_of repo services uuid c).0) refl h
    where
      by_outcome :
          (o : Outcome ℕ)
          → (core_of repo services uuid c).0 ≡ o
          → let r : Outcome A × ControlContext R = elim o [
            | ok k ↦ f k (core_of repo services uuid c).1
            | err e ↦ (err e, (core_of repo services uuid c).1)
            | panic ↦ (panic, (core_of repo services uuid c).1)
          ] in
            r.0 ≢ panic
      by_outcome (ok k) e p =
          calm k (core_of repo services uuid c).1
            ((core_of_keeps identities repo services uuid c s).0) p
      by_outcome (err x) e p = cc
      by_outcome panic e p = core_of-Calm c s e

  pub start_vm-Calm : Calm (start_vm repo services uuid)
  unfolding start_vm
  start_vm-Calm =
      core_call-Calm
        (λ k. send (core_start k uuid) >> raise_unless (services.core_start_vm k uuid) core_request)
        (λ k c s h. ground arith)

  pub shutdown_vm-Calm : Calm (shutdown_vm repo services uuid)
  unfolding shutdown_vm
  shutdown_vm-Calm =
      core_call-Calm
        (λ k.
          send (core_shutdown k uuid)
          >> (raise_unless (services.core_force_shutdown_vm k uuid) core_request
              >> stopped identities repo services uuid))
        (λ k c s h. ground arith)

  pub get_vm_cpu_info-Calm : Calm (get_vm_cpu_info repo services uuid)
  unfolding get_vm_cpu_info
  get_vm_cpu_info-Calm =
      core_call-Calm
        (λ k.
          send (core_vm_cpu k uuid)
          >> (or_raise (services.core_vm_cpu_info k uuid) core_request
              >>= (λ info. pure (cpu_status info))))
        (λ k c s h. ground arith)

  pub get_vm_memory_info-Calm : Calm (get_vm_memory_info repo services uuid)
  unfolding get_vm_memory_info
  get_vm_memory_info-Calm =
      core_call-Calm
        (λ k.
          send (core_vm_memory k uuid)
          >> (or_raise (services.core_vm_memory_info k uuid) core_request
              >>= (λ info. pure (memory_status info))))
        (λ k c s h. ground arith)

  pub get_vm_disk_info-Calm : Calm (get_vm_disk_info repo services uuid)
  unfolding get_vm_disk_info
  get_vm_disk_info-Calm =
      core_call-Calm
        (λ k.
          send (core_vm_disk k uuid)
          >> (or_raise (services.core_vm_disk_info k uuid) core_request
              >>= (λ info. pure (disk_status info))))
        (λ k c s h. ground arith)

  pub list_snapshots-Calm : Calm (list_snapshots services uuid)
  unfolding list_snapshots
  list_snapshots-Calm c s h = ground arith

  pub delete_snapshot-Calm : (key : GoString) → Calm (delete_snapshot services uuid key)
  unfolding delete_snapshot
  delete_snapshot-Calm key c s h = ground arith

  pub take_snapshot-Calm : (name : GoString) → Calm (take_snapshot services repo uuid name)
  unfolding take_snapshot
  take_snapshot-Calm name =
      core_call-Calm
        (λ _. or_raise services.rustfs rustfs_unavailable >>= (λ rustfs.
          or_raise (presign_put_object rustfs uuid name snapshot_presign_ttl) rustfs_request
          >> pure tt))
        (λ k c s h. ground arith)

  -- A place of a core
  inside_some :
      (c : ControlContext R) (k : ℕ)
      → Sound identities c.resources
      → k < length identities
      → (core : Core) × (get_elem? c.resources.cores k ≡ some core)
  inside_some c k s inside =
      get_elem?_total c.resources.cores k
        (subst (λ n. k < n) (sym (length-Sound identities c.resources s)) inside)

  vm_ip-Calm : Calm (get_vm_ip_by_uuid {R = R} uuid)
  unfolding get_vm_ip_by_uuid vm_ip_on
  vm_ip-Calm c s h = elim (Option-cases (lookup uuid c.resources.vm_location)) [
    | inl missing ↦ ground arith
    | inr (k, cached) ↦
        let (core, at) = get_elem?_total c.resources.cores k (s.in_range uuid k cached) in
        ground arith
  ]

  delete_on-Calm : (k : ℕ) → Calm (delete_on repo services uuid k)
  unfolding delete_on ignore_error forget_vm delete_cms_subnet
  delete_on-Calm k c s h =
      let c1 = record c { calls = core_delete k uuid ∷ c.calls } in
      let calm = vm_ip-Calm c1 s in ground arith

  pub delete_vm-Calm : Calm (delete_vm repo services uuid)
  unfolding delete_vm
  delete_vm-Calm = core_call-Calm (delete_on repo services uuid) delete_on-Calm

  pub get_guacamole_token-Calm : Calm (get_guacamole_token repo services uuid)
  unfolding get_guacamole_token vm_on Keeps
  get_guacamole_token-Calm c s h =
      let (sound, inside) = find_keeps identities repo uuid c s in
      elim (Option-cases ((find_core_by_vm_uuid repo uuid c).0)) [
        | inl missing ↦ ground arith
        | inr (k, found) ↦
            let (core, at) =
              inside_some ((find_core_by_vm_uuid repo uuid c).1) k sound (inside _ refl k found) in
            ground arith
      ]
