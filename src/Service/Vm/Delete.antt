-- ===== src/Service/Vm/Delete.antt =====
-- `DeleteVM` and `ShutdownVM` (service/vm.go): what they remove, and what they leave.
use kws_control.Common.{
  ℕ, ◌≡◌, ◌⊎◌, inl, inr, true, Option, none, some, ◌∷◌, arith, Option-cases, Bool-cases, subst, sym,
  if◌then◌else◌,
}
use kws_control.Common.Int.{ℤ}
use kws_control.Common.Text.{GoString, str_eq}
use kws_control.Structure.{VmInfo}
use kws_control.Structure.ResourceManager.{unregister_alive}
use kws_control.Structure.ResourceManager.Alive.{Unregistered, unregister_alive-Unregistered}
use kws_control.Structure.Repository.{VmRepository, Laws}
use kws_control.Structure.Control.{ControlContext, core_delete, find_core_by_vm_uuid}
use kws_control.Structure.Control.Find.{find-Untouched, find_rows}
use kws_control.Service.Network.{delete_cms_subnet}
use kws_control.Service.Network.Subnets.{delete_cms_subnet_keeps}
use kws_control.Service.Action.{Error, core_request, vm_not_found, ok, err, Services}
use kws_control.Service.Vm.{shutdown_vm, delete_vm, core_of, delete_on, forget_vm, ignore_error}

module _ {R : Type 0} (repo : VmRepository R) (services : Services) (uuid : GoString) where
  forget_vm_keeps :
      (c : ControlContext R) → (forget_vm repo services uuid c).1.resources ≡ c.resources
  unfolding forget_vm
  forget_vm_keeps c = ground arith

  ignore_error_keeps :
      (c : ControlContext R)
      → let c' = (ignore_error repo services (delete_cms_subnet services uuid) c).1 in
        (c'.resources ≡ c.resources) × (c'.vm_repo ≡ c.vm_repo)
  unfolding ignore_error
  ignore_error_keeps c = (
    ground (arith, delete_cms_subnet_keeps services c uuid),
    ground (arith, delete_cms_subnet_keeps services c uuid),
  )

  pub delete_on_keeps :
      (core : ℕ) (c : ControlContext R)
      → (delete_on repo services uuid core c).1.resources ≡ c.resources
  unfolding delete_on
  delete_on_keeps core c =
      let c1 = record c { calls = core_delete core uuid ∷ c.calls } in
      ground (
        arith,
        ignore_error_keeps c1,
        forget_vm_keeps (ignore_error repo services (delete_cms_subnet services uuid) c1).1,
      )

  -- Whatever `DeleteVM` returns, the free amounts and the maps of the cores are those before, and so is
  -- the list of the live VMs: no amount that the VM held is given back.
  pub delete_vm_keeps :
      (c : ControlContext R)
      → let c' = (delete_vm repo services uuid c).1 in
        (c'.resources.cores ≡ c.resources.cores) × (c'.resources.alive_vm ≡ c.resources.alive_vm)
  unfolding delete_vm core_of
  delete_vm_keeps c =
      let same = find-Untouched repo uuid c in
      let c1 = (find_core_by_vm_uuid repo uuid c).1 in
      elim (Option-cases ((find_core_by_vm_uuid repo uuid c).0)) [
        | inl missing ↦ (ground (arith, same.cores), ground (arith, same.alive_vm))
        | inr (k, found) ↦ (
          ground (arith, same.cores, delete_on_keeps k c1),
          ground (arith, same.alive_vm, delete_on_keeps k c1),
        )
      ]

  delete_on_done :
      (core : ℕ) (c : ControlContext R)
      → (delete_on repo services uuid core c).0 ≡ ok tt
      → (services.core_delete_vm core uuid ≡ true)
        × ((repo.delete_instance uuid c.vm_repo).0 ≡ some tt)
        × ((delete_on repo services uuid core c).1.vm_repo
            ≡ (repo.delete_instance uuid c.vm_repo).1)
  unfolding delete_on forget_vm
  delete_on_done core c h =
      let c1 = record c { calls = core_delete core uuid ∷ c.calls } in
      let same = ignore_error_keeps c1 in (ground arith, ground (arith, same), ground (arith, same))

  delete_on_failed :
      (core : ℕ) (c : ControlContext R) (e : Error)
      → (delete_on repo services uuid core c).0 ≡ err e
      → ((delete_on repo services uuid core c).1.vm_repo ≡ c.vm_repo)
        ⊎ (((repo.delete_instance uuid c.vm_repo).0 ≡ none)
            × ((delete_on repo services uuid core c).1.vm_repo
                ≡ (repo.delete_instance uuid c.vm_repo).1))
  unfolding delete_on forget_vm
  delete_on_failed core c e h =
      let c1 = record c { calls = core_delete core uuid ∷ c.calls } in
      let same = ignore_error_keeps c1 in ground (arith, same)

  module _ (info : R → GoString → Option VmInfo) (location : R → GoString → Option ℤ)
      (laws : Laws repo info location) (c : ControlContext R) (u : GoString) where
    -- If `DeleteVM` returns no error, then the core that the search finds has accepted the request, the
    -- repository has no row and no place for the UUID, and every other UUID has there what it had. The
    -- repository is any that obeys the laws of `VMRepository`.
    pub delete_vm_done :
        (delete_vm repo services uuid c).0 ≡ ok tt
        → let c' = (delete_vm repo services uuid c).1 in
          ((k : ℕ) × ((find_core_by_vm_uuid repo uuid c).0 ≡ some k)
            × (services.core_delete_vm k uuid ≡ true))
          × (info c'.vm_repo u ≡ (if str_eq uuid u then none else info c.vm_repo u))
          × (location c'.vm_repo u ≡ (if str_eq uuid u then none else location c.vm_repo u))
    unfolding delete_vm core_of
    delete_vm_done h =
        let c1 = (find_core_by_vm_uuid repo uuid c).1 in
        let rows = find_rows repo uuid c info location laws u in
        elim (Option-cases ((find_core_by_vm_uuid repo uuid c).0)) [
          | inl missing ↦ absurd (ground arith)
          | inr (k, found) ↦
              let (accepted, deleted, after) = delete_on_done k c1 (ground arith) in
              let gone = laws.delete_done uuid c1.vm_repo u deleted in
              (
                (k, found, accepted),
                ground (arith, after, rows, gone),
                ground (arith, after, rows, gone),
              )
        ]

    -- If `DeleteVM` returns an error, the repository, any that obeys the laws of `VMRepository`, has
    -- for every UUID what it had.
    pub delete_vm_failed :
        (e : Error)
        → (delete_vm repo services uuid c).0 ≡ err e
        → let c' = (delete_vm repo services uuid c).1 in
          (info c'.vm_repo u ≡ info c.vm_repo u) × (location c'.vm_repo u ≡ location c.vm_repo u)
    unfolding delete_vm core_of
    delete_vm_failed e h =
        let c1 = (find_core_by_vm_uuid repo uuid c).1 in
        let rows = find_rows repo uuid c info location laws u in
        elim (Option-cases ((find_core_by_vm_uuid repo uuid c).0)) [
          | inl missing ↦ (ground (arith, rows), ground (arith, rows))
          | inr (k, found) ↦ elim (delete_on_failed k c1 e (ground arith)) [
            | inl same ↦ (ground (arith, same, rows), ground (arith, same, rows))
            | inr (refused, after) ↦
                let kept = laws.delete_failed uuid c1.vm_repo u refused in
                (ground (arith, after, rows, kept), ground (arith, after, rows, kept))
          ]
        ]

module _ {R : Type 0} (repo : VmRepository R) (services : Services) (uuid : GoString)
    (c : ControlContext R) where
  left :
      (k : ℕ)
      → (find_core_by_vm_uuid repo uuid c).0 ≡ some k
      → services.core_force_shutdown_vm k uuid ≡ true
      → (shutdown_vm repo services uuid c).1.resources.alive_vm
        ≡ (unregister_alive uuid c.resources).0.alive_vm
  unfolding shutdown_vm core_of unregister_alive
  left k found accepted = let same = find-Untouched repo uuid c in ground (arith, same.alive_vm)

  -- `ShutdownVM` never changes the cores. Either it returns no error: the core that the search finds
  -- has accepted the request, and the first VM of the UUID, and only that one, is taken out of the list
  -- of the live VMs, or no VM of the list has the UUID and the list is as before. Or it returns an
  -- error, and the list is as before.
  pub shutdown_vm-UnregisterAlive :
      let (o, c') = shutdown_vm repo services uuid c in
      (c'.resources.cores ≡ c.resources.cores)
      × (((o ≡ ok tt)
            × Unregistered uuid c.resources.alive_vm c'.resources.alive_vm
            × ((k : ℕ) × ((find_core_by_vm_uuid repo uuid c).0 ≡ some k)
                × (services.core_force_shutdown_vm k uuid ≡ true)))
          ⊎ (((e : Error) × (o ≡ err e)) × (c'.resources.alive_vm ≡ c.resources.alive_vm)))
  unfolding shutdown_vm core_of unregister_alive
  shutdown_vm-UnregisterAlive =
      let same = find-Untouched repo uuid c in
      elim (Option-cases ((find_core_by_vm_uuid repo uuid c).0)) [
        | inl missing ↦ (
          ground (arith, same.cores),
          inr ((vm_not_found, ground arith), ground (arith, same.alive_vm)),
        )
        | inr (k, found) ↦ elim (Bool-cases (services.core_force_shutdown_vm k uuid)) [
          | inl accepted ↦ (
            ground (arith, same.cores),
            inl (
              ground arith,
              subst (Unregistered uuid c.resources.alive_vm) (sym (left k found accepted))
                  (unregister_alive-Unregistered uuid c.resources),
              (k, found, accepted),
            ),
          )
          | inr refused ↦ (
            ground (arith, same.cores),
            inr ((core_request, ground arith), ground (arith, same.alive_vm)),
          )
        ]
      ]
