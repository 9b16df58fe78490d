-- ===== src/Service/Vm/Stages.antt =====
-- The stages of `CreateVM` (service/vm.go): what each leaves behind, by its result.
use kws_control.Common.{ℕ, ◌≡◌, ap, ◌∙◌, ◌⊎◌, Bool, true, none, some, ◌∷◌, arith}
use kws_control.Common.Text.{GoString}
use kws_control.Pkg.Guacamole.{cleanup}
use kws_control.Structure.ResourceManager.{deallocate_resources, register_vm}
use kws_control.Structure.Repository.{VmRepository}
use kws_control.Structure.Control.{ControlContext, core_create}
use kws_control.Service.Redis.{store_vm_info_to_redis}
use kws_control.Service.Cleanup.{no_steps, push, run, run-push}
use kws_control.Service.Action.{
  Error, core_request, persist, ok, err, Services, CmsNewInstanceResponse, CreateVmInput,
}
use kws_control.Service.Vm.{
  new_vm, requirement, chain_after_allocation, guac_cleanup, give_back, launch, fail_with,
  build_core_create_vm_request, correct_subnet, or_clean_up, asked, first_state,
}

-- A failure before anything is pushed
pub fail_with_nothing :
    {R : Type 0} (e : Error) (c : ControlContext R)
    → fail_with {A = Unit {0}} no_steps e c ≡ (err e, c)
unfolding fail_with
fail_with_nothing {R} e c =
    ap (λ (c' : ControlContext R). (err e, c')) ((run-push (λ s. s) no_steps c).1)

module _ {R : Type 0} (repo : VmRepository R) (services : Services) (input : CreateVmInput)
    (core : ℕ) (resp : CmsNewInstanceResponse) (is_new : Bool) (public_key pass : GoString) where
  -- The chain gives the resources back, and then cleans the Guacamole tables.
  chain_run :
      (c : ControlContext R)
      → (run (chain_after_allocation input core) c).1 ≡ record c {
        resources = deallocate_resources core input.uuid (requirement input) c.resources;
        guac_db = (cleanup input.uuid c.guac_db).1;
      }
  unfolding chain_after_allocation
  chain_run c =
      let first = push (guac_cleanup {R = R} input.uuid) no_steps in
      (run-push (give_back core input.uuid (requirement input)) first c).0
      ∙ (run-push (guac_cleanup input.uuid) no_steps _).0
      ∙ (run-push (guac_cleanup input.uuid) no_steps _).1

  pub fail_with_lem :
      (e : Error) (c : ControlContext R)
      → fail_with {A = Unit {0}} (chain_after_allocation input core) e c ≡ (
        err e,
        record c {
          resources = deallocate_resources core input.uuid (requirement input) c.resources;
          guac_db = (cleanup input.uuid c.guac_db).1;
        },
      )
  unfolding fail_with
  fail_with_lem e c = ap (λ (c' : ControlContext R). (err e, c')) (chain_run c)

  -- The states in which the core and the repository have answered.
  abbrev asked_core : ControlContext R → ControlContext R
  asked_core c = record c {
    redis = (store_vm_info_to_redis services.json (first_state input resp) services.now c.redis).1;
    calls = core_create core input.uuid ∷ c.calls;
  }

  abbrev asked_repo : ControlContext R → ControlContext R
  asked_repo c = record (asked_core c) {
    vm_repo = (repo.add_instance (new_vm input resp pass) core c.vm_repo).1;
  }

  -- The last stage fails: the resources have been given back, and the repository has refused the row or
  -- was not asked.
  pub launch_failed :
      (c : ControlContext R) (e : Error)
      → (launch repo services input core resp is_new public_key pass c).0 ≡ err e
      → let c' = (launch repo services input core resp is_new public_key pass c).1 in
        (c'.resources ≡ deallocate_resources core input.uuid (requirement input) c.resources)
        × ((c'.vm_repo ≡ c.vm_repo)
            ⊎ ((repo.add_instance (new_vm input resp pass) core c.vm_repo).0 ≡ none)
              × (c'.vm_repo ≡ (repo.add_instance (new_vm input resp pass) core c.vm_repo).1))
  unfolding launch or_clean_up asked correct_subnet
  launch_failed c e h =
      ground
        (arith, fail_with_lem core_request (asked_core c), fail_with_lem persist (asked_repo c))

  pub launch_done :
      (c : ControlContext R)
      → (launch repo services input core resp is_new public_key pass c).0 ≡ ok tt
      → let c' = (launch repo services input core resp is_new public_key pass c).1 in
        (c'.resources ≡ register_vm input.uuid core (new_vm input resp pass) c.resources)
        × ((repo.add_instance (new_vm input resp pass) core c.vm_repo).0 ≡ some tt)
        × (c'.vm_repo ≡ (repo.add_instance (new_vm input resp pass) core c.vm_repo).1)
        × (services.core_create_vm core (build_core_create_vm_request input resp public_key) ≡ true)
  unfolding launch or_clean_up asked correct_subnet fail_with
  launch_done c h = ground arith
