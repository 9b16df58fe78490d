-- ===== src/Service/Sound/Create.antt =====
-- `CreateVM` (service/vm.go) on sound resources.
use kws_control.Common.{
  ℕ, ◌<◌, refl, sym, subst, ap, Bool, true, false, Option, none, some, arith, List, [], ◌∷◌,
}
use kws_control.Common.Lists.{length, get_elem?-lt}
use kws_control.Common.Text.{GoString}
use kws_control.Pkg.Guacamole.{Configured, user_pass, not_configured, panics, configure}
use kws_control.Structure.ResourceManager.{select_core, allocate_resources}
use kws_control.Structure.Repository.{VmRepository}
use kws_control.Structure.Control.{ControlContext, core_create}
use kws_control.Structure.Control.Sound.{
  Identity, Sound, length-Sound, allocate-Sound, deallocate-Sound, register-Sound,
}
use kws_control.Service.Cleanup.{no_steps}
use kws_control.Service.Action.{
  Error, Outcome, on_redis, on_subnet, Services, Action, CreateVmInput, CmsNewInstanceResponse,
  UserSpec, panic, pure, ◌>>◌, or_raise, send, core_request, persist, no_user, guacamole,
  no_suitable_core, ssh_key, on_repo, on_guac,
}
use kws_control.Service.Redis.{store_vm_info_to_redis}
use kws_control.Service.Network.{set_last_subnet, allocate_cms_subnet}
use kws_control.Service.Network.Subnets.{allocate_cms_subnet_keeps}
use kws_control.Service.Vm.{
  create_vm, connect, configure_and_provision, provision, launch, or_clean_up, correct_subnet,
  asked, first_state, chain_after_allocation, fail_with, new_vm, requirement,
  build_core_create_vm_request, select_core_or_fail,
}
use kws_control.Service.Vm.Create.{selected_core}
use kws_control.Service.Vm.Stages.{fail_with_lem, fail_with_nothing}
use kws_control.Service.Preserve.{Keeps, Any, bind_keeps, or_raise_keeps, update_keeps}
use kws_control.Service.Sound.Vm.{SoundAfter, then, quiet}

module _ {R : Type 0} (identities : List Identity) (repo : VmRepository R) (services : Services)
    (input : CreateVmInput) where
  abbrev Sounds : {A : Type 0} → Action R A → Type 0
  Sounds m = SoundAfter identities repo services m

  module _ (core : ℕ) (resp : CmsNewInstanceResponse) (is_new : Bool)
      (public_key pass : GoString) where
    clean_up-Sound :
        (e : Error) (o : Option (Unit {0}))
        → Sounds (or_clean_up repo services (chain_after_allocation input core) e o)
    unfolding or_clean_up Keeps
    clean_up-Sound e none c s =
        let failed = fail_with_lem repo services input core resp is_new public_key pass e c in
        (
          subst (λ (r : Outcome (Unit {0}) × ControlContext R). Sound identities r.1.resources)
              (sym failed)
              (deallocate-Sound identities c.resources s core input.uuid (requirement input)),
          λ b h. tt,
        )
    clean_up-Sound e (some a) c s = (s, λ b h. tt)

    correct-Sound : (b : Bool) → Sounds (correct_subnet repo services b resp.ip)
    unfolding correct_subnet
    correct-Sound false = quiet identities repo services (pure tt) (λ c. refl)
    correct-Sound true =
        quiet identities repo services (on_subnet (set_last_subnet resp.ip) >> pure tt)
          (λ c. ground arith)

    launch-Sound :
        core < length identities
        → Sounds (launch repo services input core resp is_new public_key pass)
    unfolding launch
    launch-Sound inside =
        then identities repo services
          (on_redis (store_vm_info_to_redis services.json (first_state input resp) services.now))
          (λ _. _) (quiet identities repo services _ (λ c. refl))
          (λ _.
            then identities repo services (send (core_create core input.uuid)) (λ _. _)
              (quiet identities repo services _ (λ c. refl))
              (λ _.
                then identities repo services _ (λ _. _)
                  (clean_up-Sound core_request (
                    asked repo services (
                      services.core_create_vm core
                        (build_core_create_vm_request input resp public_key))))
                  (λ _.
                    then identities repo services
                      (on_repo (repo.add_instance (new_vm input resp pass) core)) (λ added. _)
                      (quiet identities repo services _ (λ c. refl))
                      (λ added.
                        then identities repo services _ (λ _. _) (clean_up-Sound persist added)
                          (λ _.
                            then identities repo services _ (λ _. _) (correct-Sound is_new)
                              (λ _. update_keeps R (Sound identities) _ (λ rm s.
                                register-Sound identities rm s input.uuid core
                                  (new_vm input resp pass) inside)))))))

  -- Nothing has been pushed to the chain.
  nothing-Sound : (e : Error) → Sounds (fail_with {A = Unit {0}} no_steps e)
  nothing-Sound e = quiet identities repo services (fail_with no_steps e) (λ c.
      ap (λ (r : Outcome (Unit {0}) × ControlContext R). r.1.resources) (fail_with_nothing e c))

  provision-Sound :
      (core : ℕ) (resp : CmsNewInstanceResponse) (is_new : Bool) (public_key : GoString)
      (configured : Configured)
      → core < length identities
      → Sounds (provision repo services input core resp is_new public_key configured)
  unfolding provision
  provision-Sound core resp is_new public_key (user_pass pass) inside =
      then identities repo services _ (λ _. _)
        (update_keeps R (Sound identities)
          (allocate_resources core input.uuid (new_vm input resp pass) (requirement input))
          (λ rm s.
            allocate-Sound identities rm s core input.uuid (new_vm input resp pass)
              (requirement input)))
        (λ _. launch-Sound core resp is_new public_key pass inside)
  provision-Sound core resp is_new public_key not_configured inside = nothing-Sound guacamole
  provision-Sound core resp is_new public_key panics inside =
      quiet identities repo services (λ c. (panic, c)) (λ c. refl)

  connect-Sound :
      (core : ℕ) (private_key public_key : GoString) (users : List UserSpec)
      → core < length identities
      → Sounds (connect repo services input core private_key public_key users)
  unfolding connect configure_and_provision
  connect-Sound core private_key public_key [] inside = nothing-Sound no_user
  connect-Sound core private_key public_key (first ∷ users) inside =
      then identities repo services (allocate_cms_subnet services input.subnet_type input.uuid)
        (configure_and_provision repo services input core private_key public_key first)
        (quiet identities repo services _
          (λ c. (allocate_cms_subnet_keeps services c input.subnet_type input.uuid).0))
        (λ subnet.
          then identities repo services
            (on_guac (
              configure services.sha256 services.randomness first.name input.uuid subnet.0.ip
                private_key))
            (provision repo services input core subnet.0 subnet.1 public_key)
            (quiet identities repo services _ (λ c. refl))
            (λ configured. provision-Sound core subnet.0 subnet.1 public_key configured inside))

  -- The index that `SelectCore` returns is that of a core.
  select_keeps :
      Keeps R
        (Sound identities)
        (select_core_or_fail (requirement input))
        (λ k. k < length identities)
  unfolding select_core_or_fail Keeps
  select_keeps c s =
      or_raise_keeps R (Sound identities) (select_core (requirement input) c.resources).core
        no_suitable_core (λ k. k < length identities)
        (λ k chosen.
          let (core, at) = selected_core (requirement input) c.resources k chosen in
          subst (λ n. k < n) (length-Sound identities c.resources s)
            (get_elem?-lt c.resources.cores k core at))
        c s

  pub create_vm-Sound : Sounds (create_vm repo services input)
  unfolding create_vm
  create_vm-Sound =
      bind_keeps R (Sound identities) (select_core_or_fail (requirement input)) (λ core. _)
        (λ k. k < length identities) Any select_keeps
        (λ core inside.
          then identities repo services (or_raise services.generate_ssh_key ssh_key)
            (λ keys. connect repo services input core keys.0 keys.1 input.users)
            (or_raise_keeps R (Sound identities) services.generate_ssh_key ssh_key Any (λ _ _. tt))
            (λ keys. connect-Sound core keys.0 keys.1 input.users inside))
