-- ===== src/Service/Vm/Created.antt =====
-- `CreateVM` (service/vm.go) when it succeeds: what the cores, the cache and the repository hold.
use kws_control.Common.{
  ℕ, ◌≡◌, refl, ap, subst, ◌∙◌, Bool, true, Option, none, some, List, [], ◌∷◌, ◌++◌, arith,
}
use kws_control.Common.Lists.{modify}
use kws_control.Common.Int.{ℤ, pos}
use kws_control.Common.Text.{GoString, str_eq_refl}
use kws_control.Common.Table.{lookup, insert, lookup-insert}
use kws_control.Pkg.Guacamole.{Configured, user_pass, not_configured, panics}
use kws_control.Structure.{VmInfo}
use kws_control.Structure.ResourceManager.{
  ResourceManager, select_core, allocate_resources, take_resources, register_vm,
}
use kws_control.Structure.Repository.{VmRepository, Laws, stored}
use kws_control.Structure.Control.{ControlContext}
use kws_control.Service.Network.{allocate_cms_subnet}
use kws_control.Service.Network.Subnets.{allocate_cms_subnet_keeps}
use kws_control.Service.Action.{
  guacamole, no_user, Outcome, ok, err, panic, Services, CmsNewInstanceResponse, CreateVmInput,
  UserSpec, ◌>>=◌, or_raise, ssh_key, no_suitable_core,
}
use kws_control.Service.Vm.{
  new_vm, requirement, provision, connect, configure_and_provision, create_vm, select_core_or_fail,
  build_core_create_vm_request,
}
use kws_control.Service.Vm.Stages.{fail_with_nothing, launch_done}

module _ {R : Type 0} (repo : VmRepository R) (services : Services) (input : CreateVmInput) where
  -- From `rm` and `r`, the VM has been put on the core.
  record Added (core : ℕ) (rm : ResourceManager) (r : R) (c' : ControlContext R) : Type 0 where
    resp : CmsNewInstanceResponse
    public_key : GoString
    pass : GoString
    accepted :
        services.core_create_vm core (build_core_create_vm_request input resp public_key) ≡ true
    resources :
        c'.resources
        ≡ register_vm input.uuid core
            (new_vm input resp pass)
            (allocate_resources core input.uuid (new_vm input resp pass) (requirement input) rm)
    inserted : (repo.add_instance (new_vm input resp pass) core r).0 ≡ some tt
    rows : c'.vm_repo ≡ (repo.add_instance (new_vm input resp pass) core r).1

  module _ (core : ℕ) where
    provision_done :
        (resp : CmsNewInstanceResponse) (is_new : Bool) (public_key : GoString)
        (configured : Configured) (c : ControlContext R)
        → (provision repo services input core resp is_new public_key configured c).0 ≡ ok tt
        → Added core c.resources c.vm_repo
            (provision repo services input core resp is_new public_key configured c).1
    unfolding provision
    provision_done resp is_new public_key (user_pass pass) c h =
        let c1 = record c {
          resources =
              allocate_resources core input.uuid (new_vm input resp pass) (requirement input)
                c.resources;
        } in
        let (registered, inserted, rows, accepted) =
          launch_done repo services input core resp is_new public_key pass c1 h in
        record {
          resp = resp;
          public_key = public_key;
          pass = pass;
          accepted = accepted;
          resources = registered;
          inserted = inserted;
          rows = rows;
        }
    provision_done resp is_new public_key not_configured c h =
        let nothing = fail_with_nothing guacamole c in cc
    provision_done resp is_new public_key panics c h = cc

    configured_done :
        (private_key public_key : GoString) (first : UserSpec)
        (o : Outcome (CmsNewInstanceResponse × Bool)) (c : ControlContext R)
        → (((λ _. (o, c))
              >>= configure_and_provision repo services input core private_key public_key first)
            c).0
          ≡ ok tt
        → Added core c.resources c.vm_repo
            (((λ _. (o, c))
                >>= configure_and_provision repo services input core private_key public_key first)
              c).1
    unfolding configure_and_provision
    configured_done private_key public_key first (ok (resp, is_new)) c h =
        provision_done resp is_new public_key _ _ h
    configured_done private_key public_key first (err e) c h = cc
    configured_done private_key public_key first panic c h = cc

    connect_done :
        (private_key public_key : GoString) (users : List UserSpec) (c : ControlContext R)
        → (connect repo services input core private_key public_key users c).0 ≡ ok tt
        → Added core c.resources c.vm_repo
            (connect repo services input core private_key public_key users c).1
    unfolding connect
    connect_done private_key public_key [] c h = let nothing = fail_with_nothing no_user c in cc
    connect_done private_key public_key (first ∷ users) c h =
        let allocated = allocate_cms_subnet services input.subnet_type input.uuid c in
        let (resources, rows) = allocate_cms_subnet_keeps services c input.subnet_type input.uuid in
        let c' = (connect repo services input core private_key public_key (first ∷ users) c).1 in
        let added = configured_done private_key public_key first (allocated.0) (allocated.1) h in
        subst (λ rm. Added core rm c.vm_repo c') resources
          (subst (λ r. Added core allocated.1.resources r c') rows added)

  module _ (info : R → GoString → Option VmInfo) (location : R → GoString → Option ℤ)
      (laws : Laws repo info location) (c : ControlContext R) where
    -- What a `CreateVM` that returns no error has done.
    pub record IsCreated (c' : ControlContext R) : Type 0 where
      pub core : ℕ
      pub resp : CmsNewInstanceResponse
      pub public_key : GoString
      pub pass : GoString
      pub chosen : (select_core (requirement input) c.resources).core ≡ some core
      pub accepted :
          services.core_create_vm core (build_core_create_vm_request input resp public_key) ≡ true
      pub cores :
          c'.resources.cores
          ≡ modify c.resources.cores core
              (take_resources input.uuid (new_vm input resp pass) (requirement input))
      alive_vm : c'.resources.alive_vm ≡ c.resources.alive_vm ++ new_vm input resp pass ∷ []
      pub vm_location : c'.resources.vm_location ≡ insert input.uuid core c.resources.vm_location
      was_free : info c.vm_repo input.uuid ≡ none
      cached : lookup input.uuid c'.resources.vm_location ≡ some core
      on_record : location c'.vm_repo input.uuid ≡ some (pos core)
      row : info c'.vm_repo input.uuid ≡ some (stored (new_vm input resp pass))

    Added-IsCreated :
        (core : ℕ) (c' : ControlContext R)
        → (select_core (requirement input) c.resources).core ≡ some core
        → Added core c.resources c.vm_repo c'
        → IsCreated c'
    unfolding register_vm allocate_resources
    Added-IsCreated core c' chosen added =
        let vm = new_vm input added.resp added.pass in
        let (free, _, row, place) = laws.add_done vm core c.vm_repo input.uuid added.inserted in
        let found = str_eq_refl input.uuid in
        record {
          core = core;
          resp = added.resp;
          public_key = added.public_key;
          pass = added.pass;
          chosen = chosen;
          accepted = added.accepted;
          cores = ap (λ rm. rm.cores) added.resources;
          alive_vm = ap (λ rm. rm.alive_vm) added.resources;
          vm_location = ap (λ rm. rm.vm_location) added.resources;
          was_free = free;
          cached =
              ap (λ rm. lookup input.uuid rm.vm_location) added.resources
              ∙ lookup-insert input.uuid input.uuid core c.resources.vm_location
              ∙ ground (arith, found);
          on_record = ap (λ r. location r input.uuid) added.rows ∙ place ∙ ground (arith, found);
          row = ap (λ r. info r input.uuid) added.rows ∙ row ∙ ground (arith, found);
        }

    with_keys_done :
        (core : ℕ) (keys : Option (GoString × GoString))
        → (select_core (requirement input) c.resources).core ≡ some core
        → let (o, c') =
            (or_raise keys ssh_key >>= (λ x. connect repo services input core x.0 x.1 input.users))
              c in
          o ≡ ok tt → IsCreated c'
    with_keys_done core none chosen h = cc
    with_keys_done core (some (private_key, public_key)) chosen h =
        Added-IsCreated core _ chosen (connect_done core private_key public_key input.users c h)

    with_core_done :
        (chosen : Option ℕ)
        → (select_core (requirement input) c.resources).core ≡ chosen
        → let (o, c') =
            (or_raise chosen no_suitable_core >>= (λ core.
                or_raise services.generate_ssh_key ssh_key
                >>= (λ x. connect repo services input core x.0 x.1 input.users)))
              c in
          o ≡ ok tt → IsCreated c'
    with_core_done none chosen h = cc
    with_core_done (some core) chosen h = with_keys_done core services.generate_ssh_key chosen h

    -- If `CreateVM` returns no error, then the VM is on the core that `SelectCore` picks in the state
    -- before, and that core has accepted the request: the core's free amounts and map are those of
    -- `AllocateResources`, the other cores are as they were, the VM is the last of the live ones, and
    -- the cache and the repository give the core's index as its place. The repository, any that obeys
    -- the laws of `VMRepository`, had no row of that UUID and now has the VM's, but for the MAC address.
    pub create_vm-IsCreated :
        (create_vm repo services input c).0 ≡ ok tt → IsCreated (create_vm repo services input c).1
    unfolding create_vm select_core_or_fail
    create_vm-IsCreated h = with_core_done (select_core (requirement input) c.resources).core refl h
