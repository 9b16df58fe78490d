-- ===== src/Service/Vm/Create.antt =====
-- `CreateVM` (service/vm.go) when it fails.
use kws_control.Common.{
  ℕ, ◌≡◌, refl, ap, sym, subst, ◌∙◌, ◌⊎◌, inl, inr, Bool, Option, none, some, List, [], ◌∷◌, map,
}
use kws_control.Common.Int.{ℤ}
use kws_control.Common.Lists.{get_elem?, map-modify, All, All-get_elem?}
use kws_control.Common.Text.{GoString}
use kws_control.Common.Table.{lookup, entries}
use kws_control.Pkg.Guacamole.{Configured, user_pass, not_configured, panics}
use kws_control.Structure.{Core, VmInfo}
use kws_control.Structure.ResourceManager.{
  ResourceManager, HardwareRequirement, select_core, allocate_resources, deallocate_resources,
}
use kws_control.Structure.ResourceManager.Select.{select_core-Selected}
use kws_control.Structure.ResourceManager.Allocate.{
  IsWord, IsWordReq, made_map, deallocate-allocate,
}
use kws_control.Structure.Repository.{VmRepository, Laws}
use kws_control.Structure.Control.{ControlContext}
use kws_control.Service.Network.{allocate_cms_subnet}
use kws_control.Service.Network.Subnets.{allocate_cms_subnet_keeps}
use kws_control.Service.Action.{
  ◌>>=◌, or_raise, ssh_key, no_suitable_core, Error, guacamole, no_user, Outcome, ok, err, panic,
  Services, CmsNewInstanceResponse, CreateVmInput, UserSpec,
}
use kws_control.Service.Vm.{
  new_vm, requirement, provision, connect, configure_and_provision, create_vm, select_core_or_fail,
}
use kws_control.Service.Vm.Stages.{fail_with_nothing, launch_failed}

-- The UUID is new to every core, and all amounts are `uint32` values.
pub record IsNew {R : Type 0} (input : CreateVmInput) (c : ControlContext R) : Type 0 where
  pub words : All IsWord c.resources.cores
  pub request : IsWordReq (requirement input)
  pub absent :
      All (λ (core : Core). lookup input.uuid (entries core.vm_info_idx) ≡ none) c.resources.cores

-- The resources are as before, where an empty map of VMs counts as a nil one.
pub record Restored (before after : ResourceManager) : Type 0 where
  pub cores : map made_map after.cores ≡ map made_map before.cores
  pub alive_vm : after.alive_vm ≡ before.alive_vm
  pub vm_location : after.vm_location ≡ before.vm_location

-- The selected core is one of the list.
pub selected_core :
    (req : HardwareRequirement) (rm : ResourceManager) (k : ℕ)
    → (select_core req rm).core ≡ some k
    → (core : Core) × (get_elem? rm.cores k ≡ some core)
selected_core req rm k h = elim ((select_core-Selected req rm).1) [
  | inl (j, core, found, _, at, _, _, _) ↦
      let same : j ≡ k = cc in (core, ap (get_elem? rm.cores) (sym same) ∙ at)
  | inr (missing, _, _, _) ↦ cc
]

give_back-Restored :
    (uuid : GoString) (vm : VmInfo) (req : HardwareRequirement) (rm : ResourceManager) (k : ℕ)
    → (select_core req rm).core ≡ some k
    → All IsWord rm.cores
    → IsWordReq req
    → All (λ (core : Core). lookup uuid (entries core.vm_info_idx) ≡ none) rm.cores
    → Restored rm (deallocate_resources k uuid req (allocate_resources k uuid vm req rm))
give_back-Restored uuid vm req rm k chosen words word_req absent =
    let (core, at) = selected_core req rm k chosen in
    let back =
      deallocate-allocate k uuid vm req rm core at (All-get_elem? IsWord rm.cores k core at words)
        word_req
        (All-get_elem? (λ (c : Core). lookup uuid (entries c.vm_info_idx) ≡ none) rm.cores k core at
          absent) in
    subst (Restored rm) (sym back) (record {
      cores = map-modify made_map rm.cores k made_map core at refl;
      alive_vm = refl;
      vm_location = refl;
    })

module _ {R : Type 0} (repo : VmRepository R) (services : Services) (input : CreateVmInput)
    (core : ℕ) where
  -- What a failed step has done to the resources and to the repository.
  Undone : ResourceManager → R → ControlContext R → Type 0
  Undone rm r c' =
      ((c'.resources ≡ rm)
        ⊎ ((vm : VmInfo) × (c'.resources
              ≡ deallocate_resources core input.uuid (requirement input)
                  (allocate_resources core input.uuid vm (requirement input) rm))))
      × ((c'.vm_repo ≡ r)
          ⊎ ((vm : VmInfo) × ((repo.add_instance vm core r).0 ≡ none)
              × (c'.vm_repo ≡ (repo.add_instance vm core r).1)))

  provision_failed :
      (resp : CmsNewInstanceResponse) (is_new : Bool) (public_key : GoString)
      (configured : Configured) (c : ControlContext R) (e : Error)
      → (provision repo services input core resp is_new public_key configured c).0 ≡ err e
      → Undone c.resources c.vm_repo
          (provision repo services input core resp is_new public_key configured c).1
  unfolding provision Undone
  provision_failed resp is_new public_key (user_pass pass) c e h =
      let vm = new_vm input resp pass in
      let c1 = record c {
        resources = allocate_resources core input.uuid vm (requirement input) c.resources;
      } in
      let (given_back, rows) =
        launch_failed repo services input core resp is_new public_key pass c1 e h in
      (
        inr (vm, given_back),
        elim rows [ inl same ↦ inl same | inr (refused, after) ↦ inr (vm, refused, after) ],
      )
  provision_failed resp is_new public_key not_configured c e h =
      let same = fail_with_nothing guacamole c in
      (inl (ap (λ p. p.1.resources) same), inl (ap (λ p. p.1.vm_repo) same))
  provision_failed resp is_new public_key panics c e h = cc

  configure_and_provision_failed :
      (private_key public_key : GoString) (first : UserSpec)
      (o : Outcome (CmsNewInstanceResponse × Bool)) (c : ControlContext R) (e : Error)
      → (((λ _. (o, c))
            >>= configure_and_provision repo services input core private_key public_key first)
          c).0
        ≡ err e
      → Undone c.resources c.vm_repo
          (((λ _. (o, c))
              >>= configure_and_provision repo services input core private_key public_key first)
            c).1
  unfolding configure_and_provision Undone
  configure_and_provision_failed private_key public_key first (ok (resp, is_new)) c e h =
      provision_failed resp is_new public_key _ _ e h
  configure_and_provision_failed private_key public_key first (err e') c e h = (inl refl, inl refl)
  configure_and_provision_failed private_key public_key first panic c e h = (inl refl, inl refl)

  connect_failed :
      (private_key public_key : GoString) (users : List UserSpec) (c : ControlContext R) (e : Error)
      → (connect repo services input core private_key public_key users c).0 ≡ err e
      → Undone c.resources c.vm_repo
          (connect repo services input core private_key public_key users c).1
  unfolding connect Undone
  connect_failed private_key public_key [] c e h =
      let same = fail_with_nothing no_user c in
      (inl (ap (λ p. p.1.resources) same), inl (ap (λ p. p.1.vm_repo) same))
  connect_failed private_key public_key (first ∷ users) c e h =
      let allocated = allocate_cms_subnet services input.subnet_type input.uuid c in
      let (resources, rows) = allocate_cms_subnet_keeps services c input.subnet_type input.uuid in
      let undone =
        configure_and_provision_failed private_key public_key first (allocated.0) (allocated.1) e
          h in
      subst
        (λ rm.
          Undone rm c.vm_repo
            (connect repo services input core private_key public_key (first ∷ users) c).1)
        resources
        (subst
          (λ r.
            Undone allocated.1.resources r
              (connect repo services input core private_key public_key (first ∷ users) c).1)
          rows undone)

module _ {R : Type 0} (repo : VmRepository R) (services : Services) (input : CreateVmInput)
    (info : R → GoString → Option VmInfo) (location : R → GoString → Option ℤ)
    (laws : Laws repo info location) (c : ControlContext R) where
  rows_kept :
      (core : ℕ) (c' : ControlContext R) (u : GoString)
      → (c'.vm_repo ≡ c.vm_repo)
        ⊎ ((vm : VmInfo) × ((repo.add_instance vm core c.vm_repo).0 ≡ none)
            × (c'.vm_repo ≡ (repo.add_instance vm core c.vm_repo).1))
      → (info c'.vm_repo u ≡ info c.vm_repo u) × (location c'.vm_repo u ≡ location c.vm_repo u)
  rows_kept core c' u (inl same) = (ap (λ r. info r u) same, ap (λ r. location r u) same)
  rows_kept core c' u (inr (vm, refused, after)) =
      let (info_kept, location_kept) = laws.add_failed vm core c.vm_repo u refused in
      (ap (λ r. info r u) after ∙ info_kept, ap (λ r. location r u) after ∙ location_kept)

  Undone-Restored :
      (core : ℕ) (c' : ControlContext R)
      → IsNew input c
      → (select_core (requirement input) c.resources).core ≡ some core
      → (c'.resources ≡ c.resources)
        ⊎ ((vm : VmInfo) × (c'.resources
              ≡ deallocate_resources core input.uuid
                  (requirement input)
                  (allocate_resources core input.uuid vm (requirement input) c.resources)))
      → Restored c.resources c'.resources
  Undone-Restored core c' is_new chosen (inl same) = record {
    cores = ap (λ rm. map made_map rm.cores) same;
    alive_vm = ap (λ rm. rm.alive_vm) same;
    vm_location = ap (λ rm. rm.vm_location) same;
  }
  Undone-Restored core c' is_new chosen (inr (vm, same)) = subst (Restored c.resources) (sym same) (
      give_back-Restored input.uuid vm (requirement input) c.resources core chosen is_new.words
        is_new.request is_new.absent)

  module _ (e : Error) (u : GoString) (is_new : IsNew input c) where
    -- The claim, of what is left.
    abbrev Rest : Outcome (Unit {0}) × ControlContext R → Type 0
    Rest (o, c') =
        o ≡ err e
        → Restored c.resources c'.resources
          × (info c'.vm_repo u ≡ info c.vm_repo u)
          × (location c'.vm_repo u ≡ location c.vm_repo u)

    nothing_done : {o : Outcome (Unit {0})} → Rest (o, c)
    nothing_done h = (record { cores = refl; alive_vm = refl; vm_location = refl }, refl, refl)

    with_keys_failed :
        (core : ℕ) (keys : Option (GoString × GoString))
        → (select_core (requirement input) c.resources).core ≡ some core
        → Rest (
            (or_raise keys ssh_key >>= (λ x. connect repo services input core x.0 x.1 input.users))
              c)
    unfolding Undone
    with_keys_failed core none chosen h = nothing_done h
    with_keys_failed core (some (private_key, public_key)) chosen h =
        let undone =
          connect_failed repo services input core private_key public_key input.users c e h in
        let c' = (connect repo services input core private_key public_key input.users c).1 in
        let (rows, places) = rows_kept core c' u undone.1 in
        (Undone-Restored core c' is_new chosen undone.0, rows, places)

    with_core_failed :
        (chosen : Option ℕ)
        → (select_core (requirement input) c.resources).core ≡ chosen
        → Rest (
            (or_raise chosen no_suitable_core >>= (λ core.
                or_raise services.generate_ssh_key ssh_key
                >>= (λ x. connect repo services input core x.0 x.1 input.users)))
              c)
    with_core_failed none chosen = nothing_done
    with_core_failed (some core) chosen = with_keys_failed core services.generate_ssh_key chosen

  -- If `CreateVM` returns an error, for a UUID that is new to every core and with all free and
  -- requested amounts `uint32` values, then the cores have the free amounts, the VMs and all else that
  -- they had before (an empty map of VMs counts as a nil one), as has the list of the live VMs and the
  -- cache of the places, and the repository holds for every UUID what it held: whichever of the steps
  -- has failed. The repository is any that obeys the laws of `VMRepository`.
  pub create_vm_failed :
      (e : Error) (u : GoString)
      → IsNew input c
      → (create_vm repo services input c).0 ≡ err e
      → let c' = (create_vm repo services input c).1 in
        Restored c.resources c'.resources
        × (info c'.vm_repo u ≡ info c.vm_repo u)
        × (location c'.vm_repo u ≡ location c.vm_repo u)
  unfolding create_vm select_core_or_fail
  create_vm_failed e u is_new h =
      with_core_failed e u is_new (select_core (requirement input) c.resources).core refl h
