-- ===== src/Startup/Places.antt =====
-- The cache of places and the maps of the cores (structure/resource_manager.go, startup/init.go).
use kws_control.Common.{
  if◌then◌else◌, ℕ, ◌≡◌, ap, sym, subst, ◌∙◌, inl, inr, some, arith, ◌==◌, ==_iff, Bool-cases, ◌⊎◌,
}
use kws_control.Common.Lists.{modify, get_elem?, get_elem?-modify_self, get_elem?-modify_ne}
use kws_control.Common.Text.{GoString, str_eq, str_eq_iff, str_eq_refl}
use kws_control.Common.Table.{lookup, insert, entries, lookup-insert}
use kws_control.Structure.{Core, VmInfo}
use kws_control.Structure.ResourceManager.{ResourceManager}

-- The core has a VM of that UUID.
pub record Holds (rm : ResourceManager) (uuid : GoString) (k : ℕ) : Type 0 where
  pub core : Core
  pub vm : VmInfo
  pub at : get_elem? rm.cores k ≡ some core
  pub there : lookup uuid (entries core.vm_info_idx) ≡ some vm

-- Every cached place is a core that has the VM.
abbrev pub PlacesHold : ResourceManager → Type 0
PlacesHold rm = (u : GoString) (k : ℕ) → lookup u rm.vm_location ≡ some k → Holds rm u k

-- The core `k` has this VM under the UUID.
abbrev pub VmAt : ResourceManager → GoString → ℕ → VmInfo → Type 0
VmAt rm uuid k vm =
    (core : Core) × (get_elem? rm.cores k ≡ some core)
    × (lookup uuid (entries core.vm_info_idx) ≡ some vm)

-- A write of the VM into a core's map, whatever else it does to the core
module _ (f : Core → Core) (vm : VmInfo)
    (puts : (core : Core)
      → (f core).vm_info_idx ≡ some (insert vm.uuid vm (entries core.vm_info_idx))) where
  -- The manager after it
  abbrev pub with_vm : ℕ → ResourceManager → ResourceManager
  with_vm k rm = record rm {
    cores = modify rm.cores k f;
    vm_location = insert vm.uuid k rm.vm_location;
  }

  lookup-puts :
      (core : Core) (u : GoString)
      → lookup u (entries (f core).vm_info_idx)
        ≡ (if str_eq vm.uuid u then some vm else lookup u (entries core.vm_info_idx))
  lookup-puts core u =
      ap (λ m. lookup u (entries m)) (puts core)
      ∙ lookup-insert vm.uuid u vm (entries core.vm_info_idx)

  lookup_kept :
      (core : Core) (u : GoString) (old : VmInfo)
      → lookup u (entries core.vm_info_idx) ≡ some old
      → (new : VmInfo) × (lookup u (entries (f core).vm_info_idx) ≡ some new)
  lookup_kept core u old h = elim (Bool-cases (str_eq vm.uuid u)) [
    | inl same ↦ (vm, ground (arith, lookup-puts core u))
    | inr other ↦ (old, ground (arith, lookup-puts core u))
  ]

  pub with_vm-Holds :
      (k : ℕ) (rm : ResourceManager) (u : GoString) (j : ℕ)
      → Holds rm u j
      → Holds (with_vm k rm) u j
  with_vm-Holds k rm u j h = elim (Bool-cases (k == j)) [
    | inl e ↦
        let same : k ≡ j = (==_iff k j).0 e in
        let (new, found) = lookup_kept h.core u h.vm h.there in
        record {
          core = f h.core;
          vm = new;
          at =
              subst (λ i. get_elem? (modify rm.cores i f) j ≡ some (f h.core)) (sym same)
                (get_elem?-modify_self rm.cores j f h.core h.at);
          there = found;
        }
    | inr ne ↦ record {
      core = h.core;
      vm = h.vm;
      at = get_elem?-modify_ne rm.cores k j f (λ e. ground (arith, ==_iff k j)) ∙ h.at;
      there = h.there;
    }
  ]

  pub with_vm-vm :
      (k : ℕ) (rm : ResourceManager) (core : Core)
      → get_elem? rm.cores k ≡ some core
      → Holds (with_vm k rm) vm.uuid k
  with_vm-vm k rm core at = record {
    core = f core;
    vm = vm;
    at = get_elem?-modify_self rm.cores k f core at;
    there = ground (arith, lookup-puts core vm.uuid, str_eq_refl vm.uuid);
  }

  pub with_vm-PlacesHold :
      (k : ℕ) (rm : ResourceManager) (core : Core)
      → get_elem? rm.cores k ≡ some core
      → PlacesHold rm
      → PlacesHold (with_vm k rm)
  with_vm-PlacesHold k rm core at places u j h = elim (Bool-cases (str_eq vm.uuid u)) [
    | inl same ↦
        let key : vm.uuid ≡ u = (str_eq_iff vm.uuid u).0 same in
        let place : k ≡ j = ground (arith, lookup-insert vm.uuid u k rm.vm_location) in
        subst (λ i. Holds (with_vm k rm) u i) place
          (subst (λ v. Holds (with_vm k rm) v k) key (with_vm-vm k rm core at))
    | inr other ↦
        with_vm-Holds k rm u j
          (places u j (ground (arith, lookup-insert vm.uuid u k rm.vm_location)))
  ]

  put_from :
      (core : Core) (u : GoString) (w : VmInfo)
      → lookup u (entries (f core).vm_info_idx) ≡ some w
      → (lookup u (entries core.vm_info_idx) ≡ some w) ⊎ ((u ≡ vm.uuid) × (w ≡ vm))
  put_from core u w h = elim (Bool-cases (str_eq vm.uuid u)) [
    | inl same ↦ inr (sym ((str_eq_iff vm.uuid u).0 same), ground (arith, lookup-puts core u))
    | inr other ↦ inl (ground (arith, lookup-puts core u))
  ]

  -- A VM on a core after the write is the one that is written, or was there before.
  pub with_vm-from :
      (k : ℕ) (rm : ResourceManager) (core : Core)
      → get_elem? rm.cores k ≡ some core
      → (u : GoString) (j : ℕ) (w : VmInfo) → VmAt (with_vm k rm) u j w
      → VmAt rm u j w ⊎ ((u ≡ vm.uuid) × (w ≡ vm) × (j ≡ k))
  with_vm-from k rm core at u j w (new, there, h) = elim (Bool-cases (k == j)) [
    | inl e ↦
        let same : k ≡ j = (==_iff k j).0 e in
        let here =
          subst (λ i. get_elem? (modify rm.cores k f) i ≡ some (f core)) same
            (get_elem?-modify_self rm.cores k f core at) in
        let written : new ≡ f core = cc in
        elim (put_from core u w
          (subst (λ (c : Core). lookup u (entries c.vm_info_idx) ≡ some w) written h)) [
            | inl old ↦ inl (core, subst (λ i. get_elem? rm.cores i ≡ some core) same at, old)
            | inr (key, value) ↦ inr (key, value, sym same)
          ]
    | inr ne ↦
        inl (
          new,
          sym (get_elem?-modify_ne rm.cores k j f (λ e. ground (arith, ==_iff k j))) ∙ there,
          h,
        )
  ]
