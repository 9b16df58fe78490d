-- ===== src/Structure/Control/Find.antt =====
-- `FindCoreByVmUUID` (structure/control_infra.go): its answer, and what it caches.
use kws_control.Common.{
  ℕ, ◌≡◌, ◌<◌, ◌≤◌, refl, sym, subst, ap, ◌∙◌, true, false, Option, none, some, arith, ltb,
  Bool-cases, Option-cases, inl, inr, ◌⊎◌,
}
use kws_control.Common.Lists.{length}
use kws_control.Common.Int.{ℤ, pos, negsuc}
use kws_control.Common.Text.{GoString, str_eq_refl}
use kws_control.Common.Table.{lookup, insert, lookup-insert}
use kws_control.Structure.{VmInfo}
use kws_control.Structure.ResourceManager.{ResourceManager}
use kws_control.Structure.Repository.{VmRepository, Laws}
use kws_control.Structure.Control.{ControlContext, found_location, find_core_by_vm_uuid}

-- Every cached place is the index of a core.
abbrev pub PlacesInRange : ResourceManager → Type 0
PlacesInRange rm = (u : GoString) (k : ℕ) → lookup u rm.vm_location ≡ some k → k < length rm.cores

-- What the search leaves alone.
pub record Untouched {R : Type 0} (c c' : ControlContext R) : Type 0 where
  pub cores : c'.resources.cores ≡ c.resources.cores
  pub alive_vm : c'.resources.alive_vm ≡ c.resources.alive_vm
  pub subnet_db : c'.subnet_db ≡ c.subnet_db
  pub guac_db : c'.guac_db ≡ c.guac_db
  pub last_subnet : c'.last_subnet ≡ c.last_subnet
  pub redis : c'.redis ≡ c.redis
  pub calls : c'.calls ≡ c.calls

-- What a search for the VM has found, and the state behind it.
abbrev pub Found :
    {R : Type 0}
    → VmRepository R
    → (R → GoString → Option ℤ)
    → GoString
    → ControlContext R
    → Option ℕ × ControlContext R
    → Type 0
Found repo location uuid c (some k, c') =
    PlacesInRange c'.resources
    × (k < length c.resources.cores)
    × (lookup uuid c'.resources.vm_location ≡ some k)
    × ((lookup uuid c.resources.vm_location ≡ some k) ⊎ (location c.vm_repo uuid ≡ some (pos k)))
Found repo location uuid c (none, c') =
    (lookup uuid c.resources.vm_location ≡ none)
    × ((k : ℕ)
        → (repo.get_instance_location uuid c.vm_repo).0 ≡ some (pos k)
        → length c.resources.cores ≤ k)
    × (c'.resources ≡ c.resources)

module _ {R : Type 0} (repo : VmRepository R) (uuid : GoString) (c : ControlContext R) where
  pub find-Untouched : Untouched c (find_core_by_vm_uuid repo uuid c).1
  unfolding find_core_by_vm_uuid
  find-Untouched = ground arith

  abbrev cached : R → ℕ → ControlContext R
  cached r k = record c {
    vm_repo = r;
    resources = record (c.resources) { vm_location = insert uuid k c.resources.vm_location };
  }

  location_inside :
      (r : R) (k : ℕ)
      → ltb k (length c.resources.cores) ≡ true
      → found_location repo uuid (record c { vm_repo = r }) (some (pos k)) ≡ (some k, cached r k)
  unfolding found_location
  location_inside r k h = ground arith

  location_outside :
      (r : R) (k : ℕ)
      → ltb k (length c.resources.cores) ≡ false
      → found_location repo uuid (record c { vm_repo = r }) (some (pos k))
        ≡ (none, record c { vm_repo = r })
  unfolding found_location
  location_outside r k h = ground arith

  found_location_repo :
      (c' : ControlContext R) (found : Option ℤ)
      → (found_location repo uuid c' found).1.vm_repo ≡ c'.vm_repo
  unfolding found_location
  found_location_repo c' none = refl
  found_location_repo c' (some z) = ground arith

  -- The search leaves the rows alone.
  pub find_rows :
      (info : R → GoString → Option VmInfo) (location : R → GoString → Option ℤ)
      (laws : Laws repo info location) (u : GoString)
      → let c' = (find_core_by_vm_uuid repo uuid c).1 in
        (info c'.vm_repo u ≡ info c.vm_repo u) × (location c'.vm_repo u ≡ location c.vm_repo u)
  unfolding find_core_by_vm_uuid
  find_rows info location laws u =
      let (found, r) = repo.get_instance_location uuid c.vm_repo in
      let same = found_location_repo (record c { vm_repo = r }) found in
      let (rows, places) = laws.get_location_keeps uuid c.vm_repo u in
      elim (Option-cases (lookup uuid c.resources.vm_location)) [
        | inl missing ↦
            rw (missing, find_core_by_vm_uuid)
              (ap (λ r'. info r' u) same ∙ rows, ap (λ r'. location r' u) same ∙ places)
        | inr (k, there) ↦ rw (there, find_core_by_vm_uuid) (refl, refl)
      ]

  module _ (info : R → GoString → Option VmInfo) (location : R → GoString → Option ℤ)
      (laws : Laws repo info location) (range : PlacesInRange c.resources) where
    -- The query has given a place in range, and the core is cached.
    cached_location :
        (k : ℕ) (r : R)
        → k < length c.resources.cores
        → lookup uuid c.resources.vm_location ≡ none
        → location c.vm_repo uuid ≡ some (pos k)
        → Found repo location uuid c (some k, cached r k)
    cached_location k r lt missing there = (
      λ u j h. ground (arith, h, lookup-insert uuid u k c.resources.vm_location, range u j),
      lt,
      ground (arith, lookup-insert uuid uuid k c.resources.vm_location, str_eq_refl uuid),
      inr there,
    )

    outside_le :
        (k j : ℕ)
        → ltb k (length c.resources.cores) ≡ false
        → some (pos k) ≡ some (pos j)
        → length c.resources.cores ≤ j
    outside_le k j outside e = let same : k ≡ j = cc in ground arith

    located :
        (r : R) (found : Option ℤ)
        → lookup uuid c.resources.vm_location ≡ none
        → (repo.get_instance_location uuid c.vm_repo).0 ≡ found
        → ((z : ℤ) → found ≡ some z → location c.vm_repo uuid ≡ some z)
        → Found repo location uuid c (found_location repo uuid (record c { vm_repo = r }) found)
    unfolding found_location
    located r none missing asked sound = (missing, (λ k e. cc), refl)
    located r (some (negsuc k)) missing asked sound = (missing, (λ j e. cc), refl)
    located r (some (pos k)) missing asked sound =
        elim (Bool-cases (ltb k (length c.resources.cores))) [
          | inl inside ↦
              subst (Found repo location uuid c) (sym (location_inside r k inside))
                (cached_location k r (ground arith) missing (sound (pos k) refl))
          | inr outside ↦
              subst (Found repo location uuid c) (sym (location_outside r k outside))
                (missing, (λ j e. outside_le k j outside (sym asked ∙ e)), refl)
        ]

    -- If the repository keeps its laws and every cached place is that of a core of the list, the search
    -- ends with the index of a core of the list, which is the cached one or the one that the repository
    -- has on record, and which is cached from then on; or with nil, and then the VM is not cached, the
    -- answer of `GetInstanceLocation` is not the index of a core of the list, and the resources are as
    -- before.
    pub find_core-Found : Found repo location uuid c (find_core_by_vm_uuid repo uuid c)
    unfolding find_core_by_vm_uuid
    find_core-Found = elim (Option-cases (lookup uuid c.resources.vm_location)) [
      | inl missing ↦
          rw (missing, find_core_by_vm_uuid)
            (located _ _ missing refl (laws.get_location_sound uuid c.vm_repo))
      | inr (k, there) ↦
          rw (there, find_core_by_vm_uuid) (range, range uuid k there, there, inl there)
    ]
