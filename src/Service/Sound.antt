-- ===== src/Service/Sound.antt =====
-- The service layer (service/*.go) on sound resources: the search for the core of a VM.
pub mod Vm
pub mod Create
pub mod Calls
pub mod Calm
use kws_control.Common.{
  ℕ, ◌≡◌, ◌<◌, refl, sym, subst, ap, ◌∙◌, true, false, Option, none, some, arith, inl, inr, ltb,
  Bool-cases, Option-cases, if◌then◌else◌, List,
}
use kws_control.Common.Lists.{length}
use kws_control.Common.Int.{ℤ, pos, negsuc}
use kws_control.Common.Text.{GoString}
use kws_control.Common.Table.{lookup, insert}
use kws_control.Structure.ResourceManager.{ResourceManager}
use kws_control.Structure.Repository.{VmRepository}
use kws_control.Structure.Control.{ControlContext, index_in, found_location, find_core_by_vm_uuid}
use kws_control.Structure.Control.Sound.{Identity, Sound, length-Sound, place-Sound}
use kws_control.Service.Action.{vm_not_found, Services, Action, ok, pure, ◌>>=◌, ◌>>◌, or_raise}
use kws_control.Service.Vm.{core_of}
use kws_control.Service.Preserve.{Keeps, Any, bind_keeps, or_raise_keeps}

index_inside : (n : ℕ) (z : ℤ) (k : ℕ) → index_in n z ≡ some k → k < n
index_inside n (negsuc i) k h = cc
index_inside n (pos i) k h = elim (Bool-cases (ltb i n)) [
  | inl inside ↦ ground arith
  | inr outside ↦ ground arith
]

module _ {R : Type 0} (identities : List Identity) (repo : VmRepository R) where
  -- Sound resources after a search, and an index within the list
  abbrev Inside : Option ℕ × ControlContext R → Type 0
  Inside (found, c) =
      Sound identities c.resources × ((k : ℕ) → found ≡ some k → k < length identities)

  found-Inside :
      (uuid : GoString) (c : ControlContext R) (found : Option ℤ)
      → Sound identities c.resources
      → Inside (found_location repo uuid c found)
  unfolding found_location
  found-Inside uuid c none s = (s, λ k h. cc)
  found-Inside uuid c (some z) s = by_index (index_in (length c.resources.cores) z) refl
    where
      by_index :
          (o : Option ℕ)
          → index_in (length c.resources.cores) z ≡ o
          → Inside (elim o [
            | none ↦ (none, c)
            | some k ↦
                let located = record (c.resources) {
                  vm_location = insert uuid k c.resources.vm_location;
                } in
                (some k, record c { resources = located })
          ])
      by_index none e = (s, λ k h. cc)
      by_index (some k) e =
          let inside : k < length identities =
            subst (λ n. k < n) (length-Sound identities c.resources s)
              (index_inside (length c.resources.cores) z k e) in
          (
            place-Sound identities c.resources s uuid k c.resources.alive_vm inside,
            λ j h. let same : k ≡ j = cc in subst (λ i. i < length identities) same inside,
          )

  find-Inside :
      (uuid : GoString) (c : ControlContext R)
      → Sound identities c.resources
      → Inside (find_core_by_vm_uuid repo uuid c)
  unfolding find_core_by_vm_uuid
  find-Inside uuid c s = by_cache (lookup uuid c.resources.vm_location) refl
    where
      by_cache :
          (o : Option ℕ)
          → lookup uuid c.resources.vm_location ≡ o
          → Inside (elim o [
            | some k ↦ (some k, c)
            | none ↦
                let (found, r) = repo.get_instance_location uuid c.vm_repo in
                found_location repo uuid (record c { vm_repo = r }) found
          ])
      by_cache none e = found-Inside uuid _ _ s
      by_cache (some k) e = (
        s,
        λ j h.
            let same : k ≡ j = cc in
            subst (λ i. i < length identities) same
              (subst (λ n. k < n) (length-Sound identities c.resources s) (s.in_range uuid k e)),
      )

  abbrev pub Index : ℕ → Type 0
  Index k = k < length identities

  -- The call of `FindCoreByVmUUID`
  abbrev pub find : GoString → Action R (Option ℕ)
  find uuid c = let (found, c') = find_core_by_vm_uuid repo uuid c in (ok found, c')

  pub find_keeps :
      (uuid : GoString)
      → Keeps R (Sound identities) (find uuid) (λ o. (k : ℕ) → o ≡ some k → Index k)
  unfolding Keeps
  find_keeps uuid c s =
      let (sound, inside) = find-Inside uuid c s in
      (sound, λ o h k e. inside k (let same : (find_core_by_vm_uuid repo uuid c).0 ≡ o = cc in cc))

  pub core_of_keeps :
      (services : Services) (uuid : GoString)
      → Keeps R (Sound identities) (core_of repo services uuid) Index
  unfolding core_of
  core_of_keeps services uuid =
      bind_keeps R (Sound identities) (find uuid) (λ core. or_raise core vm_not_found)
        (λ o. (k : ℕ) → o ≡ some k → Index k) Index (find_keeps uuid)
        (λ o inside. or_raise_keeps R (Sound identities) o vm_not_found Index inside)
