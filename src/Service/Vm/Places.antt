-- ===== src/Service/Vm/Places.antt =====
-- `CreateVM` (service/vm.go) and the cache of places.
use kws_control.Common.{
  ℕ, zero, suc, ◌≡◌, ◌≢◌, refl, ap, sym, ◌∙◌, Option, some, List, [], ◌∷◌, map,
}
use kws_control.Common.Lists.{get_elem?}
use kws_control.Common.Int.{ℤ}
use kws_control.Common.Text.{GoString}
use kws_control.Common.Table.{lookup, entries}
use kws_control.Structure.{Core, VmInfo}
use kws_control.Structure.ResourceManager.{ResourceManager, take_resources}
use kws_control.Structure.ResourceManager.Allocate.{made_map}
use kws_control.Structure.Repository.{VmRepository, Laws}
use kws_control.Structure.Control.{ControlContext}
use kws_control.Startup.Places.{Holds, PlacesHold, with_vm, with_vm-PlacesHold}
use kws_control.Service.Action.{Outcome, ok, err, panic, Services, CreateVmInput}
use kws_control.Service.Vm.{create_vm, requirement, new_vm}
use kws_control.Service.Vm.Create.{IsNew, Restored, selected_core, create_vm_failed}
use kws_control.Service.Vm.Created.{IsCreated, create_vm-IsCreated}

get_elem?-map :
    {A B : Type 0} (f : A → B) (xs : List A) (k : ℕ) (y : B)
    → get_elem? (map f xs) k ≡ some y
    → (x : A) × (get_elem? xs k ≡ some x) × (f x ≡ y)
get_elem?-map f [] k y h = cc
get_elem?-map f (x ∷ xs) zero y h = (x, refl, cc)
get_elem?-map f (x ∷ xs) (suc k) y h = get_elem?-map f xs k y h

map-get_elem? :
    {A B : Type 0} (f : A → B) (xs : List A) (k : ℕ) (x : A)
    → get_elem? xs k ≡ some x
    → get_elem? (map f xs) k ≡ some (f x)
map-get_elem? f [] k x h = cc
map-get_elem? f (y ∷ ys) zero x h = cc
map-get_elem? f (y ∷ ys) (suc k) x h = map-get_elem? f ys k x h

Restored-Holds :
    (rm rm' : ResourceManager) (u : GoString) (k : ℕ)
    → Restored rm rm'
    → Holds rm u k
    → Holds rm' u k
Restored-Holds rm rm' u k same h =
    let made = map-get_elem? made_map rm.cores k h.core h.at in
    let (core, at, e) =
      get_elem?-map made_map rm'.cores k (made_map h.core)
        (ap (λ cores. get_elem? cores k) same.cores ∙ made) in
    record {
      core = core;
      vm = h.vm;
      at = at;
      there = ap (λ (c : Core). lookup u (entries c.vm_info_idx)) e ∙ h.there;
    }

Restored-PlacesHold : (rm rm' : ResourceManager) → Restored rm rm' → PlacesHold rm → PlacesHold rm'
Restored-PlacesHold rm rm' same places u k h =
    Restored-Holds rm rm' u k same (places u k (ap (lookup u) (sym same.vm_location) ∙ h))

-- The maps are those of the cores alone.
Holds_on :
    (rm rm' : ResourceManager) (u : GoString) (k : ℕ)
    → rm'.cores ≡ rm.cores
    → Holds rm u k
    → Holds rm' u k
Holds_on rm rm' u k e h = record {
  core = h.core;
  vm = h.vm;
  at = ap (λ cores. get_elem? cores k) e ∙ h.at;
  there = h.there;
}

module _ {R : Type 0} (repo : VmRepository R) (services : Services) (input : CreateVmInput)
    (info : R → GoString → Option VmInfo) (location : R → GoString → Option ℤ)
    (laws : Laws repo info location) (c : ControlContext R) where
  IsCreated-PlacesHold :
      (c' : ControlContext R)
      → IsCreated repo services input info location laws c c'
      → PlacesHold c.resources
      → PlacesHold c'.resources
  IsCreated-PlacesHold c' made places =
      let vm = new_vm input made.resp made.pass in
      let (core, at) = selected_core (requirement input) c.resources made.core made.chosen in
      let new =
        with_vm-PlacesHold (take_resources input.uuid vm (requirement input)) vm (λ core. refl)
          made.core c.resources core at places in
      λ u k h.
        Holds_on
          (with_vm (take_resources input.uuid vm (requirement input)) vm (λ core. refl) made.core
            c.resources)
          c'.resources u k made.cores (new u k (ap (lookup u) (sym made.vm_location) ∙ h))

  by_outcome :
      (o : Outcome (Unit {0}))
      → (create_vm repo services input c).0 ≡ o
      → o ≢ panic
      → IsNew input c
      → PlacesHold c.resources
      → PlacesHold (create_vm repo services input c).1.resources
  by_outcome (ok tt) e calm new places =
      IsCreated-PlacesHold _ (create_vm-IsCreated repo services input info location laws c e) places
  by_outcome (err x) e calm new places =
      Restored-PlacesHold _ _
        ((create_vm_failed repo services input info location laws c x [] new e).0) places
  by_outcome panic e calm new places = absurd (calm refl)

  -- If every cached place is a core that has the VM, then so it is after a `CreateVM` that returns,
  -- with an error or without, for a UUID that is new to every core and `uint32` amounts. The
  -- repository is any that obeys the laws of `VMRepository`.
  pub create_vm-PlacesHold :
      (create_vm repo services input c).0 ≢ panic
      → IsNew input c
      → PlacesHold c.resources
      → PlacesHold (create_vm repo services input c).1.resources
  create_vm-PlacesHold calm new places = by_outcome _ refl calm new places
