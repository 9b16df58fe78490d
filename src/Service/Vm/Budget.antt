-- ===== src/Service/Vm/Budget.antt =====
-- What `CreateVM` (service/vm.go) does to the sums of free and used amounts of the cores.
use kws_control.Common.{◌≡◌, ◌≢◌, refl, ap, sym, subst, ◌∙◌, List, [], ◌∷◌, map, Option, none}
use kws_control.Common.Int.{ℤ}
use kws_control.Common.Lists.{All, All-get_elem?}
use kws_control.Common.Text.{GoString}
use kws_control.Common.Table.{lookup, entries}
use kws_control.Structure.{Core, VmInfo}
use kws_control.Structure.ResourceManager.{allocate_resources}
use kws_control.Structure.ResourceManager.Allocate.{IsWord, budget, made_map, allocate-select_core}
use kws_control.Structure.Repository.{VmRepository, Laws}
use kws_control.Structure.Control.{ControlContext}
use kws_control.Service.Action.{Outcome, ok, err, panic, Services, CreateVmInput}
use kws_control.Service.Vm.{create_vm, requirement, new_vm}
use kws_control.Service.Vm.Create.{IsNew, selected_core, create_vm_failed}
use kws_control.Service.Vm.Created.{IsCreated, create_vm-IsCreated}

-- The sums of the cores are kept, and their free amounts are `uint32` values.
abbrev pub Balanced : List Core → List Core → Type 0
Balanced before after = (map budget after ≡ map budget before) × All IsWord after

budget-made_map : (cores : List Core) → map budget (map made_map cores) ≡ map budget cores
budget-made_map [] = refl
budget-made_map (core ∷ cores) = ap (◌∷◌ (budget core)) (budget-made_map cores)

words_made : (cores : List Core) → All IsWord cores → All IsWord (map made_map cores)
words_made [] h = tt
words_made (core ∷ cores) (w, h) =
    (record { memory = w.memory; cpu = w.cpu; disk = w.disk }, words_made cores h)

words_unmade : (cores : List Core) → All IsWord (map made_map cores) → All IsWord cores
words_unmade [] h = tt
words_unmade (core ∷ cores) (w, h) =
    (record { memory = w.memory; cpu = w.cpu; disk = w.disk }, words_unmade cores h)

made_map-Balanced :
    (before after : List Core)
    → map made_map after ≡ map made_map before
    → All IsWord before
    → Balanced before after
made_map-Balanced before after same words = (
  sym (budget-made_map after) ∙ ap (map budget) same ∙ budget-made_map before,
  words_unmade after (subst (All IsWord) (sym same) (words_made before words)),
)

module _ {R : Type 0} (repo : VmRepository R) (services : Services) (input : CreateVmInput)
    (info : R → GoString → Option VmInfo) (location : R → GoString → Option ℤ)
    (laws : Laws repo info location) (c : ControlContext R) where
  IsCreated-Balanced :
      (c' : ControlContext R)
      → IsCreated repo services input info location laws c c'
      → IsNew input c
      → Balanced c.resources.cores c'.resources.cores
  unfolding allocate_resources
  IsCreated-Balanced c' made new =
      let req = requirement input in
      let (core, at) = selected_core req c.resources made.core made.chosen in
      let absent =
        All-get_elem? (λ (core : Core). lookup input.uuid (entries core.vm_info_idx) ≡ none)
          c.resources.cores made.core core at new.absent in
      subst (Balanced c.resources.cores) (sym made.cores) (
        allocate-select_core input.uuid (new_vm input made.resp made.pass) req c.resources made.core
          core made.chosen at absent new.words (record { memory = refl; cpu = refl; disk = refl }))

  budget_by_outcome :
      (o : Outcome (Unit {0}))
      → (create_vm repo services input c).0 ≡ o
      → o ≢ panic
      → IsNew input c
      → Balanced c.resources.cores (create_vm repo services input c).1.resources.cores
  budget_by_outcome (ok tt) e calm new =
      IsCreated-Balanced _ (create_vm-IsCreated repo services input info location laws c e) new
  budget_by_outcome (err x) e calm new =
      made_map-Balanced _ _
        (create_vm_failed repo services input info location laws c x [] new e).0.cores new.words
  budget_by_outcome panic e calm new = absurd (calm refl)

  -- A `CreateVM` that does not panic, with an error or without, keeps for every core the sums of what
  -- is free and what the VMs in its map use of memory, processors and disk, and the free amounts stay
  -- `uint32` values: if the UUID is new to every core, and the free amounts and those asked for are
  -- `uint32` values. The repository is any that obeys the laws of `VMRepository`.
  pub create_vm-Balanced :
      (create_vm repo services input c).0 ≢ panic
      → IsNew input c
      → Balanced c.resources.cores (create_vm repo services input c).1.resources.cores
  create_vm-Balanced calm new = budget_by_outcome _ refl calm new
