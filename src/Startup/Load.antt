-- ===== src/Startup/Load.antt =====
-- The loading of the instances (startup/init.go): the maps of the cores and the cache of places.
use kws_control.Common.{
  ℕ, ◌<◌, ◌≡◌, ◌≢◌, refl, ap, sym, subst, ◌∙◌, inl, inr, ◌⊎◌, false, none, some, List, [], ◌∷◌,
  arith, Bool-cases, Option-cases, ltb,
}
use kws_control.Common.Lists.{
  length, modify, get_elem?, All, length-modify, get_elem?-lt, get_elem?_total,
}
use kws_control.Common.Int.{ℤ, pos, negsuc}
use kws_control.Common.Text.{GoString}
use kws_control.Common.Table.{lookup, insert, entries}
use kws_control.Structure.{Core, VmInfo}
use kws_control.Structure.ResourceManager.{ResourceManager}
use kws_control.Startup.Places.{
  Holds, PlacesHold, VmAt, with_vm-Holds, with_vm-from, with_vm-vm, with_vm-PlacesHold,
}
use kws_control.Startup.{put_vm, load_on, load_one, load_instances}

-- A row of the repository is on its core.
abbrev pub IsLoaded : ResourceManager → VmInfo × ℤ → Type 0
IsLoaded rm (vm, z) = (k : ℕ) × (z ≡ pos k) × Holds rm vm.uuid k

-- The list has a row of that UUID, VM and index.
abbrev pub IsRow : GoString → ℕ → VmInfo → List (VmInfo × ℤ) → Type 0
IsRow u k vm [] = ⊥
IsRow u k vm (row ∷ rows) = ((u ≡ vm.uuid) × (row.0 ≡ vm) × (row.1 ≡ pos k)) ⊎ IsRow u k vm rows

-- Every VM on a core is that of a row, or was there before.
abbrev pub FromRows : ResourceManager → List (VmInfo × ℤ) → ResourceManager → Type 0
FromRows rm rows rm' =
    (u : GoString) (k : ℕ) (vm : VmInfo) → VmAt rm' u k vm → VmAt rm u k vm ⊎ IsRow u k vm rows

-- The manager after a new row
abbrev with_row : VmInfo → ℕ → ResourceManager → ResourceManager
with_row vm k rm = record rm {
  cores = modify rm.cores k (put_vm vm);
  vm_location = insert vm.uuid k rm.vm_location;
}

-- What a round of the loop has done.
record Step (rm : ResourceManager) (row : VmInfo × ℤ) (rm' : ResourceManager) : Type 0 where
  kept : (u : GoString) (j : ℕ) → Holds rm u j → Holds rm' u j
  loaded : IsLoaded rm' row
  places : PlacesHold rm → PlacesHold rm'
  from : FromRows rm (row ∷ []) rm'
  alive_vm : rm'.alive_vm ≡ rm.alive_vm

load_on_new :
    (vm : VmInfo) (k : ℕ) (core : Core) (rm : ResourceManager)
    → lookup vm.uuid (entries core.vm_info_idx) ≡ none
    → load_on vm k (some core) rm ≡ some (with_row vm k rm)
unfolding load_on
load_on_new vm k core rm missing = rw (missing, load_on) refl

load_on_old :
    (vm old : VmInfo) (k : ℕ) (core : Core) (rm : ResourceManager)
    → lookup vm.uuid (entries core.vm_info_idx) ≡ some old
    → load_on vm k (some core) rm ≡ some rm
unfolding load_on
load_on_old vm old k core rm there = rw (there, load_on) refl

with_row-Step :
    (vm : VmInfo) (k : ℕ) (rm : ResourceManager) (core : Core)
    → get_elem? rm.cores k ≡ some core
    → Step rm (vm, pos k) (with_row vm k rm)
with_row-Step vm k rm core at = record {
  kept = with_vm-Holds (put_vm vm) vm (λ core. refl) k rm;
  loaded = (k, refl, with_vm-vm (put_vm vm) vm (λ core. refl) k rm core at);
  places = with_vm-PlacesHold (put_vm vm) vm (λ core. refl) k rm core at;
  from = λ u j w h. elim (with_vm-from (put_vm vm) vm (λ core. refl) k rm core at u j w h) [
    | inl old ↦ inl old
    | inr (key, value, place) ↦
        inr (inl (key ∙ ap (λ v. v.uuid) (sym value), sym value, ap pos (sym place)))
  ];
  alive_vm = refl;
}

some-injective : (a b : ResourceManager) → some a ≡ some b → a ≡ b
some-injective a b e = cc

load_on-Step :
    (vm : VmInfo) (k : ℕ) (core : Core) (rm rm' : ResourceManager)
    → get_elem? rm.cores k ≡ some core
    → load_on vm k (some core) rm ≡ some rm'
    → Step rm (vm, pos k) rm'
load_on-Step vm k core rm rm' at h =
    elim (Option-cases (lookup vm.uuid (entries core.vm_info_idx))) [
      | inl missing ↦
          subst (Step rm (vm, pos k))
            (some-injective _ rm' (sym (load_on_new vm k core rm missing) ∙ h))
            (with_row-Step vm k rm core at)
      | inr (old, there) ↦
          subst (Step rm (vm, pos k))
            (some-injective rm rm' (sym (load_on_old vm old k core rm there) ∙ h))
            (record {
              kept = λ u j holds. holds;
              loaded = (k, refl, record { core = core; vm = old; at = at; there = there });
              places = λ places. places;
              from = λ u j w h. inl h;
              alive_vm = refl;
            })
    ]

load_one_inside :
    (vm : VmInfo) (k : ℕ) (rm : ResourceManager) (core : Core)
    → get_elem? rm.cores k ≡ some core
    → load_one (vm, pos k) rm ≡ load_on vm k (some core) rm
unfolding load_one
load_one_inside vm k rm core at = ground (arith, get_elem?-lt rm.cores k core at)

load_one_outside :
    (vm : VmInfo) (k : ℕ) (rm : ResourceManager)
    → ltb k (length rm.cores) ≡ false
    → load_one (vm, pos k) rm ≡ none
unfolding load_one
load_one_outside vm k rm out = ground arith

load_one_negative :
    (vm : VmInfo) (k : ℕ) (rm rm' : ResourceManager) → load_one (vm, negsuc k) rm ≢ some rm'
unfolding load_one
load_one_negative vm k rm rm' h = cc

load_one-Step :
    (row : VmInfo × ℤ) (rm rm' : ResourceManager) → load_one row rm ≡ some rm' → Step rm row rm'
load_one-Step (vm, negsuc k) rm rm' h = absurd (load_one_negative vm k rm rm' h)
load_one-Step (vm, pos k) rm rm' h = elim (Bool-cases (ltb k (length rm.cores))) [
  | inl inside ↦
      let (core, at) = get_elem?_total rm.cores k (ground arith) in
      load_on-Step vm k core rm rm' at (sym (load_one_inside vm k rm core at) ∙ h)
  | inr outside ↦ let stopped = load_one_outside vm k rm outside in absurd (cc)
]

load_instances-Holds :
    (rows : List (VmInfo × ℤ)) (rm rm' : ResourceManager)
    → load_instances rows rm ≡ some rm'
    → (PlacesHold rm → PlacesHold rm')
      × ((u : GoString) (j : ℕ) → Holds rm u j → Holds rm' u j)
      × All (IsLoaded rm') rows
      × FromRows rm rows rm'
      × (rm'.alive_vm ≡ rm.alive_vm)
unfolding load_instances
load_instances-Holds [] rm rm' h =
    let same : rm ≡ rm' = cc in
    (
      subst PlacesHold same,
      (λ u j. subst (λ m. Holds m u j) same),
      tt,
      (λ u k vm h. inl (subst (λ m. VmAt m u k vm) (sym same) h)),
      ap (λ m. m.alive_vm) (sym same),
    )
load_instances-Holds (row ∷ rows) rm rm' h = elim (Option-cases (load_one row rm)) [
  | inl refused ↦ absurd (ground arith)
  | inr (rm1, done) ↦
      let step = load_one-Step row rm rm1 done in
      let (places, kept, loaded, from, alive) = load_instances-Holds rows rm1 rm' (ground arith) in
      let (k, index, holds) = step.loaded in
      (
        (λ p. places (step.places p)),
        (λ u j p. kept u j (step.kept u j p)),
        ((k, index, kept row.0.uuid k holds), loaded),
        (λ u j vm h. elim (from u j vm h) [
          | inl before ↦ elim (step.from u j vm before) [
            | inl old ↦ inl old
            | inr (inl here) ↦ inr (inl here)
            | inr (inr impossible) ↦ absurd impossible
          ]
          | inr there ↦ inr (inr there)
        ]),
        alive ∙ step.alive_vm,
      )
]

-- If the loading of the instances ends well, then the core of every row's index has a VM under the
-- row's UUID; every VM that a core has under a UUID is, with all its fields, that of a row of this
-- UUID and index, or was there before; and every cached place is a core that has the VM, if that held
-- before, as it does of an empty cache. The list of the live VMs is as before: the loaded VMs are not
-- in it.
pub load_instances-IsLoaded :
    (rows : List (VmInfo × ℤ)) (rm rm' : ResourceManager)
    → PlacesHold rm
    → load_instances rows rm ≡ some rm'
    → PlacesHold rm' × All (IsLoaded rm') rows × FromRows rm rows rm' × (rm'.alive_vm ≡ rm.alive_vm)
load_instances-IsLoaded rows rm rm' places h =
    let (holds, _, loaded, from, alive) = load_instances-Holds rows rm rm' h in
    (holds places, loaded, from, alive)

-- The index of the row is that of one of `n` cores.
abbrev pub InRange : ℕ → VmInfo × ℤ → Type 0
InRange n (vm, z) = (k : ℕ) × (z ≡ pos k) × (k < n)

load_one-InRange :
    (row : VmInfo × ℤ) (rm : ResourceManager)
    → InRange (length rm.cores) row
    → (rm' : ResourceManager) × (load_one row rm ≡ some rm') × (length rm'.cores ≡ length rm.cores)
load_one-InRange (vm, negsuc i) rm (k, e, h) = cc
load_one-InRange (vm, pos i) rm (k, e, h) =
    let (core, at) = get_elem?_total rm.cores i (ground arith) in
    elim (Option-cases (lookup vm.uuid (entries core.vm_info_idx))) [
      | inl missing ↦ (
        with_row vm i rm,
        load_one_inside vm i rm core at ∙ load_on_new vm i core rm missing,
        length-modify rm.cores i (put_vm vm),
      )
      | inr (old, there) ↦
          (rm, load_one_inside vm i rm core at ∙ load_on_old vm old i core rm there, refl)
    ]

-- The loading ends well if the index of every row is that of a core.
pub load_instances-InRange :
    (rows : List (VmInfo × ℤ)) (rm : ResourceManager)
    → All (InRange (length rm.cores)) rows
    → (rm' : ResourceManager) × (load_instances rows rm ≡ some rm')
unfolding load_instances
load_instances-InRange [] rm h = (rm, refl)
load_instances-InRange (row ∷ rows) rm (first, h) =
    let (rm1, done, same) = load_one-InRange row rm first in
    let (rm', all) =
      load_instances-InRange rows rm1 (subst (λ n. All (InRange n) rows) (sym same) h) in
    (rm', rw (done, load_instances) all)
