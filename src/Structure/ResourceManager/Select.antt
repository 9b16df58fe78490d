-- ===== src/Structure/ResourceManager/Select.antt =====
-- What `SelectCore` (structure/resource_manager.go) returns: the first live core with room, or
-- none, with the counts that the log prints.
use kws_control.Common.{
  ap, subst, ℕ, zero, suc, ◌+◌, ◌≤◌, ◌≡◌, refl, ◌⊎◌, inl, inr, true, false, some, List, [], ◌∷◌,
  arith, Bool-cases, none, if◌then◌else◌,
}
use kws_control.Common.Lists.{length, get_elem?, take, All}
use kws_control.Common.Int.{pos, minus_one}
use kws_control.Structure.{Core}
use kws_control.Structure.ResourceManager.{
  ResourceManager, HardwareRequirement, CoreSelectionResult, no_core, fits, select_loop,
  select_core,
}

-- A live core with enough free memory, processors and disk.
abbrev pub HasRoom : HardwareRequirement → Core → Type 0
HasRoom req core =
    (core.is_alive ≡ true)
    × (req.memory ≤ core.free_memory)
    × (req.cpu ≤ core.free_cpu)
    × (req.disk ≤ core.free_disk)

abbrev pub alive_among : List Core → ℕ
alive_among [] = 0
alive_among (core ∷ rest) = (if core.is_alive then 1 else 0) + alive_among rest

-- The search from the core at hand, whose index is `i`, with the result so far.
abbrev Searched :
    HardwareRequirement → CoreSelectionResult → ℕ → List Core → CoreSelectionResult → Type 0
Searched req start i cores result =
    ((k : ℕ) × (core : Core) × (get_elem? cores k ≡ some core)
      × HasRoom req core
      × All (λ c. ¬ HasRoom req c) (take k cores)
      × (result ≡ record {
        core = some (i + k);
        index = pos (i + k);
        alive_count = start.alive_count + alive_among (take (suc k) cores);
        total_cores = start.total_cores;
      }))
    ⊎ (All (λ c. ¬ HasRoom req c) cores
        × (result ≡ record {
          core = start.core;
          index = start.index;
          alive_count = start.alive_count + alive_among cores;
          total_cores = start.total_cores;
        }))

dead-full : (req : HardwareRequirement) (c : Core) → c.is_alive ≡ false → ¬ HasRoom req c
dead-full req c dead room = cc

fits-HasRoom :
    (req : HardwareRequirement) (c : Core) → c.is_alive ≡ true → fits req c ≡ true → HasRoom req c
fits-HasRoom req c alive h = ground arith

unfit-full : (req : HardwareRequirement) (c : Core) → fits req c ≡ false → ¬ HasRoom req c
unfit-full req c h room = ground arith

-- One more core at the front that is passed over, with `n` more live cores counted.
pass_over :
    (req : HardwareRequirement) (start next result : CoreSelectionResult) (i n : ℕ) (c : Core)
    (cores : List Core)
    → ¬ HasRoom req c
    → (if c.is_alive then 1 else 0) ≡ n
    → next ≡ record start { alive_count = start.alive_count + n }
    → Searched req next (suc i) cores result
    → Searched req start i (c ∷ cores) result
pass_over req start next result i n c cores full e counted (inl (k, d, at, room, before, r)) =
    inl (suc k, d, at, room, (full, before), ground arith)
pass_over req start next result i n c cores full e counted (inr (all_full, r)) =
    inr ((full, all_full), ground arith)

abbrev counted : CoreSelectionResult → CoreSelectionResult
counted start = record start { alive_count = start.alive_count + 1 }

-- The three ways through the body of the loop.
module _ (req : HardwareRequirement) (start : CoreSelectionResult) (i : ℕ) (c : Core)
    (cores : List Core) where
  select_loop_dead :
      c.is_alive ≡ false → select_loop req start i (c ∷ cores) ≡ select_loop req start (suc i) cores
  unfolding select_loop
  select_loop_dead dead = rw dead

  select_loop_full :
      c.is_alive ≡ true
      → fits req c ≡ false
      → select_loop req start i (c ∷ cores) ≡ select_loop req (counted start) (suc i) cores
  unfolding select_loop
  select_loop_full alive full = ground arith

  select_loop_hit :
      c.is_alive ≡ true
      → fits req c ≡ true
      → select_loop req start i (c ∷ cores)
        ≡ record (counted start) { core = some i; index = pos i }
  unfolding select_loop
  select_loop_hit alive hit = ground arith

select_loop-Searched :
    (req : HardwareRequirement) (start : CoreSelectionResult) (i : ℕ) (cores : List Core)
    → Searched req start i cores (select_loop req start i cores)
select_loop-Searched req start i [] = inr (tt, unfold select_loop in ground arith)
select_loop-Searched req start i (c ∷ cores) = elim (Bool-cases c.is_alive) [
  | inl alive ↦ elim (Bool-cases (fits req c)) [
    | inl hit ↦ inl (
      zero,
      c,
      refl,
      fits-HasRoom req c alive hit,
      tt,
      ground (arith, select_loop_hit req start i c cores alive hit),
    )
    | inr full ↦ rw (select_loop_full req start i c cores alive full) (
        pass_over req start (counted start) _ i 1 c cores (unfit-full req c full) (ground arith)
          refl (select_loop-Searched req (counted start) (suc i) cores))
  ]
  | inr dead ↦ rw (select_loop_dead req start i c cores dead) (
      pass_over req start start _ i 0 c cores (dead-full req c dead) (ground arith) (ground arith)
        (select_loop-Searched req start (suc i) cores))
]

-- What the result of `SelectCore` says about the cores.
abbrev pub Selected : HardwareRequirement → List Core → CoreSelectionResult → Type 0
Selected req cores result =
    (result.total_cores ≡ length cores)
    × (((k : ℕ) × (core : Core) × (result.core ≡ some k)
          × (result.index ≡ pos k)
          × (get_elem? cores k ≡ some core)
          × HasRoom req core
          × All (λ c. ¬ HasRoom req c) (take k cores)
          × (result.alive_count ≡ alive_among (take (suc k) cores)))
        ⊎ ((result.core ≡ none)
            × (result.index ≡ minus_one)
            × All (λ c. ¬ HasRoom req c) cores
            × (result.alive_count ≡ alive_among cores)))

-- `SelectCore` reports the number of cores, and either the first core of the list that is alive
-- and has the requested memory, processors and disk free, with its index and the number of live
-- cores up to it; or no core, index -1 and the number of all live cores, if no core has room.
pub select_core-Selected :
    (req : HardwareRequirement) (rm : ResourceManager) → Selected req rm.cores (select_core req rm)
unfolding select_core
select_core-Selected req rm = elim (select_loop-Searched req (no_core rm.cores) 0 rm.cores) [
  | inl (k, core, at, room, before, r) ↦
      (ground arith, inl (k, core, ground arith, ground arith, at, room, before, ground arith))
  | inr (full, r) ↦ (ground arith, inr (ground arith, ground arith, full, ground arith))
]

-- The core that `SelectCore` has chosen has room.
pub selected_room :
    (req : HardwareRequirement) (rm : ResourceManager) (k : ℕ) (core : Core)
    → (select_core req rm).core ≡ some k
    → get_elem? rm.cores k ≡ some core
    → HasRoom req core
selected_room req rm k core chosen at = elim ((select_core-Selected req rm).1) [
  | inl (j, c, found, _, at', room, _, _) ↦
      let same : j ≡ k = cc in
      let same_core : c ≡ core = cc (ap (get_elem? rm.cores) same) in
      subst (HasRoom req) same_core room
  | inr (missing, _, _, _) ↦ cc
]
