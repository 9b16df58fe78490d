-- ===== src/Startup/Sizes/Lost.antt =====
-- The goroutines of startup/init.go: which of their writes reach the list of cores.
use kws_control.Common.{
  ℕ, suc, ◌+◌, ◌≡◌, ◌<◌, ◌≤◌, refl, sym, ap, ◌∙◌, Bool, true, false, some, List, [], ◌∷◌, ◌++◌,
  ◌==◌, ==_iff, ltb, arith, inl, inr, Bool-cases, Option-cases,
}
use kws_control.Common.Lists.{
  length, modify, get_elem?, length-append, length-modify, get_elem?-modify_self,
}
use kws_control.Common.Text.{GoString}
use kws_control.Structure.{Core}
use kws_control.Client.Http.{Http}
use kws_control.Client.Core.{CoreJson}
use kws_control.Startup.{find_core, new_core, revive}
use kws_control.Startup.Sizes.{
  Measured, sized, refused, crashed, measure, Pointer, Arrays, append_core, round, rounds,
  read_core, write_core, written, finish,
}

append_core-retired :
    (grow : ℕ → ℕ) (core : Core) (a : Arrays)
    → length a.retired ≤ length (append_core grow core a).retired
unfolding append_core
append_core-retired grow core a = elim (Bool-cases (ltb (length a.cores) a.capacity)) [
  | inl room ↦ ground arith
  | inr full ↦ let more = length-append a.retired (a.cores ∷ []) in ground arith
]

append_core-full :
    (grow : ℕ → ℕ) (core : Core) (a : Arrays)
    → ltb (length a.cores) a.capacity ≡ false
    → length (append_core grow core a).retired ≡ suc (length a.retired)
unfolding append_core
append_core-full grow core a full =
    let more = length-append a.retired (a.cores ∷ []) in ground arith

round-retired :
    (grow : ℕ → ℕ) (address : GoString × ℕ) (a : Arrays)
    → length a.retired ≤ length (round grow address a).1.retired
unfolding round
round-retired grow (ip, port) a = elim (Option-cases (find_core a.cores ip port)) [
  | inl missing ↦ let more = append_core-retired grow (new_core ip port) a in ground arith
  | inr (i, found) ↦ ground arith
]

rounds-retired :
    (grow : ℕ → ℕ) (addresses : List (GoString × ℕ)) (a : Arrays)
    → length a.retired ≤ length (rounds grow addresses a).retired
unfolding rounds
rounds-retired grow [] a = omega arith
rounds-retired grow (address ∷ rest) a =
    let first = round-retired grow address a in
    let more = rounds-retired grow rest (round grow address a).1 in omega arith

write_stale :
    (p : Pointer) (core : Core) (a : Arrays)
    → p.array < length a.retired
    → (write_core p core a).cores ≡ a.cores
unfolding write_core
write_stale p core a stale = elim (Bool-cases (p.array == length a.retired)) [
  | inl same ↦ let e = (==_iff p.array (length a.retired)).0 same in absurd (omega arith)
  | inr other ↦ ground arith
]

written_stale :
    (p : Pointer) (m : Measured) (a a' : Arrays) (b : Bool)
    → p.array < length a.retired
    → written p m a ≡ some (b, a')
    → a'.cores ≡ a.cores
unfolding written
written_stale p (sized core) a a' b stale h =
    let same : write_core p core a ≡ a' = cc in
    ap (λ (x : Arrays). x.cores) (sym same) ∙ write_stale p core a stale
written_stale p (refused core) a a' b stale h =
    let same : write_core p core a ≡ a' = cc in
    ap (λ (x : Arrays). x.cores) (sym same) ∙ write_stale p core a stale
written_stale p crashed a a' b stale h = cc

finish_stale :
    (http : Http) (json : CoreJson) (p : Pointer) (a a' : Arrays) (b : Bool)
    → p.array < length a.retired
    → finish http json p a ≡ some (b, a')
    → a'.cores ≡ a.cores
unfolding finish
finish_stale http json p a a' b stale h = elim (Option-cases (read_core p a)) [
  | inl missing ↦ absurd (ground arith)
  | inr (core, found) ↦ written_stale p (measure http json core) a a' b stale (ground arith)
]

-- If `append` adds a core when the array is full, then every goroutine that was started before writes
-- to an array that is no longer the list: after the rounds for any further addresses, its end leaves
-- the list of cores as it is, so the sizes that its core has answered are lost.
pub finish_lost :
    (http : Http) (json : CoreJson) (grow : ℕ → ℕ) (core : Core) (p : Pointer) (a a' : Arrays)
    (addresses : List (GoString × ℕ)) (b : Bool)
    → p.array ≤ length a.retired
    → ltb (length a.cores) a.capacity ≡ false
    → finish http json p (rounds grow addresses (append_core grow core a)) ≡ some (b, a')
    → a'.cores ≡ (rounds grow addresses (append_core grow core a)).cores
finish_lost http json grow core p a a' addresses b before full h =
    let one = append_core-full grow core a full in
    let more = rounds-retired grow addresses (append_core grow core a) in
    finish_stale http json p (rounds grow addresses (append_core grow core a)) a' b (omega arith) h

append_core-room :
    (grow : ℕ → ℕ) (core : Core) (a : Arrays)
    → length a.cores < a.capacity
    → append_core grow core a ≡ record a { cores = a.cores ++ core ∷ [] }
unfolding append_core
append_core-room grow core a room = elim (Bool-cases (ltb (length a.cores) a.capacity)) [
  | inl fits ↦ rw (fits, append_core) refl
  | inr full ↦ absurd (ground arith)
]

-- What a round with room for a core keeps
record Roomy (n : ℕ) (a a' : Arrays) : Type 0 where
  retired : a'.retired ≡ a.retired
  capacity : a'.capacity ≡ a.capacity
  cores : length a'.cores ≤ length a.cores + n

round-Roomy :
    (grow : ℕ → ℕ) (address : GoString × ℕ) (a : Arrays)
    → length a.cores < a.capacity
    → Roomy 1 a (round grow address a).1
unfolding round
round-Roomy grow (ip, port) a room = elim (Option-cases (find_core a.cores ip port)) [
  | inl missing ↦
      rw (missing, round)
        (rw (append_core-room grow (new_core ip port) a room) (record {
          retired = refl;
          capacity = refl;
          cores = omega (arith, length-append a.cores (new_core ip port ∷ []));
        }))
  | inr (i, found) ↦
      rw (found, round)
        (record {
          retired = refl;
          capacity = refl;
          cores = omega (arith, length-modify a.cores i revive);
        })
]

rounds-Roomy :
    (grow : ℕ → ℕ) (addresses : List (GoString × ℕ)) (a : Arrays)
    → length a.cores + length addresses ≤ a.capacity
    → (rounds grow addresses a).retired ≡ a.retired
unfolding rounds
rounds-Roomy grow [] a room = refl
rounds-Roomy grow (address ∷ rest) a room =
    let first = round-Roomy grow address a (omega arith) in
    rounds-Roomy grow rest (round grow address a).1 (omega (arith, first.cores, first.capacity))
    ∙ first.retired

-- If the array has room for all further addresses, then a goroutine started before has its core in the
-- list: when the core has answered, after the rounds for these addresses, the list has the core with
-- the sizes at the goroutine's index.
pub finish_kept :
    (http : Http) (json : CoreJson) (grow : ℕ → ℕ) (p : Pointer) (a : Arrays) (core core' : Core)
    (addresses : List (GoString × ℕ))
    → p.array ≡ length a.retired
    → length a.cores + length addresses ≤ a.capacity
    → get_elem? (rounds grow addresses a).cores p.index ≡ some core
    → measure http json core ≡ sized core'
    → (a' : Arrays) × (finish http json p (rounds grow addresses a) ≡ some (true, a'))
      × (get_elem? a'.cores p.index ≡ some core')
unfolding finish read_core written write_core
finish_kept http json grow p a core core' addresses current room at done =
    let a1 = rounds grow addresses a in
    let here : (p.array == length a1.retired) ≡ true =
      (==_iff p.array (length a1.retired)).1
        (current ∙ ap length (sym (rounds-Roomy grow addresses a room))) in
    (
      record a1 { cores = modify a1.cores p.index (λ _. core') },
      ground arith,
      get_elem?-modify_self a1.cores p.index (λ _. core') core at,
    )
