-- ===== src/Startup/Cores.antt =====
-- The list of cores at startup (startup/init.go) and its addresses.
use kws_control.Common.{
  ℕ, zero, suc, ◌≡◌, refl, ◌∙◌, inl, inr, true, ◌&&◌, none, some, List, [], ◌∷◌, ◌++◌, arith, ◌==◌,
  ap, ==_iff, Bool-cases, Option-cases,
}
use kws_control.Common.Lists.{length, modify, get_elem?, get_elem?-modify_self}
use kws_control.Common.Text.{GoString, str_eq, str_eq_iff, str_eq_refl}
use kws_control.Structure.{Core}
use kws_control.Startup.{find_core, new_core, revive}
use kws_control.Startup.Sizes.{Pointer, Arrays, append_core, round}

find_core_at :
    (cores : List Core) (ip : GoString) (port i : ℕ)
    → find_core cores ip port ≡ some i
    → (core : Core) × (get_elem? cores i ≡ some core) × (core.ip ≡ ip) × (core.port ≡ port)
unfolding find_core
find_core_at [] ip port i h = cc
find_core_at (core ∷ cores) ip port i h =
    elim (Bool-cases (str_eq core.ip ip && core.port == port)) [
      | inl here ↦ (
        core,
        ground arith,
        ground (arith, str_eq_iff core.ip ip),
        ground (arith, ==_iff core.port port),
      )
      | inr other ↦ elim (Option-cases (find_core cores ip port)) [
        | inl missing ↦ absurd (ground arith)
        | inr (j, found) ↦
            let (c, at, same_ip, same_port) = find_core_at cores ip port j found in
            (c, ground arith, same_ip, same_port)
      ]
    ]

find_core-revive :
    (cores : List Core) (i : ℕ) (ip : GoString) (port : ℕ)
    → find_core (modify cores i revive) ip port ≡ find_core cores ip port
unfolding find_core
find_core-revive [] i ip port = refl
find_core-revive (core ∷ cores) zero ip port = refl
find_core-revive (core ∷ cores) (suc i) ip port = ground (arith, find_core-revive cores i ip port)

find_core-append :
    (cores : List Core) (ip : GoString) (port : ℕ)
    → find_core cores ip port ≡ none
    → find_core (cores ++ new_core ip port ∷ []) ip port ≡ some (length cores)
unfolding find_core
find_core-append [] ip port h = ground (arith, str_eq_refl ip, ==_iff port port)
find_core-append (core ∷ cores) ip port h = ground (arith, find_core-append cores ip port)

find_core-append_other :
    (cores : List Core) (ip ip' : GoString) (port port' : ℕ)
    → ¬ ((ip ≡ ip') × (port ≡ port'))
    → find_core (cores ++ new_core ip port ∷ []) ip' port' ≡ find_core cores ip' port'
unfolding find_core
find_core-append_other [] ip ip' port port' ne =
    elim (Bool-cases (str_eq ip ip' && port == port')) [
      | inl same ↦ absurd (ground (arith, str_eq_iff ip ip', ==_iff port port'))
      | inr other ↦ ground arith
    ]
find_core-append_other (core ∷ cores) ip ip' port port' ne =
    ground (arith, find_core-append_other cores ip ip' port port' ne)

get_elem?-append_last :
    (cores : List Core) (core : Core) → get_elem? (cores ++ core ∷ []) (length cores) ≡ some core
get_elem?-append_last [] core = refl
get_elem?-append_last (c ∷ cores) core = get_elem?-append_last cores core

append_core-cores :
    (grow : ℕ → ℕ) (core : Core) (a : Arrays)
    → (append_core grow core a).cores ≡ a.cores ++ core ∷ []
unfolding append_core
append_core-cores grow core a = ground arith

-- `findCore` finds the address at the pointer's index, and the core there is alive.
abbrev pub IsFound : GoString → ℕ → Pointer × Arrays → Type 0
IsFound ip port (p, a) =
    (core : Core) × (find_core a.cores ip port ≡ some p.index)
    × (get_elem? a.cores p.index ≡ some core)
    × (core.ip ≡ ip)
    × (core.port ≡ port)
    × (core.is_alive ≡ true)

-- After the round for an address, `findCore` finds a core of that address, which is alive, at the
-- index to which the goroutine of the round has its pointer.
pub round-find_core :
    (grow : ℕ → ℕ) (ip : GoString) (port : ℕ) (a : Arrays)
    → IsFound ip port (round grow (ip, port) a)
unfolding round
round-find_core grow ip port a = elim (Option-cases (find_core a.cores ip port)) [
  | inl missing ↦
      let core = new_core ip port in
      let appended : (append_core grow core a).cores ≡ a.cores ++ core ∷ [] =
        append_core-cores grow core a in
      rw (missing, round)
        (
          core,
          ap (λ cores. find_core cores ip port) appended ∙ find_core-append a.cores ip port missing,
          ap (λ cores. get_elem? cores (length a.cores)) appended
              ∙ get_elem?-append_last a.cores core,
          refl,
          refl,
          refl,
        )
  | inr (i, found) ↦
      let (core, at, same_ip, same_port) = find_core_at a.cores ip port i found in
      rw (found, round)
        (
          revive core,
          find_core-revive a.cores i ip port ∙ found,
          get_elem?-modify_self a.cores i revive core at,
          same_ip,
          same_port,
          refl,
        )
]

-- The round for an address leaves every other address at the index where `findCore` found it before,
-- or nowhere as before, so an index of a core stays that of its address.
round-find_core_other :
    (grow : ℕ → ℕ) (ip ip' : GoString) (port port' : ℕ) (a : Arrays)
    → ¬ ((ip ≡ ip') × (port ≡ port'))
    → find_core (round grow (ip, port) a).1.cores ip' port' ≡ find_core a.cores ip' port'
unfolding round
round-find_core_other grow ip ip' port port' a ne =
    elim (Option-cases (find_core a.cores ip port)) [
      | inl missing ↦
          rw (missing, round)
            (ap (λ cores. find_core cores ip' port') (append_core-cores grow (new_core ip port) a)
              ∙ find_core-append_other a.cores ip ip' port port' ne)
      | inr (i, found) ↦ rw (found, round) (find_core-revive a.cores i ip' port')
    ]
