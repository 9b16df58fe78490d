-- ===== src/Startup/Sizes/Words.antt =====
-- The amounts of the cores while they are asked at startup (startup/init.go).
use kws_control.Common.{
  ℕ, zero, suc, ◌≡◌, ◌<◌, refl, subst, true, Option, none, some, List, [], ◌∷◌, ◌++◌, ltb, ◌==◌,
  arith, inl, inr, Bool-cases, Option-cases,
}
use kws_control.Common.Lists.{length, modify, get_elem?, All, All-get_elem?}
use kws_control.Common.Text.{GoString}
use kws_control.Common.Word.{u32_mod}
use kws_control.Structure.{Core}
use kws_control.Structure.Control.Sound.{HasWords, All-modify_each}
use kws_control.Client.Http.{Http}
use kws_control.Client.Core.{
  CoreJson, new_core_client, get_core_machine_memory_info, get_core_machine_disk_info,
}
use kws_control.Client.Model.{CoreMachineMemoryInfoResponse, CoreMachineDiskInfoResponse}
use kws_control.Startup.{find_core, new_core, revive}
use kws_control.Startup.Sizes.{
  Measured, sized, refused, crashed, cpu_of, with_sizes, after_disk, after_memory, measure, Pointer,
  Arrays, append_core, round, read_core, write_core, written, finish,
}

-- A core while the cores are asked: its free amounts and its number of processors are `uint32` values.
unfoldable pub IsWordCore : Core → Type 0
IsWordCore core = HasWords core × (core.core_info_idx.cpu < u32_mod)

unfoldable pub HasWordArrays : Arrays → Type 0
HasWordArrays a = All IsWordCore a.cores × All (All IsWordCore) a.retired

All-append :
    {A : Type 0} (P : A → Type 0) (xs : List A) (x : A) → All P xs → P x → All P (xs ++ x ∷ [])
All-append P [] x h p = (p, tt)
All-append P (y ∷ xs) x (q, h) p = (q, All-append P xs x h p)

new_core-IsWordCore : (ip : GoString) (port : ℕ) → IsWordCore (new_core ip port)
unfolding IsWordCore
new_core-IsWordCore ip port = ((omega arith, omega arith, omega arith), omega arith)

append_core-HasWordArrays :
    (grow : ℕ → ℕ) (core : Core) (a : Arrays)
    → IsWordCore core
    → HasWordArrays a
    → HasWordArrays (append_core grow core a)
unfolding append_core HasWordArrays
append_core-HasWordArrays grow core a w (cores, retired) =
    elim (Bool-cases (ltb (length a.cores) a.capacity)) [
      | inl room ↦ rw (room, append_core) (All-append IsWordCore a.cores core cores w, retired)
      | inr full ↦
          rw (full, append_core)
            (
              All-append IsWordCore a.cores core cores w,
              All-append (All IsWordCore) a.retired a.cores retired cores,
            )
    ]

revive-HasWordArrays :
    (i : ℕ) (a : Arrays)
    → HasWordArrays a
    → HasWordArrays (record a { cores = modify a.cores i revive })
unfolding HasWordArrays IsWordCore
revive-HasWordArrays i a (cores, retired) =
    (All-modify_each IsWordCore revive a.cores i (λ core h. h) cores, retired)

pub round-HasWordArrays :
    (grow : ℕ → ℕ) (address : GoString × ℕ) (a : Arrays)
    → HasWordArrays a
    → HasWordArrays (round grow address a).1
unfolding round
round-HasWordArrays grow (ip, port) a words = elim (Option-cases (find_core a.cores ip port)) [
  | inl missing ↦
      rw (missing, round)
        (append_core-HasWordArrays grow (new_core ip port) a (new_core-IsWordCore ip port) words)
  | inr (i, found) ↦ rw (found, round) (revive-HasWordArrays i a words)
]

write_core-HasWordArrays :
    (p : Pointer) (core : Core) (a : Arrays)
    → IsWordCore core
    → HasWordArrays a
    → HasWordArrays (write_core p core a)
unfolding write_core HasWordArrays
write_core-HasWordArrays p core a w (cores, retired) =
    elim (Bool-cases (p.array == length a.retired)) [
      | inl same ↦
          rw (same, write_core)
            (All-modify_each IsWordCore (λ _. core) a.cores p.index (λ _ _. w) cores, retired)
      | inr other ↦
          rw (other, write_core)
            (
              cores,
              All-modify_each (All IsWordCore) (λ old. modify old p.index (λ _. core)) a.retired
                  p.array (λ old h. All-modify_each IsWordCore (λ _. core) old p.index (λ _ _. w) h)
                  retired,
            )
    ]

read_core-IsWordCore :
    (p : Pointer) (core : Core) (a : Arrays)
    → HasWordArrays a
    → read_core p a ≡ some core
    → IsWordCore core
unfolding read_core HasWordArrays
read_core-IsWordCore p core a (cores, retired) h = elim (Bool-cases (p.array == length a.retired)) [
  | inl same ↦ All-get_elem? IsWordCore a.cores p.index core (ground arith) cores
  | inr other ↦ elim (Option-cases (get_elem? a.retired p.array)) [
    | inl missing ↦ absurd (ground arith)
    | inr (old, at) ↦
        All-get_elem? IsWordCore old p.index core (ground arith)
          (All-get_elem? (All IsWordCore) a.retired p.array old at retired)
  ]
]

with_sizes-IsWordCore :
    (mem : CoreMachineMemoryInfoResponse) (disk : CoreMachineDiskInfoResponse) (core : Core)
    → IsWordCore core
    → IsWordCore (with_sizes mem disk core)
unfolding IsWordCore
with_sizes-IsWordCore mem disk core (_, cpu) =
    let n : cpu_of core.core_info_idx.cpu < u32_mod = cpu_word core.core_info_idx.cpu cpu in
    ((omega arith, n, omega arith), n)
  where
    cpu_word : (n : ℕ) → n < u32_mod → cpu_of n < u32_mod
    cpu_word zero h = omega arith
    cpu_word (suc n) h = h

measure-IsWordCore :
    (http : Http) (json : CoreJson) (core core' : Core)
    → IsWordCore core
    → measure http json core ≡ sized core'
    → IsWordCore core'
unfolding measure after_memory after_disk
measure-IsWordCore http json core core' w h =
    by_answers (get_core_machine_memory_info http json (new_core_client core))
      (get_core_machine_disk_info http json (new_core_client core)) h
  where
    by_answers :
        (mem : Option (Option CoreMachineMemoryInfoResponse))
        (disk : Option (Option CoreMachineDiskInfoResponse))
        → after_memory mem disk core ≡ sized core'
        → IsWordCore core'
    by_answers none disk e = cc
    by_answers (some none) none e = cc
    by_answers (some (some mem)) none e = cc
    by_answers (some none) (some disk) e = cc
    by_answers (some (some mem)) (some none) e = cc
    by_answers (some (some mem)) (some (some disk)) e =
        let same : with_sizes mem disk core ≡ core' = cc in
        subst IsWordCore same (with_sizes-IsWordCore mem disk core w)

pub finish-HasWordArrays :
    (http : Http) (json : CoreJson) (p : Pointer) (a a' : Arrays)
    → HasWordArrays a
    → finish http json p a ≡ some (true, a')
    → HasWordArrays a'
unfolding finish written
finish-HasWordArrays http json p a a' words h = elim (Option-cases (read_core p a)) [
  | inl missing ↦ absurd (ground arith)
  | inr (core, found) ↦
      by_measure core (read_core-IsWordCore p core a words found) (measure http json core) refl
        (ground arith)
]
  where
    by_measure :
        (core : Core)
        → IsWordCore core
        → (m : Measured) → measure http json core ≡ m
        → written p m a ≡ some (true, a')
        → HasWordArrays a'
    by_measure core w (sized core') e k =
        let same : write_core p core' a ≡ a' = cc in
        subst HasWordArrays same
          (write_core-HasWordArrays p core' a (measure-IsWordCore http json core core' w e) words)
    by_measure core w (refused core') e k = cc
    by_measure core w crashed e k = cc
