-- ===== src/Service/Cleanup.antt =====
-- service/cleanup.go: the functions that undo the steps done so far.
use kws_control.Common.{
  zero, suc, ℕ, ◌≤◌, ◌≡◌, refl, ap, ◌∙◌, Option, none, some, List, [], ◌∷◌, ◌++◌, arith,
}
use kws_control.Common.Lists.{length, get_elem?, length-append}

-- `type cleanupChain struct`, over the state that its functions change
pub record CleanupChain {ℓ} (S : Type ℓ) : Type ℓ where
  pub steps : List (S → S)

module _ {ℓ} {S : Type ℓ} where
  -- `&cleanupChain{}`
  abbrev pub no_steps : CleanupChain S
  no_steps = record { steps = [] }

  -- `push`
  unfoldable pub push : (S → S) → CleanupChain S → CleanupChain S
  push fn c = record { steps = c.steps ++ fn ∷ [] }

  abbrev apply : Option (S → S) → S → S
  apply none s = s
  apply (some fn) s = fn s

  -- `for i := len(c.steps) - 1; i >= 0; i--`, with `n` steps left
  unfoldable pub run_loop : ℕ → List (S → S) → S → S
  run_loop zero steps s = s
  run_loop (suc n) steps s = run_loop n steps (apply (get_elem? steps n) s)

  -- `run`: the chain after it, which is empty, and the state after the steps.
  unfoldable pub run : CleanupChain S → S → CleanupChain S × S
  run c s = (no_steps, run_loop (length c.steps) c.steps s)

  get_elem?-append :
      (xs ys : List (S → S)) (n : ℕ) → suc n ≤ length xs → get_elem? (xs ++ ys) n ≡ get_elem? xs n
  get_elem?-append [] ys n h = absurd (omega arith)
  get_elem?-append (x ∷ xs) ys zero h = refl
  get_elem?-append (x ∷ xs) ys (suc n) h = get_elem?-append xs ys n (omega arith)

  get_elem?-last :
      (xs : List (S → S)) (fn : S → S) → get_elem? (xs ++ fn ∷ []) (length xs) ≡ some fn
  get_elem?-last [] fn = refl
  get_elem?-last (x ∷ xs) fn = get_elem?-last xs fn

  run_loop-append :
      (n : ℕ) (xs ys : List (S → S)) (s : S)
      → n ≤ length xs
      → run_loop n (xs ++ ys) s ≡ run_loop n xs s
  unfolding run_loop
  run_loop-append zero xs ys s h = refl
  run_loop-append (suc n) xs ys s h =
      rw (get_elem?-append xs ys n h) (run_loop-append n xs ys _ (omega arith))

  run_loop-last :
      (n : ℕ) (xs : List (S → S)) (fn : S → S) (s : S)
      → n ≡ suc (length xs)
      → run_loop n (xs ++ fn ∷ []) s ≡ run_loop (length xs) xs (fn s)
  unfolding run_loop
  run_loop-last n xs fn s e = rw e (
      ap (λ o. run_loop (length xs) (xs ++ fn ∷ []) (apply o s)) (get_elem?-last xs fn)
      ∙ run_loop-append (length xs) xs (fn ∷ []) (fn s) (omega arith))

  -- The cleanup of a chain to which `fn` was pushed last runs `fn` first and then the cleanup of
  -- the chain before; the cleanup of an empty chain changes nothing. So the steps are undone in
  -- the reverse of the order in which they were pushed, each once. Afterwards the chain is empty.
  pub run-push :
      (fn : S → S) (c : CleanupChain S) (s : S)
      → ((run (push fn c) s).1 ≡ (run c (fn s)).1)
        × ((run no_steps s).1 ≡ s)
        × ((run (run c s).0 s).1 ≡ s)
  unfolding run push run_loop
  run-push fn c s = (
    run_loop-last (length (c.steps ++ fn ∷ [])) c.steps fn s
        (omega (arith, length-append c.steps (fn ∷ []))),
    refl,
    refl,
  )
