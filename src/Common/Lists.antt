-- ===== src/Common/Lists.antt =====
-- Lists measured, indexed and updated by native numbers.
use kws_control.Common.{
  subst, map, ℕ, zero, suc, ◌+◌, ◌<◌, ◌≡◌, refl, ap, ◌≢◌, Option, none, some, List, [], ◌∷◌, ◌++◌,
  arith,
}

module _ {ℓ} {A : Type ℓ} where
  abbrev pub length : List A → ℕ
  length [] = 0
  length (x ∷ xs) = suc (length xs)

  abbrev pub get_elem? : List A → ℕ → Option A
  get_elem? [] i = none
  get_elem? (x ∷ xs) zero = some x
  get_elem? (x ∷ xs) (suc i) = get_elem? xs i

  -- A write through a pointer to the element `i`. Out of range it changes nothing.
  abbrev pub modify : List A → ℕ → (A → A) → List A
  modify [] i f = []
  modify (x ∷ xs) zero f = f x ∷ xs
  modify (x ∷ xs) (suc i) f = x ∷ modify xs i f

  abbrev pub take : ℕ → List A → List A
  take zero xs = []
  take (suc n) [] = []
  take (suc n) (x ∷ xs) = x ∷ take n xs

  -- A predicate that holds of each element.
  abbrev pub All {κ} : (A → Type κ) → List A → Type κ
  All P [] = Unit
  All P (x ∷ xs) = P x × All P xs

  pub length-append : (xs ys : List A) → length (xs ++ ys) ≡ length xs + length ys
  length-append [] ys = omega arith
  length-append (x ∷ xs) ys = omega (arith, length-append xs ys)

  pub length-modify : (xs : List A) (i : ℕ) (f : A → A) → length (modify xs i f) ≡ length xs
  length-modify [] i f = refl
  length-modify (x ∷ xs) zero f = refl
  length-modify (x ∷ xs) (suc i) f = ap suc (length-modify xs i f)

  pub get_elem?-modify_self :
      (xs : List A) (i : ℕ) (f : A → A) (x : A)
      → get_elem? xs i ≡ some x
      → get_elem? (modify xs i f) i ≡ some (f x)
  get_elem?-modify_self [] i f x h = cc
  get_elem?-modify_self (y ∷ xs) zero f x h = cc
  get_elem?-modify_self (y ∷ xs) (suc i) f x h = get_elem?-modify_self xs i f x h

  pub get_elem?-modify_ne :
      (xs : List A) (i j : ℕ) (f : A → A) → i ≢ j → get_elem? (modify xs i f) j ≡ get_elem? xs j
  get_elem?-modify_ne [] i j f h = refl
  get_elem?-modify_ne (x ∷ xs) zero zero f h = absurd (h refl)
  get_elem?-modify_ne (x ∷ xs) zero (suc j) f h = refl
  get_elem?-modify_ne (x ∷ xs) (suc i) zero f h = refl
  get_elem?-modify_ne (x ∷ xs) (suc i) (suc j) f h =
      get_elem?-modify_ne xs i j f (λ e. h (ap suc e))

  pub modify-modify :
      (xs : List A) (i : ℕ) (f g : A → A) → modify (modify xs i f) i g ≡ modify xs i (λ x. g (f x))
  modify-modify [] i f g = refl
  modify-modify (x ∷ xs) zero f g = refl
  modify-modify (x ∷ xs) (suc i) f g = ap (◌∷◌ x) (modify-modify xs i f g)

  pub get_elem?-lt : (xs : List A) (i : ℕ) (x : A) → get_elem? xs i ≡ some x → i < length xs
  get_elem?-lt [] i x h = cc
  get_elem?-lt (y ∷ xs) zero x h = omega arith
  get_elem?-lt (y ∷ xs) (suc i) x h = omega (arith, get_elem?-lt xs i x h)

  pub get_elem?_total : (xs : List A) (i : ℕ) → i < length xs → (x : A) × (get_elem? xs i ≡ some x)
  get_elem?_total [] i h = absurd (omega arith)
  get_elem?_total (y ∷ xs) zero h = (y, refl)
  get_elem?_total (y ∷ xs) (suc i) h = get_elem?_total xs i (omega arith)

module _ {ℓ} {A : Type ℓ} where
  -- Two writes that agree on the element at hand.
  pub modify_at :
      (xs : List A) (i : ℕ) (f g : A → A) (x : A)
      → get_elem? xs i ≡ some x
      → f x ≡ g x
      → modify xs i f ≡ modify xs i g
  modify_at [] i f g x h e = refl
  modify_at (y ∷ xs) zero f g x h e = ground arith
  modify_at (y ∷ xs) (suc i) f g x h e = ap (◌∷◌ y) (modify_at xs i f g x h e)

  -- A write that does not change a view of the element does not change the view of the list.
  pub map-modify {κ} :
      {B : Type κ} (v : A → B) (xs : List A) (i : ℕ) (f : A → A) (x : A)
      → get_elem? xs i ≡ some x
      → v (f x) ≡ v x
      → map v (modify xs i f) ≡ map v xs
  map-modify v [] i f x h e = refl
  map-modify v (y ∷ xs) zero f x h e = ground arith
  map-modify v (y ∷ xs) (suc i) f x h e = ap (◌∷◌ (v y)) (map-modify v xs i f x h e)

  pub All-modify {κ} :
      (P : A → Type κ) (xs : List A) (i : ℕ) (f : A → A) (x : A)
      → get_elem? xs i ≡ some x
      → P (f x)
      → All P xs
      → All P (modify xs i f)
  All-modify P [] i f x h p a = a
  All-modify P (y ∷ xs) zero f x h p a = (let e : x ≡ y = cc in subst (λ z. P (f z)) e p, a.1)
  All-modify P (y ∷ xs) (suc i) f x h p a = (a.0, All-modify P xs i f x h p a.1)

  pub All-get_elem? {κ} :
      (P : A → Type κ) (xs : List A) (i : ℕ) (x : A) → get_elem? xs i ≡ some x → All P xs → P x
  All-get_elem? P [] i x h a = cc
  All-get_elem? P (y ∷ xs) zero x h a = let e : y ≡ x = cc in subst P e a.0
  All-get_elem? P (y ∷ xs) (suc i) x h a = All-get_elem? P xs i x h a.1
