-- ===== src/Api/UpdateRedis.antt =====
-- api/update_redis.go: the status texts that the server accepts.
use kws_control.Common.{
  ℕ, zero, suc, ◌≡◌, refl, ap, sym, subst, ◌⊎◌, inl, inr, Bool, true, false, ◌||◌, some, List, [],
  ◌∷◌, arith, Bool-cases, if◌then◌else◌,
}
use kws_control.Common.Lists.{get_elem?}
use kws_control.Common.Text.{GoString, codes, str_eq, str_eq_iff}
use kws_control.Service.Redis.{
  vm_status_prepare_begin, vm_status_start_begin, vm_status_started, vm_status_stopped,
  vm_status_release, vm_status_migrate, vm_status_restore, vm_status_unknown,
}

-- The cases of the `switch`
abbrev pub statuses : List GoString
statuses =
    vm_status_prepare_begin ∷ vm_status_start_begin ∷ vm_status_started ∷ vm_status_stopped
    ∷ vm_status_release ∷ vm_status_migrate ∷ vm_status_restore ∷ vm_status_unknown ∷ []

unfoldable pub is_among : GoString → List GoString → Bool
is_among s [] = false
is_among s (t ∷ ts) = str_eq s t || is_among s ts

-- `ValidateAndNormalizeStatus`
unfoldable pub validate_and_normalize_status : GoString → GoString
validate_and_normalize_status status =
    if str_eq status [] || str_eq status (codes "null")
    then vm_status_unknown
    else if is_among status statuses
    then status
    else vm_status_unknown

-- The eight texts, written out
abbrev status_texts : List GoString
status_texts =
    codes "prepare begin"
    ∷ codes "start begin"
    ∷ codes "started begin"
    ∷ codes "stopped end"
    ∷ codes "release end"
    ∷ codes "migrate begin"
    ∷ codes "restort begin"
    ∷ codes "unknown"
    ∷ []

-- One of the eight texts.
abbrev pub IsStatus : GoString → Type 0
IsStatus s = (n : ℕ) × (get_elem? status_texts n ≡ some s)

is_among_sound :
    (s : GoString) (ts : List GoString) → is_among s ts ≡ true → (n : ℕ) × (get_elem? ts n ≡ some s)
unfolding is_among
is_among_sound s [] h = cc
is_among_sound s (t ∷ ts) h = elim (Bool-cases (str_eq s t)) [
  | inl same ↦ (0, ap some (sym ((str_eq_iff s t).0 same)))
  | inr other ↦ let (n, at) = is_among_sound s ts (ground arith) in (suc n, at)
]

is_among_complete :
    (s : GoString) (ts : List GoString) (n : ℕ) → get_elem? ts n ≡ some s → is_among s ts ≡ true
unfolding is_among
is_among_complete s [] n h = cc
is_among_complete s (t ∷ ts) zero h = ground (arith, str_eq_iff s t)
is_among_complete s (t ∷ ts) (suc n) h = ground (arith, is_among_complete s ts n h)

not_among :
    (s : GoString) → str_eq s [] || str_eq s (codes "null") ≡ true → is_among s statuses ≡ false
unfolding is_among str_eq
not_among s h = elim (Bool-cases (str_eq s [])) [
  | inl empty ↦
      subst (λ t. is_among t statuses ≡ false) (sym ((str_eq_iff s []).0 empty)) (not_empty)
  | inr other ↦
      subst (λ t. is_among t statuses ≡ false)
        (sym ((str_eq_iff s (codes "null")).0 (ground arith))) not_null
]
  where
    not_empty : is_among [] statuses ≡ false
    not_empty = refl

    not_null : is_among (codes "null") statuses ≡ false
    not_null = refl

kept : (s : GoString) → is_among s statuses ≡ true → validate_and_normalize_status s ≡ s
unfolding validate_and_normalize_status
kept s known = elim (Bool-cases (str_eq s [] || str_eq s (codes "null"))) [
  | inl blank ↦ let refused = not_among s blank in absurd (cc)
  | inr text ↦ rw (text, validate_and_normalize_status) (rw known refl)
]

-- `ValidateAndNormalizeStatus` keeps each of the texts "prepare begin", "start begin",
-- "started begin", "stopped end", "release end", "migrate begin", "restort begin" and "unknown", and
-- answers "unknown" for every other text.
pub validate_and_normalize_status-IsStatus :
    (s : GoString)
    → (IsStatus s × (validate_and_normalize_status s ≡ s))
      ⊎ ((¬ IsStatus s) × (validate_and_normalize_status s ≡ codes "unknown"))
unfolding validate_and_normalize_status
validate_and_normalize_status-IsStatus s = elim (Bool-cases (is_among s statuses)) [
  | inl known ↦ inl (is_among_sound s statuses known, kept s known)
  | inr other ↦ inr ((λ h. let known = is_among_complete s statuses h.0 h.1 in cc), ground arith)
]
