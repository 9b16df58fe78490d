-- ===== src/Util/Search.antt =====
-- The searches of package strings that the logger uses (util/logger.go).
use kws_control.Common.{
  ◌≡◌, refl, ap, arith, ==_iff, Bool, ◌||◌, Option, none, some, [], ◌∷◌, ◌++◌, ◌==◌, ℕ,
  if◌then◌else◌,
}
use kws_control.Common.Text.{GoString, str_eq}

-- The rest of a text after a prefix that it has
unfoldable pub strip_prefix : GoString → GoString → Option GoString
strip_prefix [] s = some s
strip_prefix (p ∷ prefix) [] = none
strip_prefix (p ∷ prefix) (c ∷ s) =
    let rest = strip_prefix prefix s in if p == c then rest else none

abbrev or_later :
    ℕ → GoString → Option GoString → Option (GoString × GoString) → Option (GoString × GoString)
or_later c s (some rest) later = some ([], rest)
or_later c s none (some (before, after)) = some (c ∷ before, after)
or_later c s none none = none

abbrev at_end : Option GoString → Option (GoString × GoString)
at_end (some rest) = some ([], rest)
at_end none = none

-- What stands before and after the first place where `mark` stands
unfoldable pub find_text : GoString → GoString → Option (GoString × GoString)
unfolding strip_prefix
find_text mark [] = at_end (strip_prefix mark [])
find_text mark (c ∷ s) = or_later c s (strip_prefix mark (c ∷ s)) (find_text mark s)

abbrev joined : GoString → Option (GoString × GoString) → GoString
joined s (some (before, after)) = before ++ after
joined s none = s

-- `strings.Replace(s, mark, "", 1)`
unfoldable pub remove_first : GoString → GoString → GoString
unfolding find_text
remove_first mark s = joined s (find_text mark s)

-- `strings.HasSuffix`
unfoldable pub has_suffix : GoString → GoString → Bool
has_suffix [] suffix = str_eq [] suffix
has_suffix (c ∷ s) suffix = str_eq (c ∷ s) suffix || has_suffix s suffix

strip_prefix-append : (mark rest : GoString) → strip_prefix mark (mark ++ rest) ≡ some rest
unfolding strip_prefix
strip_prefix-append [] rest = refl
strip_prefix-append (c ∷ mark) rest = ground (arith, strip_prefix-append mark rest, ==_iff c c)

find_text-strip_prefix :
    (mark s rest : GoString) → strip_prefix mark s ≡ some rest → find_text mark s ≡ some ([], rest)
unfolding find_text
find_text-strip_prefix mark [] rest h = ap at_end h
find_text-strip_prefix mark (c ∷ s) rest h = ap (λ o. or_later c s o (find_text mark s)) h

-- A mark at the start of a text is the one that is removed.
pub remove_first-append : (mark rest : GoString) → remove_first mark (mark ++ rest) ≡ rest
unfolding remove_first
remove_first-append mark rest =
    ap (joined (mark ++ rest))
      (find_text-strip_prefix mark (mark ++ rest) rest (strip_prefix-append mark rest))

-- A text that has no mark is kept.
pub remove_first_absent : (mark s : GoString) → find_text mark s ≡ none → remove_first mark s ≡ s
unfolding remove_first
remove_first_absent mark s h = ap (joined s) h
