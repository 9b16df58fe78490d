-- ===== src/Pkg/Network.antt =====
-- pkg/network/network.go: the next subnet, and the subnet of an address. `Atoi`, `Itoa`, `Split`
-- and `Join` are those of Go's standard library.
pub mod Decimal
pub mod Split
pub mod Successor
use kws_control.Common.{
  ℕ, zero, suc, ◌+◌, ◌-◌, ◌*◌, ◌/◌, ◌%◌, ◌^◌, Bool, true, false, ◌||◌, Option, none, some, List, [],
  ◌∷◌, ◌++◌, ltb, ◌==◌, if◌then◌else◌,
}
use kws_control.Common.Lists.{length, take}
use kws_control.Common.Int.{ℤ, pos, negsuc, ge_ℕ, suc_ℤ}
use kws_control.Common.Text.{GoString, codes}

abbrev pub dot : ℕ
dot = b'.'

-- `fmt` and `strconv`: the decimal digits of a number, in front of `out`. Each round divides by
-- ten, so `n + 1` rounds are enough.
unfoldable pub digits_loop : ℕ → ℕ → GoString → GoString
digits_loop zero n out = out
digits_loop (suc fuel) n out =
    let out' : GoString = (b'0' + n % 10) ∷ out in
    let rest = digits_loop fuel (n / 10) out' in if n / 10 == 0 then out' else rest

unfoldable pub digits : ℕ → GoString
unfolding digits_loop
digits n = digits_loop (suc n) n []

-- `strconv.Itoa`
unfoldable pub itoa : ℤ → GoString
unfolding digits
itoa (pos n) = digits n
itoa (negsuc n) = b'-' ∷ digits (suc n)

-- The value of a run of digits behind `n`: `none` on any other byte. A value that no `uint64` holds
-- ends the loop, as in `strconv`.
unfoldable pub scan : ℕ → GoString → Option ℕ
scan n [] = some n
scan n (c ∷ s) =
    let n' = n * 10 + (c - b'0') in
    let rest = scan n' s in
    if ltb c b'0' || ltb b'9' c then none else if ltb n' (2 ^ 64) then rest else some n'

-- `strconv.Atoi` without its sign: one digit at least.
unfoldable pub magnitude : GoString → Option ℕ
unfolding scan
magnitude [] = none
magnitude (c ∷ s) = scan 0 (c ∷ s)

-- The result of `strconv.Atoi`: the value, and whether the error is nil. A syntax error comes with
-- 0, a range error with the nearest `int`.
abbrev pub Atoi : Type 0
Atoi = ℤ × Bool

abbrev positive : Option ℕ → Atoi
positive none = (pos 0, false)
positive (some n) = if ltb n (2 ^ 63) then (pos n, true) else (pos (2 ^ 63 - 1), false)

abbrev negated : ℕ → ℤ
negated zero = pos 0
negated (suc n) = negsuc n

abbrev negative : Option ℕ → Atoi
negative none = (pos 0, false)
negative (some n) = if ltb (2 ^ 63) n then (negsuc (2 ^ 63 - 1), false) else (negated n, true)

-- `strconv.Atoi`
unfoldable pub atoi : GoString → Atoi
unfolding magnitude
atoi [] = positive none
atoi (c ∷ s) =
    if c == b'+'
    then positive (magnitude s)
    else if c == b'-'
    then negative (magnitude s)
    else positive (magnitude (c ∷ s))

-- The bytes up to the next dot and those behind it. Without a dot the loop of `FindSubnet` reads
-- past the end of the string, which panics: `none`.
unfoldable pub until_dot : GoString → Option (GoString × GoString)
until_dot [] = none
until_dot (c ∷ s) =
    let rest : Option (GoString × GoString) = elim (until_dot s) [
      | none ↦ none
      | some (part, behind) ↦ some (c ∷ part, behind)
    ] in
    if c == dot then some ([], s) else rest

-- The carry of `FindSubnet`, from the last component; `none` is its result "err".
unfoldable pub advance : ℤ → ℤ → ℤ → Option (ℤ × ℤ × ℤ)
advance a b c =
    if ge_ℕ c 255
    then if ge_ℕ b 255
      then if ge_ℕ a 255 then none else some (suc_ℤ a, pos 0, pos 0)
      else some (a, suc_ℤ b, pos 0)
    else some (a, b, suc_ℤ c)

-- `fmt.Sprintf("%s.%s.%s.", …)`
unfoldable pub print_subnet : GoString → GoString → GoString → GoString
print_subnet a b c = a ++ dot ∷ (b ++ dot ∷ (c ++ dot ∷ []))

abbrev pub err_text : GoString
err_text = codes "err"

abbrev pub print_next : Option (ℤ × ℤ × ℤ) → GoString
print_next none = err_text
print_next (some (a, b, c)) = print_subnet (itoa a) (itoa b) (itoa c)

-- The three rounds of `FindSubnet`: each takes the bytes up to a dot; the error of `Atoi` is ignored.
unfoldable pub components : GoString → Option (ℤ × ℤ × ℤ)
components s = elim (until_dot s) [
  | none ↦ none
  | some (a, s') ↦ elim (until_dot s') [
    | none ↦ none
    | some (b, s'') ↦ elim (until_dot s'') [
      | none ↦ none
      | some (c, _) ↦ some ((atoi a).0, (atoi b).0, (atoi c).0)
    ]
  ]
]

-- `FindSubnet`; `none` is a panic.
unfoldable pub find_subnet : GoString → Option GoString
find_subnet last_subnet = elim (components last_subnet) [
  | none ↦ none
  | some (a, b, c) ↦ some (print_next (advance a b c))
]

-- One more byte in front of the parts: a dot begins a new part.
unfoldable pub split_byte : ℕ → List GoString → List GoString
split_byte c [] = []
split_byte c (part ∷ parts) = if c == dot then [] ∷ part ∷ parts else (c ∷ part) ∷ parts

-- `strings.Split(s, ".")`
unfoldable pub split_dots : GoString → List GoString
split_dots [] = [] ∷ []
split_dots (c ∷ s) = split_byte c (split_dots s)

-- `strings.Join(parts, ".")`
unfoldable pub join_dots : List GoString → GoString
join_dots [] = []
join_dots (part ∷ []) = part
join_dots (part ∷ (next ∷ rest)) = part ++ dot ∷ join_dots (next ∷ rest)

-- `GetSubnetFromIP`; `none` is the error "invalid IP format".
unfoldable pub get_subnet_from_ip : GoString → Option GoString
get_subnet_from_ip ip =
    let parts = split_dots ip in
    if length parts == 4 then some (join_dots (take 3 parts) ++ dot ∷ []) else none
