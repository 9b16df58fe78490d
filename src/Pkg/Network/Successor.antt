-- ===== src/Pkg/Network/Successor.antt =====
-- `FindSubnet` (pkg/network/network.go) as arithmetic on 24-bit numbers.
use kws_control.Common.{
  ℕ, zero, suc, ◌+◌, ◌-◌, ◌/◌, ◌%◌, ◌^◌, ◌<◌, ◌≡◌, ◌≢◌, refl, ap, ◌∙◌, sym, none, some, Option, [],
  ◌∷◌, ◌++◌, arith,
}
use mathlib.Core.List.{append_assoc, append-nil}
use kws_control.Common.Lists.{All}
use kws_control.Common.Int.{pos}
use kws_control.Common.Text.{GoString}
use kws_control.Pkg.Network.{
  dot, digits, itoa, atoi, until_dot, components, advance, print_subnet, err_text, find_subnet,
}
use kws_control.Pkg.Network.Decimal.{IsDigit, digits-IsDigit, atoi-digits}

-- No byte is a dot.
abbrev pub NoDot : GoString → Type 0
NoDot = All λ c. c ≢ dot

pub IsDigit-NoDot : (s : GoString) → All IsDigit s → NoDot s
IsDigit-NoDot [] h = tt
IsDigit-NoDot (c ∷ s) (d, h) = ((λ e. omega (arith, e)), IsDigit-NoDot s h)

pub digits-NoDot : (n : ℕ) → NoDot (digits n)
digits-NoDot n = IsDigit-NoDot (digits n) (digits-IsDigit n)

until_dot-append : (s rest : GoString) → NoDot s → until_dot (s ++ dot ∷ rest) ≡ some (s, rest)
unfolding until_dot
until_dot-append [] rest h = ground arith
until_dot-append (c ∷ s) rest (d, h) = ground (arith, until_dot-append s rest h)

-- The text of the subnet a.b.c. with the rest of an address behind it.
subnet_text : GoString → GoString → GoString → GoString → GoString
subnet_text a b c host = a ++ dot ∷ (b ++ dot ∷ (c ++ dot ∷ host))

components-subnet_text :
    (a b c host : GoString)
    → NoDot a
    → NoDot b
    → NoDot c
    → components (subnet_text a b c host) ≡ some ((atoi a).0, (atoi b).0, (atoi c).0)
unfolding components subnet_text
components-subnet_text a b c host ha hb hc = ground (
  arith,
  until_dot-append a (b ++ dot ∷ (c ++ dot ∷ host)) ha,
  until_dot-append b (c ++ dot ∷ host) hb,
  until_dot-append c host hc,
)

-- The subnet of a number below 2^24: its three bytes.
abbrev pub subnet_at : ℕ → GoString
subnet_at n = print_subnet (digits (n / 65536)) (digits (n / 256 % 256)) (digits (n % 256))

print_subnet-append : (a b c host : GoString) → print_subnet a b c ++ host ≡ subnet_text a b c host
unfolding print_subnet subnet_text
print_subnet-append a b c host = simp append_assoc

components-subnet_at :
    (n : ℕ) (host : GoString)
    → n < 2 ^ 24
    → components (subnet_at n ++ host) ≡ some (pos (n / 65536), pos (n / 256 % 256), pos (n % 256))
components-subnet_at n host h = rw (
  print_subnet-append (digits (n / 65536)) (digits (n / 256 % 256)) (digits (n % 256)) host,
  components-subnet_text (digits (n / 65536)) (digits (n / 256 % 256)) (digits (n % 256)) host
      (digits-NoDot _) (digits-NoDot _) (digits-NoDot _),
  atoi-digits (n / 65536) (omega arith),
  atoi-digits (n / 256 % 256) (omega arith),
  atoi-digits (n % 256) (omega arith),
)

advance-byte :
    (n : ℕ)
    → n + 1 < 2 ^ 24
    → advance (pos (n / 65536)) (pos (n / 256 % 256)) (pos (n % 256))
      ≡ some (pos ((n + 1) / 65536), pos ((n + 1) / 256 % 256), pos ((n + 1) % 256))
unfolding advance
advance-byte n h = ground arith

-- `FindSubnet` of an address in the subnet number `n` is the subnet number `n + 1`, where the three
-- bytes of the subnet are its number to the base 256: the carries are right at every place. The
-- bytes behind the third dot do not matter. It needs that `n` is not the last number, 2^24 - 1.
pub find_subnet-subnet_at :
    (n : ℕ) (host : GoString)
    → n + 1 < 2 ^ 24
    → find_subnet (subnet_at n ++ host) ≡ some (subnet_at (n + 1))
unfolding find_subnet itoa
find_subnet-subnet_at n host h =
    ground (arith, components-subnet_at n host (omega arith), advance-byte n h)

-- The rounds of `k` allocations of a new subnet.
pub find_subnet_times : ℕ → GoString → Option GoString
find_subnet_times zero s = some s
find_subnet_times (suc k) s = elim (find_subnet s) [ none ↦ none | some t ↦ find_subnet_times k t ]

append-nil_at : (n : ℕ) → subnet_at n ++ [] ≡ subnet_at n
append-nil_at n = append-nil (subnet_at n)

pub find_subnet-next :
    (n : ℕ) → n + 1 < 2 ^ 24 → find_subnet (subnet_at n) ≡ some (subnet_at (n + 1))
find_subnet-next n h = ap find_subnet (sym (append-nil_at n)) ∙ find_subnet-subnet_at n [] h

-- `k` new subnets in a row, from any subnet or address, are the next `k` numbers.
find_subnet_times-subnet_at :
    (k n : ℕ) → n + k < 2 ^ 24 → find_subnet_times k (subnet_at n) ≡ some (subnet_at (n + k))
unfolding find_subnet_times
find_subnet_times-subnet_at zero n h = ground arith
find_subnet_times-subnet_at (suc k) n h = ground (
  arith,
  find_subnet-subnet_at n [] (omega arith),
  append-nil_at n,
  find_subnet_times-subnet_at k (n + 1) (omega arith),
)

-- Two numbers below 2^24 with the same text are equal.
subnet_at-injective : (m n : ℕ) → m < 2 ^ 24 → n < 2 ^ 24 → subnet_at m ≡ subnet_at n → m ≡ n
subnet_at-injective m n hm hn e =
    let same =
      sym (components-subnet_at m [] hm)
      ∙ ap (λ s. components (s ++ [])) e
      ∙ components-subnet_at n [] hn in
    ground (arith, same)

-- New subnets do not repeat: from the subnet number `n`, the results of `j` and of `k` rounds of
-- `FindSubnet` with `j` less than `k` differ, as long as the numbers stay below 2^24.
pub find_subnet_times-ne :
    (n j k : ℕ)
    → j < k
    → n + k < 2 ^ 24
    → find_subnet_times j (subnet_at n) ≢ find_subnet_times k (subnet_at n)
find_subnet_times-ne n j k lt h e =
    let texts =
      sym (find_subnet_times-subnet_at j n (omega arith)) ∙ e ∙ find_subnet_times-subnet_at k n h in
    let same = subnet_at-injective (n + j) (n + k) (omega arith) (omega arith) (cc texts) in
    omega (arith, same)

-- At the last subnet, 255.255.255., `FindSubnet` returns the text "err" in place of a subnet, and
-- `FindSubnet` of that text reads past its end and panics.
pub find_subnet_exhausted :
    (host : GoString)
    → (find_subnet (subnet_at (2 ^ 24 - 1) ++ host) ≡ some err_text) × (find_subnet err_text ≡ none)
unfolding find_subnet advance until_dot components
find_subnet_exhausted host =
    (ground (arith, components-subnet_at (2 ^ 24 - 1) host (omega arith)), refl)
