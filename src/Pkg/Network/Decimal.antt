-- ===== src/Pkg/Network/Decimal.antt =====
-- `Itoa` and then `Atoi`, as pkg/network/network.go uses them.
use kws_control.Common.{
  ℕ, zero, suc, ◌+◌, ◌*◌, ◌/◌, ◌%◌, ◌^◌, ◌≤◌, ◌<◌, ◌≡◌, ◌≢◌, refl, true, false, some, [], ◌∷◌,
  arith, inl, inr, Bool-cases, ◌==◌,
}
use kws_control.Common.Lists.{All}
use kws_control.Common.Int.{pos}
use kws_control.Common.Text.{GoString}
use kws_control.Pkg.Network.{digits_loop, digits, scan, atoi}

abbrev pub IsDigit : ℕ → Type 0
IsDigit c = (b'0' ≤ c) × (c ≤ b'9')

digits_loop-IsDigit :
    (fuel n : ℕ) (out : GoString) → All IsDigit out → All IsDigit (digits_loop fuel n out)
unfolding digits_loop
digits_loop-IsDigit zero n out h = h
digits_loop-IsDigit (suc fuel) n out h =
    let digit : IsDigit (b'0' + n % 10) = omega arith in
    ground (arith, digits_loop-IsDigit fuel (n / 10) ((b'0' + n % 10) ∷ out) (digit, h))

pub digits-IsDigit : (n : ℕ) → All IsDigit (digits n)
unfolding digits
digits-IsDigit n = digits_loop-IsDigit (suc n) n [] tt

scan_digit :
    (m : ℕ) (n : ℕ) (out : GoString)
    → m * 10 + n % 10 < 2 ^ 64
    → scan m ((b'0' + n % 10) ∷ out) ≡ scan (m * 10 + n % 10) out
unfolding scan
scan_digit m n out h = ground arith

-- The last round, and the others.
module _ (fuel n : ℕ) (out : GoString) where
  digits_loop_last : (n / 10 == 0) ≡ true → digits_loop (suc fuel) n out ≡ (b'0' + n % 10) ∷ out
  unfolding digits_loop
  digits_loop_last last = rw last

  digits_loop_more :
      (n / 10 == 0) ≡ false
      → digits_loop (suc fuel) n out ≡ digits_loop fuel (n / 10) ((b'0' + n % 10) ∷ out)
  unfolding digits_loop
  digits_loop_more more = rw more

scan-digits_loop :
    (fuel n : ℕ) (out : GoString)
    → n < fuel
    → n < 2 ^ 64
    → scan 0 (digits_loop fuel n out) ≡ scan n out
scan-digits_loop zero n out h fits = elim h [ ]
scan-digits_loop (suc fuel) n out h fits = elim (Bool-cases (n / 10 == 0)) [
  | inl last ↦ ground (arith, digits_loop_last fuel n out last, scan_digit 0 n out)
  | inr more ↦ ground (
    arith,
    digits_loop_more fuel n out more,
    scan-digits_loop fuel (n / 10) ((b'0' + n % 10) ∷ out),
    scan_digit (n / 10) n out,
  )
]

scan-digits : (n : ℕ) → n < 2 ^ 64 → scan 0 (digits n) ≡ some n
unfolding digits scan
scan-digits n h = scan-digits_loop (suc n) n [] (omega arith) h

digits_loop-ne-nil : (fuel n : ℕ) (out : GoString) → out ≢ [] → digits_loop fuel n out ≢ []
unfolding digits_loop
digits_loop-ne-nil zero n out h = h
digits_loop-ne-nil (suc fuel) n out h =
    ground (arith, digits_loop-ne-nil fuel (n / 10) ((b'0' + n % 10) ∷ out))

digits-ne-nil : (n : ℕ) → digits n ≢ []
unfolding digits digits_loop
digits-ne-nil n = ground (arith, digits_loop-ne-nil n (n / 10) ((b'0' + n % 10) ∷ []))

atoi_digits :
    (s : GoString) (n : ℕ)
    → s ≢ []
    → All IsDigit s
    → scan 0 s ≡ some n
    → n < 2 ^ 63
    → atoi s ≡ (pos n, true)
unfolding atoi
atoi_digits [] n nonempty h e fits = absurd (nonempty refl)
atoi_digits (c ∷ s) n nonempty h e fits = ground arith

-- Every number below 2^63 is read back from its decimal print, with no error.
pub atoi-digits : (n : ℕ) → n < 2 ^ 63 → atoi (digits n) ≡ (pos n, true)
atoi-digits n h =
    atoi_digits (digits n) n (digits-ne-nil n) (digits-IsDigit n) (scan-digits n (omega arith)) h
