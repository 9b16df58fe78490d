-- ===== src/Startup/Address.antt =====
-- The addresses of the cores (startup/init.go), as CORES or the file gives them.
use mathlib.Core.List.{append_assoc}
use kws_control.Common.{
  ℕ, suc, ◌-◌, ◌%◌, ◌^◌, ◌≡◌, ◌≢◌, ◌<◌, refl, ap, ◌∙◌, true, false, Option, none, some, List, [],
  ◌∷◌, ◌++◌, ◌==◌, arith, if◌then◌else◌, ltb, ◌⊎◌, inl, inr, Bool-cases, ==_iff, ◌≤◌,
}
use kws_control.Common.Lists.{All}
use kws_control.Common.Int.{ℤ, pos, negsuc}
use kws_control.Common.Text.{GoString, codes}
use kws_control.Pkg.Network.{digits, atoi, Atoi}
use kws_control.Pkg.Network.Decimal.{IsDigit, digits-IsDigit, atoi-digits}
use kws_control.Client.Core.{new_core_client}
use kws_control.Startup.{new_core}

abbrev pub comma : ℕ
comma = b','

abbrev pub colon : ℕ
colon = b':'

-- One more byte in front of the parts
unfoldable pub put_byte : ℕ → ℕ → List GoString → List GoString
put_byte sep c [] = []
put_byte sep c (part ∷ parts) = if c == sep then [] ∷ part ∷ parts else (c ∷ part) ∷ parts

-- `strings.Split` at a separator of one byte
unfoldable pub split_on : ℕ → GoString → List GoString
split_on sep [] = [] ∷ []
split_on sep (c ∷ s) = put_byte sep c (split_on sep s)

-- `uint16(port)` of an `int`: its low 16 bits
abbrev pub to_uint16 : ℤ → ℕ
to_uint16 (pos n) = n % 2 ^ 16
to_uint16 (negsuc n) = (2 ^ 16 - (suc n) % 2 ^ 16) % 2 ^ 16

-- The port, or the error of `strconv.Atoi`
abbrev with_port : GoString → Atoi → Option (GoString × ℕ)
with_port ip (z, true) = some (ip, to_uint16 z)
with_port ip (z, false) = none

-- The parts of an address
unfoldable pub address_of : List GoString → Option (GoString × ℕ)
address_of (ip ∷ (port ∷ [])) = with_port ip (atoi port)
address_of _ = none

-- The head of the loop over `coreAddresses`: the address and the port that the core gets; `none` is
-- the error.
unfoldable pub parse_address : GoString → Option (GoString × ℕ)
unfolding address_of
parse_address address = address_of (split_on colon address)

abbrev pub No : ℕ → GoString → Type 0
No sep = All (λ c. c ≢ sep)

put_byte-some :
    (sep : ℕ) (s : GoString)
    → (part : GoString) × (parts : List GoString) × (split_on sep s ≡ part ∷ parts)
unfolding split_on put_byte
put_byte-some sep [] = ([], [], refl)
put_byte-some sep (c ∷ s) =
    let (part, parts, e) = put_byte-some sep s in
    elim (Bool-cases (c == sep)) [
      | inl same ↦ ([], part ∷ parts, ground (arith, e))
      | inr other ↦ (c ∷ part, parts, ground (arith, e))
    ]

split_on-part : (sep : ℕ) (s : GoString) → No sep s → split_on sep s ≡ s ∷ []
unfolding split_on put_byte
split_on-part sep [] h = refl
split_on-part sep (c ∷ s) (d, h) = ground (arith, split_on-part sep s h)

split_on-append :
    (sep : ℕ) (s rest : GoString)
    → No sep s
    → split_on sep (s ++ sep ∷ rest) ≡ s ∷ split_on sep rest
unfolding split_on put_byte
split_on-append sep [] rest h =
    let (part, parts, e) = put_byte-some sep rest in ground (arith, e, ==_iff sep sep)
split_on-append sep (c ∷ s) rest (d, h) = ground (arith, split_on-append sep s rest h)

digits_colon : (s : GoString) → All IsDigit s → No colon s
digits_colon [] h = tt
digits_colon (c ∷ s) (d, h) = ((λ e. omega arith), digits_colon s h)

parsed :
    (ip : GoString) (port : ℕ)
    → No colon ip
    → port < 2 ^ 63
    → parse_address (ip ++ colon ∷ digits port) ≡ some (ip, port % 2 ^ 16)
unfolding parse_address address_of
parsed ip port no_colon bound =
    let parts : split_on colon (ip ++ colon ∷ digits port) ≡ ip ∷ (digits port ∷ []) =
      split_on-append colon ip (digits port) no_colon
      ∙ ap (◌∷◌ ip)
          (split_on-part colon (digits port) (digits_colon (digits port) (digits-IsDigit port))) in
    ap address_of parts ∙ ap (with_port ip) (atoi-digits port bound)

-- An address `ip:port`, with an `ip` without a colon and a port below 2^63, is that of a core of this
-- `ip`. If the port is below 2^16, it is the core's, and the requests to the core go to "http://" and
-- the address; else the core's port is another one, the low 16 bits.
pub parse_address-digits :
    (ip : GoString) (port : ℕ)
    → No colon ip
    → port < 2 ^ 63
    → ((port < 2 ^ 16)
        × (parse_address (ip ++ colon ∷ digits port) ≡ some (ip, port))
        × ((new_core_client (new_core ip port)).base_url
            ≡ codes "http://" ++ (ip ++ colon ∷ digits port)))
      ⊎ ((port ≢ port % 2 ^ 16)
          × (parse_address (ip ++ colon ∷ digits port) ≡ some (ip, port % 2 ^ 16)))
parse_address-digits ip port no_colon bound = elim (Bool-cases (ltb port (2 ^ 16))) [
  | inl inside ↦
      let small : port < 2 ^ 16 = ground arith in
      let same : port % 2 ^ 16 ≡ port = omega arith in
      inl (
        small,
        parsed ip port no_colon bound ∙ ap (λ p. some (ip, p)) same,
        ap (λ s. codes "http://" ++ s) (append_assoc ip (colon ∷ []) (digits port)),
      )
  | inr outside ↦
      let large : 2 ^ 16 ≤ port = ground arith in
      inr ((λ e. omega arith), parsed ip port no_colon bound)
]
