-- ===== src/Pkg/Network/Split.antt =====
-- `GetSubnetFromIP` (pkg/network/network.go): which texts it accepts, and what it returns.
use mathlib.Core.List.{append_assoc}
use kws_control.Common.{
  ℕ, ◌≡◌, ◌≢◌, ◌<◌, ◌+◌, ◌^◌, refl, ap, ◌∙◌, some, [], ◌∷◌, ◌++◌, arith, List, Bool-cases, inl, inr,
  ◌==◌,
}
use kws_control.Common.Lists.{All, length, take}
use kws_control.Common.Text.{GoString}
use kws_control.Pkg.Network.{
  dot, split_byte, split_dots, join_dots, get_subnet_from_ip, print_subnet, find_subnet,
}
use kws_control.Pkg.Network.Successor.{NoDot, subnet_at, digits-NoDot, find_subnet-next}

split_byte-ne-nil : (c : ℕ) (parts : List GoString) → parts ≢ [] → split_byte c parts ≢ []
unfolding split_byte
split_byte-ne-nil c [] h = h
split_byte-ne-nil c (part ∷ parts) h = ground arith

split_dots-ne-nil : (s : GoString) → split_dots s ≢ []
unfolding split_dots
split_dots-ne-nil [] = λ e. cc
split_dots-ne-nil (c ∷ s) = split_byte-ne-nil c (split_dots s) (split_dots-ne-nil s)

join_dots-split_byte :
    (c : ℕ) (parts : List GoString)
    → parts ≢ []
    → join_dots (split_byte c parts) ≡ c ∷ join_dots parts
unfolding split_byte join_dots
join_dots-split_byte c [] h = absurd (h refl)
join_dots-split_byte c (part ∷ []) h = ground arith
join_dots-split_byte c (part ∷ (next ∷ rest)) h = ground arith

join_dots-split_dots : (s : GoString) → join_dots (split_dots s) ≡ s
unfolding split_dots join_dots
join_dots-split_dots [] = refl
join_dots-split_dots (c ∷ s) =
    join_dots-split_byte c (split_dots s) (split_dots-ne-nil s)
    ∙ ap (◌∷◌ c) (join_dots-split_dots s)

split_byte-NoDot :
    (c : ℕ) (parts : List GoString) → All NoDot parts → All NoDot (split_byte c parts)
unfolding split_byte
split_byte-NoDot c [] h = h
split_byte-NoDot c (part ∷ parts) (p, h) = elim (Bool-cases (c == dot)) [
  | inl hit ↦ rw hit (tt, (p, h))
  | inr miss ↦ rw miss (((λ e. ground arith), p), h)
]

split_dots-NoDot : (s : GoString) → All NoDot (split_dots s)
unfolding split_dots
split_dots-NoDot [] = (tt, tt)
split_dots-NoDot (c ∷ s) = split_byte-NoDot c (split_dots s) (split_dots-NoDot s)

split_dots-part : (s : GoString) → NoDot s → split_dots s ≡ s ∷ []
unfolding split_dots split_byte
split_dots-part [] h = refl
split_dots-part (c ∷ s) (d, h) = ground (arith, split_dots-part s h)

split_dots-append :
    (s rest : GoString) → NoDot s → split_dots (s ++ dot ∷ rest) ≡ s ∷ split_dots rest
unfolding split_dots split_byte
split_dots-append [] rest h = split_byte_dot (split_dots rest) (split_dots-ne-nil rest)
  where
    split_byte_dot : (parts : List GoString) → parts ≢ [] → split_byte dot parts ≡ [] ∷ parts
    split_byte_dot [] h = absurd (h refl)
    split_byte_dot (part ∷ parts) h = refl
split_dots-append (c ∷ s) rest (d, h) = ground (arith, split_dots-append s rest h)

-- An address of four parts between dots.
abbrev pub FourParts : GoString → GoString → Type 0
FourParts ip subnet =
    (a b c host : GoString) × NoDot a
    × NoDot b
    × NoDot c
    × NoDot host
    × (ip ≡ subnet ++ host)
    × (subnet ≡ print_subnet a b c)

four_parts :
    (ip : GoString) (parts : List GoString) (subnet : GoString)
    → join_dots parts ≡ ip
    → All NoDot parts
    → length parts ≡ 4
    → join_dots (take 3 parts) ++ dot ∷ [] ≡ subnet
    → FourParts ip subnet
unfolding join_dots print_subnet
four_parts ip (a ∷ (b ∷ (c ∷ (host ∷ [])))) subnet e (ha, (hb, (hc, (hh, _)))) n joined = (
  a,
  b,
  c,
  host,
  ha,
  hb,
  hc,
  hh,
  rw (← e, ← joined) (simp append_assoc),
  rw (← joined) (simp append_assoc),
)
four_parts ip [] subnet e h n joined = absurd (omega arith)
four_parts ip (a ∷ []) subnet e h n joined = absurd (omega arith)
four_parts ip (a ∷ (b ∷ [])) subnet e h n joined = absurd (omega arith)
four_parts ip (a ∷ (b ∷ (c ∷ []))) subnet e h n joined = absurd (omega arith)
four_parts ip (a ∷ (b ∷ (c ∷ (host ∷ (more ∷ rest))))) subnet e h n joined = absurd (omega arith)

-- What `GetSubnetFromIP` accepts is four parts with dots between them, and it returns the first
-- three, each with its dot: the address is the subnet and the rest.
get_subnet_from_ip-FourParts :
    (ip subnet : GoString) → get_subnet_from_ip ip ≡ some subnet → FourParts ip subnet
unfolding get_subnet_from_ip
get_subnet_from_ip-FourParts ip subnet h =
    four_parts ip (split_dots ip) subnet (join_dots-split_dots ip) (split_dots-NoDot ip)
      (ground arith) (ground arith)

-- `GetSubnetFromIP` accepts every text of four parts, empty ones too.
get_subnet_from_ip_complete :
    (a b c host : GoString)
    → NoDot a
    → NoDot b
    → NoDot c
    → NoDot host
    → get_subnet_from_ip (print_subnet a b c ++ host) ≡ some (print_subnet a b c)
unfolding get_subnet_from_ip print_subnet join_dots
get_subnet_from_ip_complete a b c host ha hb hc hh =
    rw
      (
        ← regroup,
        split_dots-append a (b ++ dot ∷ (c ++ dot ∷ host)) ha,
        split_dots-append b (c ++ dot ∷ host) hb,
        split_dots-append c host hc,
        split_dots-part host hh,
      )
      (ap some (simp append_assoc))
  where
    regroup :
        a ++ dot ∷ (b ++ dot ∷ (c ++ dot ∷ host))
        ≡ (a ++ dot ∷ (b ++ dot ∷ (c ++ dot ∷ []))) ++ host
    regroup = simp append_assoc

-- An address in the new subnet that follows the subnet number `n`, which is not the last one, with any
-- last part that has no dot, belongs to that subnet: `GetSubnetFromIP` gives back what `FindSubnet`
-- has returned.
pub get_subnet_from_ip-find_subnet :
    (n : ℕ) (host : GoString) {next : GoString}
    → n + 1 < 2 ^ 24
    → NoDot host
    → find_subnet (subnet_at n) ≡ some next
    → get_subnet_from_ip (next ++ host) ≡ some next
get_subnet_from_ip-find_subnet n host {next} h hh e =
    let same : next ≡ subnet_at (n + 1) = cc (find_subnet-next n h) in
    rw same
      (get_subnet_from_ip_complete _ _ _ host (digits-NoDot _) (digits-NoDot _) (digits-NoDot _) hh)
