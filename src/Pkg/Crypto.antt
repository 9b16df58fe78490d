-- ===== src/Pkg/Crypto.antt =====
-- pkg/crypto/password.go. The random bytes are an argument, and `none` is an error of `rand.Read`;
-- SHA-256 is an argument too. `hex` and `base64.RawURLEncoding` are those of Go's library.
use kws_control.Common.{
  ℕ, zero, suc, ◌+◌, ◌-◌, ◌*◌, ◌/◌, ◌%◌, ◌≤◌, ◌≡◌, refl, Option, none, some, [], ◌∷◌, ◌++◌, arith,
  ltb, if◌then◌else◌, ◌==◌, ◌⊎◌,
}
use kws_control.Common.Lists.{length, take, All}
use kws_control.Common.Text.{GoString}

-- A digit of `hex.EncodeToString`.
abbrev hex_digit : ℕ → ℕ
hex_digit d = if ltb d 10 then b'0' + d else b'a' + (d - 10)

-- `hex.EncodeToString`
unfoldable pub hex : GoString → GoString
hex [] = []
hex (b ∷ bs) = hex_digit (b / 16) ∷ hex_digit (b % 16) ∷ hex bs

-- `strings.ToUpper` on ASCII text
pub to_upper : GoString → GoString
to_upper [] = []
to_upper (c ∷ s) = (if ltb c b'a' then c else if ltb b'z' c then c else c - 32) ∷ to_upper s

-- `HashPasswordWithSalt`
unfoldable pub hash_password_with_salt : (GoString → GoString) → GoString → GoString → GoString
hash_password_with_salt sha256 password salt = sha256 (password ++ to_upper (hex salt))

-- The alphabet of `base64.RawURLEncoding`.
unfoldable pub base64_char : ℕ → ℕ
base64_char v =
    if ltb v 26
    then b'A' + v
    else if ltb v 52
    then b'a' + (v - 26)
    else if ltb v 62
    then b'0' + (v - 52)
    else if v == 62
    then b'-'
    else b'_'

-- `base64.RawURLEncoding.EncodeToString`: three bytes are four characters, with no padding.
unfoldable pub base64 : GoString → GoString
base64 [] = []
base64 (a ∷ []) = base64_char (a / 4) ∷ base64_char (a % 4 * 16) ∷ []
base64 (a ∷ (b ∷ [])) =
    base64_char (a / 4) ∷ base64_char (a % 4 * 16 + b / 16) ∷ base64_char (b % 16 * 4) ∷ []
base64 (a ∷ (b ∷ (c ∷ rest))) =
    base64_char (a / 4)
    ∷ base64_char (a % 4 * 16 + b / 16)
    ∷ base64_char (b % 16 * 4 + c / 64)
    ∷ base64_char (c % 64)
    ∷ base64 rest

-- `s[:n]`; `none` is the panic of a slice out of range.
abbrev slice_to : ℕ → GoString → Option GoString
slice_to n s = if ltb (length s) n then none else some (take n s)

-- The outcome of `GenerateRandomPassword`: a password, an error, or a panic.
pub data Password : Type 0 where
  password : GoString → Password
  failed panicked : Password

abbrev sliced : Option GoString → Password
sliced none = panicked
sliced (some s) = password s

-- `GenerateRandomPassword`, with the bytes that `rand.Read` has put into the buffer.
unfoldable pub generate_random_password : ℕ → Option GoString → Password
generate_random_password n none = failed
generate_random_password n (some bytes) = sliced (slice_to n (base64 bytes))

-- `GenerateRandomSalt`
unfoldable pub generate_random_salt : Option GoString → Option GoString
generate_random_salt bytes = bytes

-- A byte of the URL-safe alphabet.
abbrev pub IsUrlChar : ℕ → Type 0
IsUrlChar c =
    ((b'A' ≤ c) × (c ≤ b'Z')
      ⊎ (b'a' ≤ c) × (c ≤ b'z')
      ⊎ (b'0' ≤ c) × (c ≤ b'9')
      ⊎ (c ≡ b'-')
      ⊎ (c ≡ b'_'))

base64_char-IsUrlChar : (v : ℕ) → IsUrlChar (base64_char v)
unfolding base64_char
base64_char-IsUrlChar v = ground arith

base64-IsUrlChar : (bytes : GoString) → All IsUrlChar (base64 bytes)
unfolding base64
base64-IsUrlChar [] = tt
base64-IsUrlChar (a ∷ []) = (base64_char-IsUrlChar _, (base64_char-IsUrlChar _, tt))
base64-IsUrlChar (a ∷ (b ∷ [])) =
    (base64_char-IsUrlChar _, (base64_char-IsUrlChar _, (base64_char-IsUrlChar _, tt)))
base64-IsUrlChar (a ∷ (b ∷ (c ∷ rest))) = (
  base64_char-IsUrlChar _,
  (
    base64_char-IsUrlChar _,
    (base64_char-IsUrlChar _, (base64_char-IsUrlChar _, base64-IsUrlChar rest)),
  ),
)

length-base64 : (bytes : GoString) → length bytes ≤ length (base64 bytes)
unfolding base64
length-base64 [] = omega arith
length-base64 (a ∷ []) = omega arith
length-base64 (a ∷ (b ∷ [])) = omega arith
length-base64 (a ∷ (b ∷ (c ∷ rest))) = omega (arith, length-base64 rest)

All-take :
    (P : ℕ → Type 0) (n : ℕ) (s : GoString)
    → All P s
    → n ≤ length s
    → All P (take n s) × (length (take n s) ≡ n)
All-take P zero s h le = (tt, refl)
All-take P (suc n) [] h le = absurd (omega arith)
All-take P (suc n) (c ∷ s) h le =
    let (all, len) = All-take P n s h.1 (omega arith) in ((h.0, all), omega arith)

-- With `n` random bytes `GenerateRandomPassword(n)` does not panic: its result is `n` characters, all
-- of the URL-safe base64 alphabet.
generate_random_password-length :
    (n : ℕ) (bytes : GoString)
    → length bytes ≡ n
    → (p : GoString) × (generate_random_password n (some bytes) ≡ password p)
      × (length p ≡ n)
      × All IsUrlChar p
unfolding generate_random_password
generate_random_password-length n bytes e =
    let enough : n ≤ length (base64 bytes) = omega (arith, length-base64 bytes) in
    let (all, len) = All-take IsUrlChar n (base64 bytes) (base64-IsUrlChar bytes) enough in
    (take n (base64 bytes), ground arith, len, all)
