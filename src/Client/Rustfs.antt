-- ===== src/Client/Rustfs.antt =====
-- client/rustfs.go: the object store for snapshots. The S3 library is a parameter.
use kws_control.Common.{
  ℕ, ◌≡◌, refl, Bool, true, false, Option, none, some, List, [], ◌∷◌, map, if◌then◌else◌,
}
use kws_control.Common.Text.{GoString, codes, str_eq}

-- The answer to `HeadObject`
pub data Head : Type 0 where
  found not_found failed : Head

-- `s3.Client` and its presigner. A key of a listing is a pointer, which may be nil.
pub record S3 : Type 0 where
  pub list_buckets : Option (List (Option GoString))
  pub create_bucket : GoString → Bool
  pub presign_put_object : GoString → GoString → ℕ → Option GoString
  pub presign_get_object : GoString → GoString → ℕ → Option GoString
  pub head_object : GoString → GoString → Head
  pub list_objects_v2 : GoString → GoString → Option (List (Option GoString))
  pub delete_object : GoString → GoString → Bool

-- `aws.ToString`
abbrev pub to_string : Option GoString → GoString
to_string none = []
to_string (some s) = s

abbrev names_of : Option (List (Option GoString)) → Option (List GoString)
names_of none = none
names_of (some keys) = some (map to_string keys)

-- `type RustFSClient struct`
pub record RustfsClient : Type 0 where
  pub client : S3

module _ (c : RustfsClient) where
  -- `ListBuckets`
  unfoldable pub list_buckets : Option (List GoString)
  list_buckets = names_of c.client.list_buckets

  -- `CreateBucket`
  unfoldable pub create_bucket : GoString → Bool
  create_bucket bucket = c.client.create_bucket bucket

  -- `PresignPutObject` and `PresignGetObject`
  unfoldable pub presign_put_object : GoString → GoString → ℕ → Option GoString
  presign_put_object bucket key expires = c.client.presign_put_object bucket key expires

  unfoldable pub presign_get_object : GoString → GoString → ℕ → Option GoString
  presign_get_object bucket key expires = c.client.presign_get_object bucket key expires

  -- `HeadObject`
  unfoldable pub head_object : GoString → GoString → Option Bool
  head_object bucket key = elim (c.client.head_object bucket key) [
    | found ↦ some true
    | not_found ↦ some false
    | failed ↦ none
  ]

  -- `ListObjects`
  unfoldable pub list_objects : GoString → GoString → Option (List GoString)
  list_objects bucket prefix = names_of (c.client.list_objects_v2 bucket prefix)

  -- `DeleteObject`
  unfoldable pub delete_object : GoString → GoString → Bool
  delete_object bucket key = c.client.delete_object bucket key

-- The settings of `NewRustFSClient`, from the environment, where "" stands for a variable not set
pub record RustfsConfig : Type 0 where
  pub endpoint : GoString
  pub access_key : GoString
  pub secret_key : GoString

abbrev pub or_default : GoString → GoString → GoString
or_default value default = if str_eq value [] then default else value

-- `NewRustFSClient`; `load` is the library's configuration and client.
unfoldable pub new_rustfs_client :
    (RustfsConfig → Option S3) → (GoString → GoString) → Option RustfsClient
new_rustfs_client load getenv =
    elim (load (record {
      endpoint = or_default (getenv (codes "RUSTFS_ENDPOINT")) (codes "http://localhost:9000");
      access_key = or_default (getenv (codes "RUSTFS_ACCESS_KEY")) (codes "minioadmin");
      secret_key = or_default (getenv (codes "RUSTFS_SECRET_KEY")) (codes "minioadmin");
    })) [ none ↦ none | some s3 ↦ some (record { client = s3 }) ]

-- `rustFSOnce`, `rustFSInstance` and `rustFSErr`: `none` before the first call
abbrev pub Once : Type 0
Once = Option (Option RustfsClient)

-- `GetRustFSClient`, with what `NewRustFSClient` would return now
unfoldable pub get_rustfs_client : Option RustfsClient → Once → Option RustfsClient × Once
get_rustfs_client fresh none = (fresh, some fresh)
get_rustfs_client fresh (some first) = (first, some first)

-- All calls after the first one, with what `NewRustFSClient` would return at each
unfoldable pub later_calls : List (Option RustfsClient) → Once → Once
later_calls [] once = once
later_calls (fresh ∷ rest) once = later_calls rest (get_rustfs_client fresh once).1

later_calls-some :
    (calls : List (Option RustfsClient)) (first : Option RustfsClient)
    → later_calls calls (some first) ≡ some first
unfolding later_calls get_rustfs_client
later_calls-some [] first = refl
later_calls-some (fresh ∷ rest) first = later_calls-some rest first

-- The first call of `GetRustFSClient` decides for good: after any number of further calls, whatever a
-- new client would be by then, a call returns what the first one returned, an error too.
get_rustfs_client_once :
    (first now : Option RustfsClient) (calls : List (Option RustfsClient))
    → (get_rustfs_client now (later_calls (first ∷ calls) none)).0 ≡ first
unfolding get_rustfs_client later_calls
get_rustfs_client_once first now calls = rw (later_calls-some calls first) refl
