-- ===== src/Pkg/Guacamole.antt =====
-- pkg/guacamole/config.go over the tables of database.md, whose foreign keys delete in cascade. The
-- name of a connection has no key of its own there, so its insert never meets a duplicate.
-- Left out of the rows: the columns that are constants (type, protocol, permission) and the date of a
-- password.
pub mod Atomic
pub mod RoundTrip
use kws_control.Common.{
  ℕ, suc, ◌+◌, Bool, true, false, ◌&&◌, ◌||◌, not, Option, none, some, List, [], ◌∷◌, ◌++◌, ◌==◌,
  if◌then◌else◌,
}
use kws_control.Common.Text.{GoString, codes, str_eq}
use kws_control.Sql.{
  Db, Sql, pure, fail, exec, transaction, begin_tx, commit_or_rollback, ◌>>=◌, ◌>>◌,
}
use kws_control.Pkg.Crypto.{
  Password, password, failed, panicked, generate_random_password, generate_random_salt,
  hash_password_with_salt, hex,
}

-- A row of `guacamole_user`: the entity, and the hash and salt as hexadecimal text.
pub record User : Type 0 where
  pub entity_id : ℕ
  pub password_hash : GoString
  pub password_salt : GoString

pub record Parameter : Type 0 where
  pub connection_id : ℕ
  pub name : GoString
  pub value : GoString

pub record Entity : Type 0 where
  pub entity_id : ℕ
  pub name : GoString

pub record Connection : Type 0 where
  pub connection_id : ℕ
  pub name : GoString

pub record Permission : Type 0 where
  pub entity_id : ℕ
  pub connection_id : ℕ

-- The Guacamole database, with the next value of the two counters.
pub record GuacTables : Type 0 where
  pub entities : List Entity
  pub users : List User
  pub connections : List Connection
  pub parameters : List Parameter
  pub permissions : List Permission
  pub next_entity : ℕ
  pub next_connection : ℕ

-- The rows that do not pass the test; `DELETE … WHERE`.
unfoldable pub delete_where : {A : Type 0} → (A → Bool) → List A → List A
delete_where test [] = []
delete_where test (x ∷ xs) = let rest = delete_where test xs in if test x then rest else x ∷ rest

-- `INSERT … ON DUPLICATE KEY UPDATE`: the row takes the place of the one with its key.
abbrev upsert : {A : Type 0} → (A → Bool) → A → List A → List A
upsert same_key row rows = row ∷ delete_where same_key rows

-- `SELECT entity_id FROM guacamole_entity WHERE name = ?`
unfoldable pub find_entity : GoString → List Entity → Option ℕ
find_entity uuid [] = none
find_entity uuid (e ∷ rest) = if str_eq e.name uuid then some e.entity_id else find_entity uuid rest

abbrev found_entity : Option ℕ → GoString → GuacTables → ℕ × GuacTables
found_entity (some id) uuid t = (id, t)
found_entity none uuid t = (
  t.next_entity,
  record t {
    entities = record { entity_id = t.next_entity; name = uuid } ∷ t.entities;
    next_entity = suc t.next_entity;
  },
)

-- Step 4 selects the entity, which is an answer, and inserts it if there is none.
unfoldable pub select_entity : GoString → GuacTables → Option (Option ℕ × GuacTables)
select_entity uuid t = some (find_entity uuid t.entities, t)

unfoldable pub insert_entity : GoString → GuacTables → Option (ℕ × GuacTables)
insert_entity uuid t = some (found_entity none uuid t)

unfoldable pub entity_for : GoString → Sql GuacTables ℕ
entity_for uuid = exec (select_entity uuid) >>= λ found. elim found [
  | some id ↦ pure id
  | none ↦ exec (insert_entity uuid)
]

-- Step 5
unfoldable pub upsert_user : ℕ → GoString → GoString → GuacTables → Option (Unit {0} × GuacTables)
upsert_user entity_id hash salt t = some (
  tt,
  record t {
    users =
        upsert (λ (u : User). u.entity_id == entity_id)
          (record { entity_id = entity_id; password_hash = hash; password_salt = salt }) t.users;
  },
)

-- Step 6; `LastInsertId` is the new number.
unfoldable pub insert_connection : GoString → GuacTables → Option (ℕ × GuacTables)
insert_connection name t = some (
  t.next_connection,
  record t {
    connections = record { connection_id = t.next_connection; name = name } ∷ t.connections;
    next_connection = suc t.next_connection;
  },
)

-- Step 7, one parameter
unfoldable pub upsert_parameter :
    ℕ → GoString → GoString → GuacTables → Option (Unit {0} × GuacTables)
upsert_parameter connection_id name value t = some (
  tt,
  record t {
    parameters =
        upsert (λ (p : Parameter). p.connection_id == connection_id && str_eq p.name name)
          (record { connection_id = connection_id; name = name; value = value }) t.parameters;
  },
)

-- Step 8
unfoldable pub insert_permission : ℕ → ℕ → GuacTables → Option (Unit {0} × GuacTables)
insert_permission entity_id connection_id t = some (
  tt,
  record t {
    permissions =
        upsert (λ (p : Permission). p.entity_id == entity_id && p.connection_id == connection_id)
          (record { entity_id = entity_id; connection_id = connection_id }) t.permissions;
  },
)

-- `fmt.Sprintf("%s-ssh", uuid)`
abbrev pub connection_name : GoString → GoString
connection_name uuid = uuid ++ codes "-ssh"

-- `for name, value := range parameters`: Go takes the four in any order; they have different keys.
unfoldable pub set_parameters : ℕ → List (GoString × GoString) → Sql GuacTables (Unit {0})
set_parameters connection_id [] = pure tt
set_parameters connection_id ((name, value) ∷ rest) =
    exec (upsert_parameter connection_id name value) >> set_parameters connection_id rest

abbrev pub ssh_parameters : GoString → GoString → GoString → List (GoString × GoString)
ssh_parameters ip username private_key =
    (codes "hostname", ip)
    ∷ (codes "port", codes "22")
    ∷ (codes "username", username)
    ∷ (codes "private-key", private_key)
    ∷ []

-- Steps 4 to 8, in the transaction.
unfoldable pub configure_body :
    GoString → GoString → GoString → GoString → GoString → GoString → Sql GuacTables (Unit {0})
configure_body username uuid ip private_key hash salt = do
  entity_id ← entity_for uuid
  exec (upsert_user entity_id hash salt)
  connection_id ← exec (insert_connection (connection_name uuid))
  set_parameters connection_id (ssh_parameters ip username private_key)
  exec (insert_permission entity_id connection_id)

-- What `Configure` draws: the bytes of the password and of the salt; `none` is an error.
pub record Randomness : Type 0 where
  pub password_bytes : Option GoString
  pub salt_bytes : Option GoString

-- The result of `Configure`: "" in Go is `none`; a panic is told apart.
pub data Configured : Type 0 where
  user_pass : GoString → Configured
  not_configured panics : Configured

abbrev committed : GoString → Option (Unit {0}) → Configured
committed pass none = not_configured
committed pass (some _) = user_pass pass

-- The part behind the two draws.
unfoldable pub configure_with :
    (GoString → GoString)
    → GoString
    → GoString
    → GoString
    → GoString
    → GoString
    → GoString
    → Db GuacTables
    → Configured × Db GuacTables
configure_with sha256 pass salt username uuid ip private_key db =
    let hash = hex (hash_password_with_salt sha256 pass salt) in
    let (r, db') = transaction (configure_body username uuid ip private_key hash (hex salt)) db in
    (committed pass r, db')

-- `Configure`; the database handle is not nil.
unfoldable pub configure :
    (GoString → GoString)
    → Randomness
    → GoString
    → GoString
    → GoString
    → GoString
    → Db GuacTables
    → Configured × Db GuacTables
configure sha256 draws username uuid ip private_key db =
    elim (generate_random_password 12 draws.password_bytes) [
      | failed ↦ (not_configured, db)
      | panicked ↦ (panics, db)
      | password pass ↦ elim (generate_random_salt draws.salt_bytes) [
        | none ↦ (not_configured, db)
        | some salt ↦ configure_with sha256 pass salt username uuid ip private_key db
      ]
    ]

-- `DELETE FROM guacamole_entity`, with the users and the permissions of the entity
unfoldable pub delete_entity : ℕ → GuacTables → Option (Unit {0} × GuacTables)
delete_entity id t = some (
  tt,
  record t {
    entities = delete_where (λ e. e.entity_id == id) t.entities;
    users = delete_where (λ u. u.entity_id == id) t.users;
    permissions = delete_where (λ p. p.entity_id == id) t.permissions;
  },
)

-- `connection_id IN (SELECT DISTINCT connection_id FROM guacamole_connection_permission)`
unfoldable pub is_permitted : ℕ → List Permission → Bool
is_permitted id [] = false
is_permitted id (p ∷ rest) = p.connection_id == id || is_permitted id rest

-- The connections that the second `DELETE` takes.
abbrev is_orphan : GoString → List Permission → Connection → Bool
is_orphan name permissions c = str_eq c.name name && not (is_permitted c.connection_id permissions)

-- Whether a parameter belongs to one of the connections that are deleted.
unfoldable pub belongs_to : List Connection → (Connection → Bool) → Parameter → Bool
belongs_to [] test p = false
belongs_to (c ∷ rest) test p =
    (test c && c.connection_id == p.connection_id) || belongs_to rest test p

unfoldable pub delete_orphans : GoString → GuacTables → Option (Unit {0} × GuacTables)
delete_orphans name t =
    let test = is_orphan name t.permissions in
    some (
      tt,
      record t {
        connections = delete_where test t.connections;
        parameters = delete_where (belongs_to t.connections test) t.parameters;
      },
    )

abbrev ping : GuacTables → Option (Unit {0} × GuacTables)
ping t = some (tt, t)

unfoldable pub delete_both : ℕ → GoString → Sql GuacTables (Unit {0})
delete_both id uuid = exec (delete_entity id) >> exec (delete_orphans (connection_name uuid))

-- What follows the `SELECT` of `Cleanup`: with no entity it returns nil at once, and the deferred
-- call rolls the transaction back, which has changed nothing.
unfoldable pub cleanup_found :
    GoString → Option (Option ℕ) × Db GuacTables → Option (Unit {0}) × Db GuacTables
cleanup_found uuid (none, db) = (none, db)
cleanup_found uuid (some none, db) = (some tt, db)
cleanup_found uuid (some (some id), db) = commit_or_rollback db.tables (delete_both id uuid db)

-- `Cleanup`; the database handle is not nil.
unfoldable pub cleanup : GoString → Sql GuacTables (Unit {0})
cleanup uuid db = cleanup_found uuid ((exec ping >> exec begin_tx >> exec (select_entity uuid)) db)
