-- ===== src/Pkg/Guacamole/Atomic.antt =====
-- pkg/guacamole/config.go: the tables after a `Configure`, and after a `Cleanup` that fails.
use kws_control.Common.{
  ℕ, suc, ◌≡◌, refl, ap, sym, subst, ◌∙◌, inl, inr, Bool, true, false, Option, none, some, List, [],
  ◌∷◌, arith, Option-cases, ◌==◌, ◌&&◌, ◌||◌, if◌then◌else◌,
}
use kws_control.Common.Text.{GoString, codes, str_eq_refl, str_eq}
use kws_control.Sql.{
  Db, Sql, exec, transaction, ◌>>◌, begin_tx, transaction_failed, transaction_done, commit_failed,
}
use kws_control.Pkg.Crypto.{
  Password, generate_random_password, generate_random_salt, hash_password_with_salt, hex, password,
  failed, panicked,
}
use kws_control.Pkg.Guacamole.{
  User, Parameter, Connection, Permission, GuacTables, Randomness, Configured, user_pass,
  not_configured, panics, configure, configure_with, committed, configure_body, entity_for,
  select_entity, insert_entity, upsert_user, insert_connection, upsert_parameter, set_parameters,
  insert_permission, connection_name, ssh_parameters, found_entity, find_entity, cleanup,
  cleanup_found, delete_both, ping, delete_where,
}

-- The rows of parameters after `set_parameters`.
unfoldable pub set_rows : ℕ → List (GoString × GoString) → List Parameter → List Parameter
set_rows c [] rows = rows
set_rows c ((name, value) ∷ rest) rows = set_rows c rest (
    record { connection_id = c; name = name; value = value }
    ∷ delete_where (λ (p : Parameter). p.connection_id == c && str_eq p.name name) rows)

-- The tables that a call of `Configure` makes, from those with the entity `e` in them.
unfoldable pub filled :
    GoString → GoString → GoString → GoString → GoString → GoString → ℕ × GuacTables → GuacTables
filled username uuid ip private_key hash salt (e, t) =
    let c = t.next_connection in
    record t {
      users =
          record { entity_id = e; password_hash = hash; password_salt = salt }
          ∷ delete_where (λ u. u.entity_id == e) t.users;
      connections = record { connection_id = c; name = connection_name uuid } ∷ t.connections;
      parameters = set_rows c (ssh_parameters ip username private_key) t.parameters;
      permissions =
          record { entity_id = e; connection_id = c }
          ∷ delete_where (λ p. p.entity_id == e && p.connection_id == c) t.permissions;
      next_connection = suc c;
    }

-- The tables with an entity for the UUID, old or new.
abbrev pub with_entity : GoString → GuacTables → ℕ × GuacTables
with_entity uuid t = found_entity (find_entity uuid t.entities) uuid t

configure_body_done :
    (username uuid ip private_key hash salt : GoString) (db : Db GuacTables)
    → (configure_body username uuid ip private_key hash salt db).0 ≡ some tt
    → (configure_body username uuid ip private_key hash salt db).1.tables
      ≡ filled username uuid ip private_key hash salt (with_entity uuid db.tables)
unfolding configure_body filled set_rows exec entity_for select_entity insert_entity upsert_user
    insert_connection upsert_parameter insert_permission set_parameters
configure_body_done username uuid ip private_key hash salt db h = ground arith

-- What the columns hold for their keys.
pub find_user : ℕ → List User → Option (GoString × GoString)
find_user e [] = none
find_user e (u ∷ rest) =
    if u.entity_id == e then some (u.password_hash, u.password_salt) else find_user e rest

pub find_connection : ℕ → List Connection → Option GoString
find_connection c [] = none
find_connection c (x ∷ rest) = if x.connection_id == c then some x.name else find_connection c rest

pub find_parameter : ℕ → GoString → List Parameter → Option GoString
find_parameter c name [] = none
find_parameter c name (p ∷ rest) =
    if p.connection_id == c && str_eq p.name name then some p.value else find_parameter c name rest

pub has_permission : ℕ → ℕ → List Permission → Bool
has_permission e c [] = false
has_permission e c (p ∷ rest) =
    (p.entity_id == e && p.connection_id == c) || has_permission e c rest

-- The UUID is a Guacamole user with this hash and salt, who may read an SSH connection to the VM.
pub record IsConfigured (username uuid ip private_key hash salt : GoString) (t : GuacTables)
    : Type 0 where
  pub entity : ℕ
  pub connection : ℕ
  pub is_entity : find_entity uuid t.entities ≡ some entity
  pub is_user : find_user entity t.users ≡ some (hash, salt)
  pub is_connection : find_connection connection t.connections ≡ some (connection_name uuid)
  pub hostname : find_parameter connection (codes "hostname") t.parameters ≡ some ip
  pub port : find_parameter connection (codes "port") t.parameters ≡ some (codes "22")
  pub login : find_parameter connection (codes "username") t.parameters ≡ some username
  pub key : find_parameter connection (codes "private-key") t.parameters ≡ some private_key
  pub is_permitted : has_permission entity connection t.permissions ≡ true

find_entity-with_entity :
    (uuid : GoString) (t : GuacTables)
    → find_entity uuid (with_entity uuid t).1.entities ≡ some (with_entity uuid t).0
find_entity-with_entity uuid t = elim (Option-cases (find_entity uuid t.entities)) [
  | inl missing ↦ rw missing (unfold find_entity in ground (arith, str_eq_refl uuid))
  | inr (e, found) ↦ ground arith
]

filled-IsConfigured :
    (username uuid ip private_key hash salt : GoString) (t : GuacTables)
    → IsConfigured username uuid ip private_key hash salt
        (filled username uuid ip private_key hash salt (with_entity uuid t))
unfolding filled set_rows find_user find_connection find_parameter has_permission str_eq
    delete_where
filled-IsConfigured username uuid ip private_key hash salt t = record {
  entity = (with_entity uuid t).0;
  connection = (with_entity uuid t).1.next_connection;
  is_entity = find_entity-with_entity uuid t;
  is_user = ground arith;
  is_connection = ground arith;
  hostname = ground arith;
  port = ground arith;
  login = ground arith;
  key = ground arith;
  is_permitted = ground arith;
}

-- What `Configure` has done, by its result.
abbrev pub ConfigureSpec :
    (GoString → GoString)
    → Randomness
    → GoString
    → GoString
    → GoString
    → GoString
    → Db GuacTables
    → Configured × Db GuacTables
    → Type 0
ConfigureSpec sha256 draws username uuid ip private_key db (user_pass pass, db') =
    (salt : GoString) × (generate_random_password 12 draws.password_bytes ≡ password pass)
    × (draws.salt_bytes ≡ some salt)
    × IsConfigured username uuid ip private_key (hex (hash_password_with_salt sha256 pass salt))
        (hex salt) db'.tables
    × (db'.tables
        ≡ filled username uuid ip private_key (hex (hash_password_with_salt sha256 pass salt))
            (hex salt) (with_entity uuid db.tables))
ConfigureSpec sha256 draws username uuid ip private_key db (not_configured, db') =
    db'.tables ≡ db.tables
ConfigureSpec sha256 draws username uuid ip private_key db (panics, db') =
    (db'.tables ≡ db.tables) × (generate_random_password 12 draws.password_bytes ≡ panicked)

module _ (sha256 : GoString → GoString) (draws : Randomness)
    (username uuid ip private_key : GoString) (db : Db GuacTables) where
  configured_with :
      (pass salt : GoString)
      → generate_random_password 12 draws.password_bytes ≡ password pass
      → draws.salt_bytes ≡ some salt
      → ConfigureSpec sha256 draws username uuid ip private_key db
          (configure_with sha256 pass salt username uuid ip private_key db)
  unfolding configure_with
  configured_with pass salt e s = elim (Option-cases (transaction body db).0) [
    | inl broken ↦ rw (broken, committed) (transaction_failed body db broken)
    | inr (_, done) ↦
        let (db', same, ok, tables) = transaction_done body db tt done in
        let made =
          tables
          ∙ configure_body_done username uuid ip private_key hash (hex salt) db' ok
          ∙ ap (λ t. filled username uuid ip private_key hash (hex salt) (with_entity uuid t))
              same in
        rw (done, committed)
          (
            salt,
            e,
            s,
            subst (IsConfigured username uuid ip private_key hash (hex salt)) (sym made)
                (filled-IsConfigured username uuid ip private_key hash (hex salt) db.tables),
            made,
          )
  ]
    where
      hash : GoString
      hash = hex (hash_password_with_salt sha256 pass salt)

      body : Sql GuacTables (Unit {0})
      body = configure_body username uuid ip private_key hash (hex salt)

  configured_drawn :
      (p : Password) (salt : Option GoString)
      → generate_random_password 12 draws.password_bytes ≡ p
      → draws.salt_bytes ≡ salt
      → ConfigureSpec sha256 draws username uuid ip private_key db
          (configure sha256 draws username uuid ip private_key db)
  unfolding configure generate_random_salt
  configured_drawn failed salt e s = rw (e, configure) refl
  configured_drawn panicked salt e s = rw (e, configure) (refl, e)
  configured_drawn (password pass) none e s = rw (e, s, configure) refl
  configured_drawn (password pass) (some salt) e s =
      let same : configure sha256 draws username uuid ip private_key db
          ≡ configure_with sha256 pass salt username uuid ip private_key db =
        ground arith in
      subst (ConfigureSpec sha256 draws username uuid ip private_key db) (sym same)
        (configured_with pass salt e s)

  -- A `Configure` that returns a password has drawn it, and the UUID is then a Guacamole user with the
  -- hash of that password and of the salt, who may read an SSH connection with the address, port 22,
  -- the user name and the private key; nothing else has been written. A `Configure` that returns "" or panics, at whichever of its
  -- steps it failed, has changed no table.
  pub configure-ConfigureSpec :
      ConfigureSpec sha256 draws username uuid ip private_key db
        (configure sha256 draws username uuid ip private_key db)
  configure-ConfigureSpec = configured_drawn _ _ refl refl

-- The tables behind a `Configure` that returns a password.
pub filled_by :
    (sha256 : GoString → GoString) (draws : Randomness) (username uuid ip private_key : GoString)
    (db : Db GuacTables) (pass : GoString) (r : Configured × Db GuacTables)
    → ConfigureSpec sha256 draws username uuid ip private_key db r
    → r.0 ≡ user_pass pass
    → (hash salt : GoString) × (r.1.tables
        ≡ filled username uuid ip private_key hash salt (with_entity uuid db.tables))
filled_by sha256 draws username uuid ip private_key db pass (user_pass p, db') (salt, _, _, _, made)
      h =
    (_, _, made)
filled_by sha256 draws username uuid ip private_key db pass (not_configured, db') s h = cc
filled_by sha256 draws username uuid ip private_key db pass (panics, db') s h = cc

cleanup_found_failed :
    (uuid : GoString) (r : Option (Option ℕ) × Db GuacTables)
    → (cleanup_found uuid r).0 ≡ none
    → (cleanup_found uuid r).1.tables ≡ r.1.tables
unfolding cleanup_found
cleanup_found_failed uuid (none, db) h = refl
cleanup_found_failed uuid (some none, db) h = refl
cleanup_found_failed uuid (some (some id), db) h =
    commit_failed db.tables (delete_both id uuid db) h

-- The calls before the first `DELETE` change no table.
select_keeps :
    (uuid : GoString) (db : Db GuacTables)
    → ((exec ping >> exec begin_tx >> exec (select_entity uuid)) db).1.tables ≡ db.tables
unfolding exec select_entity
select_keeps uuid db = ground arith

-- A `Cleanup` that returns an error, whichever of its calls failed, has changed no table.
cleanup_failed :
    (uuid : GoString) (db : Db GuacTables)
    → (cleanup uuid db).0 ≡ none
    → (cleanup uuid db).1.tables ≡ db.tables
unfolding cleanup
cleanup_failed uuid db h = cleanup_found_failed uuid _ h ∙ select_keeps uuid db
