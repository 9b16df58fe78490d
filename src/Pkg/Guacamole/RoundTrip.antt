-- ===== src/Pkg/Guacamole/RoundTrip.antt =====
-- pkg/guacamole/config.go: a `Configure` and then a `Cleanup`.
use kws_control.Common.{
  ℕ, suc, ◌<◌, ◌≡◌, ◌≢◌, refl, ap, ◌∙◌, Bool, true, false, ◌&&◌, Option, none, some, List, [], ◌∷◌,
  arith, ◌==◌,
}
use kws_control.Common.Lists.{All}
use kws_control.Common.Text.{GoString, str_eq_refl, str_eq_iff}
use kws_control.Sql.{Db, exec, commit_or_rollback}
use kws_control.Pkg.Guacamole.{
  Randomness, user_pass, configure, cleanup, cleanup_found, select_entity, delete_both, User,
  Parameter, Entity, Connection, Permission, GuacTables, connection_name, ssh_parameters,
  found_entity, find_entity, delete_where, delete_entity, delete_orphans, is_orphan, is_permitted,
  belongs_to,
}
use kws_control.Pkg.Guacamole.Atomic.{filled, set_rows, filled_by, configure-ConfigureSpec}

-- Every number that a row mentions has been given out, and no connection has the name.
pub record IsFreshFor (uuid : GoString) (t : GuacTables) : Type 0 where
  pub no_entity : All (λ (e : Entity). (e.entity_id < t.next_entity) × (e.name ≢ uuid)) t.entities
  pub users : All (λ (u : User). u.entity_id < t.next_entity) t.users
  pub connections :
      All
        (λ (c : Connection).
          (c.connection_id < t.next_connection) × (c.name ≢ connection_name uuid))
        t.connections
  pub parameters : All (λ (p : Parameter). p.connection_id < t.next_connection) t.parameters
  pub permissions :
      All
        (λ (p : Permission). (p.entity_id < t.next_entity) × (p.connection_id < t.next_connection))
        t.permissions

-- A `DELETE` whose test no row passes.
delete_where_none :
    {A : Type 0} (P : A → Type 0) (test : A → Bool) (xs : List A)
    → ((x : A) → P x → test x ≡ false)
    → All P xs
    → delete_where test xs ≡ xs
unfolding delete_where
delete_where_none P test [] misses all = refl
delete_where_none P test (x ∷ xs) misses (p, all) =
    ground (arith, misses x p, delete_where_none P test xs misses all)

find_entity-none :
    (uuid : GoString) (n : ℕ) (es : List Entity)
    → All (λ (e : Entity). (e.entity_id < n) × (e.name ≢ uuid)) es
    → find_entity uuid es ≡ none
unfolding find_entity
find_entity-none uuid n [] all = refl
find_entity-none uuid n (e ∷ es) ((_, differs), all) =
    ground (arith, str_eq_iff e.name uuid, find_entity-none uuid n es all)

is_permitted_none :
    (n : ℕ) (ps : List Permission) (e : ℕ)
    → All (λ (p : Permission). (p.entity_id < e) × (p.connection_id < n)) ps
    → is_permitted n ps ≡ false
unfolding is_permitted
is_permitted_none n [] e all = refl
is_permitted_none n (p ∷ ps) e (lt, all) = ground (arith, is_permitted_none n ps e all)

delete_where_head :
    {A : Type 0} (test : A → Bool) (x : A) (xs : List A)
    → test x ≡ true
    → delete_where test (x ∷ xs) ≡ delete_where test xs
unfolding delete_where
delete_where_head test x xs h = ground arith

-- A narrower `DELETE` before a wider one makes no difference.
delete_where-delete_where :
    {A : Type 0} (test key : A → Bool) (xs : List A)
    → ((x : A) → key x ≡ true → test x ≡ true)
    → delete_where test (delete_where key xs) ≡ delete_where test xs
unfolding delete_where
delete_where-delete_where test key [] h = refl
delete_where-delete_where test key (x ∷ xs) h =
    ground (arith, h x, delete_where-delete_where test key xs h)

-- All rows of the connection go, the new ones too.
delete_where-set_rows :
    (test : Parameter → Bool) (c : ℕ) (kvs : List (GoString × GoString)) (rows : List Parameter)
    → ((p : Parameter) → p.connection_id ≡ c → test p ≡ true)
    → delete_where test (set_rows c kvs rows) ≡ delete_where test rows
unfolding set_rows
delete_where-set_rows test c [] rows h = refl
delete_where-set_rows test c ((name, value) ∷ rest) rows h =
    delete_where-set_rows test c rest _ h
    ∙ delete_where_head test _ _ (h _ refl)
    ∙ delete_where-delete_where test _ rows (λ p e. h p (ground arith))

-- No old connection is an orphan of the name.
belongs_to_none :
    (name : GoString) (n : ℕ) (ps : List Permission) (cs : List Connection) (p : Parameter)
    → All (λ (c : Connection). (c.connection_id < n) × (c.name ≢ name)) cs
    → belongs_to cs (is_orphan name ps) p ≡ false
unfolding belongs_to
belongs_to_none name n ps [] p all = refl
belongs_to_none name n ps (c ∷ cs) p ((_, differs), all) =
    ground (arith, str_eq_iff c.name name, belongs_to_none name n ps cs p all)

-- A row that was put in front by `INSERT … ON DUPLICATE KEY UPDATE` goes again, and the others stay.
delete_where-upsert :
    {A : Type 0} (P : A → Type 0) (test key : A → Bool) (row : A) (rows : List A)
    → test row ≡ true
    → ((x : A) → key x ≡ true → test x ≡ true)
    → ((x : A) → P x → test x ≡ false)
    → All P rows
    → delete_where test (row ∷ delete_where key rows) ≡ rows
delete_where-upsert P test key row rows hit wider misses all =
    delete_where_head test row (delete_where key rows) hit
    ∙ delete_where-delete_where test key rows wider
    ∙ delete_where_none P test rows misses all

module _ (username uuid ip private_key hash salt : GoString) (t : GuacTables)
    (fresh : IsFreshFor uuid t) where
  abbrev configured : GuacTables
  configured = filled username uuid ip private_key hash salt (found_entity none uuid t)

  -- The tables between the two statements of `Cleanup`.
  abbrev between : GuacTables
  between = record t {
    connections =
        record { connection_id = t.next_connection; name = connection_name uuid } ∷ t.connections;
    parameters = set_rows t.next_connection (ssh_parameters ip username private_key) t.parameters;
    next_entity = suc t.next_entity;
    next_connection = suc t.next_connection;
  }

  entity_deleted : delete_entity t.next_entity configured ≡ some (tt, between)
  unfolding delete_entity filled
  entity_deleted =
      let entities =
        delete_where_head (λ (x : Entity). x.entity_id == t.next_entity)
          (record { entity_id = t.next_entity; name = uuid }) t.entities (ground arith)
        ∙ delete_where_none (λ x. (x.entity_id < t.next_entity) × (x.name ≢ uuid)) _ t.entities
            (λ x lt. ground arith) fresh.no_entity in
      let users =
        delete_where-upsert (λ u. u.entity_id < t.next_entity) (λ u. u.entity_id == t.next_entity)
          (λ u. u.entity_id == t.next_entity)
          (record { entity_id = t.next_entity; password_hash = hash; password_salt = salt }) t.users
          (ground arith) (λ u h. h) (λ u lt. ground arith) fresh.users in
      let permissions =
        delete_where-upsert
          (λ p. (p.entity_id < t.next_entity) × (p.connection_id < t.next_connection))
          (λ p. p.entity_id == t.next_entity)
          (λ p. p.entity_id == t.next_entity && p.connection_id == t.next_connection)
          (record { entity_id = t.next_entity; connection_id = t.next_connection }) t.permissions
          (ground arith) (λ p h. ground arith) (λ p lt. ground arith) fresh.permissions in
      ground (arith, entities, users, permissions)

  abbrev test : Connection → Bool
  test = is_orphan (connection_name uuid) t.permissions

  new_is_orphan :
      test (record { connection_id = t.next_connection; name = connection_name uuid }) ≡ true
  new_is_orphan = ground (
    arith,
    str_eq_refl (connection_name uuid),
    is_permitted_none t.next_connection t.permissions t.next_entity fresh.permissions,
  )

  abbrev doomed : Parameter → Bool
  doomed = belongs_to between.connections test

  old_stays : (p : Parameter) → p.connection_id < t.next_connection → doomed p ≡ false
  unfolding belongs_to
  old_stays p lt = ground (
    arith,
    belongs_to_none (connection_name uuid) t.next_connection t.permissions t.connections p
        fresh.connections,
  )

  new_goes : (p : Parameter) → p.connection_id ≡ t.next_connection → doomed p ≡ true
  unfolding belongs_to
  new_goes p same = ground (arith, new_is_orphan)

  orphans_deleted :
      delete_orphans (connection_name uuid) between
      ≡ some (
        tt,
        record t { next_entity = suc t.next_entity; next_connection = suc t.next_connection },
      )
  unfolding delete_orphans
  orphans_deleted =
      let connections =
        delete_where_head test _ t.connections new_is_orphan
        ∙ delete_where_none
            (λ c. (c.connection_id < t.next_connection) × (c.name ≢ connection_name uuid)) test
            t.connections (λ c h. ground (arith, str_eq_iff c.name (connection_name uuid), h.1))
            fresh.connections in
      let parameters =
        delete_where-set_rows doomed t.next_connection (ssh_parameters ip username private_key)
          t.parameters new_goes
        ∙ delete_where_none (λ p. p.connection_id < t.next_connection) doomed t.parameters old_stays
            fresh.parameters in
      ground (arith, connections, parameters)

  old_entity : find_entity uuid t.entities ≡ none
  old_entity = find_entity-none uuid t.next_entity t.entities fresh.no_entity

  new_entity : find_entity uuid configured.entities ≡ some t.next_entity
  unfolding filled find_entity
  new_entity = ground (arith, str_eq_refl uuid)

-- What the two statements of `Cleanup` do after the `SELECT` has found the entity.
cleanup_done :
    (uuid : GoString) (db : Db GuacTables) (id : ℕ) (t t' : GuacTables)
    → find_entity uuid db.tables.entities ≡ some id
    → delete_entity id db.tables ≡ some (tt, t)
    → delete_orphans (connection_name uuid) t ≡ some (tt, t')
    → (cleanup uuid db).0 ≡ some tt
    → (cleanup uuid db).1.tables ≡ t'
unfolding cleanup cleanup_found exec select_entity delete_both commit_or_rollback
cleanup_done uuid db id t t' found p q h = ground arith

-- For a UUID that is new to the Guacamole database, with all row numbers below its two counters, a
-- `Configure` that returns a password and then a `Cleanup` that returns nil leave every table as it
-- was before: no user, connection, parameter or permission stays behind. Only the counters have
-- moved on, by one each.
pub cleanup-configure :
    (sha256 : GoString → GoString) (draws : Randomness) (username uuid ip private_key : GoString)
    (db : Db GuacTables) (pass : GoString)
    → IsFreshFor uuid db.tables
    → (configure sha256 draws username uuid ip private_key db).0 ≡ user_pass pass
    → (cleanup uuid (configure sha256 draws username uuid ip private_key db).1).0 ≡ some tt
    → (cleanup uuid (configure sha256 draws username uuid ip private_key db).1).1.tables
      ≡ record db.tables {
        next_entity = suc db.tables.next_entity;
        next_connection = suc db.tables.next_connection;
      }
cleanup-configure sha256 draws username uuid ip private_key db pass fresh ok done =
    let db' = (configure sha256 draws username uuid ip private_key db).1 in
    let (hash, salt, made) =
      filled_by sha256 draws username uuid ip private_key db pass _
        (configure-ConfigureSpec sha256 draws username uuid ip private_key db) ok in
    let new =
      made
      ∙ ap
          (λ (o : Option ℕ).
            filled username uuid ip private_key hash salt (found_entity o uuid db.tables))
          (old_entity username uuid ip private_key hash salt db.tables fresh) in
    cleanup_done uuid db' db.tables.next_entity _ _
      (ap (λ (t : GuacTables). find_entity uuid t.entities) new
        ∙ new_entity username uuid ip private_key hash salt db.tables fresh)
      (ap (delete_entity db.tables.next_entity) new
        ∙ entity_deleted username uuid ip private_key hash salt db.tables fresh)
      (orphans_deleted username uuid ip private_key hash salt db.tables fresh) done
