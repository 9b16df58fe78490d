-- ===== src/Sql.antt =====
-- `database/sql` and the Redis client as this repository uses them. What is stored is the tables;
-- whether the server carries out a call is an input: `outcomes` lists, for the calls to come, which
-- of them succeed. A statement that breaks a key of the schema fails too. A transaction that is not
-- committed leaves the tables as they were.
use kws_control.Common.{
  ◌≡◌, refl, Bool, true, false, Option, none, some, List, [], ◌∷◌, arith, inl, inr, Option-cases,
  ap, sym, ◌∙◌,
}

pub record Db (T : Type 0) : Type 0 where
  pub tables : T
  pub outcomes : List Bool

-- A call: its result, or an error, and the database after it.
abbrev pub Sql : Type 0 → Type 0 → Type 0
Sql T A = Db T → Option A × Db T

-- The outcome of the next call.
abbrev pub reply : List Bool → Bool × List Bool
reply [] = (true, [])
reply (b ∷ bs) = (b, bs)

module _ {T : Type 0} where
  abbrev pub pure : {A : Type 0} → A → Sql T A
  pure a db = (some a, db)

  abbrev pub fail : {A : Type 0} → Sql T A
  fail db = (none, db)

  infixl 5 ◌>>=◌ ◌>>◌
  abbrev pub ◌>>=◌ : {A B : Type 0} → Sql T A → (A → Sql T B) → Sql T B
  ◌>>=◌ m f db = let (r, db') = m db in elim r [ none ↦ (none, db') | some a ↦ f a db' ]

  abbrev pub ◌>>◌ : {A B : Type 0} → Sql T A → Sql T B → Sql T B
  m >> k = m >>= λ _. k

  -- A statement that computes a result and changes the tables, or is refused.
  unfoldable pub exec : {A : Type 0} → (T → Option (A × T)) → Sql T A
  exec statement db =
      let (sent, rest) = reply db.outcomes in
      let failed = record db { outcomes = rest } in
      elim sent [
        | false ↦ (none, failed)
        | true ↦ elim (statement db.tables) [
          | none ↦ (none, failed)
          | some (a, tables') ↦ (some a, record { tables = tables'; outcomes = rest })
        ]
      ]

  abbrev pub begin_tx : T → Option (Unit {0} × T)
  begin_tx tables = some (tt, tables)

  -- `Commit`, which may fail, and the deferred `Rollback`, which gives the tables back on an error.
  unfoldable pub commit_or_rollback : {A : Type 0} → T → Option A × Db T → Option A × Db T
  commit_or_rollback before (none, db) = (none, record db { tables = before })
  commit_or_rollback before (some a, db) =
      let (sent, rest) = reply db.outcomes in
      elim sent [
        | true ↦ (some a, record db { outcomes = rest })
        | false ↦ (none, record { tables = before; outcomes = rest })
      ]

  -- `BeginTx`, the body, and the end of the transaction.
  unfoldable pub transaction : {A : Type 0} → Sql T A → Sql T A
  transaction body db = commit_or_rollback db.tables ((exec begin_tx >> body) db)

  pub commit_failed :
      {A : Type 0} (before : T) (r : Option A × Db T)
      → (commit_or_rollback before r).0 ≡ none
      → (commit_or_rollback before r).1.tables ≡ before
  unfolding commit_or_rollback
  commit_failed before (none, db) h = refl
  commit_failed before (some a, db) h = ground arith

  -- A transaction that ends with an error has changed nothing.
  pub transaction_failed :
      {A : Type 0} (body : Sql T A) (db : Db T)
      → (transaction body db).0 ≡ none
      → (transaction body db).1.tables ≡ db.tables
  unfolding transaction
  transaction_failed body db h = commit_failed db.tables _ h

  pub commit_done :
      {A : Type 0} (before : T) (r : Option A × Db T) (a : A)
      → (commit_or_rollback before r).0 ≡ some a
      → (r.0 ≡ some a) × ((commit_or_rollback before r).1.tables ≡ r.1.tables)
  unfolding commit_or_rollback
  commit_done before (none, db) a h = cc
  commit_done before (some b, db) a h = ground arith

  -- One that ends well has the tables that its body has made.
  pub transaction_done :
      {A : Type 0} (body : Sql T A) (db : Db T) (a : A)
      → (transaction body db).0 ≡ some a
      → ((db' : Db T) × (db'.tables ≡ db.tables)
          × ((body db').0 ≡ some a)
          × ((transaction body db).1.tables ≡ (body db').1.tables))
  unfolding transaction exec
  transaction_done body db a h =
      let (done, same) = commit_done db.tables ((exec begin_tx >> body) db) a h in
      (record db { outcomes = (reply db.outcomes).1 }, refl, ground arith, ground arith)

  -- A statement that ends well has been carried out, and one that fails changes nothing.
  pub exec_done :
      {A : Type 0} (statement : T → Option (A × T)) (db : Db T) (a : A)
      → (exec statement db).0 ≡ some a
      → statement db.tables ≡ some (a, (exec statement db).1.tables)
  unfolding exec
  exec_done statement db a h = ground arith

  pub exec_failed :
      {A : Type 0} (statement : T → Option (A × T)) (db : Db T)
      → (exec statement db).0 ≡ none
      → (exec statement db).1.tables ≡ db.tables
  unfolding exec
  exec_failed statement db h = ground arith

  -- A chain that ends well has got past its first call.
  pub >>=-done :
      {A B : Type 0} (m : Sql T A) (f : A → Sql T B) (db : Db T) (b : B)
      → ((m >>= f) db).0 ≡ some b
      → (a : A) × ((m db).0 ≡ some a) × ((m >>= f) db ≡ f a (m db).1)
  >>=-done m f db b h = elim (Option-cases (m db).0) [
    | inl failed ↦ absurd (ground arith)
    | inr (a, done) ↦ (a, done, ground arith)
  ]

  -- What a transaction of one statement, or of two, has done if it ends well.
  pub transaction_one :
      {A : Type 0} (p : T → Option (A × T)) (db : Db T) (a : A)
      → (transaction (exec p) db).0 ≡ some a
      → p db.tables ≡ some (a, (transaction (exec p) db).1.tables)
  transaction_one p db a h =
      let (db', same, done, tables) = transaction_done (exec p) db a h in
      ap p (sym same) ∙ exec_done p db' a done ∙ ap (λ t. some (a, t)) (sym tables)

  pub transaction_two :
      (p q : T → Option (Unit {0} × T)) (db : Db T)
      → (transaction (exec p >> exec q) db).0 ≡ some tt
      → (t : T) × (p db.tables ≡ some (tt, t))
        × (q t ≡ some (tt, (transaction (exec p >> exec q) db).1.tables))
  transaction_two p q db h =
      let (db', same, done, tables) = transaction_done (exec p >> exec q) db tt h in
      let (_, first, rest) = >>=-done (exec p) (λ _. exec q) db' tt done in
      let second = exec_done q (exec p db').1 tt (sym (ap (λ r. r.0) rest) ∙ done) in
      (
        (exec p db').1.tables,
        ap p (sym same) ∙ exec_done p db' tt first,
        second ∙ ap (λ r. some (tt, r.1.tables)) (sym rest) ∙ ap (λ t. some (tt, t)) (sym tables),
      )
