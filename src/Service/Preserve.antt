-- ===== src/Service/Preserve.antt =====
-- A property of the resources that an action of the service layer preserves, on every outcome, with
-- what holds of the value that it returns.
use kws_control.Common.{◌≡◌, refl, sym, subst, Option, none, some}
use kws_control.Sql.{Db, Sql}
use kws_control.Common.Table.{Table}
use kws_control.Common.Text.{GoString}
use kws_control.Pkg.Guacamole.{GuacTables}
use kws_control.Structure.ResourceManager.{ResourceManager}
use kws_control.Structure.Control.{ControlContext, Call}
use kws_control.Service.Action.{
  Error, Outcome, ok, err, panic, Action, pure, ◌>>=◌, or_raise, send, update_resources, on_repo,
  on_subnet, on_guac, on_redis,
}

-- Nothing is said of the value.
abbrev pub Any : {A : Type 0} → A → Type 0
Any _ = Unit

module _ (R : Type 0) (I : ResourceManager → Type 0) where
  unfoldable pub Keeps : {A : Type 0} → Action R A → (A → Type 0) → Type 0
  Keeps {A} m Q =
      (c : ControlContext R)
      → I c.resources
      → I (m c).1.resources × ((a : A) → (m c).0 ≡ ok a → Q a)

  -- The parts of a triple, from the outcome of its first action
  pub bind_keeps :
      {A B : Type 0} (m : Action R A) (f : A → Action R B) (P : A → Type 0) (Q : B → Type 0)
      → Keeps m P
      → ((a : A) → P a → Keeps (f a) Q)
      → Keeps (m >>= f) Q
  unfolding Keeps
  bind_keeps {A} {B} m f P Q first next c i = by_outcome ((m c).0) ((first c i).1)
    where
      by_outcome :
          (o : Outcome A)
          → ((a : A) → o ≡ ok a → P a)
          → let r : Outcome B × ControlContext R = elim o [
            | ok a ↦ f a (m c).1
            | err e ↦ (err e, (m c).1)
            | panic ↦ (panic, (m c).1)
          ] in
            I r.1.resources × ((b : B) → r.0 ≡ ok b → Q b)
      by_outcome (ok a) p = next a (p a refl) (m c).1 (first c i).0
      by_outcome (err e) p = ((first c i).0, λ b h. cc)
      by_outcome panic p = ((first c i).0, λ b h. cc)

  pub pure_keeps : {A : Type 0} (a : A) (Q : A → Type 0) → Q a → Keeps (pure a) Q
  unfolding Keeps
  pure_keeps a Q q c i = (i, λ b h. let same : a ≡ b = cc in subst Q same q)

  pub or_raise_keeps :
      {A : Type 0} (o : Option A) (e : Error) (Q : A → Type 0)
      → ((a : A) → o ≡ some a → Q a)
      → Keeps (or_raise o e) Q
  unfolding Keeps
  or_raise_keeps none e Q each c i = (i, λ b h. cc)
  or_raise_keeps (some a) e Q each c i =
      (i, λ b h. let same : a ≡ b = cc in subst Q same (each a refl))

  -- An action that leaves the resources alone
  pub quiet_keeps :
      {A : Type 0} (m : Action R A)
      → ((c : ControlContext R) → (m c).1.resources ≡ c.resources)
      → Keeps m Any
  unfolding Keeps
  quiet_keeps m same c i = (subst I (sym (same c)) i, λ a h. tt)

  pub update_keeps :
      (f : ResourceManager → ResourceManager)
      → ((rm : ResourceManager) → I rm → I (f rm))
      → Keeps (update_resources f) Any
  unfolding Keeps
  update_keeps f kept c i = (kept c.resources i, λ a h. tt)

  pub send_keeps : (call : Call) → Keeps (send call) Any
  send_keeps call = quiet_keeps (send call) (λ c. refl)

  pub repo_keeps : {A : Type 0} (m : R → Option A × R) → Keeps (on_repo m) Any
  repo_keeps m = quiet_keeps (on_repo m) (λ c. refl)

  pub subnet_keeps : {A : Type 0} (m : Sql GoString A) → Keeps (on_subnet m) Any
  subnet_keeps m = quiet_keeps (on_subnet m) (λ c. refl)

  pub guac_keeps : {A : Type 0} (m : Db GuacTables → A × Db GuacTables) → Keeps (on_guac m) Any
  guac_keeps m = quiet_keeps (on_guac m) (λ c. refl)

  pub redis_keeps : {A : Type 0} (m : Sql (Table GoString) A) → Keeps (on_redis m) Any
  redis_keeps m = quiet_keeps (on_redis m) (λ c. refl)
