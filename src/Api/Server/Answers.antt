-- ===== src/Api/Server/Answers.antt =====
-- The answers of the server (api/) to one request.
use kws_control.Common.{
  ◌≡◌, refl, inl, inr, Bool, true, false, ◌&&◌, Option, none, some, List, [], ◌∷◌, arith,
  Bool-cases, if◌then◌else◌, subst,
}
use kws_control.Common.Text.{GoString, str_eq}
use kws_control.Structure.Control.{ControlContext}
use kws_control.Service.Action.{Action, Outcome, ok, err, panic, Error}
use kws_control.Api.Requests.{ApiRequest}
use kws_control.Api.Response.{Headers, Response, Handled, Handler, reply, respond}
use kws_control.Api.Handlers.{decode, bad_request}
use kws_control.Api.Server.{Route, takes, find_route, has_path, no_route, dispatch}

module _ {R : Type 0} where
  -- The three ends of a call, and what each makes of a property of the answer
  pub respond_ends :
      {A : Type 0} (P : Option Response × ControlContext R → Type 0) (call : Action R A)
      (done : A → Response) (failed : Error → Response) (c : ControlContext R)
      → ((a : A) → (call c).0 ≡ ok a → P (some (done a), (call c).1))
      → ((e : Error) → (call c).0 ≡ err e → P (some (failed e), (call c).1))
      → ((call c).0 ≡ panic → P (none, (call c).1))
      → P (respond call done failed c)
  unfolding respond
  respond_ends {A} P call done failed c on_ok on_err on_panic = by_end ((call c).0) refl
    where
      by_end :
          (o : Outcome A)
          → (call c).0 ≡ o
          → P (elim o [
            | ok a ↦ (some (done a), (call c).1)
            | err e ↦ (some (failed e), (call c).1)
            | panic ↦ (none, (call c).1)
          ])
      by_end (ok a) e = on_ok a e
      by_end (err x) e = on_err x e
      by_end panic e = on_panic e

  -- The two ways through a decoder and through a test
  pub decode_ways :
      {A : Type 0} (P : Handled R → Type 0) (text : GoString) (o : Option A) (next : A → Handler R)
      (headers : Headers)
      → P (reply (bad_request text headers))
      → ((a : A) → P (next a headers))
      → P (decode text o next headers)
  unfolding decode
  decode_ways P text none next headers refused each = refused
  decode_ways P text (some a) next headers refused each = each a

  pub if_ways :
      (P : Handled R → Type 0) (b : Bool) (m k : Handled R) → P m → P k → P (if b then m else k)
  if_ways P true m k first second = first
  if_ways P false m k first second = second

  -- A property of every route of the list
  unfoldable pub Each : (Route R → Type 0) → List (Route R) → Type 0
  Each P [] = Unit
  Each P (r ∷ rs) = P r × Each P rs

  abbrev pub Fits : ApiRequest → Route R → Type 0
  Fits request r = takes r.method request.method && str_eq r.path request.path ≡ true

  each_found :
      (P : Route R → Type 0) (rs : List (Route R)) (request : ApiRequest) (r : Route R)
      → Each (λ r. Fits request r → P r) rs
      → find_route request.method request.path rs ≡ some r
      → P r
  unfolding Each find_route
  each_found P [] request r each h = cc
  each_found P (s ∷ rs) request r (first, rest) h =
      elim (Bool-cases (takes s.method request.method && str_eq s.path request.path)) [
        | inl fits ↦ subst P (ground arith) (first fits)
        | inr other ↦ each_found P rs request r rest (ground arith)
      ]

  -- What holds of the handler of every route that fits, and of the answers without a route, holds of
  -- the dispatch.
  pub dispatch-Each :
      (P : Option Response × ControlContext R → Type 0) (rs : List (Route R)) (request : ApiRequest)
      (c : ControlContext R)
      → Each (λ r. Fits request r → P (r.handler [] c)) rs
      → ((known : Bool) → P (no_route known c))
      → P (dispatch rs request c)
  unfolding dispatch
  dispatch-Each P rs request c each missing =
      by_route (find_route request.method request.path rs) refl
    where
      by_route :
          (found : Option (Route R))
          → find_route request.method request.path rs ≡ found
          → P (elim found [
            | some r ↦ r.handler [] c
            | none ↦ no_route (has_path request.path rs) c
          ])
      by_route none e = missing (has_path request.path rs)
      by_route (some r) e = each_found (λ r. P (r.handler [] c)) rs request r each e
