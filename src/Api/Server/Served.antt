-- ===== src/Api/Server/Served.antt =====
-- What every request to the server (api/) is answered: its status and headers, and whether the shared
-- state may have changed.
use kws_control.Common.{
  ℕ, ◌≡◌, refl, ◌⊎◌, inl, inr, Bool, true, false, Option, none, some, [], ◌∷◌, if◌then◌else◌,
}
use kws_control.Common.Text.{GoString, codes, str_eq}
use kws_control.Common.Table.{lookup, insert}
use kws_control.Structure.Repository.{VmRepository}
use kws_control.Structure.Control.{ControlContext}
use kws_control.Service.Action.{Services, Action, Error, ok}
use kws_control.Service.Vm.{create_vm}
use kws_control.Api.Requests.{
  ApiJson, ApiRequest, ApiCreateVmRequest, ApiVmStatusRequest, Decoded, decoded, syntax_error,
  other_error, to_service_input,
}
use kws_control.Api.Response.{
  Body, message, plain, failure, write, Headers, Response, Handled, Handler, respond, respond_json,
  respond_error, reply,
}
use kws_control.Api.Handlers.{
  ok_status, internal_error, has_zero, create_decoded, decode, status_of, bad_request,
}
use kws_control.Api.Server.{no_route}
use kws_control.Api.Server.Answers.{decode_ways, if_ways, respond_ends}

abbrev pub NoSniff : Response → Type 0
NoSniff r = lookup (codes "X-Content-Type-Options") r.headers ≡ some (codes "nosniff")

-- The statuses of an answer that no call has led to
abbrev pub IsRefusal : ℕ → Type 0
IsRefusal s = (s ≡ 400) ⊎ ((s ≡ 404) ⊎ (s ≡ 405))

-- The statuses that follow a call of the service layer, but for `CreateVM` without an error
abbrev pub IsAnswer : ℕ → Type 0
IsAnswer s = (s ≡ 200) ⊎ ((s ≡ 404) ⊎ (s ≡ 500))

-- The headers that a handler starts with
abbrev pub secured : Headers
secured = (codes "X-Content-Type-Options", codes "nosniff") ∷ []

abbrev pub Fine : Response → Type 0
Fine r = NoSniff r × IsAnswer r.status

-- `CreateVM` has returned no error for the body of a POST of /vm, and left the state `c'`.
pub record Created {R : Type 0} (repo : VmRepository R) (services : Services) (json : ApiJson)
    (request : ApiRequest) (c c' : ControlContext R) : Type 0 where
  pub method : request.method ≡ codes "POST"
  pub path : request.path ≡ codes "/vm"
  pub req : ApiCreateVmRequest
  pub body : json.create_vm request.body ≡ decoded req
  pub sized : has_zero req.hw_info ≡ false
  pub done : (create_vm repo services (to_service_input req) c).0 ≡ ok tt
  pub after : c' ≡ (create_vm repo services (to_service_input req) c).1

module _ {R : Type 0} (repo : VmRepository R) (services : Services) (json : ApiJson)
    (request : ApiRequest) (c : ControlContext R) where
  abbrev pub Served : Option Response × ControlContext R → Type 0
  Served (o, c') =
      (o ≡ none)
      ⊎ ((r : Response) × (o ≡ some r)
          × NoSniff r
          × ((IsRefusal r.status × (c' ≡ c))
              ⊎ (IsAnswer r.status ⊎ ((r.status ≡ 201) × Created repo services json request c c'))))

  -- `Served` of a program that is not run yet
  unfoldable pub IsServed : Handled R → Type 0
  IsServed m = Served (m c)

  pub served : (m : Handled R) → IsServed m → Served (m c)
  unfolding IsServed
  served m h = h

  pub refused : (text : GoString) → IsServed (reply (bad_request text secured))
  unfolding IsServed reply respond_error lookup insert str_eq
  refused text = inr (_, refl, refl, inl (inl refl, refl))

  pub call-IsServed :
      {A : Type 0} (call : Action R A) (done : A → Response) (failed : Error → Response)
      → ((a : A) → Fine (done a))
      → ((e : Error) → Fine (failed e))
      → IsServed (respond call done failed)
  unfolding IsServed
  call-IsServed call done failed fine bad =
      respond_ends Served call done failed c
        (λ a _. inr (done a, refl, (fine a).0, inr (inl (fine a).1)))
        (λ e _. inr (failed e, refl, (bad e).0, inr (inl (bad e).1))) (λ _. inl refl)

  pub decode-IsServed :
      {A : Type 0} (text : GoString) (o : Option A) (next : A → Handler R)
      → ((a : A) → IsServed (next a secured))
      → IsServed (decode text o next secured)
  decode-IsServed text o next = decode_ways IsServed text o next secured (refused text)

  pub if_IsServed :
      (b : Bool) (m k : Handled R) → IsServed m → IsServed k → IsServed (if b then m else k)
  if_IsServed b m k = if_ways IsServed b m k

  pub missing-Served : (known : Bool) → Served (no_route known c)
  unfolding no_route lookup str_eq
  missing-Served true = inr (_, refl, refl, inl (inr (inr refl), refl))
  missing-Served false = inr (_, refl, refl, inl (inr (inl refl), refl))

  done_ok : {A : Type 0} (a : A) → Fine (ok_status secured a)
  unfolding lookup str_eq
  done_ok a = (refl, inl refl)

  pub json_ok : (body : Body) → Fine (respond_json 200 body secured)
  unfolding respond_json lookup insert str_eq
  json_ok body = (refl, inl refl)

  pub error_500 : (body : Body) → Fine (respond_error 500 body secured)
  unfolding respond_error lookup insert str_eq
  error_500 body = (refl, inr (inr refl))

  pub error_404 : (body : Body) → Fine (respond_error 404 body secured)
  unfolding respond_error lookup insert str_eq
  error_404 body = (refl, inr (inl refl))

  pub plain_ok : (text : GoString) → Fine (write 200 (plain text) secured)
  unfolding lookup str_eq
  plain_ok text = (refl, inl refl)

  -- A call of the service layer whose error is a 500
  pub json-IsServed :
      {A : Type 0} (call : Action R A) (body : A → Body)
      → IsServed (respond call (λ a. respond_json 200 (body a) secured) (internal_error secured))
  json-IsServed call body =
      call-IsServed call _ _ (λ a. json_ok (body a)) (λ e. error_500 (failure e))

  pub plain-IsServed :
      {A : Type 0} (call : Action R A)
      → IsServed (respond call (ok_status secured) (internal_error secured))
  plain-IsServed call = call-IsServed call _ _ done_ok (λ e. error_500 (failure e))

  create_call-IsServed :
      (req : ApiCreateVmRequest)
      → request.method ≡ codes "POST"
      → request.path ≡ codes "/vm"
      → json.create_vm request.body ≡ decoded req
      → has_zero req.hw_info ≡ false
      → IsServed (
          respond
            (create_vm repo services (to_service_input req))
            (λ _. respond_json 201 (message (codes "VM created successfully")) secured)
            (internal_error secured))
  unfolding IsServed respond_json lookup insert str_eq
  create_call-IsServed req method path body sized =
      respond_ends Served (create_vm repo services (to_service_input req)) _ _ c
        (λ a done. inr (
          _,
          refl,
          refl,
          inr (
              inr (
                refl,
                record {
                  method = method;
                  path = path;
                  req = req;
                  body = body;
                  sized = sized;
                  done = done;
                  after = refl;
                },
              )),
        ))
        (λ e _. inr (_, refl, (error_500 (failure e)).0, inr (inl (error_500 (failure e)).1)))
        (λ _. inl refl)

  pub create-IsServed :
      request.method ≡ codes "POST"
      → request.path ≡ codes "/vm"
      → (o : Decoded ApiCreateVmRequest) → json.create_vm request.body ≡ o
      → IsServed (create_decoded repo services o secured)
  unfolding create_decoded
  create-IsServed method path syntax_error e = refused _
  create-IsServed method path (other_error text) e = refused _
  create-IsServed method path (decoded req) e = by_size (has_zero req.hw_info) refl
    where
      by_size :
          (b : Bool)
          → has_zero req.hw_info ≡ b
          → IsServed (
              if b
              then reply (bad_request (codes "Memory, CPU, and Disk must be non-zero") secured)
              else respond
                  (create_vm repo services (to_service_input req))
                  (λ _. respond_json 201 (message (codes "VM created successfully")) secured)
                  (internal_error secured))
      by_size true z = refused _
      by_size false z = create_call-IsServed req method path e z

  pub status-IsServed : (req : ApiVmStatusRequest) → IsServed (status_of repo services req secured)
  unfolding status_of
  status-IsServed req =
      if_IsServed (str_eq req.type (codes "cpu")) _ _ (json-IsServed _ _)
        (if_IsServed (str_eq req.type (codes "memory")) _ _ (json-IsServed _ _) (json-IsServed _ _))
