-- ===== src/Api/Server/Create.antt =====
-- `POST /vm` of the server (api/create_vm.go), down to the core that runs the VM.
use kws_control.Common.{◌≡◌, refl, sym, ap, subst, ◌∙◌, inl, inr, Option, some, arith}
use kws_control.Common.Int.{ℤ}
use kws_control.Common.Text.{GoString, codes}
use kws_control.Structure.{VmInfo}
use kws_control.Structure.Repository.{VmRepository, Laws}
use kws_control.Structure.Control.{ControlContext}
use kws_control.Service.Action.{CreateVmInput}
use kws_control.Service.Vm.Created.{IsCreated, create_vm-IsCreated}
use kws_control.Service.Wire.{Environment, wired}
use kws_control.Service.Wire.Placed.{PlacedOn, create_vm-PlacedOn}
use kws_control.Api.Requests.{ApiJson, ApiRequest, ApiCreateVmRequest, decoded, to_service_input}
use kws_control.Api.Response.{Response}
use kws_control.Api.Server.{serve}
use kws_control.Api.Server.Served.{Created, IsRefusal, IsAnswer}
use kws_control.Api.Server.Routes.{serve-Served}

-- A 201 is no refusal and no other answer.
not-IsRefusal : ¬ IsRefusal 201
not-IsRefusal h = ground arith

not-IsAnswer : ¬ IsAnswer 201
not-IsAnswer h = ground arith

-- The input names the UUID and the sizes of the request.
pub record Asked (req : ApiCreateVmRequest) (input : CreateVmInput) : Type 0 where
  pub uuid : input.uuid ≡ req.uuid
  pub memory : input.hardware_info.memory ≡ req.hw_info.memory
  pub cpu : input.hardware_info.cpu ≡ req.hw_info.cpu
  pub disk : input.hardware_info.disk ≡ req.hw_info.disk

to_service_input-Asked : (req : ApiCreateVmRequest) → Asked req (to_service_input req)
unfolding to_service_input
to_service_input-Asked req = record { uuid = refl; memory = refl; cpu = refl; disk = refl }

module _ {R : Type 0} (repo : VmRepository R) (env : Environment) (json : ApiJson)
    (request : ApiRequest) (info : R → GoString → Option VmInfo)
    (location : R → GoString → Option ℤ) (laws : Laws repo info location) (c : ControlContext R)
    (r : Response) where
  created :
      (serve repo (wired env c.resources.cores) json request c).0 ≡ some r
      → r.status ≡ 201
      → Created repo
          (wired env c.resources.cores)
          json
          request
          c
          (serve repo (wired env c.resources.cores) json request c).1
  created h status = elim (serve-Served repo (wired env c.resources.cores) json request c) [
    | inl silent ↦ absurd cc
    | inr (s, answer, _, end) ↦
        let same : s ≡ r = cc in
        let code : s.status ≡ 201 = ap (λ (x : Response). x.status) same ∙ status in
        elim end [
          | inl (refusal, _) ↦ absurd (not-IsRefusal (subst IsRefusal code refusal))
          | inr (inl other) ↦ absurd (not-IsAnswer (subst IsAnswer code other))
          | inr (inr (_, made)) ↦ made
        ]
  ]

  -- If the server answers a request with status 201, then the request is a POST of /vm whose body
  -- decodes to `req`, a live core with the memory, processors and disk that `req` asks for has answered
  -- a POST of /createVM, with the JSON of a request for its UUID and these sizes, by a status from 200
  -- to 299, and the state that is left has the VM on the core
  -- that `SelectCore` picks, in the cache and in the repository, which had no row of that UUID.
  -- The repository is any that obeys the laws of `VMRepository`.
  pub serve-IsCreated :
      (serve repo (wired env c.resources.cores) json request c).0 ≡ some r
      → r.status ≡ 201
      → (request.method ≡ codes "POST")
        × (request.path ≡ codes "/vm")
        × (req : ApiCreateVmRequest) × (json.create_vm request.body ≡ decoded req)
        × Asked req (to_service_input req)
        × PlacedOn env (to_service_input req) c
        × IsCreated repo
            (wired env c.resources.cores)
            (to_service_input req)
            info
            location
            laws
            c
            (serve repo (wired env c.resources.cores) json request c).1
  serve-IsCreated h status =
      let made = created h status in
      let input = to_service_input made.req in
      (
        made.method,
        made.path,
        made.req,
        made.body,
        to_service_input-Asked made.req,
        create_vm-PlacedOn repo env input info location laws c made.done,
        subst (IsCreated repo (wired env c.resources.cores) input info location laws c)
            (sym made.after)
            (create_vm-IsCreated repo (wired env c.resources.cores) input info location laws c
              made.done),
      )
