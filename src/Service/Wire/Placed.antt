-- ===== src/Service/Wire/Placed.antt =====
-- A `CreateVM` over HTTP: the request that the chosen core has answered.
use kws_control.Common.{ℕ, ◌≡◌, ◌≤◌, refl, subst, true, Option, none, some, List}
use kws_control.Common.Int.{ℤ}
use kws_control.Common.Lists.{get_elem?}
use kws_control.Common.Text.{GoString, codes}
use kws_control.Structure.{Core, VmInfo}
use kws_control.Structure.ResourceManager.Select.{selected_room}
use kws_control.Structure.Repository.{VmRepository, Laws}
use kws_control.Structure.Control.{ControlContext}
use kws_control.Client.Http.{post}
use kws_control.Client.Core.{new_core_client, CoreClient}
use kws_control.Client.Core
use kws_control.Client.Core.Exchange.{Answered, do_request-Answered}
use kws_control.Service.Action.{ok, CreateVmInput, CreateVmRequest, CmsNewInstanceResponse}
use kws_control.Service.Vm.{create_vm, requirement, build_core_create_vm_request}
use kws_control.Service.Vm.Create.{selected_core}
use kws_control.Service.Vm.Created.{create_vm-IsCreated}
use kws_control.Service.Wire.{Environment, is_some, on_core, wired}

is_some-cases : {A : Type 0} (o : Option A) → is_some o ≡ true → (a : A) × (o ≡ some a)
is_some-cases none h = cc
is_some-cases (some a) h = (a, refl)

-- A call on the core of an index that has an answer is a call on the client of that core.
on_core_answer :
    {A : Type 0} (cores : List Core) (k : ℕ) (core : Core) (call : CoreClient → Option A)
    → get_elem? cores k ≡ some core
    → is_some (on_core cores k call) ≡ true
    → (a : A) × (call (new_core_client core) ≡ some a)
on_core_answer cores k core call at h = is_some-cases (call (new_core_client core)) (
    subst (λ found. is_some (elim found [ none ↦ none | some c ↦ call (new_core_client c) ]) ≡ true)
      at h)

request_kept :
    (input : CreateVmInput) (resp : CmsNewInstanceResponse) (key : GoString)
    → let request = build_core_create_vm_request input resp key in
      (request.uuid ≡ input.uuid) × (request.hardware_info ≡ input.hardware_info)
unfolding build_core_create_vm_request
request_kept input resp key = (refl, refl)

-- The core that has answered the request to create the VM.
pub record PlacedOn {R : Type 0} (env : Environment) (input : CreateVmInput) (c : ControlContext R)
    : Type 0 where
  pub k : ℕ
  pub core : Core
  pub at : get_elem? c.resources.cores k ≡ some core
  pub alive : core.is_alive ≡ true
  pub memory : input.hardware_info.memory ≤ core.free_memory
  pub cpu : input.hardware_info.cpu ≤ core.free_cpu
  pub disk : input.hardware_info.disk ≤ core.free_disk
  pub request : CreateVmRequest
  pub uuid : request.uuid ≡ input.uuid
  pub hardware : request.hardware_info ≡ input.hardware_info
  pub text : GoString
  pub encoded : env.core_json.create_request request ≡ some text
  pub answered :
      Answered env.http
        (new_core_client core)
        post
        (codes "/createVM")
        text
        env.core_json.create_response
        tt

module _ {R : Type 0} (repo : VmRepository R) (env : Environment) (input : CreateVmInput)
    (info : R → GoString → Option VmInfo) (location : R → GoString → Option ℤ)
    (laws : Laws repo info location) (c : ControlContext R) where
  -- If a `CreateVM` over HTTP returns no error, then a live core with the room that was asked for has
  -- answered a POST of its path /createVM, with the UUID and the sizes of the input and the JSON of the request, by a status from
  -- 200 to 299. The repository is any that obeys the laws of `VMRepository`.
  pub create_vm-PlacedOn :
      (create_vm repo (wired env c.resources.cores) input c).0 ≡ ok tt → PlacedOn env input c
  unfolding wired Core.create_vm
  create_vm-PlacedOn h =
      let made =
        create_vm-IsCreated repo (wired env c.resources.cores) input info location laws c h in
      let (core, at) = selected_core (requirement input) c.resources made.core made.chosen in
      let (alive, memory, cpu, disk) =
        selected_room (requirement input) c.resources made.core core made.chosen at in
      let kept = request_kept input made.resp made.public_key in
      let req = build_core_create_vm_request input made.resp made.public_key in
      let (_, answer) =
        on_core_answer c.resources.cores made.core core
          (λ client. Core.create_vm env.http env.core_json client req) at made.accepted in
      let (text, encoded, answered) =
        (do_request-Answered env.http (new_core_client core) post (codes "/createVM")
            (env.core_json.create_request req) env.core_json.create_response tt).0
          answer in
      record {
        k = made.core;
        core = core;
        at = at;
        alive = alive;
        memory = memory;
        cpu = cpu;
        disk = disk;
        request = req;
        uuid = kept.0;
        hardware = kept.1;
        text = text;
        encoded = encoded;
        answered = answered;
      }
