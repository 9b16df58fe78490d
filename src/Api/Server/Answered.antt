-- ===== src/Api/Server/Answered.antt =====
-- Panics of the server (api/): the requests other than POST /vm.
use kws_control.Common.{
  arith, ◌≡◌, ◌≢◌, ◌⊎◌, inl, inr, refl, Bool, true, false, Option, some, List, [], map,
  if◌then◌else◌, ◌&&◌,
}
use kws_control.Common.Lists.{All}
use kws_control.Common.Text.{GoString, codes, str_eq}
use kws_control.Structure.Repository.{VmRepository}
use kws_control.Structure.Control.{ControlContext}
use kws_control.Structure.Control.Find.{PlacesInRange}
use kws_control.Structure.Control.Sound.{Identity, Sound, identity, HasWords}
use kws_control.Service.Action.{Services, Action, Error, panic}
use kws_control.Api.Requests.{ApiJson, ApiRequest, ApiVmStatusRequest, RedisStatusRequest}
use kws_control.Api.Response.{
  Headers, Response, Handled, Handler, respond, reply, with_security_headers,
}
use kws_control.Api.Handlers.{
  decode, status_of, set_status, delete_vm_handler, start_vm_handler, shutdown_vm_handler,
  vm_info_handler, vm_status_handler, vm_connect_handler, redis_handler, take_snapshot_handler,
  list_snapshots_handler, delete_snapshot_handler,
}
use kws_control.Api.Server.{takes, no_route, routes, serve}
use kws_control.Api.Server.Answers.{decode_ways, if_ways, respond_ends, Each, Fits, dispatch-Each}
use kws_control.Api.Server.Safe.{recorded}
use kws_control.Api.Server.Reach.{Reach, Reach-Sound}
use kws_control.Service.Sound.Calm.{
  start_vm-Calm, shutdown_vm-Calm, delete_vm-Calm, get_vm_cpu_info-Calm, get_vm_memory_info-Calm,
  get_vm_disk_info-Calm, list_snapshots-Calm, delete_snapshot-Calm, take_snapshot-Calm,
  get_guacamole_token-Calm,
}

module _ {R : Type 0} (identities : List Identity) (repo : VmRepository R) (services : Services)
    (json : ApiJson) (request : ApiRequest) where
  -- A program that answers on sound resources
  unfoldable Answers : Handled R → Type 0
  Answers m =
      (c : ControlContext R) → Sound identities c.resources → (r : Response) × ((m c).0 ≡ some r)

  replies : (r : Response) → Answers (reply r)
  unfolding Answers reply
  replies r c s = (r, refl)

  responds :
      {A : Type 0} (call : Action R A) (done : A → Response) (failed : Error → Response)
      → ((c : ControlContext R) → Sound identities c.resources → (call c).0 ≢ panic)
      → Answers (respond call done failed)
  unfolding Answers
  responds call done failed calm c s =
      respond_ends (λ (r : Option Response × ControlContext R). (a : Response) × (r.0 ≡ some a))
        call done failed c (λ a _. (done a, refl)) (λ e _. (failed e, refl))
        (λ p. absurd (calm c s p))

  decodes :
      {A : Type 0} (text : GoString) (o : Option A) (next : A → Handler R) (headers : Headers)
      → ((a : A) → Answers (next a headers))
      → Answers (decode text o next headers)
  decodes text o next headers = decode_ways Answers text o next headers (replies _)

  tests : (b : Bool) (m k : Handled R) → Answers m → Answers k → Answers (if b then m else k)
  tests b m k = if_ways Answers b m k

  status-Answers :
      (req : ApiVmStatusRequest) (h : Headers) → Answers (status_of repo services req h)
  unfolding status_of
  status-Answers req h =
      tests (str_eq req.type (codes "cpu")) _ _
        (responds _ _ _ (get_vm_cpu_info-Calm identities repo services req.uuid))
        (tests (str_eq req.type (codes "memory")) _ _
          (responds _ _ _ (get_vm_memory_info-Calm identities repo services req.uuid))
          (responds _ _ _ (get_vm_disk_info-Calm identities repo services req.uuid)))

  missing-Answers : (known : Bool) → Answers (no_route known)
  unfolding no_route reply Answers
  missing-Answers true c s = (_, refl)
  missing-Answers false c s = (_, refl)

  set_status-calm :
      (req : RedisStatusRequest) (c : ControlContext R) → (set_status repo services req c).0 ≢ panic
  unfolding set_status
  set_status-calm req c h = ground arith

  recorded-calm :
      (uuid : GoString) (c : ControlContext R)
      → (recorded identities repo services json request uuid c).0 ≢ panic
  recorded-calm uuid c h = ground arith

  module _ (h : Headers) where
    delete_vm-Answers : Answers (delete_vm_handler repo services json request h)
    unfolding delete_vm_handler
    delete_vm-Answers =
        decodes _ _ _ h (λ req. responds _ _ _ (delete_vm-Calm identities repo services req.uuid))

    shutdown_vm-Answers : Answers (shutdown_vm_handler repo services json request h)
    unfolding shutdown_vm_handler
    shutdown_vm-Answers =
        decodes _ _ _ h (λ req. responds _ _ _ (shutdown_vm-Calm identities repo services req.uuid))

    vm_status-Answers : Answers (vm_status_handler repo services json request h)
    unfolding vm_status_handler
    vm_status-Answers = decodes _ _ _ h (λ req. tests _ _ _ (replies _) (status-Answers req h))

    vm_connect-Answers : Answers (vm_connect_handler repo services json request h)
    unfolding vm_connect_handler
    vm_connect-Answers =
        tests _ _ _ (replies _)
          (responds _ _ _ (get_guacamole_token-Calm identities repo services request.query_uuid))

    redis-Answers : Answers (redis_handler repo services json request h)
    unfolding redis_handler
    redis-Answers = decodes _ _ _ h (λ req. responds _ _ _ (λ c s. set_status-calm req c))

    vm_info-Answers : Answers (vm_info_handler repo services json request h)
    unfolding vm_info_handler
    vm_info-Answers = decodes _ _ _ h (λ req. responds _ _ _ (λ c s. recorded-calm req.uuid c))

    start_vm-Answers : Answers (start_vm_handler repo services json request h)
    unfolding start_vm_handler
    start_vm-Answers =
        decodes _ _ _ h (λ req. responds _ _ _ (start_vm-Calm identities repo services req.uuid))

    take_snapshot-Answers : Answers (take_snapshot_handler repo services json request h)
    unfolding take_snapshot_handler
    take_snapshot-Answers = decodes _ _ _ h (λ req.
        tests _ _ _ (replies _)
          (responds _ _ _ (take_snapshot-Calm identities repo services req.uuid req.snap_name)))

    list_snapshots-Answers : Answers (list_snapshots_handler repo services json request h)
    unfolding list_snapshots_handler
    list_snapshots-Answers =
        tests _ _ _ (replies _)
          (responds _ _ _ (list_snapshots-Calm identities repo services request.query_uuid))

    delete_snapshot-Answers : Answers (delete_snapshot_handler repo services json request h)
    unfolding delete_snapshot_handler
    delete_snapshot-Answers = decodes _ _ _ h (λ req.
        tests _ _ _ (replies _)
          (responds _ _ _ (delete_snapshot-Calm identities repo services req.uuid req.snap_key)))

  abbrev IsPostVm : Type 0
  IsPostVm = takes (codes "POST") request.method && str_eq (codes "/vm") request.path ≡ true

  abbrev Ends : Option Response × ControlContext R → Type 0
  Ends r = IsPostVm ⊎ ((a : Response) × (r.0 ≡ some a))

  answers :
      (m : Handled R) (c : ControlContext R) → Sound identities c.resources → Answers m → Ends (m c)
  unfolding Answers
  answers m c s h = inr (h c s)

  serve-Ends :
      (c : ControlContext R)
      → Sound identities c.resources
      → Ends (serve repo services json request c)
  unfolding serve routes Each with_security_headers
  serve-Ends c s =
      dispatch-Each Ends (routes repo services json request) request c each
        (λ known. answers _ c s (missing-Answers known))
    where
      each : Each (λ r. Fits request r → Ends (r.handler [] c)) (routes repo services json request)
      each = (
        λ post. inl post,
        (
          λ _. answers _ c s (delete_vm-Answers _),
          (
            λ _. answers _ c s (shutdown_vm-Answers _),
            (
              λ _. answers _ c s (vm_status-Answers _),
              (
                λ _. answers _ c s (vm_connect-Answers _),
                (
                  λ _. answers _ c s (redis-Answers _),
                  (
                    λ _. answers _ c s (vm_info-Answers _),
                    (
                      λ _. answers _ c s (start_vm-Answers _),
                      (
                        λ _. answers _ c s (take_snapshot-Answers _),
                        (
                          λ _. answers _ c s (list_snapshots-Answers _),
                          (λ _. answers _ c s (delete_snapshot-Answers _), tt),
                        ),
                      ),
                    ),
                  ),
                ),
              ),
            ),
          ),
        ),
      )

-- In every state that the server reaches by any requests from one in which each cached place is the
-- index of a core and the free amounts are `uint32` values, a request other than a POST of /vm is
-- answered: no handler panics, whatever the other services, the database and Redis answer.
pub serve_answers :
    {R : Type 0} (repo : VmRepository R) (json : ApiJson) (c0 c : ControlContext R)
    (services : Services) (request : ApiRequest)
    → PlacesInRange c0.resources
    → All HasWords c0.resources.cores
    → Reach repo json c0 c
    → (takes (codes "POST") request.method && str_eq (codes "/vm") request.path ≡ false)
    → (r : Response) × ((serve repo services json request c).0 ≡ some r)
serve_answers repo json c0 c services request places words reached other =
    elim (serve-Ends (map identity c0.resources.cores) repo services json request c
      (Reach-Sound repo json c0 c places words reached)) [
        | inl post ↦ absurd cc
        | inr answer ↦ answer
      ]
