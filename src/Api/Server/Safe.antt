-- ===== src/Api/Server/Safe.antt =====
-- The resources before and after a request to the server (api/).
use kws_control.Common.{arith, Bool, true, false, Option, List, [], if◌then◌else◌}
use kws_control.Common.Text.{GoString, codes, str_eq}
use kws_control.Structure.Repository.{VmRepository}
use kws_control.Structure.Control.{ControlContext}
use kws_control.Structure.Control.Sound.{Identity, Sound}
use kws_control.Service.Action.{Services, Action, Error, on_redis, or_raise, redis_missing, ◌>>=◌}
use kws_control.Service.Redis.{VmInfo, get_vm_info_from_redis}
use kws_control.Service.Preserve.{Keeps}
use kws_control.Service.Sound.Vm.{
  SoundAfter, quiet, start_vm-Sound, shutdown_vm-Sound, delete_vm-Sound,
}
use kws_control.Service.Sound.Create.{create_vm-Sound}
use kws_control.Service.Sound.Calls.{
  get_vm_cpu_info-Sound, get_vm_memory_info-Sound, get_vm_disk_info-Sound, list_snapshots-Sound,
  delete_snapshot-Sound, take_snapshot-Sound, get_guacamole_token-Sound,
}
use kws_control.Api.Requests.{
  ApiJson, ApiRequest, ApiCreateVmRequest, ApiVmStatusRequest, Decoded, decoded, syntax_error,
  other_error, to_service_input, RedisStatusRequest,
}
use kws_control.Api.Response.{
  Headers, Response, Handled, Handler, respond, reply, with_security_headers,
}
use kws_control.Api.Handlers.{
  has_zero, create_decoded, decode, status_of, set_status, create_vm_handler, delete_vm_handler,
  start_vm_handler, shutdown_vm_handler, vm_info_handler, vm_status_handler, vm_connect_handler,
  redis_handler, take_snapshot_handler, list_snapshots_handler, delete_snapshot_handler,
}
use kws_control.Api.Server.{no_route, routes, serve}
use kws_control.Api.Server.Answers.{decode_ways, if_ways, respond_ends, Each, Fits, dispatch-Each}

module _ {R : Type 0} (identities : List Identity) (repo : VmRepository R) (services : Services)
    (json : ApiJson) (request : ApiRequest) where
  -- A program that leaves sound resources sound
  unfoldable pub Safe : Handled R → Type 0
  Safe m =
      (c : ControlContext R) → Sound identities c.resources → Sound identities (m c).1.resources

  reply-Safe : (r : Response) → Safe (reply r)
  unfolding Safe reply
  reply-Safe r c s = s

  respond-Safe :
      {A : Type 0} (call : Action R A) (done : A → Response) (failed : Error → Response)
      → SoundAfter identities repo services call
      → Safe (respond call done failed)
  unfolding Safe Keeps
  respond-Safe call done failed kept c s =
      let sound = (kept c s).0 in
      respond_ends (λ (r : Option Response × ControlContext R). Sound identities r.1.resources) call
        done failed c (λ a _. sound) (λ e _. sound) (λ _. sound)

  decode-Safe :
      {A : Type 0} (text : GoString) (o : Option A) (next : A → Handler R) (headers : Headers)
      → ((a : A) → Safe (next a headers))
      → Safe (decode text o next headers)
  decode-Safe text o next headers = decode_ways Safe text o next headers (reply-Safe _)

  if_Safe : (b : Bool) (m k : Handled R) → Safe m → Safe k → Safe (if b then m else k)
  if_Safe b m k = if_ways Safe b m k

  create-Safe :
      (o : Decoded ApiCreateVmRequest) (h : Headers) → Safe (create_decoded repo services o h)
  unfolding create_decoded
  create-Safe syntax_error h = reply-Safe _
  create-Safe (other_error text) h = reply-Safe _
  create-Safe (decoded req) h =
      if_Safe (has_zero req.hw_info) _ _ (reply-Safe _)
        (respond-Safe _ _ _ (create_vm-Sound identities repo services (to_service_input req)))

  status-Safe : (req : ApiVmStatusRequest) (h : Headers) → Safe (status_of repo services req h)
  unfolding status_of
  status-Safe req h =
      if_Safe (str_eq req.type (codes "cpu")) _ _
        (respond-Safe _ _ _ (get_vm_cpu_info-Sound identities repo services req.uuid))
        (if_Safe (str_eq req.type (codes "memory")) _ _
          (respond-Safe _ _ _ (get_vm_memory_info-Sound identities repo services req.uuid))
          (respond-Safe _ _ _ (get_vm_disk_info-Sound identities repo services req.uuid)))

  missing-Safe : (known : Bool) → Safe (no_route known)
  unfolding no_route reply Safe
  missing-Safe true c s = s
  missing-Safe false c s = s

  set_status_safe :
      (req : RedisStatusRequest)
      → SoundAfter identities repo services (set_status repo services req)
  unfolding set_status
  set_status_safe req =
      quiet identities repo services (set_status repo services req) (λ c. ground arith)

  -- The call of `vmInfo`
  abbrev pub recorded : GoString → Action R VmInfo
  recorded uuid =
      on_redis (get_vm_info_from_redis services.json uuid)
      >>= (λ found. or_raise found redis_missing)

  record_safe : (uuid : GoString) → SoundAfter identities repo services (recorded uuid)
  record_safe uuid = quiet identities repo services (recorded uuid) (λ c. ground arith)

  module _ (h : Headers) where
    create_vm-Safe : Safe (create_vm_handler repo services json request h)
    unfolding create_vm_handler
    create_vm-Safe = create-Safe (json.create_vm request.body) h

    delete_vm-Safe : Safe (delete_vm_handler repo services json request h)
    unfolding delete_vm_handler
    delete_vm-Safe =
        decode-Safe _ _ _ h
          (λ req. respond-Safe _ _ _ (delete_vm-Sound identities repo services req.uuid))

    shutdown_vm-Safe : Safe (shutdown_vm_handler repo services json request h)
    unfolding shutdown_vm_handler
    shutdown_vm-Safe =
        decode-Safe _ _ _ h
          (λ req. respond-Safe _ _ _ (shutdown_vm-Sound identities repo services req.uuid))

    vm_status-Safe : Safe (vm_status_handler repo services json request h)
    unfolding vm_status_handler
    vm_status-Safe = decode-Safe _ _ _ h (λ req. if_Safe _ _ _ (reply-Safe _) (status-Safe req h))

    vm_connect-Safe : Safe (vm_connect_handler repo services json request h)
    unfolding vm_connect_handler
    vm_connect-Safe =
        if_Safe _ _ _ (reply-Safe _) (
          respond-Safe _ _ _
            (get_guacamole_token-Sound identities repo services request.query_uuid))

    redis-Safe : Safe (redis_handler repo services json request h)
    unfolding redis_handler
    redis-Safe = decode-Safe _ _ _ h (λ req. respond-Safe _ _ _ (set_status_safe req))

    vm_info-Safe : Safe (vm_info_handler repo services json request h)
    unfolding vm_info_handler
    vm_info-Safe = decode-Safe _ _ _ h (λ req. respond-Safe _ _ _ (record_safe req.uuid))

    start_vm-Safe : Safe (start_vm_handler repo services json request h)
    unfolding start_vm_handler
    start_vm-Safe =
        decode-Safe _ _ _ h
          (λ req. respond-Safe _ _ _ (start_vm-Sound identities repo services req.uuid))

    take_snapshot-Safe : Safe (take_snapshot_handler repo services json request h)
    unfolding take_snapshot_handler
    take_snapshot-Safe = decode-Safe _ _ _ h (λ req.
        if_Safe _ _ _ (reply-Safe _) (
          respond-Safe _ _ _ (take_snapshot-Sound identities repo services req.uuid req.snap_name)))

    list_snapshots-Safe : Safe (list_snapshots_handler repo services json request h)
    unfolding list_snapshots_handler
    list_snapshots-Safe =
        if_Safe _ _ _ (reply-Safe _)
          (respond-Safe _ _ _ (list_snapshots-Sound identities repo services request.query_uuid))

    delete_snapshot-Safe : Safe (delete_snapshot_handler repo services json request h)
    unfolding delete_snapshot_handler
    delete_snapshot-Safe = decode-Safe _ _ _ h (λ req.
        if_Safe _ _ _ (reply-Safe _) (
          respond-Safe _ _ _
            (delete_snapshot-Sound identities repo services req.uuid req.snap_key)))

  -- One request
  pub serve_safe :
      (c : ControlContext R)
      → Sound identities c.resources
      → Sound identities (serve repo services json request c).1.resources
  unfolding serve routes Each with_security_headers Safe
  serve_safe c s =
      dispatch-Each (λ r. Sound identities r.1.resources) (routes repo services json request)
        request c each (λ known. missing-Safe known c s)
    where
      each :
          Each
            (λ r. Fits request r → Sound identities (r.handler [] c).1.resources)
            (routes repo services json request)
      each = (
        λ _. create_vm-Safe _ c s,
        (
          λ _. delete_vm-Safe _ c s,
          (
            λ _. shutdown_vm-Safe _ c s,
            (
              λ _. vm_status-Safe _ c s,
              (
                λ _. vm_connect-Safe _ c s,
                (
                  λ _. redis-Safe _ c s,
                  (
                    λ _. vm_info-Safe _ c s,
                    (
                      λ _. start_vm-Safe _ c s,
                      (
                        λ _. take_snapshot-Safe _ c s,
                        (λ _. list_snapshots-Safe _ c s, (λ _. delete_snapshot-Safe _ c s, tt)),
                      ),
                    ),
                  ),
                ),
              ),
            ),
          ),
        ),
      )
