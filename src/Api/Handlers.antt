-- ===== src/Api/Handlers.antt =====
-- The handlers of api/*.go, over the decoded body and the query of a request.
use kws_control.Common.{◌==◌, Bool, ◌||◌, ◌&&◌, not, Option, none, some, [], ◌++◌, if◌then◌else◌}
use kws_control.Common.Text.{GoString, codes, str_eq}
use kws_control.Structure.Repository.{VmRepository}
use kws_control.Service.Action.{
  Services, Action, Error, ◌>>=◌, ◌>>◌, or_raise, on_redis, redis_update, redis_get, redis_missing,
}
use kws_control.Sql.{exec}
use kws_control.Service.Redis.{VmInfo, update_vm_status_in_redis, get_vm_info_from_redis, get_key}
use kws_control.Service.Vm.{create_vm, delete_vm, start_vm, shutdown_vm}
use kws_control.Service.Usage.{get_vm_cpu_info, get_vm_memory_info, get_vm_disk_info}
use kws_control.Service.Guacamole.{get_guacamole_token}
use kws_control.Service.Snapshot.{list_snapshots, delete_snapshot, take_snapshot}
use kws_control.Api.UpdateRedis.{validate_and_normalize_status}
use kws_control.Api.Requests.{
  ApiHardwareInfo, ApiCreateVmRequest, ApiVmStatusRequest, RedisStatusRequest, Decoded, decoded,
  syntax_error, other_error, ApiJson, ApiRequest, to_service_input,
}
use kws_control.Api.Response.{
  Body, empty, plain, message, error_text, failure, auth_token, vm_info, cpu_status, memory_status,
  disk_status, snapshots, Headers, Response, Handler, write, respond_json, respond_error, reply,
  respond,
}

-- `util.RespondError(w, http.StatusBadRequest, ...)`
abbrev pub bad_request : GoString → Headers → Response
bad_request text = respond_error 400 (error_text text)

-- `util.RespondError(w, http.StatusInternalServerError, err.Error())`
abbrev pub internal_error : Headers → Error → Response
internal_error headers e = respond_error 500 (failure e) headers

-- `w.WriteHeader(http.StatusOK)`
abbrev pub ok_status : {A : Type 0} → Headers → A → Response
ok_status headers _ = write 200 empty headers

-- `Memory == 0 || CPU == 0 || Disk == 0`
abbrev pub has_zero : ApiHardwareInfo → Bool
has_zero hw = hw.memory == 0 || hw.cpu == 0 || hw.disk == 0

abbrev pub is_empty : GoString → Bool
is_empty s = str_eq s []

-- A handler that decodes the body first
unfoldable pub decode : {R A : Type 0} → GoString → Option A → (A → Handler R) → Handler R
decode text none next headers = reply (bad_request text headers)
decode text (some req) next headers = next req headers

module _ {R : Type 0} (repo : VmRepository R) (services : Services) where
  unfoldable pub create_decoded : Decoded ApiCreateVmRequest → Handler R
  create_decoded syntax_error headers =
      reply (bad_request (codes "invalid JSON format in request body") headers)
  create_decoded (other_error text) headers =
      reply (bad_request (codes "err req body parsing: " ++ text) headers)
  create_decoded (decoded req) headers =
      if has_zero req.hw_info
      then reply (bad_request (codes "Memory, CPU, and Disk must be non-zero") headers)
      else respond (create_vm repo services (to_service_input req))
          (λ _. respond_json 201 (message (codes "VM created successfully")) headers)
          (internal_error headers)

  unfoldable pub status_of : ApiVmStatusRequest → Handler R
  status_of req headers =
      if str_eq req.type (codes "cpu")
      then respond (get_vm_cpu_info repo services req.uuid)
          (λ s.
            respond_json 200
              (cpu_status (record { system = s.system; idle = s.idle; usage = s.usage })) headers)
          (internal_error headers)
      else if str_eq req.type (codes "memory")
      then respond (get_vm_memory_info repo services req.uuid)
          (λ s.
            respond_json 200
              (memory_status (record {
                total = s.total;
                used = s.used;
                available = s.available;
                used_percent = s.used_percent;
              }))
              headers)
          (internal_error headers)
      else respond (get_vm_disk_info repo services req.uuid)
          (λ s.
            respond_json 200
              (disk_status (record {
                total = s.total;
                used = s.used;
                free = s.free;
                used_percent = s.used_percent;
              }))
              headers)
          (internal_error headers)

  -- What `redis` calls: the update, and the `GET` that checks it
  unfoldable pub set_status : RedisStatusRequest → Action R GoString
  set_status req = do
    updated ← on_redis (
        update_vm_status_in_redis services.json req.uuid (validate_and_normalize_status req.status)
          services.now)
    or_raise updated redis_update
    found ← on_redis (exec (get_key req.uuid))
    value ← or_raise found redis_get
    or_raise value redis_get

module _ {R : Type 0} (repo : VmRepository R) (services : Services) (json : ApiJson)
    (request : ApiRequest) where
  -- `createVm`
  unfoldable pub create_vm_handler : Handler R
  create_vm_handler = create_decoded repo services (json.create_vm request.body)

  -- `deleteVm`
  unfoldable pub delete_vm_handler : Handler R
  delete_vm_handler =
      decode (codes "Invalid request body") (json.with_uuid request.body) (λ req headers.
        respond (delete_vm repo services req.uuid) (ok_status headers) (internal_error headers))

  -- `startVm`
  unfoldable pub start_vm_handler : Handler R
  start_vm_handler =
      decode (codes "Invalid request body") (json.with_uuid request.body) (λ req headers.
        respond (start_vm repo services req.uuid) (ok_status headers) (internal_error headers))

  -- `shutdownVm`
  unfoldable pub shutdown_vm_handler : Handler R
  shutdown_vm_handler =
      decode (codes "Invalid request body") (json.with_uuid request.body) (λ req headers.
        respond (shutdown_vm repo services req.uuid) (ok_status headers) (internal_error headers))

  abbrev vm_info_response : VmInfo → Body
  vm_info_response vm =
      vm_info
        (record { uuid = vm.uuid; cpu = vm.cpu; memory = vm.memory; disk = vm.disk; ip = vm.ip })

  -- `vmInfo`
  unfoldable pub vm_info_handler : Handler R
  vm_info_handler =
      decode (codes "invalid request body") (json.with_uuid request.body) (λ req headers.
        respond
          (on_redis (get_vm_info_from_redis services.json req.uuid)
            >>= (λ found. or_raise found redis_missing))
          (λ vm. respond_json 200 (vm_info_response vm) headers)
          (λ e. respond_error 404 (failure e) headers))

  -- `vmStatus`. The guard leaves the three cases of the `switch`.
  unfoldable pub vm_status_handler : Handler R
  vm_status_handler =
      decode (codes "Invalid request body") (json.vm_status request.body) (λ req headers.
        if not (str_eq req.type (codes "cpu"))
          && not (str_eq req.type (codes "memory"))
          && not (str_eq req.type (codes "disk"))
        then reply
            (bad_request (codes "Invalid status type. Must be 'cpu', 'memory', or 'disk'") headers)
        else status_of repo services req headers)

  -- `vmConnect`
  unfoldable pub vm_connect_handler : Handler R
  vm_connect_handler headers =
      if is_empty request.query_uuid
      then reply (bad_request (codes "Missing 'uuid' query parameter") headers)
      else respond (get_guacamole_token repo services request.query_uuid)
          (λ token. respond_json 200 (auth_token token) headers) (internal_error headers)

  abbrev status_text : Error → GoString
  status_text redis_update = codes "Failed to update VM status in Redis"
  status_text _ = codes "Failed to get value from Redis"

  -- `redis`
  unfoldable pub redis_handler : Handler R
  redis_handler =
      decode (codes "Invalid request body") (json.redis_status request.body) (λ req headers.
        respond (set_status repo services req)
          (λ _. write 200 (plain (codes "VM status updated in Redis")) headers)
          (λ e. respond_error 500 (error_text (status_text e)) headers))

  -- `takeSnapshot`
  unfoldable pub take_snapshot_handler : Handler R
  take_snapshot_handler =
      decode (codes "invalid request body") (json.take_snapshot request.body) (λ req headers.
        if is_empty req.uuid || is_empty req.snap_name
        then reply (bad_request (codes "uuid and snapName are required") headers)
        else respond (take_snapshot services repo req.uuid req.snap_name)
            (λ _. respond_json 200 (message (codes "snapshot taken")) headers)
            (internal_error headers))

  -- `listSnapshots`
  unfoldable pub list_snapshots_handler : Handler R
  list_snapshots_handler headers =
      if is_empty request.query_uuid
      then reply (bad_request (codes "uuid query parameter is required") headers)
      else respond (list_snapshots services request.query_uuid)
          (λ keys. respond_json 200 (snapshots keys) headers) (internal_error headers)

  -- `deleteSnapshot`
  unfoldable pub delete_snapshot_handler : Handler R
  delete_snapshot_handler =
      decode (codes "invalid request body") (json.delete_snapshot request.body) (λ req headers.
        if is_empty req.uuid || is_empty req.snap_key
        then reply (bad_request (codes "uuid and snapKey are required") headers)
        else respond (delete_snapshot services req.uuid req.snap_key) (ok_status headers)
            (internal_error headers))
