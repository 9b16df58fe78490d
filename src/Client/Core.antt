-- ===== src/Client/Core.antt =====
-- client/vm.go: the requests to a core. JSON is a parameter: a text for each request, which may fail,
-- and a reader for each response.
pub mod Exchange
use kws_control.Common.{
  ℕ, Bool, true, false, ◌||◌, Option, none, some, List, [], ◌∷◌, ◌++◌, ltb, leb, if◌then◌else◌,
}
use kws_control.Common.Text.{GoString, codes}
use kws_control.Pkg.Network.{digits}
use kws_control.Structure.{Core}
use kws_control.Service.Action.{CreateVmRequest}
use kws_control.Client.Model.{
  DeleteVmRequest, hard_delete, StatusDataType, cpu_info, mem_info, disk_info_hi,
  GetVmStatusRequest, CoreMachineCpuInfoResponse, CoreMachineMemoryInfoResponse,
  CoreMachineDiskInfoResponse, CoreResponse,
}
use kws_control.Client.Http.{Http, Method, get, post, Request, Response}

-- `encoding/json` for the requests and the responses of a core
pub record CoreJson : Type 0 where
  pub create_request : CreateVmRequest → Option GoString
  pub create_response : GoString → Option (Unit {0})
  pub delete_request : DeleteVmRequest → Option GoString
  pub delete_response : GoString → Option (Unit {0})
  pub uuid_request : GoString → Option GoString
  pub message_response : GoString → Option GoString
  pub vm_status_request : GetVmStatusRequest → Option GoString
  pub machine_status_request : StatusDataType → Option GoString
  pub cpu_response : GoString → Option CoreMachineCpuInfoResponse
  pub memory_response : GoString → Option CoreMachineMemoryInfoResponse
  pub disk_response : GoString → Option CoreMachineDiskInfoResponse
  pub machine_cpu_response : GoString → Option (CoreResponse CoreMachineCpuInfoResponse)
  pub machine_memory_response : GoString → Option (CoreResponse CoreMachineMemoryInfoResponse)
  pub machine_disk_response : GoString → Option (CoreResponse CoreMachineDiskInfoResponse)

-- `type CoreClient struct`; the timeout is a case of no response.
pub record CoreClient : Type 0 where
  pub base_url : GoString

-- `NewCoreClient`
abbrev pub new_core_client : Core → CoreClient
new_core_client core = record {
  base_url = codes "http://" ++ core.ip ++ codes ":" ++ digits core.port;
}

abbrev pub json_header : GoString × GoString
json_header = (codes "Content-Type", codes "application/json")

-- The body that is sent, and whether there is one
abbrev pub core_request : CoreClient → Method → GoString → Option GoString → Request
core_request c method path none = record {
  method = method;
  url = c.base_url ++ path;
  headers = [];
  body = none;
}
core_request c method path (some text) = record {
  method = method;
  url = c.base_url ++ path;
  headers = json_header ∷ [];
  body = some text;
}

-- `resp.StatusCode < 200 || resp.StatusCode >= 300`, and the decoding
unfoldable pub read_response : {A : Type 0} → (GoString → Option A) → Option Response → Option A
read_response decode none = none
read_response decode (some resp) =
    if ltb resp.status 200 || leb 300 resp.status then none else decode resp.body

-- `doRequest`; a nil body is `none`, and a body that `Marshal` refuses `some none`.
unfoldable pub do_request :
    {A : Type 0}
    → Http
    → CoreClient
    → Method
    → GoString
    → Option (Option GoString)
    → (GoString → Option A)
    → Option A
unfolding read_response
do_request http c method path (some none) decode = none
do_request http c method path none decode =
    if http.new_request method (c.base_url ++ path)
    then read_response decode (http.exchange (core_request c method path none))
    else none
do_request http c method path (some (some text)) decode =
    if http.new_request method (c.base_url ++ path)
    then read_response decode (http.exchange (core_request c method path (some text)))
    else none

-- `response.Information`, which may be nil
abbrev information_of : {A : Type 0} → Option (CoreResponse A) → Option (Option A)
information_of none = none
information_of (some response) = some response.information

module _ (http : Http) (json : CoreJson) (c : CoreClient) where
  -- `CreateVM`
  unfoldable pub create_vm : CreateVmRequest → Option (Unit {0})
  create_vm req =
      do_request http c post (codes "/createVM") (some (json.create_request req))
        json.create_response

  -- `DeleteVM`
  unfoldable pub delete_vm : DeleteVmRequest → Option (Unit {0})
  delete_vm req =
      do_request http c post (codes "/DeleteVM") (some (json.delete_request req))
        json.delete_response

  machine_status :
      {A : Type 0} → StatusDataType → (GoString → Option (CoreResponse A)) → Option (Option A)
  machine_status kind decode = information_of (
      do_request http c get (codes "/getStatusHost") (some (json.machine_status_request kind))
        decode)

  -- `GetCoreMachineCpuInfo`, `GetCoreMachineDiskInfo` and `GetCoreMachineMemoryInfo`
  unfoldable pub get_core_machine_cpu_info : Option (Option CoreMachineCpuInfoResponse)
  unfolding machine_status
  get_core_machine_cpu_info = machine_status cpu_info json.machine_cpu_response

  unfoldable pub get_core_machine_disk_info : Option (Option CoreMachineDiskInfoResponse)
  unfolding machine_status
  get_core_machine_disk_info = machine_status disk_info_hi json.machine_disk_response

  unfoldable pub get_core_machine_memory_info : Option (Option CoreMachineMemoryInfoResponse)
  unfolding machine_status
  get_core_machine_memory_info = machine_status mem_info json.machine_memory_response

  vm_status : {A : Type 0} → GoString → StatusDataType → (GoString → Option A) → Option A
  vm_status uuid kind decode =
      do_request http c get (codes "/getStatusUUID")
        (some (json.vm_status_request (record { uuid = uuid; data_type = kind }))) decode

  -- `GetVMCpuInfo`, `GetVMDiskInfo` and `GetVMMemoryInfo`
  unfoldable pub get_vm_cpu_info : GoString → Option CoreMachineCpuInfoResponse
  unfolding vm_status
  get_vm_cpu_info uuid = vm_status uuid cpu_info json.cpu_response

  unfoldable pub get_vm_disk_info : GoString → Option CoreMachineDiskInfoResponse
  unfolding vm_status
  get_vm_disk_info uuid = vm_status uuid disk_info_hi json.disk_response

  unfoldable pub get_vm_memory_info : GoString → Option CoreMachineMemoryInfoResponse
  unfolding vm_status
  get_vm_memory_info uuid = vm_status uuid mem_info json.memory_response

  -- `StartVM`
  unfoldable pub start_vm : GoString → Option GoString
  start_vm uuid =
      do_request http c post (codes "/BOOTVM") (some (json.uuid_request uuid)) json.message_response

  -- `ForceShutdownVM`
  unfoldable pub force_shutdown_vm : GoString → Option GoString
  force_shutdown_vm uuid =
      do_request http c post (codes "/forceShutDownUUID") (some (json.uuid_request uuid))
        json.message_response
