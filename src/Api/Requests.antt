-- ===== src/Api/Requests.antt =====
-- The requests of api/*.go: the types of their bodies, and the conversion of `POST /vm`.
use kws_control.Common.{ℕ, Option, List, map}
use kws_control.Common.Text.{GoString}
use kws_control.Service.Action.{UserSpec, CreateVmInput}

-- `type ApiHardwareInfo struct`
pub record ApiHardwareInfo : Type 0 where
  pub cpu : ℕ
  pub memory : ℕ
  pub disk : ℕ

-- `type ApiNetworkInfo struct`
pub record ApiNetworkInfo : Type 0 where
  pub ips : List GoString

-- `type ApiUserInfo struct`
pub record ApiUserInfo : Type 0 where
  pub name : GoString
  pub groups : GoString
  pub password : GoString
  pub ssh_authorized_keys : List GoString

-- `type ApiCreateVmRequest struct`
pub record ApiCreateVmRequest : Type 0 where
  pub dom_type : GoString
  pub dom_name : GoString
  pub uuid : GoString
  pub os : GoString
  pub hw_info : ApiHardwareInfo
  pub network : ApiNetworkInfo
  pub users : List ApiUserInfo
  pub subnet_type : GoString

-- `ApiDeleteVmRequest`, `ApiStartVmRequest`, `ApiShutdownVmRequest` and `ApiVmInfoRequest` have this
-- one field.
pub record UuidRequest : Type 0 where
  pub uuid : GoString

-- `type ApiVmStatusRequest struct`
pub record ApiVmStatusRequest : Type 0 where
  pub uuid : GoString
  pub type : GoString

-- `type RedisStatusRequest struct`
pub record RedisStatusRequest : Type 0 where
  pub uuid : GoString
  pub status : GoString

-- `type ApiTakeSnapshotRequest struct`
pub record ApiTakeSnapshotRequest : Type 0 where
  pub uuid : GoString
  pub snap_name : GoString

-- `type ApiDeleteSnapshotRequest struct`
pub record ApiDeleteSnapshotRequest : Type 0 where
  pub uuid : GoString
  pub snap_key : GoString

-- What `Decode` of `encoding/json` returns: the value, a `SyntaxError` or an error of another type.
pub data Decoded (A : Type 0) : Type 0 where
  decoded : A → Decoded A
  syntax_error : Decoded A
  other_error : GoString → Decoded A

-- The decoders, from the text of the body; `none` is an error.
pub record ApiJson : Type 0 where
  pub create_vm : GoString → Decoded ApiCreateVmRequest
  pub with_uuid : GoString → Option UuidRequest
  pub vm_status : GoString → Option ApiVmStatusRequest
  pub redis_status : GoString → Option RedisStatusRequest
  pub take_snapshot : GoString → Option ApiTakeSnapshotRequest
  pub delete_snapshot : GoString → Option ApiDeleteSnapshotRequest

-- An HTTP request: its method, its clean path, the query parameter `uuid`, empty if there is none,
-- and the body.
pub record ApiRequest : Type 0 where
  pub method : GoString
  pub path : GoString
  pub query_uuid : GoString
  pub body : GoString

abbrev pub to_user_spec : ApiUserInfo → UserSpec
to_user_spec u = record {
  name = u.name;
  groups = u.groups;
  password = u.password;
  ssh_authorized_keys = u.ssh_authorized_keys;
}

-- `ToServiceInput`
unfoldable pub to_service_input : ApiCreateVmRequest → CreateVmInput
to_service_input r = record {
  uuid = r.uuid;
  dom_type = r.dom_type;
  dom_name = r.dom_name;
  os = r.os;
  hardware_info = record { cpu = r.hw_info.cpu; memory = r.hw_info.memory; disk = r.hw_info.disk };
  network_ips = r.network.ips;
  users = map to_user_spec r.users;
  subnet_type = r.subnet_type;
}
