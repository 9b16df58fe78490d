-- ===== src/Service/Redis.antt =====
-- service/redis.go: the state of each VM in Redis, under its UUID. `encoding/json` is a parameter.
pub mod Status
use kws_control.Common.{ℕ, ◌≡◌, Bool, true, false, Option, none, some, List, [], ◌∷◌}
use kws_control.Common.Text.{GoString, codes}
use kws_control.Common.Table.{Table, lookup, insert, erase}
use kws_control.Sql.{Db, Sql, pure, fail, exec, ◌>>=◌, ◌>>◌}

-- `type redisVMInfo struct`; `time` is a Unix time.
pub record RedisVmInfo : Type 0 where
  pub uuid : GoString
  pub cpu : ℕ
  pub memory : ℕ
  pub disk : ℕ
  pub ip : GoString
  pub status : GoString
  pub time : ℕ

-- `type VMInfo struct` of service/dto.go
pub record VmInfo : Type 0 where
  pub uuid : GoString
  pub cpu : ℕ
  pub memory : ℕ
  pub disk : ℕ
  pub ip : GoString
  pub status : GoString

-- `json.Marshal` and `json.Unmarshal` at `redisVMInfo`. `none` is an error.
pub record Json : Type 0 where
  pub marshal : RedisVmInfo → Option GoString
  pub unmarshal : GoString → Option RedisVmInfo

-- The status texts of client/model/vm.go, which service and api declare again.
abbrev pub vm_status_prepare_begin : GoString
vm_status_prepare_begin = codes "prepare begin"

abbrev pub vm_status_start_begin : GoString
vm_status_start_begin = codes "start begin"

abbrev pub vm_status_started : GoString
vm_status_started = codes "started begin"

abbrev pub vm_status_stopped : GoString
vm_status_stopped = codes "stopped end"

abbrev pub vm_status_release : GoString
vm_status_release = codes "release end"

abbrev pub vm_status_migrate : GoString
vm_status_migrate = codes "migrate begin"

abbrev pub vm_status_restore : GoString
vm_status_restore = codes "restort begin"

abbrev pub vm_status_unknown : GoString
vm_status_unknown = codes "unknown"

abbrev pub Redis : Type 0 → Type 0
Redis A = Sql (Table GoString) A

-- `SET`
unfoldable pub set_key : GoString → GoString → Table GoString → Option (Unit {0} × Table GoString)
set_key key value t = some (tt, insert key value t)

-- `GET`: an answer, which may be that the key is missing (`redis.Nil`).
unfoldable pub get_key : GoString → Table GoString → Option (Option GoString × Table GoString)
get_key key t = some (lookup key t, t)

-- `DEL`; its count is only logged.
unfoldable pub del_key : GoString → Table GoString → Option (Unit {0} × Table GoString)
del_key key t = some (tt, erase key t)

-- `toServiceDTO`
unfoldable pub to_service_dto : RedisVmInfo → VmInfo
to_service_dto r = record {
  uuid = r.uuid;
  cpu = r.cpu;
  memory = r.memory;
  disk = r.disk;
  ip = r.ip;
  status = r.status;
}

abbrev or_fail : {A : Type 0} → Option A → Redis A
or_fail none = fail
or_fail (some a) = pure a

abbrev stamped : VmInfo → ℕ → RedisVmInfo
stamped vm timestamp = record {
  uuid = vm.uuid;
  cpu = vm.cpu;
  memory = vm.memory;
  disk = vm.disk;
  ip = vm.ip;
  status = vm.status;
  time = timestamp;
}

module _ (json : Json) where
  -- Marshal and `SET`, as in `StoreVMInfoToRedis` and `UpdateVMStatusInRedis`.
  unfoldable pub put : GoString → RedisVmInfo → Redis (Unit {0})
  unfolding set_key
  put key stored = do text ← or_fail (json.marshal stored); exec (set_key key text)

  -- `StoreVMInfoToRedis`
  unfoldable pub store_vm_info_to_redis : VmInfo → ℕ → Redis (Unit {0})
  store_vm_info_to_redis vm timestamp = put vm.uuid (stamped vm timestamp)

  -- `loadRedisVMInfo`
  unfoldable pub load_redis_vm_info : GoString → Redis RedisVmInfo
  unfolding get_key
  load_redis_vm_info uuid = do
    found ← exec (get_key uuid)
    text ← or_fail found
    or_fail (json.unmarshal text)

  -- `GetVMInfoFromRedis`
  unfoldable pub get_vm_info_from_redis : GoString → Redis VmInfo
  get_vm_info_from_redis uuid = do stored ← load_redis_vm_info uuid; pure (to_service_dto stored)

  -- `UpdateVMStatusInRedis`
  unfoldable pub update_vm_status_in_redis : GoString → GoString → ℕ → Redis (Unit {0})
  update_vm_status_in_redis uuid status timestamp = do
    stored ← load_redis_vm_info uuid
    put uuid (record stored { status = status; time = timestamp })

-- `RemoveVMInfoFromRedis`
unfoldable pub remove_vm_info_from_redis : GoString → Redis (Unit {0})
unfolding del_key
remove_vm_info_from_redis uuid = exec (del_key uuid)
