-- ===== src/Structure.antt =====
-- The domain types of structure/vm.go. A `*Core` is the index of the core in `Cores`: after
-- startup the slice is never grown. A `*VMInfo` is its value: no code writes through one.
pub mod ResourceManager
pub mod Repository
pub mod MysqlVmRepository
pub mod Control
use kws_control.Common.{ℕ, Bool, Option}
use kws_control.Common.Text.{GoString}
use kws_control.Common.Table.{Table}

-- `type VMInfo struct`
pub record VmInfo : Type 0 where
  pub ip_vm : GoString
  pub uuid : GoString
  pub guac_password : GoString
  pub mac_addr : GoString
  pub memory : ℕ
  pub cpu : ℕ
  pub disk : ℕ

-- `type CoreInfo struct`
pub record CoreInfo : Type 0 where
  pub memory : ℕ
  pub cpu : ℕ
  pub disk : ℕ

-- `type Core struct`; the map `VMInfoIdx` starts as nil, which is `none`.
pub record Core : Type 0 where
  pub ip : GoString
  pub port : ℕ
  pub core_info_idx : CoreInfo
  pub is_alive : Bool
  pub vm_info_idx : Option (Table VmInfo)
  pub free_memory : ℕ
  pub free_cpu : ℕ
  pub free_disk : ℕ
