-- ===== src/Structure/MysqlVmRepository.antt =====
-- structure/mysql_vm_repository.go over the tables of startup/init.sh: `inst_info` and `inst_loc`,
-- each with the primary key `uuid`. Every method is one transaction of one or two statements. Keys are
-- compared byte for byte: UUIDs are taken to be in one spelling.
pub mod Transactions
use kws_control.Common.{ℕ, ◌≡◌, Bool, true, false, Option, none, some, List, [], ◌∷◌, arith}
use kws_control.Common.Int.{ℤ, pos}
use kws_control.Common.Text.{GoString}
use kws_control.Common.Table.{Table, lookup, insert, erase}
use kws_control.Sql.{Db, Sql, pure, exec, transaction, ◌>>=◌, ◌>>◌}
use kws_control.Structure.{VmInfo}
use kws_control.Structure.Repository.{VmRepository}

-- A row of `inst_info`, its key left out
pub record InstInfo : Type 0 where
  pub inst_ip : GoString
  pub guac_pass : GoString
  pub inst_mem : ℕ
  pub inst_vcpu : ℕ
  pub inst_disk : ℕ

pub record InstTables : Type 0 where
  pub inst_info : Table InstInfo
  pub inst_loc : Table ℤ

abbrev pub MysqlVmRepository : Type 0
MysqlVmRepository = Db InstTables

-- `INSERT INTO` a table with a primary key: a second row with the key is refused.
unfoldable pub insert_row : {V : Type 0} → GoString → V → Table V → Option (Table V)
insert_row k v m = elim (lookup k m) [ none ↦ some (insert k v m) | some _ ↦ none ]

abbrev row_of : VmInfo → InstInfo
row_of vm = record {
  inst_ip = vm.ip_vm;
  guac_pass = vm.guac_password;
  inst_mem = vm.memory;
  inst_vcpu = vm.cpu;
  inst_disk = vm.disk;
}

-- `Scan` into a `VMInfo`; the MAC address stays empty.
abbrev pub vm_of : GoString → InstInfo → VmInfo
vm_of uuid row = record {
  ip_vm = row.inst_ip;
  uuid = uuid;
  guac_password = row.guac_pass;
  mac_addr = [];
  memory = row.inst_mem;
  cpu = row.inst_vcpu;
  disk = row.inst_disk;
}

abbrev with_info : InstTables → Option (Table InstInfo) → Option (Unit {0} × InstTables)
with_info t none = none
with_info t (some m) = some (tt, record t { inst_info = m })

abbrev with_loc : InstTables → Option (Table ℤ) → Option (Unit {0} × InstTables)
with_loc t none = none
with_loc t (some m) = some (tt, record t { inst_loc = m })

unfoldable pub insert_info : VmInfo → InstTables → Option (Unit {0} × InstTables)
unfolding insert_row
insert_info vm t = with_info t (insert_row vm.uuid (row_of vm) t.inst_info)

unfoldable pub insert_loc : GoString → ℕ → InstTables → Option (Unit {0} × InstTables)
unfolding insert_row
insert_loc uuid k t = with_loc t (insert_row uuid (pos k) t.inst_loc)

-- `AddInstance`
unfoldable pub add_instance : VmInfo → ℕ → Sql InstTables (Unit {0})
add_instance vm core_idx = transaction (exec (insert_info vm) >> exec (insert_loc vm.uuid core_idx))

-- `UPDATE inst_info SET …  WHERE uuid = ?`: the password stays, and no row is no error.
update_info : VmInfo → InstTables → Option (Unit {0} × InstTables)
update_info vm t = elim (lookup vm.uuid t.inst_info) [
  | none ↦ some (tt, t)
  | some old ↦ some (
    tt,
    record t {
      inst_info = insert vm.uuid (record (row_of vm) { guac_pass = old.guac_pass }) t.inst_info;
    },
  )
]

-- `UpdateInstance`
pub update_instance : VmInfo → Sql InstTables (Unit {0})
update_instance vm = transaction (exec (update_info vm))

unfoldable pub delete_info : GoString → InstTables → Option (Unit {0} × InstTables)
delete_info uuid t = some (tt, record t { inst_info = erase uuid t.inst_info })

unfoldable pub delete_loc : GoString → InstTables → Option (Unit {0} × InstTables)
delete_loc uuid t = some (tt, record t { inst_loc = erase uuid t.inst_loc })

-- `DeleteInstance`
unfoldable pub delete_instance : GoString → Sql InstTables (Unit {0})
delete_instance uuid = transaction (exec (delete_info uuid) >> exec (delete_loc uuid))

select_info : GoString → InstTables → Option (VmInfo × InstTables)
select_info uuid t = elim (lookup uuid t.inst_info) [
  | none ↦ none
  | some row ↦ some (vm_of uuid row, t)
]

-- `GetInstance`. (A failing `Commit` comes with a value in Go; the callers look at the error.)
pub get_instance : GoString → Sql InstTables VmInfo
get_instance uuid = transaction (exec (select_info uuid))

unfoldable pub select_loc : GoString → InstTables → Option (ℤ × InstTables)
select_loc uuid t = elim (lookup uuid t.inst_loc) [ none ↦ none | some z ↦ some (z, t) ]

-- `GetInstanceLocation`
unfoldable pub get_instance_location : GoString → Sql InstTables ℤ
get_instance_location uuid = transaction (exec (select_loc uuid))

-- `inst_loc JOIN inst_info ON uuid`, in the order of `inst_loc`
unfoldable pub join_rows : Table ℤ → Table InstInfo → List (VmInfo × ℤ)
join_rows [] info = []
join_rows ((uuid, core_idx) ∷ rest) info = elim (lookup uuid info) [
  | none ↦ join_rows rest info
  | some row ↦ (vm_of uuid row, core_idx) ∷ join_rows rest info
]

unfoldable pub select_all : InstTables → Option (List (VmInfo × ℤ) × InstTables)
unfolding join_rows
select_all t = some (join_rows t.inst_loc t.inst_info, t)

-- `GetAllInstanceInfo`; its two lists, which are as long as one another, are one list of pairs.
unfoldable pub get_all_instance_info : Sql InstTables (List (VmInfo × ℤ))
get_all_instance_info = transaction (exec select_all)

-- `NewMySQLVMRepository`
abbrev pub mysql_vm_repository : VmRepository MysqlVmRepository
mysql_vm_repository = record {
  add_instance = add_instance;
  update_instance = update_instance;
  delete_instance = delete_instance;
  get_instance = get_instance;
  get_instance_location = get_instance_location;
  get_all_instance_info = get_all_instance_info;
}
