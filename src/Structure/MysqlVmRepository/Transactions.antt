-- ===== src/Structure/MysqlVmRepository/Transactions.antt =====
-- structure/mysql_vm_repository.go under the laws of `VMRepository`.
use kws_control.Common.{ℕ, ◌≡◌, Option, none, some, arith, if◌then◌else◌, Option-cases, inl, inr}
use kws_control.Common.Int.{ℤ, pos}
use kws_control.Common.Text.{GoString, str_eq, str_eq_iff}
use kws_control.Common.Table.{lookup, insert, lookup-insert, lookup-erase}
use kws_control.Sql.{exec, transaction, ◌>>◌, transaction_failed, transaction_one, transaction_two}
use kws_control.Structure.{VmInfo}
use kws_control.Structure.Repository.{Laws, stored, updated}
use kws_control.Structure.MysqlVmRepository.{
  InstTables, MysqlVmRepository, vm_of, row_of, insert_info, insert_loc, add_instance, update_info,
  update_instance, delete_info, delete_loc, delete_instance, select_info, get_instance, select_loc,
  get_instance_location, get_all_instance_info, select_all, mysql_vm_repository,
}

-- The two views.
abbrev pub info : MysqlVmRepository → GoString → Option VmInfo
info r uuid = elim (lookup uuid r.tables.inst_info) [
  | none ↦ none
  | some row ↦ some (vm_of uuid row)
]

abbrev pub location : MysqlVmRepository → GoString → Option ℤ
location r uuid = lookup uuid r.tables.inst_loc

-- The tables after the two inserts.
insert_both :
    (vm : VmInfo) (k : ℕ) (t t' t'' : InstTables)
    → insert_info vm t ≡ some (tt, t')
    → insert_loc vm.uuid k t' ≡ some (tt, t'')
    → (lookup vm.uuid t.inst_info ≡ none)
      × (lookup vm.uuid t.inst_loc ≡ none)
      × (t''.inst_info ≡ insert vm.uuid (row_of vm) t.inst_info)
      × (t''.inst_loc ≡ insert vm.uuid (pos k) t.inst_loc)
unfolding insert_info insert_loc
insert_both vm k t t' t'' p q = (ground arith, ground arith, ground arith, ground arith)

module _ (vm : VmInfo) (k : ℕ) (r : MysqlVmRepository) (u : GoString) where
  add_instance_failed :
      (add_instance vm k r).0 ≡ none
      → (info (add_instance vm k r).1 u ≡ info r u)
        × (location (add_instance vm k r).1 u ≡ location r u)
  unfolding add_instance
  add_instance_failed h =
      let same = transaction_failed (exec (insert_info vm) >> exec (insert_loc vm.uuid k)) r h in
      ground (arith, same)

  add_instance_done :
      (add_instance vm k r).0 ≡ some tt
      → (info r vm.uuid ≡ none)
        × (location r vm.uuid ≡ none)
        × (info (add_instance vm k r).1 u
            ≡ (if str_eq vm.uuid u then some (stored vm) else info r u))
        × (location (add_instance vm k r).1 u
            ≡ (if str_eq vm.uuid u then some (pos k) else location r u))
  unfolding add_instance
  add_instance_done h =
      let (t, p, q) = transaction_two (insert_info vm) (insert_loc vm.uuid k) r h in
      let (no_info, no_loc, new_info, new_loc) = insert_both vm k r.tables t _ p q in
      (
        ground arith,
        no_loc,
        ground (
          arith,
          new_info,
          lookup-insert vm.uuid u (row_of vm) r.tables.inst_info,
          str_eq_iff vm.uuid u,
        ),
        ground (arith, new_loc, lookup-insert vm.uuid u (pos k) r.tables.inst_loc),
      )

module _ (vm : VmInfo) (r : MysqlVmRepository) (u : GoString) where
  update_instance_failed :
      (update_instance vm r).0 ≡ none
      → (info (update_instance vm r).1 u ≡ info r u)
        × (location (update_instance vm r).1 u ≡ location r u)
  unfolding update_instance
  update_instance_failed h =
      let same = transaction_failed (exec (update_info vm)) r h in ground (arith, same)

  update_instance_done :
      (update_instance vm r).0 ≡ some tt
      → (info (update_instance vm r).1 u
          ≡ (if str_eq vm.uuid u then updated vm (info r u) else info r u))
        × (location (update_instance vm r).1 u ≡ location r u)
  unfolding update_instance update_info
  update_instance_done h =
      let done = transaction_one (update_info vm) r tt h in
      elim (Option-cases (lookup vm.uuid r.tables.inst_info)) [
        | inl missing ↦ (ground (arith, done, str_eq_iff vm.uuid u), ground (arith, done))
        | inr (old, there) ↦
            let row = record (row_of vm) { guac_pass = old.guac_pass } in
            (
              ground (
                arith,
                done,
                lookup-insert vm.uuid u row r.tables.inst_info,
                str_eq_iff vm.uuid u,
              ),
              ground (arith, done),
            )
      ]

module _ (uuid : GoString) (r : MysqlVmRepository) (u : GoString) where
  delete_instance_failed :
      (delete_instance uuid r).0 ≡ none
      → (info (delete_instance uuid r).1 u ≡ info r u)
        × (location (delete_instance uuid r).1 u ≡ location r u)
  unfolding delete_instance
  delete_instance_failed h =
      let same = transaction_failed (exec (delete_info uuid) >> exec (delete_loc uuid)) r h in
      ground (arith, same)

  delete_instance_done :
      (delete_instance uuid r).0 ≡ some tt
      → (info (delete_instance uuid r).1 u ≡ (if str_eq uuid u then none else info r u))
        × (location (delete_instance uuid r).1 u ≡ (if str_eq uuid u then none else location r u))
  unfolding delete_instance delete_info delete_loc
  delete_instance_done h =
      let (t, p, q) = transaction_two (delete_info uuid) (delete_loc uuid) r h in
      (
        ground (arith, p, q, lookup-erase uuid u r.tables.inst_info),
        ground (arith, p, q, lookup-erase uuid u r.tables.inst_loc),
      )

  get_location_keeps :
      (info (get_instance_location uuid r).1 u ≡ info r u)
      × (location (get_instance_location uuid r).1 u ≡ location r u)
  unfolding get_instance_location select_loc
  get_location_keeps = elim (Option-cases (transaction (exec (select_loc uuid)) r).0) [
    | inl failed ↦
        let same = transaction_failed (exec (select_loc uuid)) r failed in ground (arith, same)
    | inr (z, done) ↦ let same = transaction_one (select_loc uuid) r z done in ground (arith, same)
  ]

  get_instance_keeps :
      (info (get_instance uuid r).1 u ≡ info r u)
      × (location (get_instance uuid r).1 u ≡ location r u)
  unfolding get_instance select_info
  get_instance_keeps = elim (Option-cases (transaction (exec (select_info uuid)) r).0) [
    | inl failed ↦
        let same = transaction_failed (exec (select_info uuid)) r failed in ground (arith, same)
    | inr (z, done) ↦ let same = transaction_one (select_info uuid) r z done in ground (arith, same)
  ]

get_all_keeps :
    (r : MysqlVmRepository) (u : GoString)
    → (info (get_all_instance_info r).1 u ≡ info r u)
      × (location (get_all_instance_info r).1 u ≡ location r u)
unfolding get_all_instance_info select_all
get_all_keeps r u = elim (Option-cases (transaction (exec select_all) r).0) [
  | inl failed ↦ let same = transaction_failed (exec select_all) r failed in ground (arith, same)
  | inr (rows, done) ↦ let same = transaction_one select_all r rows done in ground (arith, same)
]

get_instance_sound :
    (uuid : GoString) (r : MysqlVmRepository) (vm : VmInfo)
    → (get_instance uuid r).0 ≡ some vm
    → info r uuid ≡ some vm
unfolding get_instance select_info
get_instance_sound uuid r vm h =
    let done = transaction_one (select_info uuid) r vm h in ground (arith, done)

get_location_sound :
    (uuid : GoString) (r : MysqlVmRepository) (z : ℤ)
    → (get_instance_location uuid r).0 ≡ some z
    → location r uuid ≡ some z
unfolding get_instance_location select_loc
get_location_sound uuid r z h =
    let done = transaction_one (select_loc uuid) r z h in ground (arith, done)

-- The MySQL repository keeps every law of `VMRepository`. An `AddInstance`, `UpdateInstance` or
-- `DeleteInstance` that fails, at any of its statements or at the commit, leaves both tables as they
-- were. An `AddInstance` that ends well was of a UUID in neither table and has added both rows, a
-- `DeleteInstance` has removed both, an `UpdateInstance` has replaced the row of `inst_info`, if there
-- was one, but for its password; and no other row has changed. `GetInstance`, `GetInstanceLocation` and
-- `GetAllInstanceInfo` change nothing, and what the first two return is what the tables hold.
pub mysql_vm_repository-Laws : Laws mysql_vm_repository info location
mysql_vm_repository-Laws = record {
  add_failed = add_instance_failed;
  add_done = add_instance_done;
  update_failed = update_instance_failed;
  update_done = update_instance_done;
  delete_failed = delete_instance_failed;
  delete_done = delete_instance_done;
  get_instance_sound = get_instance_sound;
  get_instance_keeps = get_instance_keeps;
  get_location_sound = get_location_sound;
  get_location_keeps = get_location_keeps;
  get_all_keeps = get_all_keeps;
}
