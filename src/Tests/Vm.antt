-- ===== src/Tests/Vm.antt =====
-- Runs of service/vm.go on a small cluster.
use kws_control.Common.{ℕ, ◌≡◌, ◌≢◌, refl, true, false, ◌⊎◌, none, some, arith, if◌then◌else◌}
use kws_control.Common.Text.{codes, str_eq}
use kws_control.Common.Table.{lookup, insert, erase}
use kws_control.Sql.{exec, transaction, commit_or_rollback}
use kws_control.Pkg.Network.{
  digits_loop, digits, itoa, scan, magnitude, atoi, until_dot, advance, print_subnet, components,
  find_subnet,
}
use kws_control.Pkg.Crypto.{
  hex, hash_password_with_salt, base64, base64_char, generate_random_password, generate_random_salt,
}
use kws_control.Pkg.Guacamole.{
  delete_where, find_entity, select_entity, insert_entity, entity_for, upsert_user,
  insert_connection, upsert_parameter, insert_permission, set_parameters, configure_body,
  configure_with, configure, delete_entity, is_permitted, belongs_to, delete_orphans, delete_both,
  cleanup_found, cleanup,
}
use kws_control.Structure.ResourceManager.{
  select_core, select_loop, register_vm, allocate_resources,
}
use kws_control.Structure.ResourceManager.Alive.{Unregistered}
use kws_control.Structure.MysqlVmRepository.{
  MysqlVmRepository, insert_row, insert_info, insert_loc, add_instance, delete_info, delete_loc,
  delete_instance, select_loc, get_instance_location, mysql_vm_repository,
}
use kws_control.Structure.MysqlVmRepository.Transactions.{info, location, mysql_vm_repository-Laws}
use kws_control.Structure.Control.{ControlContext, found_location, find_core_by_vm_uuid}
use kws_control.Service.Redis.{
  set_key, put, store_vm_info_to_redis, del_key, remove_vm_info_from_redis,
}
use kws_control.Service.Network.{
  set_last_subnet, vm_ip_on, get_vm_ip_by_uuid, set_back, answered, reserve, new_cms_subnet,
  delete_cms_subnet, allocate_cms_subnet,
}
use kws_control.Service.Action.{Error, core_request, ok, err, Services}
use kws_control.Service.Vm.{
  fail_with, select_core_or_fail, or_clean_up, asked, correct_subnet, launch, provision,
  configure_and_provision, connect, create_vm, core_of, ignore_error, forget_vm, delete_on,
  delete_vm, shutdown_vm,
}
use kws_control.Service.Vm.Create.{IsNew, Restored, create_vm_failed}
use kws_control.Service.Vm.Budget.{Balanced, create_vm-Balanced}
use kws_control.Service.Vm.Add.{create_vm_add}
use kws_control.Service.Vm.Created.{IsCreated, create_vm-IsCreated}
use kws_control.Service.Vm.Places.{create_vm-PlacesHold}
use kws_control.Startup.Places.{PlacesHold}
use kws_control.Service.Vm.Delete.{
  delete_vm_keeps, delete_vm_done, delete_vm_failed, shutdown_vm-UnregisterAlive,
}
use kws_control.Tests.{services, control, input}

-- A core that refuses.
abbrev broken : Services
broken = record services { core_create_vm = λ _ _. false }

control-IsNew : IsNew input control
unfolding lookup
control-IsNew = record {
  words = (
    record { memory = omega arith; cpu = omega arith; disk = omega arith },
    (record { memory = omega arith; cpu = omega arith; disk = omega arith }, tt),
  );
  request = record { memory = omega arith; cpu = omega arith; disk = omega arith };
  absent = (refl, (refl, tt));
}

create_vm_failed_example :
    let c' = (create_vm mysql_vm_repository broken input control).1 in
    Restored control.resources c'.resources
    × (info c'.vm_repo (codes "v") ≡ info control.vm_repo (codes "v"))
    × (location c'.vm_repo (codes "v") ≡ location control.vm_repo (codes "v"))
unfolding create_vm select_core_or_fail connect configure_and_provision provision launch or_clean_up
    asked correct_subnet fail_with select_core select_loop allocate_cms_subnet new_cms_subnet
    reserve answered set_back set_last_subnet find_subnet components until_dot atoi scan magnitude
    advance print_subnet itoa digits digits_loop cleanup cleanup_found delete_both delete_orphans
    delete_entity is_permitted belongs_to delete_where select_entity find_entity exec
    commit_or_rollback transaction str_eq configure configure_with configure_body insert_entity
    entity_for upsert_user insert_connection upsert_parameter insert_permission set_parameters hex
    hash_password_with_salt base64 base64_char generate_random_password generate_random_salt
    store_vm_info_to_redis put set_key add_instance insert_info insert_loc insert_row lookup insert
create_vm_failed_example =
    create_vm_failed mysql_vm_repository broken input info location mysql_vm_repository-Laws control
      core_request (codes "v") control-IsNew refl

create_vm-IsCreated_example :
    IsCreated mysql_vm_repository services input info location mysql_vm_repository-Laws control
      (create_vm mysql_vm_repository services input control).1
unfolding create_vm select_core_or_fail connect configure_and_provision provision launch or_clean_up
    asked correct_subnet fail_with select_core select_loop allocate_cms_subnet new_cms_subnet
    reserve answered set_back set_last_subnet find_subnet components until_dot atoi scan magnitude
    advance print_subnet itoa digits digits_loop cleanup cleanup_found delete_both delete_orphans
    delete_entity is_permitted belongs_to delete_where select_entity find_entity exec
    commit_or_rollback transaction str_eq configure configure_with configure_body insert_entity
    entity_for upsert_user insert_connection upsert_parameter insert_permission set_parameters hex
    hash_password_with_salt base64 base64_char generate_random_password generate_random_salt
    store_vm_info_to_redis put set_key add_instance insert_info insert_loc insert_row lookup insert
create_vm-IsCreated_example =
    create_vm-IsCreated mysql_vm_repository services input info location mysql_vm_repository-Laws
      control refl

create_vm_add_example :
    (create_vm mysql_vm_repository services (record input { subnet_type = codes "Add" }) control).0
    ≢ ok tt
unfolding lookup
create_vm_add_example =
    create_vm_add mysql_vm_repository services (record input { subnet_type = codes "Add" }) control
      refl refl

-- The cluster after a `CreateVM`.
abbrev running : ControlContext MysqlVmRepository
running = (create_vm mysql_vm_repository services input control).1

delete_vm_done_example :
    let c' = (delete_vm mysql_vm_repository services (codes "v") running).1 in
    ((k : ℕ) × ((find_core_by_vm_uuid mysql_vm_repository (codes "v") running).0 ≡ some k)
      × (services.core_delete_vm k (codes "v") ≡ true))
    × (info c'.vm_repo (codes "v")
        ≡ (if str_eq (codes "v") (codes "v") then none else info running.vm_repo (codes "v")))
    × (location c'.vm_repo (codes "v")
        ≡ (if str_eq (codes "v") (codes "v") then none else location running.vm_repo (codes "v")))
unfolding create_vm select_core_or_fail connect configure_and_provision provision launch or_clean_up
    asked correct_subnet fail_with select_core select_loop allocate_cms_subnet new_cms_subnet
    reserve answered set_back set_last_subnet find_subnet components until_dot atoi scan magnitude
    advance print_subnet itoa digits digits_loop cleanup cleanup_found delete_both delete_orphans
    delete_entity is_permitted belongs_to delete_where select_entity find_entity exec
    commit_or_rollback transaction str_eq configure configure_with configure_body insert_entity
    entity_for upsert_user insert_connection upsert_parameter insert_permission set_parameters hex
    hash_password_with_salt base64 base64_char generate_random_password generate_random_salt
    store_vm_info_to_redis put set_key add_instance insert_info insert_loc insert_row lookup insert
    register_vm allocate_resources delete_vm core_of delete_on forget_vm ignore_error
    find_core_by_vm_uuid found_location delete_cms_subnet get_vm_ip_by_uuid vm_ip_on delete_instance
    delete_info delete_loc get_instance_location select_loc remove_vm_info_from_redis del_key erase
delete_vm_done_example =
    delete_vm_done mysql_vm_repository services (codes "v") info location mysql_vm_repository-Laws
      running (codes "v") refl

abbrev refusing : Services
refusing = record services { core_delete_vm = λ _ _. false }

delete_vm_failed_example :
    let c' = (delete_vm mysql_vm_repository refusing (codes "v") running).1 in
    (info c'.vm_repo (codes "v") ≡ info running.vm_repo (codes "v"))
    × (location c'.vm_repo (codes "v") ≡ location running.vm_repo (codes "v"))
unfolding create_vm select_core_or_fail connect configure_and_provision provision launch or_clean_up
    asked correct_subnet fail_with select_core select_loop allocate_cms_subnet new_cms_subnet
    reserve answered set_back set_last_subnet find_subnet components until_dot atoi scan magnitude
    advance print_subnet itoa digits digits_loop cleanup cleanup_found delete_both delete_orphans
    delete_entity is_permitted belongs_to delete_where select_entity find_entity exec
    commit_or_rollback transaction str_eq configure configure_with configure_body insert_entity
    entity_for upsert_user insert_connection upsert_parameter insert_permission set_parameters hex
    hash_password_with_salt base64 base64_char generate_random_password generate_random_salt
    store_vm_info_to_redis put set_key add_instance insert_info insert_loc insert_row lookup insert
    register_vm allocate_resources delete_vm core_of delete_on forget_vm ignore_error
    find_core_by_vm_uuid found_location delete_cms_subnet get_vm_ip_by_uuid vm_ip_on delete_instance
    delete_info delete_loc get_instance_location select_loc remove_vm_info_from_redis del_key erase
delete_vm_failed_example =
    delete_vm_failed mysql_vm_repository refusing (codes "v") info location mysql_vm_repository-Laws
      running (codes "v") core_request refl

delete_vm_keeps_example :
    let c' = (delete_vm mysql_vm_repository services (codes "v") running).1 in
    (c'.resources.cores ≡ running.resources.cores)
    × (c'.resources.alive_vm ≡ running.resources.alive_vm)
delete_vm_keeps_example = delete_vm_keeps mysql_vm_repository services (codes "v") running

shutdown_vm-UnregisterAlive_example :
    let (o, c') = shutdown_vm mysql_vm_repository services (codes "v") running in
    (c'.resources.cores ≡ running.resources.cores)
    × (((o ≡ ok tt)
          × Unregistered (codes "v") running.resources.alive_vm c'.resources.alive_vm
          × ((k : ℕ) × ((find_core_by_vm_uuid mysql_vm_repository (codes "v") running).0 ≡ some k)
              × (services.core_force_shutdown_vm k (codes "v") ≡ true)))
        ⊎ (((e : Error) × (o ≡ err e)) × (c'.resources.alive_vm ≡ running.resources.alive_vm)))
shutdown_vm-UnregisterAlive_example =
    shutdown_vm-UnregisterAlive mysql_vm_repository services (codes "v") running

created : (create_vm mysql_vm_repository services input control).0 ≡ ok tt
unfolding create_vm select_core_or_fail connect configure_and_provision provision launch or_clean_up
    asked correct_subnet fail_with select_core select_loop allocate_cms_subnet new_cms_subnet
    reserve answered set_back set_last_subnet find_subnet components until_dot atoi scan magnitude
    advance print_subnet itoa digits digits_loop cleanup cleanup_found delete_both delete_orphans
    delete_entity is_permitted belongs_to delete_where select_entity find_entity exec
    commit_or_rollback transaction str_eq configure configure_with configure_body insert_entity
    entity_for upsert_user insert_connection upsert_parameter insert_permission set_parameters hex
    hash_password_with_salt base64 base64_char generate_random_password generate_random_salt
    store_vm_info_to_redis put set_key add_instance insert_info insert_loc insert_row lookup insert
created = refl

create_vm-PlacesHold_example :
    PlacesHold (create_vm mysql_vm_repository services input control).1.resources
unfolding lookup
create_vm-PlacesHold_example =
    create_vm-PlacesHold mysql_vm_repository services input info location mysql_vm_repository-Laws
      control (λ e. let done = created in cc) control-IsNew (λ u k h. absurd (ground arith))

create_vm-Balanced_example :
    Balanced control.resources.cores
      (create_vm mysql_vm_repository services input control).1.resources.cores
create_vm-Balanced_example =
    create_vm-Balanced mysql_vm_repository services input info location mysql_vm_repository-Laws
      control (λ e. let done = created in cc) control-IsNew
