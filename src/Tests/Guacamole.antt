-- ===== src/Tests/Guacamole.antt =====
-- Runs of pkg/guacamole/config.go.
use kws_control.Common.{◌≡◌, refl, []}
use kws_control.Common.Text.{codes, str_eq}
use kws_control.Pkg.Crypto.{
  hex, hash_password_with_salt, base64, base64_char, generate_random_password, generate_random_salt,
}
use kws_control.Sql.{Db, exec, transaction, commit_or_rollback}
use kws_control.Pkg.Guacamole.{
  GuacTables, delete_where, find_entity, select_entity, insert_entity, entity_for, upsert_user,
  insert_connection, upsert_parameter, insert_permission, set_parameters, configure_body,
  configure_with, configure, delete_entity, is_permitted, belongs_to, delete_orphans, delete_both,
  cleanup_found, cleanup,
}
use kws_control.Pkg.Guacamole.Atomic.{ConfigureSpec, configure-ConfigureSpec}
use kws_control.Pkg.Guacamole.RoundTrip.{cleanup-configure}
use kws_control.Tests.{no_tables, draws}

abbrev empty : Db GuacTables
empty = record { tables = no_tables; outcomes = [] }

configure-ConfigureSpec_example :
    ConfigureSpec
      (λ s. s)
      draws
      (codes "u")
      (codes "v")
      (codes "i")
      (codes "k")
      empty
      (configure (λ s. s) draws (codes "u") (codes "v") (codes "i") (codes "k") empty)
configure-ConfigureSpec_example =
    configure-ConfigureSpec (λ s. s) draws (codes "u") (codes "v") (codes "i") (codes "k") empty

-- The server is not reached.
cleanup-configure_example :
    (cleanup
      (codes "v")
      (configure (λ s. s) draws (codes "u") (codes "v") (codes "i") (codes "k") empty).1).1.tables
    ≡ record no_tables { next_entity = 2; next_connection = 2 }
unfolding configure configure_with configure_body insert_entity entity_for upsert_user
    insert_connection upsert_parameter insert_permission set_parameters hex hash_password_with_salt
    base64 base64_char generate_random_password generate_random_salt cleanup cleanup_found
    delete_both delete_orphans delete_entity is_permitted belongs_to delete_where select_entity
    find_entity exec commit_or_rollback transaction str_eq
cleanup-configure_example =
    cleanup-configure (λ s. s) draws (codes "u") (codes "v") (codes "i") (codes "k") empty
      (codes "YWJjZGVmZ2hp")
      (record { no_entity = tt; users = tt; connections = tt; parameters = tt; permissions = tt })
      refl refl
