-- ===== src/Tests/Redis.antt =====
-- Runs of service/redis.go, service/cleanup.go and api/update_redis.go.
use kws_control.Common.{◌⊎◌, ℕ, ◌≡◌, ◌+◌, ◌*◌, [], ◌∷◌}
use kws_control.Common.Text.{codes}
use kws_control.Common.Table.{Table}
use kws_control.Common.Text.{GoString}
use kws_control.Sql.{Db}
use kws_control.Service.Redis.{VmInfo, update_vm_status_in_redis}
use kws_control.Service.Redis.Status.{StatusSpec, update_vm_status-StatusSpec}
use kws_control.Service.Cleanup.{no_steps, push, run, run-push}
use kws_control.Api.UpdateRedis.{
  IsStatus, validate_and_normalize_status, validate_and_normalize_status-IsStatus,
}
use kws_control.Tests.{json}

abbrev stored_vm : VmInfo
stored_vm = record {
  uuid = codes "v";
  cpu = 2;
  memory = 40;
  disk = 10;
  ip = codes "9.0.1.5";
  status = codes "unknown";
}

abbrev empty : Db (Table GoString)
empty = record { tables = []; outcomes = [] }

update_vm_status-StatusSpec_example :
    StatusSpec json
      (codes "v")
      (codes "s")
      9
      (record { tables = (codes "v", codes "j") ∷ []; outcomes = [] })
      (update_vm_status_in_redis json
        (codes "v")
        (codes "s")
        9
        (record { tables = (codes "v", codes "j") ∷ []; outcomes = [] }))
update_vm_status-StatusSpec_example =
    update_vm_status-StatusSpec json (codes "v") (codes "s") 9
      (record { tables = (codes "v", codes "j") ∷ []; outcomes = [] })

abbrev five : ℕ
five = 5

run-push_example :
    ((run (push (λ n. n * 2) (push (λ n. n + 1) no_steps)) five).1
      ≡ (run (push (λ n. n + 1) no_steps) (five * 2)).1)
    × ((run no_steps five).1 ≡ five)
    × ((run (run (push (λ n. n + 1) no_steps) five).0 five).1 ≡ five)
run-push_example = run-push (λ n. n * 2) (push (λ n. n + 1) no_steps) five

validate_and_normalize_status-IsStatus_example :
    (IsStatus (codes "restore")
      × (validate_and_normalize_status (codes "restore") ≡ codes "restore"))
    ⊎ ((¬ IsStatus (codes "restore"))
        × (validate_and_normalize_status (codes "restore") ≡ codes "unknown"))
validate_and_normalize_status-IsStatus_example =
    validate_and_normalize_status-IsStatus (codes "restore")
