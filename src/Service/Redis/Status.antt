-- ===== src/Service/Redis/Status.antt =====
-- service/redis.go: storing, reading and changing the status.
use kws_control.Common.{
  ℕ, ◌≡◌, refl, sym, ap, ◌∙◌, Option, none, some, arith, if◌then◌else◌, Option-cases, inl, inr, ◌⊎◌,
}
use kws_control.Common.Text.{GoString, str_eq, str_eq_refl}
use kws_control.Common.Table.{Table, lookup, insert, lookup-insert}
use kws_control.Sql.{Db, exec}
use kws_control.Service.Redis.{
  RedisVmInfo, VmInfo, Json, store_vm_info_to_redis, load_redis_vm_info, get_vm_info_from_redis,
  update_vm_status_in_redis, stamped, put, to_service_dto,
}

-- What a text of JSON that `Marshal` has made is read as.
abbrev pub ReadsBack : Json → RedisVmInfo → Type 0
ReadsBack json stored =
    (text : GoString) → json.marshal stored ≡ some text → json.unmarshal text ≡ some stored

-- A VM that was stored is read back with all its fields, as long as both calls reach Redis and JSON
-- reads back what it wrote.
get_vm_info-store :
    (json : Json) (vm : VmInfo) (now : ℕ) (db : Db (Table GoString)) (got : VmInfo)
    → ReadsBack json (stamped vm now)
    → (store_vm_info_to_redis json vm now db).0 ≡ some tt
    → (get_vm_info_from_redis json vm.uuid (store_vm_info_to_redis json vm now db).1).0 ≡ some got
    → got ≡ vm
unfolding store_vm_info_to_redis get_vm_info_from_redis exec put load_redis_vm_info to_service_dto
get_vm_info-store json vm now db got reads stored found =
    elim (Option-cases (json.marshal (stamped vm now))) [
      | inl bad ↦ absurd (ground arith)
      | inr (text, made) ↦ ground (
        arith,
        reads text made,
        lookup-insert vm.uuid vm.uuid text db.tables,
        str_eq_refl vm.uuid,
      )
    ]

load_cases :
    (json : Json) (uuid : GoString) (db : Db (Table GoString))
    → ((load_redis_vm_info json uuid db).1.tables ≡ db.tables)
      × (((load_redis_vm_info json uuid db).0 ≡ none)
          ⊎ ((text : GoString) × (before : RedisVmInfo) × (lookup uuid db.tables ≡ some text)
              × (json.unmarshal text ≡ some before)
              × ((load_redis_vm_info json uuid db).0 ≡ some before)))
unfolding load_redis_vm_info exec
load_cases json uuid db = (
  ground arith,
  elim (Option-cases (lookup uuid db.tables)) [
    | inl missing ↦ inl (ground arith)
    | inr (text, there) ↦ elim (Option-cases (json.unmarshal text)) [
      | inl bad ↦ inl (ground arith)
      | inr (before, good) ↦ ground arith
    ]
  ],
)

put_done :
    (json : Json) (key : GoString) (stored : RedisVmInfo) (db : Db (Table GoString))
    → (put json key stored db).0 ≡ some tt
    → (text : GoString) × (json.marshal stored ≡ some text)
      × ((put json key stored db).1.tables ≡ insert key text db.tables)
unfolding put exec
put_done json key stored db h = elim (Option-cases (json.marshal stored)) [
  | inl bad ↦ absurd (ground arith)
  | inr (text, made) ↦ (text, made, ground arith)
]

put_failed :
    (json : Json) (key : GoString) (stored : RedisVmInfo) (db : Db (Table GoString))
    → (put json key stored db).0 ≡ none
    → (put json key stored db).1.tables ≡ db.tables
unfolding put exec
put_failed json key stored db h = ground arith

-- What `UpdateVMStatusInRedis` has done, by its result.
abbrev pub StatusSpec :
    Json
    → GoString
    → GoString
    → ℕ
    → Db (Table GoString)
    → Option (Unit {0}) × Db (Table GoString)
    → Type 0
StatusSpec json uuid status now db (none, db') = db'.tables ≡ db.tables
StatusSpec json uuid status now db (some _, db') =
    (text' text : GoString) × (before : RedisVmInfo) × (lookup uuid db.tables ≡ some text')
    × (json.unmarshal text' ≡ some before)
    × (json.marshal (record before { status = status; time = now }) ≡ some text)
    × ((u : GoString)
        → lookup u db'.tables ≡ (if str_eq uuid u then some text else lookup u db.tables))

status_of_load :
    (json : Json) (uuid status : GoString) (now : ℕ) (db : Db (Table GoString)) (text' : GoString)
    (before : RedisVmInfo) (there : lookup uuid db.tables ≡ some text')
    (good : json.unmarshal text' ≡ some before) (db1 : Db (Table GoString))
    (kept : db1.tables ≡ db.tables)
    → StatusSpec json uuid status now db
        (put json uuid (record before { status = status; time = now }) db1)
status_of_load json uuid status now db text' before there good db1 kept =
    by_result (put json uuid (record before { status = status; time = now }) db1) refl
  where
    stored : RedisVmInfo
    stored = record before { status = status; time = now }

    by_result :
        (r : Option (Unit {0}) × Db (Table GoString))
        → put json uuid stored db1 ≡ r
        → StatusSpec json uuid status now db r
    by_result (none, db') e =
        ap (λ r. r.1.tables) (sym e) ∙ put_failed json uuid stored db1 (ap (λ r. r.0) e) ∙ kept
    by_result (some _, db') e =
        let (text, made, tables) = put_done json uuid stored db1 (ap (λ r. r.0) e) in
        (
          text',
          text,
          before,
          there,
          good,
          made,
          λ u.
              ap (λ r. lookup u r.1.tables) (sym e)
              ∙ ap (lookup u) tables
              ∙ lookup-insert uuid u text db1.tables
              ∙ ap (λ t. if str_eq uuid u then some text else lookup u t) kept,
        )

-- An `UpdateVMStatusInRedis` that returns nil has found the VM, and has replaced its status and time
-- and no other field of it; every other key holds what it held. One that returns an error has
-- changed nothing.
pub update_vm_status-StatusSpec :
    (json : Json) (uuid status : GoString) (now : ℕ) (db : Db (Table GoString))
    → StatusSpec json uuid status now db (update_vm_status_in_redis json uuid status now db)
unfolding update_vm_status_in_redis load_redis_vm_info
update_vm_status-StatusSpec json uuid status now db =
    let (kept, result) = load_cases json uuid db in
    elim result [
      | inl failed ↦ rw (failed, update_vm_status_in_redis) kept
      | inr (text, before, there, good, found) ↦
          rw (found, update_vm_status_in_redis)
            (status_of_load json uuid status now db text before there good
              (load_redis_vm_info json uuid db).1 kept)
    ]
