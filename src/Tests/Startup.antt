-- ===== src/Tests/Startup.antt =====
-- Runs of startup/init.go.
use kws_control.Common.{
  ◌≡◌, refl, true, some, List, [], ◌∷◌, ◌++◌, ◌+◌, ◌%◌, ◌^◌, ◌<◌, ◌≢◌, ◌⊎◌, map, arith,
}
use kws_control.Common.Lists.{All, get_elem?}
use kws_control.Common.Int.{ℤ, pos}
use kws_control.Common.Text.{codes, str_eq}
use kws_control.Common.Table.{lookup}
use kws_control.Structure.{Core, VmInfo}
use kws_control.Structure.ResourceManager.{ResourceManager}
use kws_control.Startup.{new_core, find_core, load_instances}
use kws_control.Startup.Places.{PlacesHold}
use kws_control.Startup.Load.{IsLoaded, FromRows, load_instances-IsLoaded, load_instances-InRange}
use kws_control.Startup.Cores.{IsFound, round-find_core}
use kws_control.Startup.Address.{
  colon, parse_address, address_of, split_on, put_byte, parse_address-digits,
}
use kws_control.Startup.Sizes.{
  Pointer, Arrays, with_sizes, measure, after_memory, after_disk, append_core, round, rounds,
  read_core, written, write_core, finish,
}
use kws_control.Startup.Config.{
  Config, core_addresses, read_config, try_read_config, dsn, data_source,
}
use kws_control.Startup.Initialize.{
  Environment, Ended, done, initialize_core_data, connected, load_all, launch_all, started, ends,
  end_of,
}
use kws_control.Startup.Initialize.Ready.{initialize_core_data-Sound}
use kws_control.Structure.Control.{ControlContext}
use kws_control.Structure.Control.Sound.{Sound, identity}
use kws_control.Structure.MysqlVmRepository.{
  MysqlVmRepository, mysql_vm_repository, get_all_instance_info, select_all, join_rows,
}
use kws_control.Sql.{exec, transaction, commit_or_rollback}
use kws_control.Api.Server.{serve}
use kws_control.Api.Server.Reach.{start, next}
use kws_control.Startup.Sizes.Lost.{finish_lost, finish_kept}
use kws_control.Client.Model.{CoreMachineMemoryInfoResponse, CoreMachineDiskInfoResponse}
use kws_control.Client.Core.{
  CoreJson, new_core_client, do_request, read_response, get_core_machine_memory_info,
  get_core_machine_disk_info,
}
use kws_control.Pkg.Network.{digits, atoi, magnitude, scan}
use kws_control.Tests.Server.{http, core_json, api_json, start_vm}
use kws_control.Tests.{resources, vm, services, control}

abbrev rows : List (VmInfo × ℤ)
rows = (vm, pos 1) ∷ (record vm { uuid = codes "w" }, pos 0) ∷ []

loaded : (rm' : ResourceManager) × (load_instances rows resources ≡ some rm')
loaded =
    load_instances-InRange rows resources ((1, refl, omega arith), ((0, refl, omega arith), tt))

load_instances-InRange_example :
    (rm' : ResourceManager) × (load_instances rows resources ≡ some rm')
load_instances-InRange_example =
    load_instances-InRange rows resources ((1, refl, omega arith), ((0, refl, omega arith), tt))

load_instances-IsLoaded_example :
    PlacesHold (loaded.0)
    × All (IsLoaded (loaded.0)) rows
    × FromRows resources rows (loaded.0)
    × (loaded.0.alive_vm ≡ [])
unfolding lookup
load_instances-IsLoaded_example =
    load_instances-IsLoaded rows resources (loaded.0) (λ u k h. absurd (ground arith)) (loaded.1)

abbrev one_array : Arrays
one_array = record { retired = []; cores = resources.cores; capacity = 2 }

round-find_core_example : IsFound (codes "d") 80 (round (λ n. n + n) (codes "d", 80) one_array)
round-find_core_example = round-find_core (λ n. n + n) (codes "d") 80 one_array

abbrev memory : CoreMachineMemoryInfoResponse
memory = record { total = 4; used = 1; available = 3; used_percent = 25 }

abbrev disk : CoreMachineDiskInfoResponse
disk = record { total = 8; used = 2; free = 6; used_percent = 25 }

-- Cores that answer both questions.
abbrev sizes : CoreJson
sizes = record core_json {
  machine_memory_response = λ _. some (record { information = some memory });
  machine_disk_response = λ _. some (record { information = some disk });
}

abbrev first : Core
first = new_core (codes "c") 8080

abbrev second : Core
second = new_core (codes "d") 80

-- The list with one core, in an array of that size and in a larger one
abbrev small_array : Arrays
small_array = record { retired = []; cores = first ∷ []; capacity = 1 }

abbrev large_array : Arrays
large_array = record { retired = []; cores = first ∷ []; capacity = 4 }

abbrev to_first : Pointer
to_first = record { array = 0; index = 0 }

abbrev after : Arrays
after = record {
  retired = (with_sizes memory disk first ∷ []) ∷ [];
  cores = first ∷ second ∷ [];
  capacity = 2;
}

finish_lost_example :
    after.cores ≡ (rounds (λ n. n + n) [] (append_core (λ n. n + n) second small_array)).cores
unfolding finish read_core written write_core measure after_memory after_disk rounds append_core
    do_request read_response get_core_machine_memory_info get_core_machine_disk_info
finish_lost_example =
    finish_lost http sizes (λ n. n + n) second to_first small_array after [] true (omega arith) refl
      refl

finish_kept_example :
    (a' : Arrays) × (finish http sizes to_first
        (rounds (λ n. n + n) ((codes "d", 80) ∷ []) large_array)
      ≡ some (true, a'))
    × (get_elem? a'.cores 0 ≡ some (with_sizes memory disk first))
unfolding measure after_memory after_disk rounds round append_core find_core str_eq do_request
    read_response get_core_machine_memory_info get_core_machine_disk_info
finish_kept_example =
    finish_kept http sizes (λ n. n + n) to_first large_array first (with_sizes memory disk first)
      ((codes "d", 80) ∷ []) refl (omega arith) refl refl

parse_address-digits_example :
    ((8080 < 2 ^ 16)
      × (parse_address (codes "c" ++ colon ∷ digits 8080) ≡ some (codes "c", 8080))
      × ((new_core_client (new_core (codes "c") 8080)).base_url
          ≡ codes "http://" ++ (codes "c" ++ colon ∷ digits 8080)))
    ⊎ ((8080 ≢ 8080 % 2 ^ 16)
        × (parse_address (codes "c" ++ colon ∷ digits 8080) ≡ some (codes "c", 8080 % 2 ^ 16)))
parse_address-digits_example =
    parse_address-digits (codes "c") 8080 ((λ e. absurd (omega arith)), tt) (omega arith)

abbrev config : Config
config = record {
  vm_internal_subnets = [];
  guac_base_url = [];
  cores = codes "c:8080" ∷ codes "d:80" ∷ [];
  port = pos 8081;
  redis = [];
  db = record { user = []; password = []; host = []; port = pos 0; name = [] };
  guac_db = record { user = []; password = []; host = []; port = pos 0; name = [] };
}

-- A process without variables, whose second core is asked in time and whose first one is not.
abbrev process : Environment MysqlVmRepository
process = record {
  getenv = λ _. [];
  file = λ _. some (codes "y");
  yaml = λ _. some config;
  opens = λ _. true;
  pings = λ _. true;
  http = http;
  json = sizes;
  grow = λ n. n + 1;
  vm_repo = control.vm_repo;
  subnet_db = control.subnet_db;
  guac_db = control.guac_db;
  redis = control.redis;
}

abbrev outcome : Ended (ControlContext MysqlVmRepository)
outcome =
    initialize_core_data mysql_vm_repository process (codes "config.yaml")
      ([] ∷ (0 ∷ (1 ∷ [])) ∷ [])

abbrev state_of : Ended (ControlContext MysqlVmRepository) → ControlContext MysqlVmRepository
state_of (done c) = c
state_of _ = control

initialize_core_data-Sound_example :
    PlacesHold (state_of outcome).resources
    × Sound
        (map identity (state_of outcome).resources.cores)
        (serve mysql_vm_repository services api_json start_vm (state_of outcome)).1.resources
unfolding initialize_core_data connected load_all launch_all started ends end_of round append_core
    find_core finish read_core written write_core measure after_memory after_disk do_request
    read_response get_core_machine_memory_info get_core_machine_disk_info parse_address address_of
    split_on put_byte atoi magnitude scan str_eq core_addresses read_config try_read_config dsn
    data_source load_instances get_all_instance_info select_all join_rows exec transaction
    commit_or_rollback
initialize_core_data-Sound_example =
    initialize_core_data-Sound mysql_vm_repository process (codes "config.yaml")
      ([] ∷ (0 ∷ (1 ∷ [])) ∷ []) api_json (state_of outcome) _ refl (next start services start_vm)
