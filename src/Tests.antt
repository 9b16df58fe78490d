-- ===== src/Tests.antt =====
-- Runs of the code on small inputs: the services and the stores that they share.
mod Structure
mod Network
mod Guacamole
mod Redis
mod Startup
mod Console
mod Vm
mod Server
mod Clients
mod Logger
use kws_control.Common.{ℕ, true, Option, none, some, List, [], ◌∷◌}
use kws_control.Common.Text.{GoString, codes}
use kws_control.Sql.{Db}
use kws_control.Structure.{Core, VmInfo}
use kws_control.Structure.ResourceManager.{ResourceManager, HardwareRequirement}
use kws_control.Structure.MysqlVmRepository.{MysqlVmRepository}
use kws_control.Structure.Control.{ControlContext}
use kws_control.Pkg.Guacamole.{GuacTables, Randomness}
use kws_control.Service.Redis.{Json, RedisVmInfo}
use kws_control.Service.Action.{Services, CreateVmInput}

abbrev pub core_with : ℕ → Core
core_with memory = record {
  ip = codes "c";
  port = 8080;
  core_info_idx = record { memory = 100; cpu = 8; disk = 100 };
  is_alive = true;
  vm_info_idx = none;
  free_memory = memory;
  free_cpu = 8;
  free_disk = 100;
}

abbrev pub resources : ResourceManager
resources = record { cores = core_with 1 ∷ core_with 60 ∷ []; alive_vm = []; vm_location = [] }

abbrev pub small : HardwareRequirement
small = record { memory = 40; cpu = 2; disk = 10 }

abbrev pub vm : VmInfo
vm = record {
  ip_vm = codes "9.0.1.5";
  uuid = codes "v";
  guac_password = [];
  mac_addr = [];
  memory = 40;
  cpu = 2;
  disk = 10;
}

abbrev pub no_tables : GuacTables
no_tables = record {
  entities = [];
  users = [];
  connections = [];
  parameters = [];
  permissions = [];
  next_entity = 1;
  next_connection = 1;
}

abbrev pub draws : Randomness
draws = record { password_bytes = some (codes "abcdefghijkl"); salt_bytes = some (codes "s") }

abbrev pub on_redis : RedisVmInfo
on_redis = record {
  uuid = codes "v";
  cpu = 2;
  memory = 40;
  disk = 10;
  ip = codes "9.0.1.5";
  status = codes "unknown";
  time = 7;
}

-- A reader that knows one text only.
abbrev pub json : Json
json = record { marshal = λ _. some (codes "j"); unmarshal = λ _. some on_redis }

abbrev pub services : Services
services = record {
  cms_new_instance =
      λ _. some (record { ip = codes "9.0.1.5"; mac_addr = codes "m"; sdn_uuid = [] });
  cms_delete_instance = λ _. true;
  core_create_vm = λ _ _. true;
  core_delete_vm = λ _ _. true;
  core_start_vm = λ _ _. true;
  core_force_shutdown_vm = λ _ _. true;
  core_vm_cpu_info = λ _ _. none;
  core_vm_memory_info = λ _ _. none;
  core_vm_disk_info = λ _ _. none;
  rustfs = none;
  guac_authenticate = λ _ _. none;
  generate_ssh_key = some (codes "private", codes "public");
  randomness = draws;
  sha256 = λ s. s;
  json = json;
  now = 7;
}

abbrev pub control : ControlContext MysqlVmRepository
control = record {
  vm_repo = record { tables = record { inst_info = []; inst_loc = [] }; outcomes = [] };
  resources = resources;
  subnet_db = record { tables = codes "9.0.0."; outcomes = [] };
  guac_db = record { tables = no_tables; outcomes = [] };
  last_subnet = codes "9.0.0.";
  redis = record { tables = []; outcomes = [] };
  calls = [];
}

abbrev pub input : CreateVmInput
input = record {
  uuid = codes "v";
  dom_type = [];
  dom_name = [];
  os = [];
  hardware_info = record { cpu = 2; memory = 40; disk = 10 };
  network_ips = [];
  users = record { name = codes "u"; groups = []; password = []; ssh_authorized_keys = [] } ∷ [];
  subnet_type = codes "New";
}
