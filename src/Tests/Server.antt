-- ===== src/Tests/Server.antt =====
-- Requests to the server, with the clients' HTTP as it answers them.
use kws_control.Common.{◌≡◌, refl, true, none, some, [], ◌∷◌, arith, map}
use kws_control.Common.Text.{codes, str_eq}
use kws_control.Common.Table.{lookup, insert}
use kws_control.Structure.Control.Find.{PlacesInRange}
use kws_control.Structure.Control.Sound.{Sound, HasWords, identity}
use kws_control.Common.Lists.{All}
use kws_control.Structure.MysqlVmRepository.Transactions.{info, location, mysql_vm_repository-Laws}
use kws_control.Client.Http.{Http}
use kws_control.Client.Core.{CoreJson}
use kws_control.Client.Cms.{CmsJson}
use kws_control.Service.Wire.{Environment, wired}
use kws_control.Sql.{exec, transaction, commit_or_rollback}
use kws_control.Pkg.Network.{
  digits_loop, digits, itoa, scan, magnitude, atoi, until_dot, advance, print_subnet, components,
  find_subnet,
}
use kws_control.Pkg.Crypto.{
  hex, hash_password_with_salt, base64, base64_char, generate_random_password, generate_random_salt,
}
use kws_control.Pkg.Guacamole.{
  delete_where, find_entity, select_entity, insert_entity, entity_for, upsert_user,
  insert_connection, upsert_parameter, insert_permission, set_parameters, configure_body,
  configure_with, configure, delete_entity, is_permitted, belongs_to, delete_orphans, delete_both,
  cleanup_found, cleanup,
}
use kws_control.Structure.ResourceManager.{select_core, select_loop}
use kws_control.Structure.MysqlVmRepository.{
  insert_row, insert_info, insert_loc, add_instance, mysql_vm_repository,
}
use kws_control.Service.Redis.{set_key, put, store_vm_info_to_redis}
use kws_control.Service.Network.{
  set_last_subnet, set_back, answered, reserve, new_cms_subnet, allocate_cms_subnet,
}
use kws_control.Service.Vm.{
  fail_with, select_core_or_fail, or_clean_up, asked, correct_subnet, launch, provision,
  configure_and_provision, connect, create_vm,
}
use kws_control.Service.Vm.{build_core_create_vm_request, with_key}
use kws_control.Service.Vm.Created.{IsCreated}
use kws_control.Service.Wire.Placed.{PlacedOn}
use kws_control.Service.Network.{request_new_instance}
use kws_control.Client.Cms
use kws_control.Client.Core
use kws_control.Client.Cms.{ask_cms, read_ok, new_cms_client}
use kws_control.Client.Core.{do_request, read_response}
use kws_control.Api.Handlers.{create_vm_handler, create_decoded}
use kws_control.Tests.{services, control, draws, json}
use kws_control.Api.Requests.{ApiCreateVmRequest, ApiJson, ApiRequest, decoded, to_service_input}
use kws_control.Api.Response.{Response, message, respond, respond_json, with_security_headers}
use kws_control.Api.Server.{serve, routes, dispatch, find_route}
use kws_control.Api.Server.Served.{Served}
use kws_control.Api.Server.Routes.{serve-Served}
use kws_control.Api.Server.Create.{Asked, serve-IsCreated}
use kws_control.Api.Server.Reach.{start, next, Reach-Sound}
use kws_control.Api.Server.Answered.{serve_answers}

-- A server that answers every request with 200.
abbrev pub http : Http
http = record {
  new_request = λ _ _. true;
  exchange = λ _. some (record { status = 200; body = codes "j" });
}

abbrev pub core_json : CoreJson
core_json = record {
  create_request = λ _. some (codes "j");
  create_response = λ _. some tt;
  delete_request = λ _. some (codes "j");
  delete_response = λ _. some tt;
  uuid_request = λ _. some (codes "j");
  message_response = λ _. some (codes "j");
  vm_status_request = λ _. some (codes "j");
  machine_status_request = λ _. some (codes "j");
  cpu_response = λ _. none;
  memory_response = λ _. none;
  disk_response = λ _. none;
  machine_cpu_response = λ _. none;
  machine_memory_response = λ _. none;
  machine_disk_response = λ _. none;
}

abbrev cms_json : CmsJson
cms_json = record {
  new_request = λ _. some (codes "j");
  delete_request = λ _. some (codes "j");
  new_response = λ _. some (record { ip = codes "9.0.1.5"; mac_addr = codes "m"; sdn_uuid = [] });
  delete_response = λ _. some tt;
}

abbrev environment : Environment
environment = record {
  http = http;
  core_json = core_json;
  cms_json = cms_json;
  cms_host = [];
  token_json = λ _. none;
  guac_base_url = [];
  rustfs = none;
  generate_ssh_key = some (codes "private", codes "public");
  randomness = draws;
  sha256 = λ s. s;
  json = json;
  now = 7;
}

abbrev api_request : ApiCreateVmRequest
api_request = record {
  dom_type = [];
  dom_name = [];
  uuid = codes "v";
  os = [];
  hw_info = record { cpu = 2; memory = 40; disk = 10 };
  network = record { ips = [] };
  users = record { name = codes "u"; groups = []; password = []; ssh_authorized_keys = [] } ∷ [];
  subnet_type = codes "New";
}

abbrev pub api_json : ApiJson
api_json = record {
  create_vm = λ _. decoded api_request;
  with_uuid = λ _. some (record { uuid = codes "v" });
  vm_status = λ _. none;
  redis_status = λ _. none;
  take_snapshot = λ _. none;
  delete_snapshot = λ _. none;
}

abbrev post_vm : ApiRequest
post_vm = record { method = codes "POST"; path = codes "/vm"; query_uuid = []; body = codes "b" }

abbrev pub start_vm : ApiRequest
start_vm = record {
  method = codes "POST";
  path = codes "/vm/start";
  query_uuid = [];
  body = codes "b";
}

abbrev created_answer : Response
created_answer = record {
  status = 201;
  headers =
      (codes "X-Content-Type-Options", codes "nosniff")
      ∷ (codes "Content-Type", codes "application/json")
      ∷ [];
  body = message (codes "VM created successfully");
}

serve-Served_example :
    Served mysql_vm_repository services api_json post_vm control
      (serve mysql_vm_repository services api_json post_vm control)
serve-Served_example = serve-Served mysql_vm_repository services api_json post_vm control

places : PlacesInRange control.resources
unfolding lookup
places u k h = absurd (ground arith)

words : All HasWords control.resources.cores
words = ((omega arith, omega arith, omega arith), ((omega arith, omega arith, omega arith), tt))

Reach-Sound_example :
    Sound
      (map identity control.resources.cores)
      (serve mysql_vm_repository services api_json post_vm control).1.resources
Reach-Sound_example =
    Reach-Sound mysql_vm_repository api_json control _ places words (next start services post_vm)

serve_answers_example :
    (r : Response) × ((serve mysql_vm_repository services api_json start_vm
        (serve mysql_vm_repository services api_json post_vm control).1).0
      ≡ some r)
unfolding str_eq
serve_answers_example =
    serve_answers mysql_vm_repository api_json control _ services start_vm places words
      (next start services post_vm) refl

serve-IsCreated_example :
    (post_vm.method ≡ codes "POST")
    × (post_vm.path ≡ codes "/vm")
    × (req : ApiCreateVmRequest) × (api_json.create_vm post_vm.body ≡ decoded req)
    × Asked req (to_service_input req)
    × PlacedOn environment (to_service_input req) control
    × IsCreated mysql_vm_repository
        (wired environment control.resources.cores)
        (to_service_input req)
        info
        location
        mysql_vm_repository-Laws
        control
        (serve mysql_vm_repository
          (wired environment control.resources.cores)
          api_json
          post_vm
          control).1
unfolding create_vm select_core_or_fail connect configure_and_provision provision launch or_clean_up
    asked correct_subnet fail_with select_core select_loop allocate_cms_subnet new_cms_subnet
    reserve answered set_back set_last_subnet find_subnet components until_dot atoi scan magnitude
    advance print_subnet itoa digits digits_loop cleanup cleanup_found delete_both delete_orphans
    delete_entity is_permitted belongs_to delete_where select_entity find_entity exec
    commit_or_rollback transaction str_eq configure configure_with configure_body insert_entity
    entity_for upsert_user insert_connection upsert_parameter insert_permission set_parameters hex
    hash_password_with_salt base64 base64_char generate_random_password generate_random_salt
    store_vm_info_to_redis put set_key add_instance insert_info insert_loc insert_row lookup insert
    serve routes dispatch find_route with_security_headers create_vm_handler create_decoded respond
    respond_json to_service_input wired request_new_instance Cms.request_new_instance ask_cms
    read_ok new_cms_client Core.create_vm do_request read_response build_core_create_vm_request
    with_key
serve-IsCreated_example =
    serve-IsCreated mysql_vm_repository environment api_json post_vm info location
      mysql_vm_repository-Laws control created_answer refl refl
