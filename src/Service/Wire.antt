-- ===== src/Service/Wire.antt =====
-- The answers of the other services, as the clients get them over HTTP. The calls of the clients are
-- those of service/vm.go, service/network.go and service/guacamole.go.
pub mod Placed
use kws_control.Common.{ℕ, Bool, true, false, Option, none, some, List}
use kws_control.Common.Lists.{get_elem?}
use kws_control.Common.Text.{GoString}
use kws_control.Pkg.Guacamole.{Randomness}
use kws_control.Structure.{Core}
use kws_control.Client.Model.{hard_delete}
use kws_control.Client.Http.{Http}
use kws_control.Client.Core.{CoreJson, CoreClient, new_core_client}
use kws_control.Client.Core
use kws_control.Client.Cms.{CmsJson, new_cms_client, request_new_instance, request_delete_instance}
use kws_control.Client.Guacamole.{authenticate}
use kws_control.Client.Rustfs.{RustfsClient}
use kws_control.Service.Redis.{Json}
use kws_control.Service.Action.{Services, CreateVmRequest}

-- What the process has beside the HTTP servers
pub record Environment : Type 0 where
  pub http : Http
  pub core_json : CoreJson
  pub cms_json : CmsJson
  pub cms_host : GoString
  pub token_json : GoString → Option GoString
  pub guac_base_url : GoString
  pub rustfs : Option RustfsClient
  pub generate_ssh_key : Option (GoString × GoString)
  pub randomness : Randomness
  pub sha256 : GoString → GoString
  pub json : Json
  pub now : ℕ

abbrev pub is_some : {A : Type 0} → Option A → Bool
is_some none = false
is_some (some _) = true

-- A call on the core of an index
abbrev pub on_core : {A : Type 0} → List Core → ℕ → (CoreClient → Option A) → Option A
on_core cores k call = elim (get_elem? cores k) [
  | none ↦ none
  | some core ↦ call (new_core_client core)
]

-- The services as the cores of the list, the CMS and Guacamole give them. A core's address does not
-- change, so the list may be that of any time after startup.
unfoldable pub wired : Environment → List Core → Services
wired env cores = record {
  cms_new_instance = request_new_instance env.http env.cms_json (new_cms_client env.cms_host);
  cms_delete_instance = λ ip.
      is_some (request_delete_instance env.http env.cms_json (new_cms_client env.cms_host) ip);
  core_create_vm =
      λ k req. is_some (on_core cores k (λ c. Core.create_vm env.http env.core_json c req));
  core_delete_vm = λ k uuid. is_some (
      on_core cores k (λ c.
        Core.delete_vm env.http env.core_json c
          (record { uuid = uuid; delete_type = hard_delete })));
  core_start_vm =
      λ k uuid. is_some (on_core cores k (λ c. Core.start_vm env.http env.core_json c uuid));
  core_force_shutdown_vm = λ k uuid.
      is_some (on_core cores k (λ c. Core.force_shutdown_vm env.http env.core_json c uuid));
  core_vm_cpu_info =
      λ k uuid. on_core cores k (λ c. Core.get_vm_cpu_info env.http env.core_json c uuid);
  core_vm_memory_info =
      λ k uuid. on_core cores k (λ c. Core.get_vm_memory_info env.http env.core_json c uuid);
  core_vm_disk_info =
      λ k uuid. on_core cores k (λ c. Core.get_vm_disk_info env.http env.core_json c uuid);
  rustfs = env.rustfs;
  guac_authenticate = authenticate env.http env.token_json env.guac_base_url;
  generate_ssh_key = env.generate_ssh_key;
  randomness = env.randomness;
  sha256 = env.sha256;
  json = env.json;
  now = env.now;
}
