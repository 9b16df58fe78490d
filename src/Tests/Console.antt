-- ===== src/Tests/Console.antt =====
-- Runs of service/guacamole.go and `GetVMIPByUUID` of service/network.go, on a VM that a core has.
use kws_control.Common.{ℕ, ◌≡◌, refl, subst, ◌⊎◌, inl, inr, none, some, [], ◌∷◌, arith, Bool-cases}
use kws_control.Common.Lists.{get_elem?}
use kws_control.Common.Text.{codes, str_eq, str_eq_iff, str_eq_refl}
use kws_control.Common.Table.{lookup, entries}
use kws_control.Structure.{Core, VmInfo}
use kws_control.Structure.MysqlVmRepository.{MysqlVmRepository, mysql_vm_repository}
use kws_control.Structure.Control.{ControlContext, find_core_by_vm_uuid}
use kws_control.Service.Action.{Services, ok, err, not_in_location}
use kws_control.Service.Network.{get_vm_ip_by_uuid}
use kws_control.Service.Network.Places.{get_vm_ip_by_uuid-PlacesHold}
use kws_control.Startup.Places.{Holds, PlacesHold}
use kws_control.Service.Guacamole.{vm_on, get_guacamole_token}
use kws_control.Service.Guacamole.Token.{get_guacamole_token_done}
use kws_control.Tests.{core_with, services, control, vm}

-- A Guacamole whose token is the password.
abbrev open_door : Services
open_door = record services { guac_authenticate = λ _ password. some password }

abbrev holding : ControlContext MysqlVmRepository
holding = record control {
  resources = record {
    cores =
        record (core_with 60) {
          vm_info_idx = some ((codes "v", record vm { guac_password = codes "p" }) ∷ []);
        }
        ∷ [];
    alive_vm = [];
    vm_location = (codes "v", 0) ∷ [];
  };
}

get_guacamole_token_done_example :
    let c' = (get_guacamole_token mysql_vm_repository open_door (codes "v") holding).1 in
    ((k : ℕ) × (core : Core) × (vm : VmInfo) × ((find_core_by_vm_uuid mysql_vm_repository
          (codes "v")
          holding).0
        ≡ some k)
      × (get_elem? holding.resources.cores k ≡ some core)
      × (lookup (codes "v") (entries core.vm_info_idx) ≡ some vm)
      × (open_door.guac_authenticate (codes "v") vm.guac_password ≡ some (codes "p")))
    × (c'.resources.cores ≡ holding.resources.cores)
    × (c'.resources.alive_vm ≡ holding.resources.alive_vm)
    × (c'.guac_db ≡ holding.guac_db)
unfolding get_guacamole_token vm_on find_core_by_vm_uuid lookup str_eq
get_guacamole_token_done_example =
    get_guacamole_token_done mysql_vm_repository open_door (codes "v") holding (codes "p") refl

holding-PlacesHold : PlacesHold holding.resources
unfolding lookup
holding-PlacesHold u k h = elim (Bool-cases (str_eq (codes "v") u)) [
  | inl same ↦
      let key : codes "v" ≡ u = (str_eq_iff (codes "v") u).0 same in
      let place : 0 ≡ k = ground arith in
      subst (λ i. Holds holding.resources u i) place
        (subst (λ v. Holds holding.resources v 0) key
          (record {
            core = record (core_with 60) {
              vm_info_idx = some ((codes "v", record vm { guac_password = codes "p" }) ∷ []);
            };
            vm = record vm { guac_password = codes "p" };
            at = refl;
            there = found;
          }))
  | inr other ↦ absurd (ground arith)
]
  where
    found :
        lookup (codes "v") ((codes "v", record vm { guac_password = codes "p" }) ∷ [])
        ≡ some (record vm { guac_password = codes "p" })
    found = ground (arith, str_eq_refl (codes "v"))

get_vm_ip_by_uuid-PlacesHold_example :
    ((lookup (codes "v") holding.resources.vm_location ≡ none)
      × (get_vm_ip_by_uuid (codes "v") holding ≡ (err not_in_location, holding)))
    ⊎ ((k : ℕ) × (core : Core) × (vm : VmInfo) × (lookup (codes "v") holding.resources.vm_location
          ≡ some k)
        × (get_elem? holding.resources.cores k ≡ some core)
        × (lookup (codes "v") (entries core.vm_info_idx) ≡ some vm)
        × (get_vm_ip_by_uuid (codes "v") holding ≡ (ok vm.ip_vm, holding)))
get_vm_ip_by_uuid-PlacesHold_example =
    get_vm_ip_by_uuid-PlacesHold (codes "v") holding holding-PlacesHold
