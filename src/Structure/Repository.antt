-- ===== src/Structure/Repository.antt =====
-- structure/repository.go: the interface `VMRepository`, with the laws that its clients rely on.
-- A repository is a state `R`; two views say what it holds for a UUID.
use kws_control.Common.{ℕ, ◌≡◌, Option, none, some, List, if◌then◌else◌}
use kws_control.Common.Int.{ℤ, pos}
use kws_control.Common.Text.{GoString, str_eq}
use kws_control.Structure.{VmInfo}

-- What the columns of `inst_info` keep of a VM: all but the MAC address.
abbrev pub stored : VmInfo → VmInfo
stored vm = record vm { mac_addr = List.[] }

-- What an update makes of a row, if there is one: the password stays.
abbrev pub updated : VmInfo → Option VmInfo → Option VmInfo
updated vm none = none
updated vm (some old) = some (record (stored vm) { guac_password = old.guac_password })

-- `type VMRepository interface`. `none` is an error.
pub record VmRepository (R : Type 0) : Type 0 where
  pub add_instance : VmInfo → ℕ → R → Option (Unit {0}) × R
  pub update_instance : VmInfo → R → Option (Unit {0}) × R
  pub delete_instance : GoString → R → Option (Unit {0}) × R
  pub get_instance : GoString → R → Option VmInfo × R
  pub get_instance_location : GoString → R → Option ℤ × R
  pub get_all_instance_info : R → Option (List (VmInfo × ℤ)) × R

-- The laws: `info` and `location` are the abstract state.
pub record Laws {R : Type 0} (repo : VmRepository R) (info : R → GoString → Option VmInfo)
    (location : R → GoString → Option ℤ) : Type 0 where
  pub add_failed :
      (vm : VmInfo) (k : ℕ) (r : R) (u : GoString)
      → (repo.add_instance vm k r).0 ≡ none
      → (info (repo.add_instance vm k r).1 u ≡ info r u)
        × (location (repo.add_instance vm k r).1 u ≡ location r u)
  pub add_done :
      (vm : VmInfo) (k : ℕ) (r : R) (u : GoString)
      → (repo.add_instance vm k r).0 ≡ some tt
      → (info r vm.uuid ≡ none)
        × (location r vm.uuid ≡ none)
        × (info (repo.add_instance vm k r).1 u
            ≡ (if str_eq vm.uuid u then some (stored vm) else info r u))
        × (location (repo.add_instance vm k r).1 u
            ≡ (if str_eq vm.uuid u then some (pos k) else location r u))
  pub update_failed :
      (vm : VmInfo) (r : R) (u : GoString)
      → (repo.update_instance vm r).0 ≡ none
      → (info (repo.update_instance vm r).1 u ≡ info r u)
        × (location (repo.update_instance vm r).1 u ≡ location r u)
  pub update_done :
      (vm : VmInfo) (r : R) (u : GoString)
      → (repo.update_instance vm r).0 ≡ some tt
      → (info (repo.update_instance vm r).1 u
          ≡ (if str_eq vm.uuid u then updated vm (info r u) else info r u))
        × (location (repo.update_instance vm r).1 u ≡ location r u)
  pub delete_failed :
      (uuid : GoString) (r : R) (u : GoString)
      → (repo.delete_instance uuid r).0 ≡ none
      → (info (repo.delete_instance uuid r).1 u ≡ info r u)
        × (location (repo.delete_instance uuid r).1 u ≡ location r u)
  pub delete_done :
      (uuid : GoString) (r : R) (u : GoString)
      → (repo.delete_instance uuid r).0 ≡ some tt
      → (info (repo.delete_instance uuid r).1 u ≡ (if str_eq uuid u then none else info r u))
        × (location (repo.delete_instance uuid r).1 u
            ≡ (if str_eq uuid u then none else location r u))
  pub get_instance_sound :
      (uuid : GoString) (r : R) (vm : VmInfo)
      → (repo.get_instance uuid r).0 ≡ some vm
      → info r uuid ≡ some vm
  pub get_instance_keeps :
      (uuid : GoString) (r : R) (u : GoString)
      → (info (repo.get_instance uuid r).1 u ≡ info r u)
        × (location (repo.get_instance uuid r).1 u ≡ location r u)
  pub get_location_sound :
      (uuid : GoString) (r : R) (z : ℤ)
      → (repo.get_instance_location uuid r).0 ≡ some z
      → location r uuid ≡ some z
  pub get_location_keeps :
      (uuid : GoString) (r : R) (u : GoString)
      → (info (repo.get_instance_location uuid r).1 u ≡ info r u)
        × (location (repo.get_instance_location uuid r).1 u ≡ location r u)
  pub get_all_keeps :
      (r : R) (u : GoString)
      → (info (repo.get_all_instance_info r).1 u ≡ info r u)
        × (location (repo.get_all_instance_info r).1 u ≡ location r u)
