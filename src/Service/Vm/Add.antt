-- ===== src/Service/Vm/Add.antt =====
-- `CreateVM` (service/vm.go) with a subnet that is there already.
use kws_control.Common.{ℕ, ◌≡◌, ◌≢◌, inl, inr, none, List, [], ◌∷◌, arith, Option-cases}
use kws_control.Common.Text.{GoString, codes}
use kws_control.Common.Table.{lookup}
use kws_control.Structure.ResourceManager.{select_core}
use kws_control.Structure.Repository.{VmRepository}
use kws_control.Structure.Control.{ControlContext}
use kws_control.Service.Network.Subnets.{allocate_cms_subnet_add}
use kws_control.Service.Action.{no_user, ok, Services, CreateVmInput, UserSpec}
use kws_control.Service.Vm.{requirement, connect, create_vm, select_core_or_fail}
use kws_control.Service.Vm.Stages.{fail_with_nothing}

module _ {R : Type 0} (repo : VmRepository R) (services : Services) (input : CreateVmInput)
    (c : ControlContext R) where
  connect_add :
      (core : ℕ) (private_key public_key : GoString) (users : List UserSpec)
      → input.subnet_type ≡ codes "Add"
      → lookup input.uuid c.resources.vm_location ≡ none
      → (connect repo services input core private_key public_key users c).0 ≢ ok tt
  unfolding connect
  connect_add core private_key public_key [] adds missing h =
      let nothing = fail_with_nothing no_user c in cc
  connect_add core private_key public_key (first ∷ users) adds missing h =
      let refused = allocate_cms_subnet_add services c input.uuid missing in
      ground (arith, adds, refused)

  -- A `CreateVM` whose subnet type is `Add` never succeeds for a UUID that has no place in the cache
  -- yet, as the UUID of a new VM has none, whatever the other services answer.
  pub create_vm_add :
      input.subnet_type ≡ codes "Add"
      → lookup input.uuid c.resources.vm_location ≡ none
      → (create_vm repo services input c).0 ≢ ok tt
  unfolding create_vm select_core_or_fail
  create_vm_add adds missing h =
      elim (Option-cases (select_core (requirement input) c.resources).core) [
        | inl full ↦ ground arith
        | inr (core, chosen) ↦ elim (Option-cases services.generate_ssh_key) [
          | inl failed ↦ ground arith
          | inr ((private_key, public_key), keys) ↦
              connect_add core private_key public_key input.users adds missing (ground arith)
        ]
      ]
