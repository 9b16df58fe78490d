-- ===== src/Service/Network/Subnets.antt =====
-- service/network.go: the last subnet in memory and in the table, and the search of `Add`.
use kws_control.Common.{
  ◌≡◌, refl, inl, inr, Option, none, some, ◌∷◌, arith, Option-cases, Bool-cases,
}
use kws_control.Common.Text.{GoString, codes, str_eq}
use kws_control.Common.Table.{lookup}
use kws_control.Sql.{exec}
use kws_control.Common.Lists.{get_elem?}
use kws_control.Structure.{Core}
use kws_control.Pkg.Network.{find_subnet}
use kws_control.Structure.Control.{ControlContext, cms_new}
use kws_control.Service.Action.{
  cms_request, not_in_location, ok, err, Services, CmsNewInstanceResponse,
}
use kws_control.Service.Network.{
  vm_ip_on, request_new_instance, set_last_subnet, set_back, answered, reserve, new_cms_subnet,
  get_vm_ip_by_uuid, add_cms_subnet, allocate_cms_subnet, delete_cms_subnet,
}

-- The row of the table and the field of the context agree.
abbrev pub InSync : {R : Type 0} → ControlContext R → Type 0
InSync c = c.subnet_db.tables ≡ c.last_subnet

module _ {R : Type 0} (services : Services) (c : ControlContext R) where
  reserve-InSync :
      (next : Option GoString) → InSync c → InSync (reserve services c.last_subnet next c).1
  unfolding reserve set_last_subnet exec answered set_back
  reserve-InSync none sync = sync
  reserve-InSync (some next) sync = ground arith

  -- If the last subnet in memory and in the table agree before `NewCmsSubnet`, they agree after it,
  -- whatever the database and the CMS answer, also where the CMS refuses and the row cannot be set
  -- back, and where the computation of the next subnet panics.
  pub new_cms_subnet-InSync : InSync c → InSync (new_cms_subnet services c).1
  unfolding new_cms_subnet
  new_cms_subnet-InSync sync = reserve-InSync (find_subnet c.last_subnet) sync

  reserve_granted :
      (next : Option GoString) (resp : CmsNewInstanceResponse)
      → (reserve services c.last_subnet next c).0 ≡ ok resp
      → let c' = (reserve services c.last_subnet next c).1 in
        (next ≡ some c'.last_subnet)
        × (c'.subnet_db.tables ≡ c'.last_subnet)
        × (services.cms_new_instance c'.last_subnet ≡ some resp)
        × (c'.calls ≡ cms_new c'.last_subnet ∷ c.calls)
  unfolding reserve set_last_subnet exec answered set_back
  reserve_granted none resp h = cc
  reserve_granted (some next) resp h = elim (Option-cases (services.cms_new_instance next)) [
    | inl refused ↦ absurd (ground arith)
    | inr (resp', answer) ↦ (ground arith, ground arith, ground arith, ground arith)
  ]

  -- A `NewCmsSubnet` that succeeds has moved the last subnet, in memory and in the table, to the
  -- result of `FindSubnet`, has asked the CMS once, for an address in that subnet, and returns its
  -- answer.
  pub new_cms_subnet_granted :
      (resp : CmsNewInstanceResponse)
      → (new_cms_subnet services c).0 ≡ ok resp
      → let c' = (new_cms_subnet services c).1 in
        (find_subnet c.last_subnet ≡ some c'.last_subnet)
        × (c'.subnet_db.tables ≡ c'.last_subnet)
        × (services.cms_new_instance c'.last_subnet ≡ some resp)
        × (c'.calls ≡ cms_new c'.last_subnet ∷ c.calls)
  unfolding new_cms_subnet
  new_cms_subnet_granted resp h = reserve_granted (find_subnet c.last_subnet) resp h

  reserve_refused :
      (next : Option GoString)
      → InSync c
      → (reserve services c.last_subnet next c).0 ≡ err cms_request
      → let c' = (reserve services c.last_subnet next c).1 in
        (c'.last_subnet ≡ c.last_subnet) × (c'.subnet_db.tables ≡ c.subnet_db.tables)
  unfolding reserve set_last_subnet exec answered set_back
  reserve_refused none sync h = cc
  reserve_refused (some next) sync h = elim (Option-cases (services.cms_new_instance next)) [
    | inl refused ↦ (ground arith, ground arith)
    | inr (resp', answer) ↦ absurd (ground arith)
  ]

  -- If the CMS refuses and the row can be set back, which is the error `cms_request`, the last
  -- subnet is in both places what it was.
  new_cms_subnet_refused :
      InSync c
      → (new_cms_subnet services c).0 ≡ err cms_request
      → let c' = (new_cms_subnet services c).1 in
        (c'.last_subnet ≡ c.last_subnet) × (c'.subnet_db.tables ≡ c.subnet_db.tables)
  unfolding new_cms_subnet
  new_cms_subnet_refused sync h = reserve_refused (find_subnet c.last_subnet) sync h

  -- `Add` looks for the subnet of the VM that is about to be created: for a UUID with no place yet it
  -- fails and changes nothing, and no service is asked.
  pub allocate_cms_subnet_add :
      (uuid : GoString)
      → lookup uuid c.resources.vm_location ≡ none
      → allocate_cms_subnet services (codes "Add") uuid c ≡ (err not_in_location, c)
  unfolding allocate_cms_subnet add_cms_subnet get_vm_ip_by_uuid str_eq
  allocate_cms_subnet_add uuid missing = ground arith

  reserve_keeps :
      (last : GoString) (next : Option GoString)
      → let c' = (reserve services last next c).1 in
        (c'.resources ≡ c.resources) × (c'.vm_repo ≡ c.vm_repo)
  unfolding reserve answered set_back
  reserve_keeps last none = (refl, refl)
  reserve_keeps last (some next) = elim (Option-cases (services.cms_new_instance next)) [
    | inl refused ↦ (ground arith, ground arith)
    | inr (resp', answer) ↦ (ground arith, ground arith)
  ]

  vm_ip_on_keeps : (uuid : GoString) (core : Option Core) → (vm_ip_on uuid core c).1 ≡ c
  unfolding vm_ip_on
  vm_ip_on_keeps uuid none = refl
  vm_ip_on_keeps uuid (some core) = ground arith

  get_vm_ip_by_uuid_keeps : (uuid : GoString) → (get_vm_ip_by_uuid uuid c).1 ≡ c
  unfolding get_vm_ip_by_uuid
  get_vm_ip_by_uuid_keeps uuid = elim (Option-cases (lookup uuid c.resources.vm_location)) [
    | inl missing ↦ ground arith
    | inr (k, found) ↦ ground (arith, vm_ip_on_keeps uuid (get_elem? c.resources.cores k))
  ]

  -- `DeleteCmsSubnet` changes nothing but the requests sent.
  pub delete_cms_subnet_keeps :
      (uuid : GoString)
      → let c' = (delete_cms_subnet services uuid c).1 in
        (c'.resources ≡ c.resources) × (c'.vm_repo ≡ c.vm_repo)
  unfolding delete_cms_subnet
  delete_cms_subnet_keeps uuid =
      (ground (arith, get_vm_ip_by_uuid_keeps uuid), ground (arith, get_vm_ip_by_uuid_keeps uuid))

  add_cms_subnet_keeps :
      (uuid : GoString)
      → let c' = (add_cms_subnet services uuid c).1 in
        (c'.resources ≡ c.resources) × (c'.vm_repo ≡ c.vm_repo)
  unfolding add_cms_subnet request_new_instance
  add_cms_subnet_keeps uuid =
      (ground (arith, get_vm_ip_by_uuid_keeps uuid), ground (arith, get_vm_ip_by_uuid_keeps uuid))

  -- The allocation of a subnet touches neither the resources nor the repository.
  pub allocate_cms_subnet_keeps :
      (subnet_type uuid : GoString)
      → let c' = (allocate_cms_subnet services subnet_type uuid c).1 in
        (c'.resources ≡ c.resources) × (c'.vm_repo ≡ c.vm_repo)
  unfolding allocate_cms_subnet new_cms_subnet
  allocate_cms_subnet_keeps subnet_type uuid =
      elim (Bool-cases (str_eq subnet_type (codes "Add"))) [
        | inl adds ↦ ground (arith, add_cms_subnet_keeps uuid)
        | inr new ↦ ground (arith, reserve_keeps c.last_subnet (find_subnet c.last_subnet))
      ]
