-- ===== src/Service/Guacamole/Token.antt =====
-- `GetGuacamoleToken` (service/guacamole.go): when there is a token.
use kws_control.Common.{
  ℕ, ◌≡◌, refl, ap, sym, ◌∙◌, ◌⊎◌, inl, inr, Option, none, some, Option-cases, arith,
}
use kws_control.Common.Lists.{get_elem?}
use kws_control.Common.Text.{GoString}
use kws_control.Common.Table.{lookup, entries}
use kws_control.Structure.{Core, VmInfo}
use kws_control.Structure.Repository.{VmRepository}
use kws_control.Structure.Control.{ControlContext, find_core_by_vm_uuid}
use kws_control.Structure.Control.Find.{find-Untouched}
use kws_control.Service.Action.{vm_not_found, ok, err, panic, Services}
use kws_control.Service.Guacamole.{vm_on, get_guacamole_token}

module _ {R : Type 0} (repo : VmRepository R) (services : Services) (uuid : GoString)
    (c : ControlContext R) where
  abbrev c1 : ControlContext R
  c1 = (find_core_by_vm_uuid repo uuid c).1

  -- `GetGuacamoleToken` on what the search has found
  vm_on_cases :
      (found : Option Core)
      → ((found ≡ none) × (vm_on uuid found c1 ≡ (panic, c1)))
        ⊎ ((core : Core) × (found ≡ some core)
            × (lookup uuid (entries core.vm_info_idx) ≡ none)
            × (vm_on uuid found c1 ≡ (err vm_not_found, c1)))
        ⊎ ((core : Core) × (vm : VmInfo) × (found ≡ some core)
            × (lookup uuid (entries core.vm_info_idx) ≡ some vm)
            × (vm_on uuid found c1 ≡ (ok vm, c1)))
  unfolding vm_on
  vm_on_cases none = inl (refl, refl)
  vm_on_cases (some core) = elim (Option-cases (lookup uuid (entries core.vm_info_idx))) [
    | inl missing ↦ inr (inl (core, refl, missing, rw (missing, vm_on) refl))
    | inr (vm, there) ↦ inr (inr (core, vm, refl, there, rw (there, vm_on) refl))
  ]

  -- If `GetGuacamoleToken` returns a token, then the search has found a core that has the VM, and the
  -- token is what Guacamole gives for the UUID and the password of that VM. The cores, the live VMs
  -- and the Guacamole tables are as before.
  pub get_guacamole_token_done :
      (token : GoString)
      → (get_guacamole_token repo services uuid c).0 ≡ ok token
      → let c' = (get_guacamole_token repo services uuid c).1 in
        ((k : ℕ) × (core : Core) × (vm : VmInfo) × ((find_core_by_vm_uuid repo uuid c).0 ≡ some k)
          × (get_elem? c.resources.cores k ≡ some core)
          × (lookup uuid (entries core.vm_info_idx) ≡ some vm)
          × (services.guac_authenticate uuid vm.guac_password ≡ some token))
        × (c'.resources.cores ≡ c.resources.cores)
        × (c'.resources.alive_vm ≡ c.resources.alive_vm)
        × (c'.guac_db ≡ c.guac_db)
  unfolding get_guacamole_token
  get_guacamole_token_done token h =
      let same = find-Untouched repo uuid c in
      elim (Option-cases ((find_core_by_vm_uuid repo uuid c).0)) [
        | inl missing ↦ absurd (ground arith)
        | inr (k, found) ↦ elim (vm_on_cases (get_elem? c1.resources.cores k)) [
          | inl (_, bad) ↦ absurd (ground arith)
          | inr (inl (core, at, missing, bad)) ↦ absurd (ground arith)
          | inr (inr (core, vm, at, there, good)) ↦ (
            (
              k,
              core,
              vm,
              found,
              ap (λ cores. get_elem? cores k) (sym same.cores) ∙ at,
              there,
              ground arith,
            ),
            ground (arith, same.cores),
            ground (arith, same.alive_vm),
            ground (arith, same.guac_db),
          )
        ]
      ]
