-- ===== src/Service/Network/Places.antt =====
-- `GetVMIPByUUID` (service/network.go) on a cache of places that is in order.
use kws_control.Common.{ℕ, ◌≡◌, refl, ◌⊎◌, inl, inr, none, some, Option-cases}
use kws_control.Common.Lists.{get_elem?}
use kws_control.Common.Text.{GoString}
use kws_control.Common.Table.{lookup, entries}
use kws_control.Structure.{Core, VmInfo}
use kws_control.Structure.Control.{ControlContext}
use kws_control.Startup.Places.{PlacesHold}
use kws_control.Service.Action.{not_in_location, ok, err}
use kws_control.Service.Network.{vm_ip_on, get_vm_ip_by_uuid}

-- If every cached place is a core that has the VM, as after the loading of the instances, then
-- `GetVMIPByUUID` returns the address of the VM in the map of its cached core, or fails because the
-- UUID has no cached place. It never meets a core without the VM or a place outside the list.
pub get_vm_ip_by_uuid-PlacesHold :
    {R : Type 0} (uuid : GoString) (c : ControlContext R)
    → PlacesHold c.resources
    → ((lookup uuid c.resources.vm_location ≡ none)
        × (get_vm_ip_by_uuid uuid c ≡ (err not_in_location, c)))
      ⊎ ((k : ℕ) × (core : Core) × (vm : VmInfo) × (lookup uuid c.resources.vm_location ≡ some k)
          × (get_elem? c.resources.cores k ≡ some core)
          × (lookup uuid (entries core.vm_info_idx) ≡ some vm)
          × (get_vm_ip_by_uuid uuid c ≡ (ok vm.ip_vm, c)))
unfolding get_vm_ip_by_uuid
get_vm_ip_by_uuid-PlacesHold uuid c places =
    elim (Option-cases (lookup uuid c.resources.vm_location)) [
      | inl missing ↦ inl (missing, rw (missing, get_vm_ip_by_uuid) refl)
      | inr (k, cached) ↦
          let held = places uuid k cached in
          inr (
            k,
            held.core,
            held.vm,
            cached,
            held.at,
            held.there,
            rw (cached, get_vm_ip_by_uuid) (rw (held.at) (rw (held.there, vm_ip_on) refl)),
          )
    ]
