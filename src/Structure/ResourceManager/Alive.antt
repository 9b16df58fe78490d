-- ===== src/Structure/ResourceManager/Alive.antt =====
-- `RegisterVM` and `UnregisterAlive` (structure/resource_manager.go): the list of running VMs.
use kws_control.Common.Table.{insert}
use kws_control.Common.{
  ℕ, ◌≡◌, ◌≢◌, refl, ap, ◌⊎◌, inl, inr, true, false, List, [], ◌∷◌, ◌++◌, arith, Bool-cases,
}
use kws_control.Common.Lists.{All}
use kws_control.Common.Text.{GoString, str_eq, str_eq_iff}
use kws_control.Structure.{VmInfo}
use kws_control.Structure.ResourceManager.{
  ResourceManager, register_vm, unregister_alive, unregister_loop,
}

-- No VM of the list has the UUID.
abbrev pub Absent : GoString → List VmInfo → Type 0
Absent uuid = All λ vm. vm.uuid ≢ uuid

-- The first VM of the UUID is taken out, or there is none.
abbrev pub FirstRemoved : GoString → List VmInfo → List VmInfo → Type 0
FirstRemoved uuid before after =
    (xs ys : List VmInfo) × (vm : VmInfo) × (before ≡ xs ++ (vm ∷ ys))
    × Absent uuid xs
    × (vm.uuid ≡ uuid)
    × (after ≡ xs ++ ys)

unregister_loop-cases :
    (uuid : GoString) (vms : List VmInfo)
    → ((unregister_loop uuid vms).1 ≡ true) × FirstRemoved uuid vms (unregister_loop uuid vms).0
      ⊎ (unregister_loop uuid vms ≡ (vms, false)) × Absent uuid vms
unfolding unregister_loop
unregister_loop-cases uuid [] = inr (refl, tt)
unregister_loop-cases uuid (vm ∷ rest) = elim (Bool-cases (str_eq vm.uuid uuid)) [
  | inl hit ↦
      inl (ground arith, ([], rest, vm, refl, tt, (str_eq_iff vm.uuid uuid).0 hit, ground arith))
  | inr miss ↦ elim (unregister_loop-cases uuid rest) [
    | inl (found, (xs, ys, w, split, absent, same, kept)) ↦ inl (
      ground arith,
      (
        vm ∷ xs,
        ys,
        w,
        ground arith,
        (ground (arith, str_eq_iff vm.uuid uuid), absent),
        same,
        ground arith,
      ),
    )
    | inr (kept, absent) ↦ inr (ground arith, (ground (arith, str_eq_iff vm.uuid uuid), absent))
  ]
]

-- `UnregisterAlive` returns true and takes the first VM of the UUID, and only that one, out of the
-- running VMs; or it returns false and leaves everything as it was, if no running VM has the UUID.
-- In both cases the cores and the places of the VMs are untouched.
unregister_alive-cases :
    (uuid : GoString) (rm : ResourceManager)
    → let (rm', found) = unregister_alive uuid rm in
      (rm'.cores ≡ rm.cores)
      × (rm'.vm_location ≡ rm.vm_location)
      × ((found ≡ true) × FirstRemoved uuid rm.alive_vm rm'.alive_vm
          ⊎ (found ≡ false) × (rm' ≡ rm) × Absent uuid rm.alive_vm)
unfolding unregister_alive
unregister_alive-cases uuid rm = elim (unregister_loop-cases uuid rm.alive_vm) [
  | inl (found, removed) ↦ (refl, refl, inl (found, removed))
  | inr (kept, absent) ↦ (refl, refl, inr (ground arith, ground arith, absent))
]

-- The first VM of the UUID is taken out, or there is none and the list is as before.
abbrev pub Unregistered : GoString → List VmInfo → List VmInfo → Type 0
Unregistered uuid before after =
    FirstRemoved uuid before after ⊎ ((after ≡ before) × Absent uuid before)

pub unregister_alive-Unregistered :
    (uuid : GoString) (rm : ResourceManager)
    → Unregistered uuid rm.alive_vm (unregister_alive uuid rm).0.alive_vm
unregister_alive-Unregistered uuid rm = elim (unregister_alive-cases uuid rm).2 [
  | inl (_, removed) ↦ inl removed
  | inr (_, same, absent) ↦ inr (ap (λ m. m.alive_vm) same, absent)
]

unregister_loop-append :
    (uuid : GoString) (vm : VmInfo) (vms : List VmInfo)
    → vm.uuid ≡ uuid
    → Absent uuid vms
    → unregister_loop uuid (vms ++ vm ∷ []) ≡ (vms, true)
unfolding unregister_loop
unregister_loop-append uuid vm [] same absent = ground (arith, str_eq_iff vm.uuid uuid)
unregister_loop-append uuid vm (w ∷ vms) same absent =
    ground (arith, str_eq_iff w.uuid uuid, unregister_loop-append uuid vm vms same absent.1)

-- A VM that has been registered and is then unregistered leaves the list of running VMs as it was,
-- if no VM of its UUID was running before. Its place stays recorded.
unregister_alive-register_vm :
    (uuid : GoString) (k : ℕ) (vm : VmInfo) (rm : ResourceManager)
    → vm.uuid ≡ uuid
    → Absent uuid rm.alive_vm
    → unregister_alive uuid (register_vm uuid k vm rm)
      ≡ (record rm { vm_location = insert uuid k rm.vm_location }, true)
unfolding unregister_alive register_vm
unregister_alive-register_vm uuid k vm rm same absent =
    ground (arith, unregister_loop-append uuid vm rm.alive_vm same absent)
