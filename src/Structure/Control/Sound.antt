-- ===== src/Structure/Control/Sound.antt =====
-- The resources while the program serves requests (structure/resource_manager.go,
-- structure/control_infra.go): the cores, their free amounts and the cached places.
use kws_control.Common.{
  ℕ, zero, suc, ◌≡◌, ◌<◌, refl, sym, subst, ap, ◌∙◌, Bool, List, [], ◌∷◌, map, arith, inl, inr,
  Bool-cases,
}
use kws_control.Common.Lists.{length, modify, All, length-modify}
use kws_control.Common.Text.{GoString, str_eq}
use kws_control.Common.Table.{insert, lookup-insert}
use kws_control.Common.Word.{u32_mod}
use kws_control.Structure.{Core, CoreInfo, VmInfo}
use kws_control.Structure.ResourceManager.{
  ResourceManager, HardwareRequirement, take_resources, give_resources, allocate_resources,
  deallocate_resources, register_vm, unregister_alive,
}
use kws_control.Structure.Control.Find.{PlacesInRange}

-- What a core is, whatever runs on it
pub record Identity : Type 0 where
  ip : GoString
  port : ℕ
  is_alive : Bool
  info : CoreInfo

abbrev pub identity : Core → Identity
identity core = record {
  ip = core.ip;
  port = core.port;
  is_alive = core.is_alive;
  info = core.core_info_idx;
}

abbrev pub HasWords : Core → Type 0
HasWords core =
    (core.free_memory < u32_mod) × (core.free_cpu < u32_mod) × (core.free_disk < u32_mod)

pub record Sound (identities : List Identity) (rm : ResourceManager) : Type 0 where
  pub same_cores : map identity rm.cores ≡ identities
  pub words : All HasWords rm.cores
  pub in_range : PlacesInRange rm

length-map : {A B : Type 0} (f : A → B) (xs : List A) → length (map f xs) ≡ length xs
length-map f [] = refl
length-map f (x ∷ xs) = ap suc (length-map f xs)

-- The number of the cores
pub length-Sound :
    (identities : List Identity) (rm : ResourceManager)
    → Sound identities rm
    → length rm.cores ≡ length identities
length-Sound identities rm s = sym (length-map identity rm.cores) ∙ ap length s.same_cores

map-modify_each :
    {A B : Type 0} (v : A → B) (f : A → A) (xs : List A) (i : ℕ)
    → ((x : A) → v (f x) ≡ v x)
    → map v (modify xs i f) ≡ map v xs
map-modify_each v f [] i h = refl
map-modify_each v f (x ∷ xs) zero h = ap (λ y. y ∷ map v xs) (h x)
map-modify_each v f (x ∷ xs) (suc i) h = ap (◌∷◌ (v x)) (map-modify_each v f xs i h)

pub All-modify_each :
    {A : Type 0} (P : A → Type 0) (f : A → A) (xs : List A) (i : ℕ)
    → ((x : A) → P x → P (f x))
    → All P xs
    → All P (modify xs i f)
All-modify_each P f [] i h a = a
All-modify_each P f (x ∷ xs) zero h a = (h x a.0, a.1)
All-modify_each P f (x ∷ xs) (suc i) h a = (a.0, All-modify_each P f xs i h a.1)

module _ (identities : List Identity) (rm : ResourceManager) (s : Sound identities rm) where
  modify-Sound :
      (k : ℕ) (f : Core → Core)
      → ((core : Core) → identity (f core) ≡ identity core)
      → ((core : Core) → HasWords core → HasWords (f core))
      → Sound identities (record rm { cores = modify rm.cores k f })
  modify-Sound k f same words = record {
    same_cores = map-modify_each identity f rm.cores k same ∙ s.same_cores;
    words = All-modify_each HasWords f rm.cores k words s.words;
    in_range = λ u j h. subst (λ n. j < n) (sym (length-modify rm.cores k f)) (s.in_range u j h);
  }

  pub allocate-Sound :
      (k : ℕ) (uuid : GoString) (vm : VmInfo) (req : HardwareRequirement)
      → Sound identities (allocate_resources k uuid vm req rm)
  unfolding allocate_resources
  allocate-Sound k uuid vm req =
      modify-Sound k (take_resources uuid vm req) (λ core. refl)
        (λ core h. (omega arith, omega arith, omega arith))

  pub deallocate-Sound :
      (k : ℕ) (uuid : GoString) (req : HardwareRequirement)
      → Sound identities (deallocate_resources k uuid req rm)
  unfolding deallocate_resources
  deallocate-Sound k uuid req =
      modify-Sound k (give_resources uuid req) (λ core. refl)
        (λ core h. (omega arith, omega arith, omega arith))

  -- A write of a place of a core
  pub place-Sound :
      (uuid : GoString) (k : ℕ) (alive : List VmInfo)
      → k < length identities
      → Sound identities (record {
        cores = rm.cores;
        alive_vm = alive;
        vm_location = insert uuid k rm.vm_location;
      })
  place-Sound uuid k alive inside = record {
    same_cores = s.same_cores;
    words = s.words;
    in_range = λ u j h. elim (Bool-cases (str_eq uuid u)) [
      | inl same ↦
          let e : k ≡ j = ground (arith, lookup-insert uuid u k rm.vm_location) in
          let n = length-Sound identities rm s in omega arith
      | inr other ↦ s.in_range u j (ground (arith, lookup-insert uuid u k rm.vm_location))
    ];
  }

  pub register-Sound :
      (uuid : GoString) (k : ℕ) (vm : VmInfo)
      → k < length identities
      → Sound identities (register_vm uuid k vm rm)
  unfolding register_vm
  register-Sound uuid k vm inside = place-Sound uuid k _ inside

  pub unregister-Sound : (uuid : GoString) → Sound identities (unregister_alive uuid rm).0
  unfolding unregister_alive
  unregister-Sound uuid = record {
    same_cores = s.same_cores;
    words = s.words;
    in_range = s.in_range;
  }
