-- ===== src/Startup/Initialize/Ready.antt =====
-- `InitializeCoreData` (startup/init.go) and the server (api/): the state that a successful start
-- gives, and those that the server reaches from it.
use kws_control.Common.{
  ℕ, ◌≡◌, refl, subst, Bool, true, false, Option, none, some, List, [], ◌∷◌, map, arith, inl, inr,
  Option-cases,
}
use kws_control.Common.Lists.{length, modify, get_elem?, All, get_elem?-lt}
use kws_control.Common.Int.{ℤ}
use kws_control.Common.Text.{GoString}
use kws_control.Common.Table.{lookup, entries}
use kws_control.Structure.{Core, VmInfo}
use kws_control.Structure.ResourceManager.{ResourceManager, new_resource_manager}
use kws_control.Structure.Repository.{VmRepository}
use kws_control.Structure.Control.{ControlContext, index_in}
use kws_control.Structure.Control.Find.{PlacesInRange}
use kws_control.Structure.Control.Sound.{Sound, HasWords, identity, All-modify_each}
use kws_control.Client.Http.{Http}
use kws_control.Client.Core.{CoreJson}
use kws_control.Startup.{put_vm, load_on, load_one, load_instances}
use kws_control.Startup.Address.{parse_address}
use kws_control.Startup.Config.{Config, read_config, core_addresses}
use kws_control.Startup.Places.{PlacesHold}
use kws_control.Startup.Load.{load_instances-IsLoaded}
use kws_control.Startup.Sizes.{crashed, Pointer, Arrays, finish}
use kws_control.Startup.Initialize.{
  select_last_subnet, ◌>>=◌, or_failed, Ended, done, failed, crashed, Launch, no_launch,
  Environment, end_of, ends, started, launch_all, load_all, connected, initialize_core_data,
}
use kws_control.Api.Requests.{ApiJson}
use kws_control.Api.Server.Reach.{Reach, Reach-Sound}
use kws_control.Startup.Sizes.Words.{
  IsWordCore, HasWordArrays, round-HasWordArrays, finish-HasWordArrays,
}

-- The value behind a part that ends well a part that may end badly
bind_done :
    {A B : Type 0} (m : Ended A) (f : A → Ended B) (b : B)
    → m >>= f ≡ done b
    → (a : A) × (m ≡ done a) × (f a ≡ done b)
bind_done (done a) f b h = (a, refl, h)
bind_done failed f b h = cc
bind_done crashed f b h = cc

module _ (http : Http) (json : CoreJson) (grow : ℕ → ℕ) where
  ends-HasWordArrays :
      (ns : List ℕ) (l l' : Launch)
      → HasWordArrays l.arrays
      → ends http json grow ns l ≡ done l'
      → HasWordArrays l'.arrays
  unfolding ends end_of
  ends-HasWordArrays [] l l' words h =
      let same : l ≡ l' = cc in subst (λ (x : Launch). HasWordArrays x.arrays) same words
  ends-HasWordArrays (n ∷ ns) l l' words h = elim (Option-cases (get_elem? l.pointers n)) [
    | inl missing ↦ ends-HasWordArrays ns l l' words (ground arith)
    | inr (p, at) ↦
        let (l1, first, rest) =
          bind_done (end_of l.pointers (finish http json p l.arrays)) (ends http json grow ns) l'
            (ground arith) in
        ends-HasWordArrays ns l1 l' (by_end p (finish http json p l.arrays) refl l1 first) rest
  ]
    where
      by_end :
          (p : Pointer) (r : Option (Bool × Arrays))
          → finish http json p l.arrays ≡ r
          → (l1 : Launch) → end_of l.pointers r ≡ done l1
          → HasWordArrays l1.arrays
      by_end p none e l1 k = cc
      by_end p (some (false, arrays)) e l1 k = cc
      by_end p (some (true, arrays)) e l1 k =
          let same : arrays ≡ l1.arrays = cc in
          subst HasWordArrays same (finish-HasWordArrays http json p l.arrays arrays words e)

  launch_all-HasWordArrays :
      (addresses : List GoString) (schedule : List (List ℕ)) (l l' : Launch)
      → HasWordArrays l.arrays
      → launch_all http json grow addresses schedule l ≡ done l'
      → HasWordArrays l'.arrays
  unfolding launch_all started
  launch_all-HasWordArrays [] schedule l l' words h =
      let same : l ≡ l' = cc in subst (λ (x : Launch). HasWordArrays x.arrays) same words
  launch_all-HasWordArrays (address ∷ rest) [] l l' words h =
      let (a, _, more) =
        bind_done (or_failed (parse_address address))
          (λ a. launch_all http json grow rest [] (started http json grow a l)) l' h in
      launch_all-HasWordArrays rest [] _ l' (round-HasWordArrays grow a l.arrays words) more
  launch_all-HasWordArrays (address ∷ rest) (now ∷ later) l l' words h =
      let (a, _, more) =
        bind_done (or_failed (parse_address address))
          (λ a.
            ends http json grow now (started http json grow a l)
            >>= launch_all http json grow rest later)
          l' h in
      let (l1, ended, last) =
        bind_done (ends http json grow now (started http json grow a l))
          (launch_all http json grow rest later) l' more in
      launch_all-HasWordArrays rest later l1 l'
        (ends-HasWordArrays now (started http json grow a l) l1
          (round-HasWordArrays grow a l.arrays words) ended)
        last

load_one-HasWords :
    (row : VmInfo × ℤ) (rm rm' : ResourceManager)
    → All HasWords rm.cores
    → load_one row rm ≡ some rm'
    → All HasWords rm'.cores
unfolding load_one load_on
load_one-HasWords (vm, z) rm rm' words h = elim (Option-cases (index_in (length rm.cores) z)) [
  | inl missing ↦ absurd (ground arith)
  | inr (k, inside) ↦ elim (Option-cases (get_elem? rm.cores k)) [
    | inl nothing ↦ absurd (ground arith)
    | inr (core, at) ↦ elim (Option-cases (lookup vm.uuid (entries core.vm_info_idx))) [
      | inl fresh ↦
          let put : modify rm.cores k (put_vm vm) ≡ rm'.cores = ground arith in
          subst (All HasWords) put
            (All-modify_each HasWords (put_vm vm) rm.cores k (λ c w. w) words)
      | inr (old, there) ↦
          let same : rm.cores ≡ rm'.cores = ground arith in subst (All HasWords) same words
    ]
  ]
]

load_instances-HasWords :
    (rows : List (VmInfo × ℤ)) (rm rm' : ResourceManager)
    → All HasWords rm.cores
    → load_instances rows rm ≡ some rm'
    → All HasWords rm'.cores
unfolding load_instances
load_instances-HasWords [] rm rm' words h =
    let same : rm.cores ≡ rm'.cores = ground arith in subst (All HasWords) same words
load_instances-HasWords (row ∷ rows) rm rm' words h = elim (Option-cases (load_one row rm)) [
  | inl stopped ↦ absurd (ground arith)
  | inr (rm1, one) ↦
      load_instances-HasWords rows rm1 rm' (load_one-HasWords row rm rm1 words one) (ground arith)
]

words_of : (cores : List Core) → All IsWordCore cores → All HasWords cores
unfolding IsWordCore
words_of [] h = tt
words_of (core ∷ cores) (w, h) = (w.0, words_of cores h)

PlacesHold-InRange : (rm : ResourceManager) → PlacesHold rm → PlacesInRange rm
PlacesHold-InRange rm places u k h =
    let held = places u k h in get_elem?-lt rm.cores k held.core held.at

-- What a start that ends well gives
record Ready {R : Type 0} (c : ControlContext R) : Type 0 where
  places : PlacesHold c.resources
  words : All HasWords c.resources.cores

module _ {R : Type 0} (repo : VmRepository R) (env : Environment R) where
  load_all-Ready :
      (last : GoString) (l : Launch) (rows : Option (List (VmInfo × ℤ))) (r : R)
      (c : ControlContext R)
      → HasWordArrays l.arrays
      → load_all repo env last l (rows, r) ≡ done c
      → Ready c
  unfolding load_all lookup HasWordArrays
  load_all-Ready last l rows r c words h =
      let rm : ResourceManager = record new_resource_manager { cores = l.arrays.cores } in
      let (found, _, more) = bind_done (or_failed rows) _ c h in
      let (rm', ready, end) = bind_done (or_failed (load_instances found rm)) _ c more in
      let loaded : load_instances found rm ≡ some rm' = ground arith in
      let same : rm' ≡ c.resources = cc in
      let (places, _, _, _) =
        load_instances-IsLoaded found rm rm' (λ u k h. absurd (ground arith)) loaded in
      record {
        places = subst PlacesHold same places;
        words =
            subst (λ (m : ResourceManager). All HasWords m.cores) same
              (load_instances-HasWords found rm rm' (words_of l.arrays.cores words.0) loaded);
      }

  connected-Ready :
      (config : Config) (schedule : List (List ℕ)) (c : ControlContext R)
      → connected repo env config schedule ≡ done c
      → Ready c
  unfolding connected HasWordArrays
  connected-Ready config schedule c h =
      let (last, _, more) = bind_done (or_failed (select_last_subnet env.subnet_db).0) _ c h in
      let (l, launched, end) =
        bind_done
          (launch_all env.http env.json env.grow (core_addresses env.getenv config) schedule
            no_launch)
          _ c more in
      load_all-Ready last l _ _ c
        (launch_all-HasWordArrays env.http env.json env.grow (core_addresses env.getenv config)
          schedule no_launch l (tt, tt) launched)
        end

  initialize-Ready :
      (path : GoString) (schedule : List (List ℕ)) (c : ControlContext R)
      → initialize_core_data repo env path schedule ≡ done c
      → Ready c
  unfolding initialize_core_data
  initialize-Ready path schedule c h =
      let (config, _, more) = bind_done (or_failed (read_config env.file env.yaml path)) _ c h in
      connected-Ready config schedule c (ground arith)

  -- If `InitializeCoreData` ends well, in whatever order the goroutines end, then every cached place
  -- is a core that has the VM; and in every state that the server reaches from there by any requests,
  -- each cached place is the index of a core, the free amounts are `uint32` values, and the cores are
  -- those of the start by address, port, liveness and size.
  pub initialize_core_data-Sound :
      (path : GoString) (schedule : List (List ℕ)) (json : ApiJson) (c0 c : ControlContext R)
      → initialize_core_data repo env path schedule ≡ done c0
      → Reach repo json c0 c
      → PlacesHold c0.resources × Sound (map identity c0.resources.cores) c.resources
  initialize_core_data-Sound path schedule json c0 c h reached =
      let ready = initialize-Ready path schedule c0 h in
      (
        ready.places,
        Reach-Sound repo json c0 c (PlacesHold-InRange c0.resources ready.places) ready.words
            reached,
      )
