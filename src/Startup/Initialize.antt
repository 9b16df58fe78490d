-- ===== src/Startup/Initialize.antt =====
-- `InitializeCoreData` of startup/init.go from the settings to the shared state. Opening and pinging
-- a database are parameters, as is the schedule of the goroutines: for each round of the loop the
-- goroutines that end behind it, by their numbers. In a run of the program each ends once.
pub mod Ready
use kws_control.Common.{
  ℕ, ◌≡◌, Bool, true, false, ◌&&◌, not, Option, none, some, List, [], ◌∷◌, ◌++◌, if◌then◌else◌,
}
use kws_control.Common.Lists.{length, get_elem?}
use kws_control.Common.Int.{ℤ}
use kws_control.Common.Text.{GoString}
use kws_control.Common.Table.{Table}
use kws_control.Sql.{Db, Sql, exec}
use kws_control.Pkg.Guacamole.{GuacTables}
use kws_control.Structure.{VmInfo}
use kws_control.Structure.ResourceManager.{ResourceManager, new_resource_manager}
use kws_control.Structure.Repository.{VmRepository}
use kws_control.Structure.Control.{ControlContext}
use kws_control.Client.Http.{Http}
use kws_control.Client.Core.{CoreJson}
use kws_control.Startup.{load_instances}
use kws_control.Startup.Address.{parse_address}
use kws_control.Startup.Config.{Config, read_config, dsn_main, dsn_guac, core_addresses}
use kws_control.Startup.Sizes.{Pointer, Arrays, round, finish}

-- How a part of the startup ends: well, by an error, or by a crash of the process
pub data Ended (A : Type 0) : Type 0 where
  done : A → Ended A
  failed crashed : Ended A

infixl 5 ◌>>=◌
abbrev pub ◌>>=◌ : {A B : Type 0} → Ended A → (A → Ended B) → Ended B
done a >>= f = f a
failed >>= f = failed
crashed >>= f = crashed

abbrev pub or_failed : {A : Type 0} → Option A → Ended A
or_failed none = failed
or_failed (some a) = done a

-- The slice with its arrays, and the pointers of the goroutines in the order of their start
pub record Launch : Type 0 where
  pub arrays : Arrays
  pub pointers : List Pointer

-- `var infra`: a nil slice
abbrev pub no_launch : Launch
no_launch = record { arrays = record { retired = []; cores = []; capacity = 0 }; pointers = [] }

-- An error of a goroutine is the error of `g.Wait`.
unfoldable pub end_of : List Pointer → Option (Bool × Arrays) → Ended Launch
end_of pointers none = crashed
end_of pointers (some (false, arrays)) = failed
end_of pointers (some (true, arrays)) = done (record { arrays = arrays; pointers = pointers })

module _ (http : Http) (json : CoreJson) (grow : ℕ → ℕ) where
  -- The goroutines of some numbers end.
  unfoldable pub ends : List ℕ → Launch → Ended Launch
  unfolding end_of
  ends [] l = done l
  ends (n ∷ rest) l = elim (get_elem? l.pointers n) [
    | none ↦ ends rest l
    | some p ↦ end_of l.pointers (finish http json p l.arrays) >>= ends rest
  ]

  -- A round of the loop, up to the start of its goroutine
  unfoldable pub started : GoString × ℕ → Launch → Launch
  started address l =
      let (p, arrays) = round grow address l.arrays in
      record { arrays = arrays; pointers = l.pointers ++ p ∷ [] }

  -- `for _, coreAddress := range coreAddresses`, and `g.Wait`
  unfoldable pub launch_all : List GoString → List (List ℕ) → Launch → Ended Launch
  unfolding started ends
  launch_all [] schedule l = done l
  launch_all (address ∷ rest) [] l =
      or_failed (parse_address address) >>= λ a. launch_all rest [] (started a l)
  launch_all (address ∷ rest) (now ∷ later) l =
      or_failed (parse_address address) >>= (λ a. ends now (started a l) >>= launch_all rest later)

-- `SELECT last_subnet`
abbrev pub select_last_subnet : Sql GoString GoString
select_last_subnet = exec (λ subnet. some (subnet, subnet))

-- What the process finds when it starts
pub record Environment (R : Type 0) : Type 0 where
  pub getenv : GoString → GoString
  pub file : GoString → Option GoString
  pub yaml : GoString → Option Config
  pub opens : GoString → Bool
  pub pings : GoString → Bool
  pub http : Http
  pub json : CoreJson
  pub grow : ℕ → ℕ
  pub vm_repo : R
  pub subnet_db : Db GoString
  pub guac_db : Db GuacTables
  pub redis : Db (Table GoString)

module _ {R : Type 0} (repo : VmRepository R) (env : Environment R) where
  -- The end of the function: the instances are loaded.
  unfoldable pub load_all :
      GoString → Launch → Option (List (VmInfo × ℤ)) × R → Ended (ControlContext R)
  load_all last l (rows, r) = or_failed rows >>= (λ found.
      or_failed (load_instances found (record new_resource_manager { cores = l.arrays.cores }))
      >>= (λ resources. done (record {
        vm_repo = r;
        resources = resources;
        subnet_db = (select_last_subnet env.subnet_db).1;
        guac_db = env.guac_db;
        last_subnet = last;
        redis = env.redis;
        calls = [];
      })))

  -- From the connections on
  unfoldable pub connected : Config → List (List ℕ) → Ended (ControlContext R)
  unfolding load_all
  connected config schedule = or_failed (select_last_subnet env.subnet_db).0 >>= (λ last.
      launch_all env.http env.json env.grow (core_addresses env.getenv config) schedule no_launch
      >>= (λ l. load_all last l (repo.get_all_instance_info env.vm_repo)))

  -- `InitializeCoreData`. `Stats` of the main database is called before the error of `sql.Open` is
  -- looked at, and reads through the nil handle.
  unfoldable pub initialize_core_data : GoString → List (List ℕ) → Ended (ControlContext R)
  unfolding connected
  initialize_core_data path schedule = or_failed (read_config env.file env.yaml path) >>= (λ config.
      let main = dsn_main env.getenv config in
      let guac = dsn_guac env.getenv config in
      if not (env.opens main)
      then crashed
      else if env.pings main && env.opens guac && env.pings guac
      then connected config schedule
      else failed)
