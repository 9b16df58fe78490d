-- ===== src/Startup/Config.antt =====
-- The settings at startup: startup/core_ip_config.go, startup/redis.go and the first half of
-- `InitializeCoreData` in startup/init.go. The YAML reader and the connections are parameters.
use kws_control.Common.{zero, Option, none, some, List, [], ◌++◌, if◌then◌else◌}
use kws_control.Common.Int.{ℤ, pos}
use kws_control.Common.Text.{GoString, codes, str_eq}
use kws_control.Common.Table.{Table}
use kws_control.Sql.{Sql, exec, ◌>>=◌, ◌>>◌}
use kws_control.Pkg.Network.{itoa}
use kws_control.Service.Redis.{set_key, get_key}
use kws_control.Startup.Address.{split_on, comma}

-- `type DBConfig struct`
pub record DbConfig : Type 0 where
  pub user : GoString
  pub password : GoString
  pub host : GoString
  pub port : ℤ
  pub name : GoString

-- `type Config struct`
pub record Config : Type 0 where
  pub vm_internal_subnets : List GoString
  pub guac_base_url : GoString
  pub cores : List GoString
  pub port : ℤ
  pub redis : GoString
  pub db : DbConfig
  pub guac_db : DbConfig

-- `if value == "" { value = other }`
abbrev or_else : GoString → GoString → GoString
or_else value other = if str_eq value [] then other else value

-- The `Port` of the file, or 3306
abbrev port_of : ℤ → GoString
port_of (pos zero) = codes "3306"
port_of port = itoa port

-- `fmt.Sprintf("%s:%s@tcp(%s:%s)/%s", ...)`
unfoldable pub data_source : GoString → GoString → GoString → GoString → GoString → GoString
data_source user password host port name =
    user
    ++ codes ":"
    ++ password
    ++ codes "@tcp("
    ++ host
    ++ codes ":"
    ++ port
    ++ codes ")/"
    ++ name

-- The variables of the environment that name one database
pub record DbEnv : Type 0 where
  pub user : GoString
  pub password : GoString
  pub host : GoString
  pub port : GoString
  pub name : GoString

-- A setting is that of the environment, else that of the file, else the default.
unfoldable pub dsn : DbEnv → DbConfig → GoString → GoString
unfolding data_source
dsn env file default_name =
    data_source (or_else env.user (or_else file.user (codes "root")))
      (or_else env.password file.password)
      (or_else env.host (or_else file.host (codes "localhost")))
      (or_else env.port (port_of file.port)) (or_else env.name (or_else file.name default_name))

-- `dsnMain`
abbrev pub dsn_main : (GoString → GoString) → Config → GoString
dsn_main getenv config =
    dsn
      (record {
        user = getenv (codes "DB_USER");
        password = getenv (codes "DB_PASSWORD");
        host = getenv (codes "DB_HOST");
        port = getenv (codes "DB_PORT");
        name = getenv (codes "DB_NAME");
      })
      config.db (codes "db")

-- `dsn` of the Guacamole database
abbrev pub dsn_guac : (GoString → GoString) → Config → GoString
dsn_guac getenv config =
    dsn
      (record {
        user = getenv (codes "GUAC_DB_USER");
        password = getenv (codes "GUAC_DB_PASSWORD");
        host = getenv (codes "GUAC_DB_HOST");
        port = getenv (codes "GUAC_DB_PORT");
        name = getenv (codes "GUAC_DB_NAME");
      })
      config.guac_db (codes "guacamole_db")

-- `config.GuacBaseURL`
abbrev pub guac_base_url_of : (GoString → GoString) → Config → GoString
guac_base_url_of getenv config =
    or_else (or_else (getenv (codes "GUACAMOLE_BASE_URL")) config.guac_base_url)
      (codes "http://100.101.247.128:8080/guacamole")

-- `coreAddresses`
unfoldable pub core_addresses : (GoString → GoString) → Config → List GoString
core_addresses getenv config =
    if str_eq (getenv (codes "CORES")) []
    then config.cores
    else split_on comma (getenv (codes "CORES"))

-- `tryReadConfig`, with what `Open` and `ReadFile` give for a path, and the YAML reader
unfoldable pub try_read_config :
    (GoString → Option GoString) → (GoString → Option Config) → GoString → Option Config
try_read_config file decode path = elim (file path) [ none ↦ none | some text ↦ decode text ]

-- `readConfig`
unfoldable pub read_config :
    (GoString → Option GoString) → (GoString → Option Config) → GoString → Option Config
unfolding try_read_config
read_config file decode path = elim (try_read_config file decode path) [
  | some config ↦ some config
  | none ↦ try_read_config file decode (codes "resources/config.yaml")
]

-- `REDIS_HOST`
abbrev pub redis_host : (GoString → GoString) → GoString
redis_host getenv = or_else (getenv (codes "REDIS_HOST")) (codes "localhost:6379")

-- A key that is missing is an error.
abbrev present : Option GoString → Sql (Table GoString) GoString
present none db = (none, db)
present (some value) db = (some value, db)

-- The test of `InitializeRedis` on the connection
unfoldable pub initialize_redis : Sql (Table GoString) GoString
unfolding set_key get_key
initialize_redis = do
  exec (set_key (codes "hello") (codes "world"))
  found ← exec (get_key (codes "hello"))
  present found
