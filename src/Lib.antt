-- ===== src/Lib.antt =====
-- KWS_Control, the control server of a small cloud: it places virtual machines on compute cores,
-- gets them an address from the CMS, a login in the Guacamole database, a row in its own
-- database and a record in Redis, and takes all of that back. This library models the code
-- that decides: the bookkeeping, the order of the steps and what each failure undoes.
--
-- The parts, with the Go files they model:
-- Structure (structure/vm.go): the records of cores and VMs. A `*Core` is the index of the core.
-- Structure/ResourceManager (structure/resource_manager.go): `SelectCore` is `select_core`,
--   `AllocateResources` `allocate_resources`, and so on, one function per method. Each method
--   holds the lock from start to end, so each is one step on the record `ResourceManager`. The
--   amounts are `uint32` values: `add32` and `sub32` of Common/Word wrap around at 2^32.
-- Structure/Repository (structure/repository.go): the interface `VMRepository` as a record of
--   operations, and the record `Laws` of what its clients rely on.
-- Structure/MysqlVmRepository (structure/mysql_vm_repository.go): the implementation over the
--   tables `inst_info` and `inst_loc`.
-- Structure/Control (structure/control_infra.go): `ControlContext`, the state that all handlers
--   share, with the stores behind its handles and the list of the requests sent to other
--   services; `FindCoreByVmUUID`.
-- Pkg/Network (pkg/network/network.go): `FindSubnet` and `GetSubnetFromIP`, with `strconv.Atoi`,
--   `strconv.Itoa`, `strings.Split` and `strings.Join` as these two use them.
-- Pkg/Crypto (pkg/crypto/password.go): the hash, the salt and the password.
-- Pkg/Guacamole (pkg/guacamole/config.go): `Configure` and `Cleanup` over the five tables.
-- Service/Cleanup (service/cleanup.go): the chain of functions that undo a creation.
-- Service/Redis (service/redis.go, service/dto.go): the record of a VM in Redis.
-- Service/Action: the monad of a service call, over `ControlContext`. A call returns, fails with
--   an `Error`, or panics. The record `Services` has the answers of the CMS and the cores, the key
--   pair, the random bytes, SHA-256, JSON and the clock.
-- Service/Network (service/network.go and `allocateCmsSubnet` of service/vm.go): the subnets.
-- Service/Vm (service/vm.go): `CreateVM`, `DeleteVM`, `StartVM` and `ShutdownVM`. `CreateVM` is
--   cut into stages, each a definition that ends by calling the next.
-- Service/Guacamole (service/guacamole.go): the token for the console of a VM.
-- Service/Usage (service/vm.go) and Service/Snapshot (service/external_snap.go): the figures of a
--   VM, and its snapshots.
-- Client (client/*.go, client/model/*.go): the requests to the cores, the CMS and Guacamole over
--   HTTP, and the object store. Sending a request, JSON and the S3 library are parameters.
-- Service/Wire: `Services` as these clients give them.
-- Service/Preserve and Service/Sound: what the calls of the service layer preserve.
-- Api (api/*.go, util/response.go): the handlers, the routes, and the choice that `net/http` makes
--   among them. A handler takes the headers that are set so far and answers with a response, or
--   panics, which closes the connection; the JSON decoders are parameters. Api/Server/Reach has the
--   states that the server reaches by any requests.
-- Startup (startup/*.go): the settings, the addresses of the cores, `findCore`, the list of cores
--   and the loading of the instances. Startup/Sizes has the arrays behind the slice `Cores`, into
--   which the goroutines point that ask the cores for their sizes; a goroutine is one step, at its
--   end. The capacity of a new array is a parameter.
-- Util (util/logger.go): the search for the project's root, the construction of the loggers, the
--   text of an entry and the parsing of the arguments of `Info`, `Warn` and `Error`. The formatting
--   of package fmt is a parameter.
-- Sql: `database/sql`, with transactions. Whether a call reaches the server is read from a list
--   of outcomes, so a statement about all states is one about all patterns of such failures. A list
--   that has ended means that all further calls succeed. An error means that the call was not
--   carried out: a reply that is lost after the server has carried it out is not a case.
-- Common: lists, integers, texts, maps and words that the parts share. Tests: runs on small
-- inputs.
--
-- Bounds and fuel. Printing a number takes as much fuel as the number, which is more than it has
-- digits. All other loops go down a list or a number. `Atoi` has the bounds of a 64-bit `int`.
--
-- Not modelled: main.go, which calls the parts; the calls of the logger in the other parts, which
-- only write; the SSH key pair (pkg/ssh/keygen.go), a parameter; the YAML reader and the opening of
-- the database connections. A database handle or a Redis client that is nil after the start is left
-- out, as are the texts of the errors of the service layer. The server handles one request after
-- the other here, except where a statement says how two interleave, and only requests for clean
-- paths: for others `net/http` answers with a redirect. The tables compare UUIDs byte for byte,
-- which is right as long as a UUID has one spelling: a collation that ignores case takes two
-- spellings of a UUID for one. The columns of the Guacamole tables that `Configure` writes as
-- constants, and the date of a password, are left out of the rows.
pub mod Common
pub mod Structure
pub mod Pkg
pub mod Sql
pub mod Service
pub mod Client
pub mod Api
pub mod Startup
pub mod Util
pub mod Tests
