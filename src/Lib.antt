-- ===== src/Lib.antt =====
-- provider-alibaba: a Crossplane provider, whose controllers bring resources of Alibaba Cloud into the
-- state that custom resources of a Kubernetes cluster ask for.
--
-- The program. For each kind of resource there is a controller (pkg/controller). The managed reconciler
-- of crossplane-runtime hands it a custom resource (apis) and calls `Connect`, which makes a client of
-- the service, and then `Observe` and one of `Create`, `Update` and `Delete` on what `Connect` gave. The
-- handlers call a small client of their service (pkg/clients), which builds the SDK's requests and reads
-- its responses, and they write the observed state and a condition to the status of the resource. All
-- `Connect` methods but that of Redis go through `util.PrepareClient` (pkg/util): it tracks the use of
-- the ProviderConfig, reads the credentials and the region, and asks `GetEndpoint` for the endpoint of
-- the kind.
--
-- The files.
--   Base          names and lemmas that all files share: Tests (Booleans and lists over the native
--                 numbers), Int (Go's int), Dict (Go's maps with string keys), Decimal (strconv.Itoa)
--   Go            Go's errors with errors.Is and errors.As (Go.Errors), results, panics, and methods
--                 that work on a state; Go.Laws
--   Crossplane    the shape of a managed resource and the values of the handlers; Handler (the type
--                 assertion of each handler), Frame (what the user owns), Answer (deletions)
--   Apis          apis/*/v1alpha1: Redis, Database, Oss, Nas, Slb, Sls; the sum of all kinds;
--                 Frame (what the user owns, whatever the kind)
--   Util          pkg/util and apis/v1beta1: Kube (the ProviderConfig and the cluster), Endpoint,
--                 Provider, Client; Connect is the body that the Connect methods share, and
--                 Connect.Served says when it gives a client
--   Clients       pkg/clients: Redis, Rds, Oss, Nas, Slb, Sls. Each has its SDK as a record in Sdk;
--                 Oss.Service, Slb.Balancers, Nas.Targets, Sls.Projects and Sls.Applied say what the
--                 service does with its buckets, load balancers, mount targets, projects and applied
--                 configs; Sls.UpToDate is on the comparison of machine groups, Sls.Panics on where
--                 the SLS client reads a nil pointer
--   Controller    pkg/controller: Redis (redis), Database (database), Oss (oss), Nas and
--                 Nas.MountTarget (nas), Slb (slb), Sls with Project, Store, Logtail, Index,
--                 MachineGroup, MachineGroupBinding and Connect (sls); Setup (alibaba.go, config
--                 and the Setup functions); External (the external clients of all controllers), with
--                 Lifecycle (their histories) and ReadOnly (what their `Observe` leaves alone)
--   Tests         the theorems at concrete resources, services and clusters
-- A file called Laws holds theorems on the module above it, and one called Frame what the handlers of a
-- controller leave alone. The theorems on the Redis controller stand in Controller.Redis.Observation,
-- Connection, Connect, Change, Published, Service, Lifecycle, Requests and Safety, those on the OSS
-- controller over a service that keeps buckets in Controller.Oss.Effect, Refinement and Roundtrip, those
-- on the next `Observe` of the other controllers in Controller.Slb.Roundtrip,
-- Controller.Nas.MountTarget.Roundtrip, Controller.Sls.Observed, Controller.Sls.Project.Observed and
-- Controller.Sls.MachineGroupBinding.Observed, those on a running RDS instance in
-- Controller.Database.Running.
--
-- The correspondence. A handler is a function from a state to an outcome and a new state. The state is
-- the custom resource, which Go passes by pointer and the handlers write to, and the world, which stands
-- for all that is behind the clients. An outcome is a value, an error or a panic; what a handler wrote
-- before an error or a panic stays written. `observe_cr`, `create_cr` and `delete_cr` are the bodies of
-- `Observe`, `Create` and `Delete` after the type assertion, `update_instance`, `update_bucket`,
-- `update_project` and `update_store` those of `Update`; `observe`, `create`, `update` and `delete` put
-- the assertion before them. `observe_described` is `Observe` from a successful description on. Names
-- are those of the source in snake case. A pointer that may be nil is an option, and reading it where it
-- is nil is a panic. The conditions of a resource are the log of the calls of SetConditions, the latest
-- first. An integer is an unbounded one: the code only compares, copies and prints it.
--
-- There are no loops but those over lists and maps, which are structural recursions. `itoa` takes the
-- number itself as fuel, of which each digit uses at least one unit.
--
-- Parameters. The SDKs, the cluster, YAML, the usage tracker, password generation, `resource.Ignore` and
-- the constants of crossplane-runtime are records that the definitions take. Theorems that rely on what
-- these do say so by a hypothesis: IsDocumented (resource.Ignore drops exactly the errors that pass the
-- test, the keys of connection secrets differ), JoinsGroupKind (how GroupKind prints), Oss.IsDocumented
-- (the words of the OSS service), FindsById (an instance is found by its id), Keeps (what the calls of
-- the OSS SDK do to the buckets that the service keeps; any call may fail), Applies,
-- KeepsProjects, KeepsBalancers and KeepsTargets (the same for the configs of machine groups, the
-- projects, the load balancers and the mount targets), ReadOnly (the describing request leaves a view of
-- the world as it is), Counts and Returns (every call is one request, and panics in none),
-- Registers (the manager adds what it completes). The manager, its builder and the reconcilers of
-- controller-runtime and crossplane-runtime are known by what the Setup functions tell them.
--
-- Not modelled. The options and the start of the process (cmd/provider), loggers and event recorders,
-- scheme registration and generated code in apis, and what handlers print. The bodies of SDK responses and the wrappers of their lists are taken as present.
-- Nil and empty slices are the same list.
pub mod Base
pub mod Go
pub mod Crossplane
pub mod Apis
pub mod Util
pub mod Clients
pub mod Controller
pub mod Tests
