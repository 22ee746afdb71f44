-- ===== src/Lib.antt =====
-- Hephaestus runs Linux VMs on macOS behind Firecracker's API. A server parses a request and calls
-- one method of `VzBackend`, which keeps the configuration and the state of one VM, drives the
-- hypervisor through a bridge, and may take the VM from a warm pool that processes share. A jailer
-- launches each server under a user id of its own, which a registry hands out, and retires it
-- again. A command line drives the same bridge and the same pools without a server, and sends a
-- command to an agent that runs as the first process of the guest.
--
-- Which file models what:
-- - Config, Config/Mac: src/hephaestus-fc-api/src/vmm_config, the types that requests carry.
-- - Json, Json/Merge: the documents of the metadata service, and `merge_json`.
-- - Backend and its children: src/hephaestus-firecracker/src/backend.rs. Backend/State has the
--   state, one record field for each field that the operations read; Observe, Counters, Devices,
--   Machine, Balloon, Metadata, Boot, Lifecycle and Connect have the methods, under the names of
--   the source; `Api` has one request for each method of the trait `VmmBackend`
--   (src/hephaestus-fc-api/src/backend.rs) that takes `&mut self`. A method is an action: from a
--   `World`, which is the backend, the pool's disk and the list of what was done to the host, to
--   a result and a new `World`. The world comes back after an error as well, so what was assigned
--   before an early return stays assigned.
-- - Backend/Valid, Invariant, Preboot, Rollback, Transitions, Effects and Config: what is proved
--   of it.
-- - Bridge: src/hephaestus-bridge/src/lib.rs, the Rust side of the foreign calls into Swift.
--   `Crossing` has one constructor for each foreign function that takes part, `Swift` is what
--   these functions answer, and a function of the bridge gives the calls that crossed and a
--   result. Bridge/Specs has the specifications and their setters, Calls the functions, Vms the
--   handles; Bridge/Sound and Sound/Exact have what is proved.
-- - Pool: src/hephaestus-pool/src/lib.rs, the slots and their locks; Pool/Meta has the metadata
--   file, Pool/Init `Pool::init` and `Pool::destroy` as the acts on the disk in order,
--   Pool/Claims, Pool/Exclusion, Pool/Meta/RoundTrip and Pool/Init/Opened what is proved.
-- - Cli: src/hephaestus-cli/src/main.rs. `Cli` has what its parsers share, Run, Direct, Saved and
--   Slots the options and the parsers, Help the search for a help page, and Commands,
--   Commands/Pools and Commands/Main the commands: the calls that they make, over Bridge and
--   Pool, and the exit code. Cli/Sound and its children, RoundTrip, Help/Guest and Commands/Busy
--   have what is proved.
-- - Agent: guest/hephaestus-agent/src/main.rs. `Agent` frames commands and exit codes, Boot has
--   the boot as the list of the acts that the kernel is asked for, Commands the loop that accepts
--   a command and what a command runs, Metadata the heads of requests to the metadata service and
--   the agent's own tests. Wire joins it with what Cli sends; Heads and Rooted have more that is
--   proved.
-- - Server: src/hephaestus-firecracker/src/server.rs, from a method, a path and a body to the
--   method of the backend, the status and the observation. Server/Calls has what a request comes
--   to; Server/Sessions the backend that `main` of src/hephaestus-firecracker/src/main.rs builds
--   and the turns at its lock, a call and its observation being two. Server/Endpoints,
--   Sessions/Valid and Refusals have what is proved.
-- - Jailer and its children: src/hephaestus-jailer/src/main.rs. The state is one work root: what
--   stands in it for each id, which locks are held, and the text of the registry. Locks and
--   Identity have the claim of an instance and the choice of its user, Prepare, Child, Plist, Run
--   and Teardown the operations of these names, Escape and Profile the texts of
--   src/hephaestus-jailer/src/profile.rs. Registration, Resolution, Claims, Separation, Quiet,
--   Held, Claimed, Released, Teardown/Retired, Child/Dropped and Escape/Reading have what is
--   proved.
-- - UidRegistry: src/hephaestus-jailer/src/uid_registry.rs; UidRegistry/Allocate and Persist.
-- - Mmds: src/hephaestus-firecracker/src/host_mmds.rs, the Ethernet frames that answer a guest,
--   as lists of bytes; Mmds/Packets the frames that a guest sends, Mmds/Connections what is done
--   with them, and Mmds/Documents the paths and the responses. Mmds/Segments, Totality, Limits,
--   Bounds and Documents/Paths have what is proved.
-- - Base: the shared names, Boolean tests, lists, texts as bytes, decimal numbers, results.
-- - The modules named Examples run the definitions on small inputs.
--
-- What the file system, the hypervisor and other processes answer during a call is a record of
-- functions, `Host`: a failure is `none` or `false`. The theorems hold for every such record. A VM
-- handle is the number that the host gave out. Counters of 64 bits saturate as the source writes
-- it, and products in bytes wrap at 64 bits; everything else is bounded by the validation of the
-- source. Exit codes are numbers of 32 bits in two's complement.
--
-- Loops: the parsers of options recurse on the words, reads of a connection on the list of what the
-- reads bring, and the slots of a new pool on their number. the search of a uid recurses on the
-- number of uids in the range, the loop over the slots on the number of slots, and the digits of a
-- number take the number as fuel, which is enough since each step divides by ten. A claim of a lock
-- makes three rounds, as the source does, and a prefix is stripped at most as often as the path has
-- bytes. The cutting of a response takes its length as fuel, since each chunk takes a byte at
-- least, and the carries of a sum of 32 bits are folded by two rounds. The loop over the double
-- slashes of a path takes its length as fuel, since each round shortens it.
--
-- Not modelled: threads that copy bytes, the texts of log records and of errors, time stamps,
-- serde's derived readers, the parser of HTTP (a request comes as method, path and body, and a
-- decoder of each body is a parameter), the effect of the system calls of the jailer's child (their
-- order and their answers are modelled), its signal forwarding and the listing of pool slots, a
-- write of the registry that fails half way, the Swift library and its callbacks for the standard
-- streams, the texts that the command line prints (a help page is a name), the agent's sockets, its
-- threads and the halt of the machine, and the vendored Firecracker. Text is trimmed of ASCII white
-- space alone.
pub mod Base
pub mod Json
pub mod Config
pub mod Bridge
pub mod Pool
pub mod Backend
pub mod Server
pub mod UidRegistry
pub mod Jailer
pub mod Mmds
pub mod Cli
pub mod Agent
