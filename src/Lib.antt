-- ===== src/Lib.antt =====
-- A model of NexusDB's container runtime, bridge and dashboard, and of parts of its database
-- engine, with the theorems that make them correct.
-- The program: a container runtime (src/container) keeps a registry of named containers, gives
-- each a cgroup and starts its workload in a gated child process; a bridge (src/bridge) reads
-- the cgroup's memory statistics and turns pressure into requests to resize the database's
-- buffer pool; a dashboard (src/dashboard) and a benchmark harness (src/benchmark) show and
-- measure this. The database engine (src/db) is C++: tables are heaps of slotted pages in a
-- page file, read through a buffer pool and logged ahead of time. The manager and the CLI
-- (src/manager, src/cli) put the two together.
-- Which file models what:
-- - Rc: the result codes of include/container/container.h (`nexus_rc`), which all C modules
--   share.
-- - Namespace: src/container/namespace.c; Namespace/Flags has the theorem on the clone flags.
-- - Container/Types, Container/Registry: the structs and the static slots of
--   src/container/container.c, `find_slot`, `free_slot`, `name_valid`, `container_get`. A
--   function that changes the slots takes the registry and returns it; a pointer to a slot is
--   its index.
-- - Container/Create, Container/Adopt, Container/Launch, Container/Teardown:
--   `container_create_ex`, `container_adopt`, `container_start`, `container_stop`,
--   `container_delete`, each in the order of the source, its early returns included. Their
--   children and Container/Updates, Touches, Lookup, Machine, Records, WellFormed, Pids,
--   Failure and Restore hold the proofs. Container/Report has `container_status`.
--   Container/Calls makes the calls one data type, so that a history is a list.
-- - Container/Host: what container.c calls (cgroup.c, process.c, `getenv`, `time`), as a
--   record of functions on a state `World`, which every theorem on the registry takes as a
--   parameter.
-- - Os, Cgroup: src/container/cgroup.c over the file calls that it makes. Cgroup/Metrics has
--   `cgroup_read_metrics`, Cgroup/Procs `procs_has_live` and `cgroup_destroy`; Cgroup/Files,
--   Limits, Drain, Names and Usage hold the proofs; `KeepsLimits` of Cgroup/Files is what the
--   kernel documents of memory.max, whose limits are whole pages. Each round of the two loops
--   over a file reads a word: the loop over cgroup.procs has as much fuel as its text has
--   characters, and the one over cpu.stat one round more, in which it sees the end.
-- - Double: the type `double` and its operations, a parameter of what uses them.
-- - Bridge/Snapshot, Bridge/Policy: `nexus_resource_snapshot_t` and
--   src/bridge/adaptation_policy.c; its children have the branches of `nexus_policy_evaluate`,
--   the bounds of its decisions, the rounds of `nexus_policy_apply` over an engine that grants
--   every request, and what the policy's memory does.
-- - Bridge/Monitor, Bridge/Memory: src/bridge/resource_monitor.c, and
--   src/bridge/memory_bridge.c with `container_metrics`.
-- - Dashboard: src/dashboard/metrics.c and src/dashboard/dashboard_text.c. The calls of
--   `sb_line` are a list of texts; Dashboard/Writer is the bounded writer they go through.
-- - Db/Status, Db/Page: the error codes of include/common/error.h and `Page`, whose bytes are
--   a function of the index. Db/Page/Access says what is read after a write.
-- - Db/Slotted: src/db/record/slotted_page.cpp. Db/Slotted/Layout is what `Validate` accepts,
--   Db/Slotted/Contract what the header promises as calls on a directory of records; Edit,
--   Insert, Change, Relocate, Pack, Compact and Space prove it for the writes of each call,
--   Calls and Reads for the calls.
-- - Db/Disk, Db/Pool: src/db/buffer/buffer_pool.cpp over the page storage and the log sink,
--   which are a parameter; `Honest` says what the pool relies on, for pages of `kPageSize`
--   bytes. Db/Pool/Frames has the pages that readers of the pool over its storage see; Kept,
--   Flush, Stamps, Victim, Install, Hit, Fetch, Victims, Release, Shrink, Resize and Client
--   prove what each call does to them; Handle has the operations of a handle. `std::sort` is
--   an insertion sort; memory that can run out is the argument `allocates`.
-- - Db/Storage: src/db/storage/page_storage.cpp, over the bytes of the database file by their
--   offset; the behaviour of the stream in a call is an argument. Db/Storage/Written says what
--   is read after a write, here and at the places of other pages; Db/Storage/Open is `Open` on
--   a path; Db/Storage/Machine puts the page storage and the log together as what a pool works
--   on.
-- - Db/Wal: src/db/wal/wal.cpp over the bytes of the log's file. Db/Wal/Fields and Header have
--   the header of a record, Records its reading, Replay the scan of a log whose tail is cut
--   short, Recovery and Appends what `Recover` and `BeforePageWrite` do, Engine that `Recover`
--   can apply a log to the page storage, Fuel that the loop of `Scan` needs no more rounds
--   than the file has bytes, Open is `Open` on a path. Db/Opening is what the file system does
--   for it and for the page storage. A stream that fails is an argument of the call.
-- - Router: src/manager/router.cpp. Router/Hex and Router/Uint have the codecs with their
--   laws, Router itself `ParseArgs` in one function for each group of words, Typed, Accepted
--   and Words the theorems on it; Router/Dispatch has `Dispatch` and `Run` over the manager, a
--   record of functions.
-- - Manager: src/manager/manager.cpp. Manager/Meta is the text of a metadata file,
--   Manager/Lifecycle the container operations over the registry of Container and a file for
--   each name; what a write of a file comes to is an argument. Its children Outcomes and
--   Agrees compare the file with the record afterwards.
-- - Bridge/Adapter: src/bridge/buffer_pool_adapter.cpp, from the bridge to the pool.
-- - Prelude: names of the libraries, C strings as lists of bytes (Prelude/Bytes), `long` as ℤ
--   (Prelude/Int), decimal printing (Prelude/Numerals), searches in arrays (Prelude/Search),
--   and what `fscanf`, `strtoul` and `strtol` read (Prelude/Scan).
-- - Tests: runs of the code and the theorems at concrete data.
-- Modelling choices: the code is read as compiled for Linux, without `_WIN32`. A string is its
-- bytes without the NUL, a NULL pointer is `none`. `unsigned long` is a natural number; where
-- the code can wrap it, the wrap-around is written out. Arguments are taken as values: a name
-- that points into the registry's own memory is not modelled. The 20 digits of fuel in
-- `show_ulong` are those of 2^64.
-- Not modelled: the system calls themselves and output to a terminal; src/container/process.c
-- beyond the structs of its interface, since the registry takes its calls as parameters; the
-- heap table, the catalog, the database and the query executor, so also the database
-- operations of the manager: they are further layers on the pages, the pool and the log, and
-- are left out to keep the development at a size that can be reviewed; src/benchmark, which
-- measures the program; the examples. Calls with a NULL page, table or out-parameter are left
-- out where a file says so.
pub mod Prelude
pub mod Rc
pub mod Namespace
pub mod Container
pub mod Os
pub mod Cgroup
pub mod Double
pub mod Bridge
pub mod Dashboard
pub mod Db
pub mod Router
pub mod Manager
mod Tests
