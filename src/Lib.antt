-- ===== src/Lib.antt =====
-- A verification library for L_builtin, a loadable builtin that gives bash subcommands for system
-- calls, synchronization and shared variables.
--
-- How the program's parts interact. A subcommand's words are looked up in a table (intlookup.rs) and
-- handed to a handler, which parses them (`CmdArgs::parse`), acts, and returns 0 or an exit code. The
-- synchronization commands keep their objects in shared memory, under handles of a registry
-- (handles.rs), and give the handle to bash through `BashVar::set_int`, whose text is an `IntStr`.
-- The shared variables live in a database (vardb.rs) that is serialized into a file, a POSIX shared
-- memory object or a region of memory. `write` and `read` send and receive bytes,
-- in hexadecimal if asked.
--
-- The files, and the code that they are about:
--   Base             shared helpers: lists over native numbers (Lists), Boolean tests (Tests), signed
--                    integers (Int), code that panics (Partial), commands that fail with an exit code
--                    (Exit: `Result<T, c_int>` beside the state), conditions before and after a command
--                    (Hoare), hash maps as association lists (Assoc)
--   IntLookup        llib/src/intlookup.rs: Pack, Build (the table), Find (the lookup), and the proofs
--                    Sorted, Search, Prefix, Unique, Build.Insertion, Build.Order and Resolve
--   IntStr           llib/src/intstr.rs: the buffers of every integer width, with the parsing of
--                    l_builtin/src/cmdargs.rs (`define_parse_FromCpnt`); Digits, Unsigned and Negative
--   Hex              llib/src/io_common.rs: `hex_encode` and `hex_decode`; Codec and Accepted
--   Shell            l_builtin/src/cmdargs.rs: Variable (`BashVar`), Arguments (`CmdArgs::parse`); Steps are
--                    the ways in which the handlers call the C library, with the guard of
--                    l_builtin/src/pthread.rs
--   Handles          l_builtin/src/handles.rs: the registry, Mapping (`map_anonymous`, `map_named`), Commands
--                    (the steps of the handlers); Retired; and the accounts of mappings and descriptors
--                    in Entries, Ledger, Balance, Keeping, Quiet and Shapes
--   Barrier          l_builtin/src/cmd_barrier.rs: Wait (the operations in shared memory), Commands (the
--                    subcommands), Session, Rounds (the interleavings of processes), Quiet, Ledger
--   Mutex            l_builtin/src/cmd_mutex.rs, laid out in the same way
--   Semaphore        l_builtin/src/cmd_semaphore.rs: the operations, Commands, Session, Ledger
--   VarDb            l_builtin/src/vardb.rs: the contents, File (`std::fs::File`), Blob (header and blob of
--                    a file), Region (blob in memory), Os (files, memory and locks of the system), Lock
--                    (`flock`, the rwlock, the guards), Backend (Flock, Memfd and Mmap), Database
--                    (`LockedDatabase`, `open_db_loc`); the proofs Header, Stored, Trip and Released; Cell is
--                    what a database promises, with the proofs Calm, Contents, Flock, Memory, Refinement,
--                    Created and Opened
--   Shm              l_builtin/src/cmd_shm.rs: Place (the flags, with `is_valid_var_name` of
--                    l_builtin/src/bash_api.rs), State, Tables (the arrays of bash), Callbacks (getters and
--                    setters), Commands (bind), Withdrawal (sync, rm, unbind, drop, clear), Print (info, ls);
--                    Laws (what is asked of bash and of the databases), Backed (vardb.rs as such a store),
--                    and the proofs Selected, Rebuilt, Shown, Left, Cleared, Preserved and Printed, with
--                    Names, Sizes and Reader (what bash reads)
--   Write            l_builtin/src/write.rs: the loop; Sent
--   Read             l_builtin/src/read.rs: the guard on the flags and the loop; Restored
--   Entry            l_builtin/src/entrypoint.rs with the guard of l_builtin/src/subcmd.rs: the capture into a
--                    variable and the dispatch; the proofs Trimmed and Undisturbed
--   Epoll            l_builtin/src/cmd_epoll.rs, with `ensure_high_fd` of l_builtin/src/shared.rs: the event
--                    tokens and the commands; the proofs Tokens, Drained, Descriptors,
--                    Interests (the words left with the kernel) and Told
--   Variadic         llib/src/variadic.rs: the iterator over the specifiers of a format; the proof Found
--   Machine          a concrete world for the tests
--
-- How state and operations correspond. A command of the model takes its state and returns an outcome
-- and the state, so that what was done before an error stays done; `?` is the bind of a `do` block. The
-- state of a handler is a `Process`: the registry of its primitive, and a world that stands for bash, the
-- C library and the kernel. Their calls are the records `Calls`, `BarrierCalls`, `MutexCalls` and
-- `SemaphoreCalls`, arguments of every handler; what a proof needs of them is in the records `Accounting`,
-- `QuietBarrier`, `QuietMutex` and `SemaphoreAccounting`, and rkyv is `Rkyv` with `RkyvLaws`. `read` and
-- `epoll` have `ReadCalls` with `FlagLaws`, and `EpollCalls` with `Queue` and `InterestLaws`. The module Machine and
-- the tests give instances that fulfil all of them. Handlers take arguments that are parsed. Printing of messages is
-- left out; where the code makes an error message, the model has the exit code that its callers return.
--
-- Bounds and fuel. Handles wrap at 2^64 and the count of a barrier at 2^32, as a release build does. The
-- loop of `barrier_wait` may wait forever; it is followed for a number of wakeups, and the answer
-- `still_waiting` says that it was not followed further. The loop of `read` likewise is
-- followed for a number of calls. The loop of `write` is driven by the list of
-- write(2)'s answers, and `running` is the answer where the list is too short; the theorem on its end
-- says how long the list has to be. The loop of `epoll wait` is followed for a number of rounds, and the
-- theorem on its end says how many are enough; one on instances that stay ready says that none are.
-- The trimming of line ends has as much fuel as the text is long, and one more; so has the iterator over the
-- specifiers of a format. The other loops are structural. Lengths are stored little-endian.
-- A file is its bytes and the faults of the calls to come, a failing write having written a part.
--
-- Not modelled: the bodies that the derive macro generates, bash itself, floating point (`-t` seconds and
-- `timespec_from_now` enter as abstract values), the labels of a database in warnings,
-- and the other subcommands, most of which hand their arguments to one system call.
pub mod Base
pub mod Hex
pub mod IntStr
pub mod IntLookup
pub mod Shell
pub mod Handles
pub mod Barrier
pub mod Mutex
pub mod Semaphore
pub mod Machine
pub mod VarDb
pub mod Shm
pub mod Entry
pub mod Epoll
pub mod Variadic
pub mod Write
pub mod Read
