-- ===== src/Lib.antt =====
-- ResearchSSH-Next is a desktop SSH client: a Qt application over a core in Rust, rust-core, which
-- it reaches through a C ABI. This library models the core.
--
-- How the parts interact. The application calls the C ABI (rust-core/src/ffi.rs), which checks the
-- arguments and queues a command through a session handle. The session's driver task
-- (rust-core/src/session.rs, `drive`) takes the commands in order, calls a provider, and hands
-- events and results to three emitters, which flatten them into C records and call back. A provider
-- is an implementation of `SshProvider` (rust-core/src/provider.rs): the mock
-- (rust-core/src/providers/mock.rs), an in-memory host for tests and demonstrations, or the one over
-- the russh crate (rust-core/src/providers/russh.rs). A connected provider gives the driver a
-- `FileProvider` (rust-core/src/fs.rs).
--
-- The files:
--   Prelude      numbers, lists, texts (Rust's `str` as its code points), association lists for the
--                maps, and formatting; no code of the program
--   Core         rust-core/src/lib.rs: codes, messages, errors and results
--   Secret       rust-core/src/secret.rs: the buffer for passwords and passphrases
--   Event        rust-core/src/event.rs and rust-core/src/task.rs
--   Fs           rust-core/src/fs.rs; Fs/LooksLikeText is `looks_like_text`, Fs/ReadsBack what a client
--                relies on of a file provider
--   Provider     rust-core/src/provider.rs: `SshProvider` as a record of functions on a state
--   MockFs       `MockFs` and `MockFileProvider` of mock.rs. Ops has the mutating calls, Listing has
--                `children`, `list_dir` and `stat`; Subtree is about rename, copy and remove,
--                Contents about files, listings and stat, Reached about what requests make of the
--                seeded filesystem
--   Mock         `MockProvider` of mock.rs; Replies has `mock_response` and `mock_exec_output`
--   Session      session.rs. Driver has the state of `drive` and its helpers, Handlers an arm of its
--                loop per function, Handle the methods of `Session`, Gate the host-key gate;
--                Transitions and Answers are about the states that it shows and its answers,
--                Stale about events of an old connection, Shutdown about the end of the driver,
--                Conserved about the terminal bytes on their way to the callback, Saved about a file
--                that is saved and read again
--   Ffi          ffi.rs. Backing has the vectors that own the buffers of a batch, Events, Files and
--                Tasks the three emitters, Calls the entry points on a session, Teardown the gate of
--                the emitters and the table of messages; Lifecycle has the creation of a session, its
--                callbacks and its destruction, with `Session::spawn` and `shutdown_and_join`;
--                Boundary has the core with its runtime (rust-core/src/runtime.rs), the panic guards
--                and the call that cancels; InBounds is about pointers and lengths
--   Russh        russh.rs. Patterns and Keys model ssh configuration files and the discovery of
--                keys (Keys/Blocks reads the configuration as blocks), Auth the host-key decision and
--                the order of authentication (Auth/Tried says what became of the keys). Network has the steps of `RusshProvider` over what
--                russh and the server do, Exec the collection of a command's output, Provider the
--                provider and its methods; Provider/Handles is about the connection that it holds,
--                Provider/Accepted about a successful connect, Provider/Stale about an event of the
--                connection before.
--                Sftp has the paths of file requests, Sftp/Server the server, Sftp/Ops and
--                Sftp/Remove the methods of `SftpFileProvider`. Sftp/Remove/Posix says what a
--                recursive removal relies on of the server, Tree what it does, Local and Frame what it
--                leaves alone, Terminates and Fuel that it ends. Sftp/Contents says what writes, copies
--                and reads rely on of the server, and Written what is read after them; Sftp/Provider
--                is the whole as a file provider
--   System       ffi.rs and session.rs together: the calls of the C side and the turns of the driver's
--                loop as actions on the handle, the channel and the driver. Ledger has the ids that
--                commands carry and calls return, InStep the invariant of the two sides, Delivered
--                the records that the callbacks get; Answered, Terminal and Saved are about answers,
--                terminal bytes and file contents there
--   Examples     the theorems at concrete inputs, and runs
--
-- How state and concurrency are modelled. A method that changes `self` returns the new state. The
-- driver is a function of a list of inputs: commands, events that a provider pushes, and turns of the
-- event queue, in any order, so that every interleaving of the `select!` loop is some list. A call
-- that `cancel` or a timeout may drop comes with a `Race`, which says whether it finished; the state
-- that a dropped future leaves is a field of the provider. In System the commands go through the
-- channel: a call appends one, and a turn of the loop takes the next, if there is one; the shutdown
-- at the end of a session is in Lifecycle. A pointer of the C ABI is an option, and an
-- index into a backing vector that is out of range is a panic, modelled as `none`.
--
-- Bounds and termination. Every loop is a recursion on a list or a text, but for `remove` over SFTP,
-- which calls itself on what the server lists and has fuel for its depth. Paths grow at each level, so
-- max + 2 levels are enough where the path of a directory has at most max characters (Remove/Fuel); on
-- a physical path any fuel above max less the path's own length is (Remove/Tree). Request ids wrap at
-- 2 ^ 64 as `AtomicU64` does, an exit status is a 32-bit pattern, and sizes are natural numbers.
--
-- Parameters. russh, tokio and the server (`Network`, and in it `Server` for authentication), the SFTP
-- session (`SftpServer`), the platform's files and paths (`Platform`), UTF-8 decoding, and the
-- providers under the driver are arguments of the definitions that use them. What a recursive removal
-- needs of the server are the laws of `IsPosix`, `IsBounded` and `IsLocal`; the server of
-- Examples/Disk has them. What writes and copies need are those of `KeepsFiles`, which the server of
-- Examples/Shelf, whose paths have aliases, has. Whether `learn_known_hosts` succeeds and how paths
-- are compared are arguments too. What the builder of the tokio runtime returns is an argument too.
--
-- Not modelled: that a secret is wiped on drop, which is the zeroize library, and what tokio's runtime
-- does; `rscore_version` and `rscore_string_free`, which return a constant and free what no call
-- returns; where inside russh a dropped future stops; the delays of the mock; the tests; and the
-- application under app/, which is C++ and QML.
pub mod Core
pub mod Event
pub mod Examples
pub mod Ffi
pub mod Fs
pub mod Mock
pub mod MockFs
pub mod Prelude
pub mod Provider
pub mod Russh
pub mod Secret
pub mod Session
pub mod System
