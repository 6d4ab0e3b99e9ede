-- ===== src/Lib.antt =====
-- tecnicofs: a model of both versions of the file system (parte-1, parte-2), and the theorems about them.
--
-- The program is a file system that keeps everything in memory, and a server that offers it to
-- clients over named pipes. Modelled are the tables of the file system in parte-2/fs/state.c,
-- the operations on them in parte-2/fs/operations.c, the requests of the client in
-- parte-2/client/tecnicofs_client_api.c, and how parte-2/fs/tfs_server.c serves them: main reads the
-- bytes of a request from a pipe into the buffer of a session, and the thread of the session calls the
-- operation and answers.
--
-- Base: tests, lists, integers and finite maps that all parts share.
-- Memory: the bytes of `fs_data`, with memcpy, strncpy, strncmp and the loads and stores of an int.
-- Fs/State: the static tables of state.c as one record, and the constants of config.h and state.h.
-- Fs/Blocks, Fs/Inodes, Fs/Dir, Fs/OpenFiles: the functions of state.c, under their names.
-- Fs/Operations: the functions of operations.c that run under the global lock; `_tfs_open_unsynchronized`
-- is `open_unsynchronized`, and so on. Fs/Operations/Api: tfs_open and the other entry points.
-- Fs/Invariant: what holds of every state that allowed calls reach. Fs/Content: the bytes of a file.
-- Fs/Pointers, Fs/Create, Fs/Root, Fs/Existing, Fs/Open, Fs/Handles, Fs/Write, Fs/Read, Fs/Init,
-- Fs/RoundTrip: what each operation does in a valid state. Fs/Calls: sequences of calls.
-- Fs/Waiting: the thread that waits in tfs_destroy_after_all_closed, and the signal.
-- Fs/Limits, Fs/Shutdown, Fs/Race: where the code does not do what a caller expects, and the shutdown.
-- Net/Transfer: read_buffer and write_buffer. Net/Wire: the bytes of an int, a size_t and a name.
-- Net/Client: the requests. Net/Receiver: the loop of main, one request at a time; Net/Worker: the
-- handlers and thread_handler. Net/Fields, Net/Requests, Net/Mounts: from the request of a client to
-- the answer. Net/Pipes: where pipes are opened. Net/Limits: requests that the server does not stand.
-- Net/Answers: what the functions of the client make of the bytes of an answer. Net/Remote, Net/Ranges:
-- a call through the server against the call of the file system, and the C types of the results.
-- Net/Service: the abstract service, a file system whose calls happen one at a time. Net/System: main,
-- the threads of the sessions and the clients as steps that interleave in any order. Its modules:
-- Phases (the invariant), Held, Woken and Replies (a request in the hands of its thread), Steps, Moves
-- and Calls (what a step does to the invariant), Views, Traces, Serves and Refinement (towards the
-- service), Progress (no client is left behind), Sinks and Measure (the server comes to rest).
-- First: parte-1, the version without a server. Its files have ten direct blocks and a block of
-- references, and each node, each open handle and the whole of tfs_open has a lock.
-- First/State: the tables of parte-1/fs/state.c and the locks. First/Blocks, First/Inodes, First/Dir,
-- First/OpenFiles: the functions of state.c, under their names. First/Operations: tfs_init, tfs_lookup,
-- tfs_open, tfs_close; First/Operations/Write, Read and Copy: tfs_write, tfs_read and
-- tfs_copy_to_external_fs of parte-1/fs/operations.c, Transfer: the sizes that the first two share.
-- First/Content, First/Locked, First/Ends, First/Sound, First/Written, First/Puts, First/Joins,
-- First/WriteLoop, First/Writes, First/ReadLoop, First/Reads, First/RoundTrip, First/Opens,
-- First/CopyLoop, First/Copies: what they do with a file.
-- First/Text: the bytes of a file by the layout of its blocks. First/Truncation, First/References,
-- First/Limits: where the code does not do what a caller expects.
-- Fs/Tests, Net/Tests, Net/Ranges/Tests, Net/System/Tests, First/Sample, First/Tests: runs at concrete inputs.
--
-- A function that changes the tables takes and returns the state. A table is a function from the
-- index; all accesses are behind a test or a loop bound. An `int` is an integer, -1 is `minus_one`;
-- a `size_t` is a natural number with its wrap-around at 2^64 written out. A pointer into a table is
-- the index, `none` for NULL. A result `none` of an operation is undefined behaviour, such as a
-- memcpy out of bounds; `none` of tfs_destroy_after_all_closed is that it waits.
-- A block is 1024 bytes and a file has at most one; there are 1024 blocks, 50 i-nodes and 20 handles.
-- Loops over a table are structural recursion on the number of entries left, so no fuel is needed.
--
-- Each operation is one step, since one global lock is held around it. The results of the pthread
-- functions are arguments. Not modelled: the delays, which change no state; the ends of the process
-- when a mutex fails; the error messages; in the server, calls of read and write that fail, and the
-- opening of pipes inside a session. A run of Net/System starts behind the mounts, with each client
-- in a session of its own. A step of it is what a thread does between taking a lock and giving it
-- back; a request is written, and an answer is written and read, at once; a call of the file system
-- is one step, the test of open_flag in tfs_open and the opening behind it together, which Fs/Race
-- takes apart. Of parte-1, a call is one step as well, but it takes and gives back the locks: a call
-- that needs a lock that is held is `stuck`, which is that it waits for ever or the process ends.
-- The locks of blocks, directory entries and counters, which a function gives back itself, are left
-- out but where a function takes one twice or out of its table. The loop of tfs_copy_to_external_fs
-- has fuel, and size / 1024 + 1 rounds are enough.
pub mod Base
pub mod Memory
pub mod Fs
pub mod First
pub mod Net
