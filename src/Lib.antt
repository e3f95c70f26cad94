-- ===== src/Lib.antt =====
-- A verification of the message broker: of TécnicoFS, the file system in memory that keeps the
-- boxes, of the queue that hands requests to the broker's sessions, of the table of boxes, of the
-- sessions that serve requests, and of the clients' loops.
--
-- Parts
--
-- The broker (mbroker/) stores each box as a file of TécnicoFS (fs/). Its main thread puts requests
-- into a producer-consumer queue (producer-consumer/), and its sessions take them out and call
-- tfs_open, tfs_write, tfs_read and tfs_unlink. The file system and the queue do not call each other.
--
-- Prelude: names of the library passed on, Boolean tests, lists and arrays over native numbers, the C
-- integers (`int` by its 32 bits, `size_t` by its 64, conversions written out), the outcome of a call,
-- and loops that search an array.
--
-- Fs models fs/. The state is the record Tfs of Fs/State.antt: the static variables of fs/state.c and
-- the mutex of fs/operations.c. An array is a function, an index is tested where the code tests it,
-- and the pointer to an inode, a block or an open file is its index. A call is a function from a
-- state to an outcome: `ok` with its result, `panic` when an ALWAYS_ASSERT fails, `fault` when a copy
-- would leave its block or buffer. The functions of fs/state.c keep their names, in Fs/State, Blocks,
-- Inodes, Directory and OpenFiles; those of fs/operations.c are in Fs/Operations, where the work of
-- an entry point has its name with _body and Fs/Mutex puts the lock round it. A directory is read and
-- written as the bytes of its block (Fs/Memory), a `dir_entry_t` being 44 bytes, so that names and
-- numbers go through the same memcpy, strncpy, strcmp and strncmp as in the code.
-- Fs/Directory/* prove what searching, filling and clearing do to those bytes; Fs/Invariant says when
-- a state is well formed and reads it as a map from file names to bytes; Fs/Update, Rewrite and
-- Release say which changes of a state keep it well formed. Fs/Init, Open, Handles, Write, Read and
-- Unlink have the entry points when they succeed, Fs/Errors and Rollback when they fail, Fs/Twice a
-- second tfs_init, and Fs/Roundtrip a sequence of calls.
--
-- Pcq models producer-consumer/. Pcq/Create has pcq_create and pcq_destroy over the resources of the
-- queue. Pcq/Queue has the fields of pc_queue_t and the steps of pcq_enqueue and pcq_dequeue, each one
-- critical section; Pcq/Pair interleaves the steps of two threads in any order, a wait ending at any
-- time, and Pcq/Pair/Invariant is what stays true. Pcq/Race runs two consumers.
--
-- Broker models the table of boxes of mbroker/mbroker.c: Broker/Boxes has get_box, get_free_box,
-- create_box and remove_box over the static variables that boxes_lock guards, and remove_box calls
-- the model of tfs_unlink; Broker/Table says when the table is well formed, and Broker/Create and
-- Broker/Remove have one operation each. A box name is a list of bytes, of which create_box keeps 31.
--
-- Wire models utils/common.c and the request loop of mbroker/mbroker.c. Wire/System has the calls of the
-- operating system as lists of the results that they will give, and try_read, try_write and read_pipe
-- over them; a call whose list is empty never returns, which is the outcome `blocks`. Wire/Request has
-- parse_message, parser and the loop of main over requests; Wire/Text and Wire/Numbers are C strings in
-- fields and the bytes of a `uint64_t`; Wire/Roundtrip, Serve, Overread and Retry have the proofs.
--
-- Server models the sessions of mbroker/mbroker.c: Server/State has client_t, the static variables and
-- the mutexes as held or free, Server/Session finish_client_session, Server/Listing, Publisher,
-- Subscriber and Requests the handlers, Server/Loop client_session. A handler keeps its name and its
-- early returns, those of write_pipe and safe_close included, and calls the models of the table of
-- boxes and of the file system. Server/Finish, Sending and Answers are lemmas; Server/ListAnswer,
-- Creation, Removal, Store, Publishing, CatchUp, Earlier and Delivery have the handlers when they
-- succeed, Server/Failures, Register, Exhausted and Returning where they do not do what they mean to.
--
-- Clients models manager/manager.c (main in Clients/Command, list_boxes in Clients/Manager), and
-- the loops of publisher/pub.c (Clients/Publisher) and subscriber/sub.c (Clients/Subscriber).
-- Clients/Rows and Listing join the manager to the broker's handler, Clients/Asking has main's
-- requests; Clients/Sending and Printing have what the other two send and print.
--
-- Bounds
--
-- A loop over an array is a recursion on the length of that array. A loop that reads from a pipe or
-- waits is a recursion on fuel, which is `blocks` without fuel: a number for each request, message
-- or row, and one for the end, are enough. The theorems on the file system ask for at most 2^31
-- inodes, blocks and handles, so that the casts to `int` are exact, for a block of 1 to 2^62 - 1
-- bytes, and of the queue for a capacity below 2^63; the broker's sizes are 64, 65472, 64 and
-- 16384. File names have 1 to 39 bytes.
--
-- Not modelled
--
-- insert_delay, which spends time, and printing. The mutex is a parameter with its documented
-- behaviour, and malloc returns NULL or memory with any contents. Paths and buffers are not NULL. The
-- tests of pthread calls against -1 in the queue are left out, since those calls return 0 or a positive
-- code. A handler of the broker runs with no other session between its steps; what others do while it
-- waits on a condition variable is a parameter. The start of the other mains, with their arguments and
-- named pipes, mbroker_init, close_server and the subscriber's signal handler are left out, and so is what
-- the clients print besides their results. qsort and strcasecmp are parameters.
pub mod Prelude
pub mod Fs
pub mod Pcq
pub mod Broker
pub mod Wire
pub mod Server
pub mod Clients
