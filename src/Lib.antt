-- ===== src/Lib.antt =====
-- nosv runs Rust futures as tasks of the nOS-V scheduler, with timers, a ring driver for io_uring, and
-- files and sockets on top of it. The parts and the files of this library that model them:
--
-- Base: shared names, lists, outcomes of calls (`Outcome`: a call returns, or the process stops by
-- `invariant_abort`, `expect` or an assertion), results, integers, and maps with sums over them
-- (`Dict`).
--
-- Error (src/error.rs): the status codes of nOS-V and `JoinError`. The constants of the C header are a
-- parameter, `NosvSys`; what is used of them, that they differ, is a hypothesis where it is needed.
--
-- Task (src/task.rs): a spawned task is a gate (`NativeGate`), a future slot and a join cell. Gate
-- has the methods of `TaskCore`, each with the answers of nOS-V as arguments and the native calls it
-- makes as a log. Join is `JoinState` and `JoinHandle::poll`; Run is `run_once` and
-- `completed_callback`, where wakes and aborts by other threads are lists of signals between the
-- transitions. Spawn is `spawn_on` with its rollback. Protocol is the gate as a step relation, in any
-- interleaving; Turns and Joining are about the callbacks and the result.
--
-- IoUring (src/io_uring.rs): Config is the configuration; Data the state of the driver, with
-- pointers, shared submissions and wakers known by numbers, and registries as maps; Submission one
-- submission and the futures that read it; Dispatch, Cancel, Submit and Admit the operations of
-- the driver on caller-made entries; Gate how the driver parks and is woken. Ledger states how
-- counters, contexts and queues fit together (`Inv`) and has one module for each operation that
-- keeps it; Delivery is about the completions that callers see; Turns has the steps of the driver
-- and its callers on caller-made entries: dispatches, cancellations, admissions, submissions,
-- polls of the futures of submissions and ends of admission, without what the completion-native
-- layer does; Lifetime is about any sequence of them. Owned has the registries of the completion-
-- native operations. Shutdown is how the driver refuses, cancels and is retired, and Entries the
-- future that admits the entries of an iterator; both have the gate beside the data, and notify
-- the driver where the source does. Pass is one round of the driver, with the completion queue as
-- the list of what it holds. The answer of `ring.submit` and the addresses of new boxes are
-- parameters: that a count is at most the number of entries in order, and that a new address is
-- fresh and not null, are hypotheses.
--
-- Time (src/time.rs): the timers of a runtime and the futures that wait for them. An instant is its
-- number of nanoseconds since an origin; the binary heap is the list of its entries in the order in
-- which they are popped. Park is the gate of the driver, with parking and waking as a step relation.
--
-- Io (src/io.rs): IoBufMut is the contract of the buffers that an operation owns, as a record of
-- operations and laws, which the vectors and the slices of the crate fill; OpWork is what a work item
-- makes of its one terminal answer. Op is the future of an operation with the record that the driver
-- has for it, where the driver may act between any two steps of a poll; Refines is about its stages.
-- Exact is the loop that short counts are retried by, with the rule that its users apply, and Prefix
-- what such a loop leaves in its buffer.
--
-- Fs (src/fs.rs) and Net (src/net.rs): the work items with the entry that each submits, and the
-- operations over them. The kernel is a parameter: a function from its state and an entry to its next
-- state and its answer. What it does to a file, to a stream or to a buffer is a hypothesis where a
-- theorem speaks of that. An `i32` of open flags is the function that tells its bits, the constants of
-- `libc` are a parameter, and so are the calls of `socket2` and of the C library.
--
-- Runtime (src/runtime.rs, with the features `time` and `io-uring`): Build and Shutdown say what is
-- acquired and released of the library, the task types and the drivers. In Build each release of a
-- rollback has an answer, and what is refused is still there; in Shutdown a release of what is not held,
-- or what something held rests on, leaves the holdings undefined. BlockOn is `try_block_on` with the
-- thread-local state, and Parker its wakes as a step relation. A call of the library that fails is
-- taken to have had no effect.
--
-- Affinity (src/affinity.rs) and Topology (src/topology.rs, src/memory.rs): the values that tasks are
-- bound by, and the queries. The constants and the bitfield setter of `nosv-sys` are parameters, and
-- so is the test that a floating-point pressure is a ratio.
--
-- The loops of Fs and Net recur on fuel, and so does the loop of `block_on` and those of `accept` and
-- of the borrowed reads and writes. The loop of an exact operation makes at most one round for each
-- byte of its buffer, so that fuel above their number is enough; the others end when the outside lets
-- them, and need one unit of fuel for each of their rounds. `u32::is_power_of_two` halves 32 times,
-- the width of the type. A `usize` that only counts entries or bytes in memory has no bound written
-- out; the index of an entry, a file offset and the length of an entry have, as the source checks
-- them.
--
-- Not modelled: what only passes on, such as the constructors that take the current runtime, getters,
-- setters of socket options, the display of errors and the clones of handles; the waits for the
-- callbacks that end the drivers, which the runtime takes as one step; src/ffi.rs and src/util.rs,
-- which wrap native calls and a lock; the examples and tests.
pub mod Base
pub mod Error
pub mod Task
pub mod IoUring
pub mod Time
pub mod Io
pub mod Fs
pub mod Net
pub mod Runtime
pub mod Affinity
pub mod Topology
