-- ===== src/Lib.antt =====
-- The scheduling policies of this repository: kernel modules that plug into SaaKM/Ipanema, a framework
-- inside Linux. A policy allocates an object for each task, keeps a record for each cpu and tells the
-- framework by `change_state` which task runs, waits on which run queue, or is blocked. The framework
-- calls the routines of the policy's table when a task is forked, wakes up, blocks, yields or dies, at
-- each tick, and when a cpu looks for its next task.
--
-- Parts and files:
-- - Prelude: shared names; tests on numbers, lists of tasks, 64-bit words, code that may fault.
-- - Kernel: what the modules call and this repository does not hold (linux/saakm.h, linux/ipanema.h,
--   linux/cpumask.h, the allocator): a record of operations on an abstract kernel state, with their
--   documented behaviour as a record of laws (docs/ipanema-documentation/structs and arch).
--   Kernel/Reference is one kernel that satisfies the laws, on which the examples run.
-- - World: a policy's memory: the kernel's state, allocated objects by address, each task's
--   `policy_metadata` pointer, the per-cpu cores, the module's variables. Reading through a NULL or
--   freed pointer is a fault, the result `none`.
-- - Tracking: the invariant that ties a policy's objects to the kernel's run queues, for any policy.
-- - Framework: the routine table (`struct saakm_module_routines`) as a record, and the framework's
--   calls of it as steps: a task's routines are called from a successful `new_prepare` until
--   `terminate`, `unblock_prepare` only while the task is not on the queue of its cpu, and after a
--   `prepare` the task is moved to the cpu returned. Framework/Contract is what a policy owes its
--   caller, Framework/Loading the set-up of the run queues.
-- - Fifo: modules/fifo_benchs/fifo.c, one FIFO queue for each cpu (modules/saakm_central/fifo.c is a
--   copy). Each routine is a function of the C function's name from the memory to the new memory;
--   Fifo/Cores has the cpu events, `fifo_mod_init` and `fifo_exit`, Fifo/Routines the table.
--   Fifo/Spec is an abstract scheduler: the tasks, queues, running tasks and clocks, and no objects;
--   Fifo/Shows and Fifo/Moves say when the memory shows a state of it, Fifo/Exclusive where its tasks
--   can be.
-- - Central: modules/saakm_central/saakm_central.c, all tasks on the queue of cpu 0, with masks of idle
--   cpus. Central/Cores has the cpu events, the timer, loading and unloading, Central/Routines the
--   table. The kernel is assumed to ask cpu 0 for a task only when one is queued there.
-- - GlobalFifo: modules/global_fifo/global_fifo.c, one queue that the cpus share and a short one for each
--   cpu. GlobalFifo/Cores has the cpu events, balancing, loading and unloading, GlobalFifo/Routines the
--   table.
--
-- - Rusty: modules/rusty_saakm/rusty_saakm.c, a queue for each cpu and a choice of cpus by domains and
--   masks of idle cpus. Rusty/Idle has the idle masks, Rusty/Select `rusty_select_cpu` and
--   `task_pick_domain`, Rusty/Tuner the tuner, Rusty/Tasks the routines for tasks, Rusty/Cores the cpu
--   events, loading and unloading, Rusty/Routines the table. What it reads of the machine is a record
--   of functions with their documented behaviour (`Platform`, `PlatformLaws` in Rusty): the topology,
--   the cpus of a mask and their number, the tasks' affinity, and the `distribute` calls, which choose a
--   cpu of a mask or of two and refuse only where there is none. Rusty/Machine is one such machine.
--   The tuner has a thread of its own, so a history (Rusty/Histories) is a sequence of calls and runs of
--   the tuner. A process holds its masks by value, and `slice`, an int, is never negative. Where the code
--   does not test what `kzalloc` gives, the model faults if the memory is not there or, asked for by
--   `sizeof(cpumask_size())`, does not hold a mask; that it does is `MaskMemory`, an assumption. Loading
--   faults at a domain past the end of `dom_data`, and `sched_core_exit` where its time is past the end of
--   the mask; the histories leave out such calls of it.
-- - OneQueue: modules/fifo_one_queue/fifo_one_queue.c, one queue that the cpus share; only a cpu that goes
--   idle moves a task to its own. OneQueue/Cores has the cpu events, loading and unloading,
--   OneQueue/Routines the table. The cpu that runs the code, `nr_cpu_ids` and the unwritten variable
--   that `select_cpu` reads are fields of `Machine`.
-- - Simple: scx_scheds/fifo/scx_simple.bpf.c, a BPF scheduler by virtual times. Each callback is a
--   function of its name; the requests that it makes of the kernel are a list; an insert by
--   virtual time also sets the task's own, as the kernel does. Simple/Spec is what the
--   times stand for, numbers that do not wrap. `SCX_SLICE_DFL` and `time_before`, from headers that are
--   not here, are fields of `Scx`. Simple/Copy is the variant modules/rusty_saakm/scx_simple.bpf.c, which
--   creates its queue through the kernel (`Queues`).
-- - Tools: the user programs code/schedstart, code/set_sched and code/sched-api. The C library and the
--   system calls are records of functions on an abstract state (`Os`, `Api`); Tools/Threads says what calls do on a
--   machine on which none fails (`NoFailure`), an assumption. In Tools/SchedApi a child or a
--   thread runs to its end when it is created, which gives what it gives in any order if no call touches
--   another thread's class; `sleep` and messages are left out.
--
-- Tasks, cpus and addresses are natural numbers; `unsigned long` and `u64` counters are 64 bits and
-- wrap. Each call is one step: the framework calls the routines under the run-queue locks, so they do
-- not interleave, and the locks are not modelled. `ktime_get_ns` is an argument of the call that reads
-- it. Loops are over lists of cpus, so they need no fuel, or over the domains counted down; the loop of
-- `pick_idle_cpu` has as fuel one round more than there are cpus in the mask of idle cores, since a
-- round that does not end the loop takes one out of it.
--
-- Not modelled: what is only printed (fifo_full_debug_info, pr_info); modules/fifo, whose file does not
-- compile; the loader of the BPF
-- program and the load generators under code/, which keep no state; experiments with locks and masks;
-- benchmark scripts, data and papers.
mod Prelude
pub mod Kernel
pub mod World
pub mod Tracking
pub mod Framework
pub mod Fifo
pub mod Central
pub mod GlobalFifo
pub mod Rusty
pub mod OneQueue
pub mod Simple
pub mod Tools
