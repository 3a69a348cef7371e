-- ===== src/OneQueue.antt =====
-- The one-queue FIFO policy of modules/fifo_one_queue/fifo_one_queue.c: its objects and its routines
-- for tasks. Waiting tasks are on one queue that the cpus share, `global_rq`; only `newly_idle` puts a
-- task on a cpu's own queue. The shared queue's lock is held around each call that touches it.
pub mod Cores
pub mod Routines
pub mod Safety
pub mod Histories
pub mod Order
pub mod Ticks
pub mod Choices
mod Examples
use saakm_misc.Prelude.{
  ℕ, Bool, true, false, ℤ, pos, negsuc, Option, none, some, ◌>>=◌, if◌then◌else◌, ◌==◌, ltb, ◌%◌,
  ◌*◌, add64, update,
}
use saakm_misc.Kernel.{
  IpanemaState, not_queued, running, ready, blocked, terminated, ready_tick, CoreState, Rq, core_rq,
  global_rq, Kernel, ProcessEvent, flag_set,
}
use saakm_misc.World.{World, policy_metadata, put, put_core, put_kernel, kfree, in_use}

pub record FifoProcess : Type 0 where
  pub state : IpanemaState
  pub task : ℕ
  pub rq : Option Rq
  pub current_quantum_ns : ℕ
  pub last_sched_ns : ℕ

-- `_current` is a pointer.
pub record FifoCore : Type 0 where
  pub state : CoreState
  pub id : ℕ
  pub current : Option ℕ

-- The masks, whether `fifo_policy` is allocated, and whether the entry in /proc exists.
pub record FifoGlobals (M : Type 0) : Type 0 where
  pub online_cores : M
  pub idle_cores : M
  pub fifo_policy : Bool
  pub proc_entry : Bool

abbrev pub FifoWorld : Type 0 → Type 0 → Type 0
FifoWorld S M = World S FifoProcess FifoCore (FifoGlobals M)

-- What the routines read of the machine. `uninitialised` is what the variable `cpu` of `select_cpu`
-- holds before it is written.
pub record Machine (S : Type 0) : Type 0 where
  pub this_cpu : S → ℕ
  pub nr_cpu_ids : ℕ
  pub uninitialised : ℕ → S → ℕ

-- `quantum % QUANTUM_NS == 0`. The macro has no parentheses, so this is a test of
-- `(quantum % 20) * NSEC_PER_MSEC`.
unfoldable pub quantum_over : ℕ → Bool
quantum_over quantum = quantum % 20 * 1000000 == 0

module _ {S M : Type 0} (K : Kernel S M) (C : Machine S) where
  abbrev pub set_idle : M → FifoWorld S M → FifoWorld S M
  set_idle m w = record w { globals = record (w.globals) { idle_cores = m } }

  -- `cpumask_any_but` is called for nothing: the cpu that it returns is dropped.
  unfoldable pub select_cpu : ℕ → FifoWorld S M → ℕ × FifoWorld S M
  select_cpu prev_cpu w =
      let idle = w.globals.idle_cores in
      let found =
        if K.mask_test prev_cpu idle then prev_cpu else C.uninitialised prev_cpu w.kernel in
      let cpu = if ltb found C.nr_cpu_ids then found else prev_cpu in
      (cpu, set_idle (if K.mask_test cpu idle then K.mask_clear cpu idle else idle) w)

  abbrev pub left_core : IpanemaState → Option ℕ → Option ℕ
  left_core running current = none
  left_core _ current = current

  unfoldable pub fifo_enqueue_lock : ℕ → IpanemaState → FifoWorld S M → Option (FifoWorld S M)
  fifo_enqueue_lock fp state w = do
    e ← w.heap fp
    let cpu = K.task_cpu e.task w.kernel
    let fc = w.core cpu
    let w₁ = put_core cpu (record fc { current = left_core state fc.current }) w
    some (put_kernel (K.change_state e.task state cpu (some global_rq) w.kernel) w₁)

  abbrev pub blank_process : ℕ → FifoProcess
  blank_process p = record {
    state = not_queued;
    task = p;
    rq = none;
    current_quantum_ns = 0;
    last_sched_ns = 0;
  }

  -- The part of `fifo_new_prepare` below its `kzalloc`, given the pointer.
  abbrev pub init_process : Option ℕ → ProcessEvent → FifoWorld S M → ℤ × FifoWorld S M
  init_process none e w = (negsuc 0, w)
  init_process (some fp) e w =
      let w₁ = put fp (blank_process e.target) w in
      let w₂ = record w₁ { metadata = update w₁.metadata e.target (some fp) } in
      let prev_cpu = K.task_cpu e.target w.kernel in
      let r = select_cpu prev_cpu w₂ in
      if flag_set e.flags K.wf_exec then (pos prev_cpu, w₂) else (pos (r.0), r.1)

  unfoldable pub fifo_new_prepare : ProcessEvent → FifoWorld S M → ℤ × FifoWorld S M
  unfolding select_cpu
  fifo_new_prepare e w = init_process (K.kzalloc (in_use w) w.kernel) e w

  unfoldable pub fifo_new_place : ProcessEvent → FifoWorld S M → Option (FifoWorld S M)
  unfolding fifo_enqueue_lock
  fifo_new_place e w = do fp ← w.metadata e.target; fifo_enqueue_lock fp ready w

  unfoldable pub fifo_tick : ProcessEvent → ℕ → FifoWorld S M → Option (FifoWorld S M)
  unfolding fifo_enqueue_lock quantum_over
  fifo_tick e now w = do
    (fp, process) ← policy_metadata e.target w
    let quantum = add64 process.current_quantum_ns 1
    let w₁ = put fp (record process { current_quantum_ns = quantum }) w
    let preempted = fifo_enqueue_lock fp ready_tick w₁
    if quantum_over quantum then preempted else some w₁

  unfoldable pub fifo_yield : ProcessEvent → FifoWorld S M → Option (FifoWorld S M)
  unfolding fifo_enqueue_lock
  fifo_yield e w = do fp ← w.metadata e.target; fifo_enqueue_lock fp ready w

  unfoldable pub fifo_block : ProcessEvent → FifoWorld S M → Option (FifoWorld S M)
  fifo_block e w = do
    (fp, process) ← policy_metadata e.target w
    let here = C.this_cpu w.kernel
    let fc = w.core here
    let w₁ = put_core here (record fc { current = left_core process.state fc.current }) w
    let w₂ = put fp (record process { state = blocked; rq = none }) w₁
    let cpu = K.task_cpu process.task w.kernel
    some (put_kernel (K.change_state process.task blocked cpu none w.kernel) w₂)

  unfoldable pub fifo_unblock_prepare : ProcessEvent → FifoWorld S M → ℤ × FifoWorld S M
  unfolding select_cpu
  fifo_unblock_prepare e w = let r = select_cpu (K.task_cpu e.target w.kernel) w in (pos (r.0), r.1)

  unfoldable pub fifo_unblock_place : ProcessEvent → FifoWorld S M → Option (FifoWorld S M)
  unfolding fifo_enqueue_lock
  fifo_unblock_place e w = do fp ← w.metadata e.target; fifo_enqueue_lock fp ready w

  unfoldable pub fifo_terminate : ProcessEvent → FifoWorld S M → Option (FifoWorld S M)
  fifo_terminate e w = do
    (fp, process) ← policy_metadata e.target w
    let w₁ = put fp (record process { state = terminated; rq = none }) w
    let cpu = K.task_cpu process.task w.kernel
    some (kfree fp (put_kernel (K.change_state process.task terminated cpu none w.kernel) w₁))

  unfoldable pub enqueue_running_task_fifo : ℕ → ℕ → FifoWorld S M → Option (FifoWorld S M)
  enqueue_running_task_fifo next cpu w = do
    (fp, process) ← policy_metadata next w
    let w₁ = put fp (record process { state = running }) w
    let w₂ = put_core cpu (record (w.core cpu) { current = some fp }) w₁
    some (put_kernel (K.change_state process.task running cpu none w.kernel) w₂)

  -- `check_global_rq:`.
  abbrev pub check_global_rq : ℕ → Option ℕ → FifoWorld S M → Option (FifoWorld S M)
  check_global_rq cpu none w = some w
  check_global_rq cpu (some next) w =
      if K.task_cpu next w.kernel == cpu then enqueue_running_task_fifo next cpu w else some w

  -- A task of the cpu's own queue is put on the cpu with its object and the core left alone.
  abbrev pub check_local_rq : ℕ → Option ℕ → FifoWorld S M → Option (FifoWorld S M)
  check_local_rq cpu (some next) w =
      some (put_kernel (K.change_state next running cpu none w.kernel) w)
  check_local_rq cpu none w = check_global_rq cpu (K.first_task global_rq w.kernel) w

  unfoldable pub fifo_schedule : ℕ → FifoWorld S M → Option (FifoWorld S M)
  unfolding enqueue_running_task_fifo
  fifo_schedule cpu w = check_local_rq cpu (K.first_task (core_rq cpu) w.kernel) w
