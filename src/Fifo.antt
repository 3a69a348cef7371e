-- ===== src/Fifo.antt =====
-- The per-core FIFO policy of modules/fifo_benchs/fifo.c: its objects and its handlers for tasks.
-- A handler takes the memory and returns the new one; `none` is a fault, a read through a pointer
-- that is NULL or freed. `now` is what `ktime_get_ns` returns in that call.

pub mod Cores
pub mod Routines
pub mod Invariant
pub mod Safety
pub mod Histories
pub mod Order
pub mod Lifecycle
pub mod Accounting
pub mod RoundRobin
pub mod Spec
pub mod Shows
pub mod Moves
pub mod Refines
pub mod Turnover
pub mod Simulation
pub mod Refinement
pub mod Visits
pub mod Exclusive
pub mod Placement
mod Examples
mod Comparisons
use saakm_misc.Prelude.{
  ℕ, Bool, ℤ, pos, negsuc, Option, none, some, ◌>>=◌, if◌then◌else◌, ◌==◌, leb, ◌%◌, add64, sub64,
  update,
}
use saakm_misc.Kernel.{
  IpanemaState, not_queued, running, ready, blocked, terminated, ready_tick, CoreState, Rq, core_rq,
  Kernel, ProcessEvent, flag_set,
}
use saakm_misc.World.{World, policy_metadata, put, put_core, put_kernel, kfree, in_use}

-- `QUANTUM_NS`.
abbrev pub quantum_ns : ℕ
quantum_ns = 20000000

pub record FifoProcess : Type 0 where
  pub state : IpanemaState
  pub task : ℕ
  pub rq : Option Rq
  pub current_quantum_ns : ℕ
  pub last_sched_ns : ℕ

pub record Stats : Type 0 where
  pub total_enqueue : ℕ
  pub total_exec : ℕ
  pub schedule_calls : ℕ
  pub tick_calls : ℕ

-- The core's own run queue is `core_rq id`.
pub record FifoCore : Type 0 where
  pub state : CoreState
  pub id : ℕ
  pub current : Option ℕ
  pub stats : Stats

-- The module's variables: the mask, whether `fifo_policy` is allocated, and whether the entry in
-- /proc exists.
pub record FifoGlobals (M : Type 0) : Type 0 where
  pub online_cores : M
  pub fifo_policy : Bool
  pub proc_entry : Bool

abbrev pub FifoWorld : Type 0 → Type 0 → Type 0
FifoWorld S M = World S FifoProcess FifoCore (FifoGlobals M)

-- `fc->_current = NULL` only when the task comes from a tick.
abbrev pub left_core : IpanemaState → Option ℕ → Option ℕ
left_core ready_tick current = none
left_core _ current = current

abbrev pub count_enqueue : IpanemaState → FifoCore → FifoCore
count_enqueue state fc = record fc {
  current = left_core state fc.current;
  stats = record stats { total_enqueue = add64 stats.total_enqueue 1 };
}
  where
    open fc use {stats}

module _ {S M : Type 0} (K : Kernel S M) where
  unfoldable pub select_cpu : ℕ → ℕ → ℕ → S → ℕ
  select_cpu p prev_cpu wake_flags k =
      if flag_set wake_flags K.wf_exec then prev_cpu else K.pid p % K.num_online_cpus k

  unfoldable pub fifo_enqueue_task : ℕ → Rq → IpanemaState → FifoWorld S M → Option (FifoWorld S M)
  fifo_enqueue_task fp next_rq state w = do
    e ← w.heap fp
    let cpu = K.task_cpu e.task w.kernel
    let w₁ = put_core cpu (count_enqueue state (w.core cpu)) w
    let w₂ = put fp (record e { state = state; rq = some next_rq }) w₁
    some (put_kernel (K.change_state e.task state cpu (some next_rq) w.kernel) w₂)

  -- The part of `fifo_new_prepare` below its `kzalloc`, given the pointer.
  abbrev pub init_process : Option ℕ → ProcessEvent → FifoWorld S M → ℤ × FifoWorld S M
  init_process none e w = (negsuc 0, w)
  init_process (some fp) e w =
      (pos cpu, record w₁ { metadata = update w₁.metadata e.target (some fp) })
    where
      entity : FifoProcess
      entity = record {
        state = not_queued;
        task = e.target;
        rq = none;
        current_quantum_ns = 0;
        last_sched_ns = 0;
      }

      w₁ : FifoWorld S M
      w₁ = put fp entity w

      cpu : ℕ
      cpu = select_cpu e.target (K.task_cpu e.target w.kernel) e.flags w.kernel

  unfoldable pub fifo_new_prepare : ProcessEvent → FifoWorld S M → ℤ × FifoWorld S M
  fifo_new_prepare e w = init_process (K.kzalloc (in_use w) w.kernel) e w

  unfoldable pub fifo_new_place : ProcessEvent → FifoWorld S M → Option (FifoWorld S M)
  unfolding fifo_enqueue_task
  fifo_new_place e w = do
    (fp, entity) ← policy_metadata e.target w
    let cpu_dst = K.task_cpu entity.task w.kernel
    fifo_enqueue_task fp (core_rq cpu_dst) ready w

  abbrev count_tick : ℕ → FifoWorld S M → Option (FifoWorld S M)
  count_tick fp w = do
    entity ← w.heap fp
    let cpu = K.task_cpu entity.task w.kernel
    let fc = w.core cpu
    let stats = record (fc.stats) { tick_calls = add64 fc.stats.tick_calls 1 }
    some (put_core cpu (record fc { stats = stats }) w)

  unfoldable pub fifo_tick : ProcessEvent → ℕ → FifoWorld S M → Option (FifoWorld S M)
  unfolding fifo_enqueue_task
  fifo_tick e now w = do
    (fp, entity) ← policy_metadata e.target w
    let used = add64 entity.current_quantum_ns (sub64 now entity.last_sched_ns)
    let expired = put fp (record entity { current_quantum_ns = 0; last_sched_ns = 0 }) w
    let cpu = K.task_cpu entity.task w.kernel
    w' ←
        if leb quantum_ns used
        then fifo_enqueue_task fp (core_rq cpu) ready_tick expired
        else some (put fp (record entity { current_quantum_ns = used }) w)
    count_tick fp w'

  unfoldable pub fifo_yield : ProcessEvent → FifoWorld S M → Option (FifoWorld S M)
  unfolding fifo_enqueue_task
  fifo_yield e w = do
    (fp, entity) ← policy_metadata e.target w
    fifo_enqueue_task fp (core_rq (K.task_cpu entity.task w.kernel)) ready w

  unfoldable pub fifo_block : ProcessEvent → FifoWorld S M → Option (FifoWorld S M)
  fifo_block e w = do
    (fp, entity) ← policy_metadata e.target w
    let cpu = K.task_cpu entity.task w.kernel
    let w₁ = put fp (record entity { state = blocked; rq = none }) w
    let w₂ = put_core cpu (record (w.core cpu) { current = none }) w₁
    some (put_kernel (K.change_state entity.task blocked cpu none w.kernel) w₂)

  unfoldable pub fifo_unblock_prepare : ProcessEvent → FifoWorld S M → ℤ
  unfolding select_cpu
  fifo_unblock_prepare e w = pos (select_cpu e.target (K.task_cpu e.target w.kernel) 0 w.kernel)

  unfoldable pub fifo_unblock_place : ProcessEvent → FifoWorld S M → Option (FifoWorld S M)
  unfolding fifo_enqueue_task
  fifo_unblock_place e w = do
    (fp, entity) ← policy_metadata e.target w
    let cpu_dst = K.task_cpu entity.task w.kernel
    fifo_enqueue_task fp (core_rq cpu_dst) ready w

  abbrev off_core : IpanemaState → Option ℕ → Option ℕ
  off_core running current = none
  off_core _ current = current

  unfoldable pub fifo_terminate : ProcessEvent → FifoWorld S M → Option (FifoWorld S M)
  fifo_terminate e w = do
    (fp, entity) ← policy_metadata e.target w
    let cpu = K.task_cpu entity.task w.kernel
    let fc = w.core cpu
    let w₁ = put_core cpu (record fc { current = off_core entity.state fc.current }) w
    let w₂ = put fp (record entity { state = terminated; rq = none }) w₁
    let w₃ = put_kernel (K.change_state entity.task terminated cpu none w.kernel) w₂
    some (kfree fp w₃)

  -- The statistics of the task that leaves the cpu, then the first task of the core's queue.
  abbrev pub charge_current : ℕ → FifoWorld S M → Option (FifoWorld S M)
  charge_current cpu w = elim (K.current_task cpu w.kernel) [
    | none ↦ some w
    | some curr ↦ ◌>>=◌ (policy_metadata curr w) λ r.
        let fc = w.core cpu in
        let total = add64 fc.stats.total_exec (r.1).current_quantum_ns in
        some (put_core cpu (record fc { stats = record (fc.stats) { total_exec = total } }) w)
  ]

  abbrev pub run_on : ℕ → ℕ → FifoCore → FifoCore
  run_on fp used fc = record fc {
    current = some fp;
    stats = record stats {
      total_exec = add64 stats.total_exec used;
      schedule_calls = add64 stats.schedule_calls 1;
    };
  }
    where
      open fc use {stats}

  abbrev pub pick : ℕ → ℕ → ℕ → FifoWorld S M → Option (FifoWorld S M)
  pick cpu now next w = do
    (fp, entity) ← policy_metadata next w
    let entity' = record entity {
      state = running;
      rq = none;
      current_quantum_ns = 0;
      last_sched_ns = now;
    }
    let w₁ = put_core cpu (run_on fp entity'.current_quantum_ns (w.core cpu)) (put fp entity' w)
    let dst = K.task_cpu entity.task w.kernel
    some (put_kernel (K.change_state entity.task running dst none w.kernel) w₁)

  unfoldable pub fifo_schedule : ℕ → ℕ → FifoWorld S M → Option (FifoWorld S M)
  fifo_schedule cpu now w = do
    w₁ ← charge_current cpu w
    elim (K.first_task (core_rq cpu) w₁.kernel) [
      | none ↦ some w₁
      | some next ↦ pick cpu now next w₁
    ]
