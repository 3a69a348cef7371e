-- ===== src/GlobalFifo.antt =====
-- The global FIFO policy of modules/global_fifo/global_fifo.c: its objects and its routines for
-- tasks. Waiting tasks are on one queue that the cpus share, `global_rq`; a cpu that goes idle takes
-- the first to its own queue. The shared queue's lock is held around each call that touches it.
pub mod Cores
pub mod Balance
pub mod Ticks
pub mod Invariant
pub mod Safety
pub mod Histories
pub mod Masks
pub mod Routines
mod Examples
use saakm_misc.Prelude.{
  ℕ, Bool, ℤ, pos, negsuc, Option, none, some, ◌>>=◌, if◌then◌else◌, ◌==◌, leb, ◌%◌, add64, sub64,
  update, true, false, List, [], ◌∷◌,
}
use saakm_misc.Kernel.{
  IpanemaState, not_queued, running, ready, blocked, terminated, ready_tick, CoreState, Rq, core_rq,
  global_rq, Kernel, ProcessEvent,
}
use saakm_misc.World.{World, policy_metadata, put, put_core, put_kernel, in_use}

-- `QUANTUM_NS`.
abbrev pub quantum_ns : ℕ
quantum_ns = 20000000

-- `TASK_RUNNING` is 0, and so is IPANEMA_NOT_QUEUED, the state that it stands for in `state`.
abbrev pub task_running : IpanemaState
task_running = not_queued

pub record FifoProcess : Type 0 where
  pub state : IpanemaState
  pub task : ℕ
  pub rq : Option Rq
  pub current_quantum_ns : ℕ
  pub last_sched_ns : ℕ

pub record FifoCore : Type 0 where
  pub state : CoreState
  pub id : ℕ
  pub current : Option ℕ

-- The module's variables: the masks, whether `fifo_policy` is allocated, and whether the entry in
-- /proc exists.
pub record FifoGlobals (M : Type 0) : Type 0 where
  pub online_cores : M
  pub idle_cores : M
  pub fifo_policy : Bool
  pub proc_entry : Bool

abbrev pub FifoWorld : Type 0 → Type 0 → Type 0
FifoWorld S M = World S FifoProcess FifoCore (FifoGlobals M)

-- `global_fifo_runqueue.rq.cpu`, as `fifo_mod_init` sets it.
abbrev pub global_rq_cpu : ℕ
global_rq_cpu = 0

abbrev pub is_empty : List ℕ → Bool
is_empty [] = true
is_empty (t ∷ ts) = false

module _ {S M : Type 0} (K : Kernel S M) where
  unfoldable pub select_cpu : ℕ → ℕ → S → ℕ
  select_cpu p prev_cpu k = K.pid p % K.num_online_cpus k

  -- A call of `change_state` for a task on its own cpu.
  abbrev pub move : ℕ → IpanemaState → Option Rq → FifoWorld S M → FifoWorld S M
  move t s q w = put_kernel (K.change_state t s (K.task_cpu t w.kernel) q w.kernel) w

  -- The part of `fifo_new_prepare` below its `kzalloc`, given the pointer.
  abbrev pub init_process : Option ℕ → ProcessEvent → FifoWorld S M → ℤ × FifoWorld S M
  init_process none e w = (negsuc 0, w)
  init_process (some fp) e w =
      (pos cpu, record w₁ { metadata = update w₁.metadata e.target (some fp) })
    where
      entity : FifoProcess
      entity = record {
        state = not_queued;
        task = e.target;
        rq = none;
        current_quantum_ns = 0;
        last_sched_ns = 0;
      }

      w₁ : FifoWorld S M
      w₁ = put fp entity w

      cpu : ℕ
      cpu = select_cpu e.target (K.task_cpu e.target w.kernel) w.kernel

  unfoldable pub fifo_new_prepare : ProcessEvent → FifoWorld S M → ℤ × FifoWorld S M
  fifo_new_prepare e w = init_process (K.kzalloc (in_use w) w.kernel) e w

  unfoldable pub fifo_new_place : ProcessEvent → FifoWorld S M → Option (FifoWorld S M)
  fifo_new_place e w = some (move e.target ready (some global_rq) w)

  -- The difference of the two times is taken the other way round, as in the code.
  unfoldable pub fifo_tick : ProcessEvent → ℕ → FifoWorld S M → Option (FifoWorld S M)
  fifo_tick e now w = do
    (fp, entity) ← policy_metadata e.target w
    let used = add64 entity.current_quantum_ns (sub64 entity.last_sched_ns now)
    let charged = record entity { current_quantum_ns = used; last_sched_ns = now }
    let reset = put fp (record charged { current_quantum_ns = 0 }) w
    let local = is_empty (K.rq_tasks (core_rq e.cpu) w.kernel)
    let q = if local then core_rq e.cpu else global_rq
    some (if leb quantum_ns used then move e.target ready_tick (some q) reset else put fp charged w)

  unfoldable pub fifo_yield : ProcessEvent → FifoWorld S M → Option (FifoWorld S M)
  fifo_yield e w = some (move e.target ready (some global_rq) w)

  unfoldable pub fifo_block : ProcessEvent → FifoWorld S M → Option (FifoWorld S M)
  fifo_block e w = some (move e.target blocked none w)

  unfoldable pub fifo_unblock_prepare : ProcessEvent → FifoWorld S M → ℤ
  fifo_unblock_prepare e w = pos (K.task_cpu e.target w.kernel)

  unfoldable pub fifo_unblock_place : ProcessEvent → FifoWorld S M → Option (FifoWorld S M)
  fifo_unblock_place e w =
      some (put_kernel (K.change_state e.target ready global_rq_cpu (some global_rq) w.kernel) w)

  abbrev pub off_core : IpanemaState → Option ℕ → Option ℕ
  off_core running current = none
  off_core _ current = current

  unfoldable pub fifo_terminate : ProcessEvent → FifoWorld S M → Option (FifoWorld S M)
  fifo_terminate e w = do
    (fp, entity) ← policy_metadata e.target w
    let cpu = K.task_cpu e.target w.kernel
    let fc = w.core cpu
    let w₁ = put_core cpu (record fc { current = off_core entity.state fc.current }) w
    let w₂ = put fp (record entity { state = terminated; rq = none }) w₁
    some (move e.target terminated none w₂)

  -- What `fifo_schedule` does with the task that it has chosen, on either path.
  abbrev pub run_task : ℕ → ℕ → ℕ → FifoWorld S M → Option (FifoWorld S M)
  run_task cpu now next w = do
    (fp, entity) ← policy_metadata next w
    let entity' = record entity {
      state = task_running;
      rq = none;
      current_quantum_ns = 0;
      last_sched_ns = now;
    }
    let w₁ = put_core cpu (record (w.core cpu) { current = some fp }) (put fp entity' w)
    some (put_kernel (K.change_state next running cpu none w.kernel) w₁)

  abbrev pub schedule_global : ℕ → ℕ → Option ℕ → FifoWorld S M → Option (FifoWorld S M)
  schedule_global cpu now none w = some w
  schedule_global cpu now (some next) w =
      if K.task_cpu next w.kernel == cpu then run_task cpu now next w else some w

  abbrev pub schedule_local : ℕ → ℕ → Option ℕ → FifoWorld S M → Option (FifoWorld S M)
  schedule_local cpu now (some next) w = run_task cpu now next w
  schedule_local cpu now none w = schedule_global cpu now (K.first_task global_rq w.kernel) w

  unfoldable pub fifo_schedule : ℕ → ℕ → FifoWorld S M → Option (FifoWorld S M)
  fifo_schedule cpu now w = schedule_local cpu now (K.first_task (core_rq cpu) w.kernel) w
