-- ===== src/Central.antt =====
-- The central policy of modules/saakm_central/saakm_central.c: its objects and its routines for
-- tasks. Placing puts every task on cpu 0, whose run queue is the central one.
pub mod Cores
pub mod Invariant
pub mod Safety
pub mod Routines
pub mod Histories
pub mod Idle
pub mod Order
pub mod Loading
pub mod Lifecycle
mod Examples
use saakm_misc.Prelude.{
  ℕ, Bool, ℤ, pos, negsuc, Option, none, some, ◌>>=◌, if◌then◌else◌, ◌==◌, leb, not, ◌&&◌, add64,
  sub64, update, true, false,
}
use saakm_misc.Kernel.{
  IpanemaState, not_queued, running, ready, blocked, terminated, ready_tick, CoreState, Rq, core_rq,
  Kernel, ProcessEvent,
}
use saakm_misc.World.{World, policy_metadata, put, put_core, put_kernel, kfree, in_use}

-- `CENTRAL_CPU` and `DEFAULT_SLICE`.
abbrev pub central_cpu : ℕ
central_cpu = 0

abbrev pub default_slice : ℕ
default_slice = 2000000

pub record CentralEntity : Type 0 where
  pub state : IpanemaState
  pub task : ℕ
  pub rq : Option Rq
  pub slice_ns : ℕ
  pub current_slice_ns : ℕ

pub record CentralStats : Type 0 where
  pub total_enqueue : ℕ
  pub total_exec : ℕ
  pub schedule_calls : ℕ
  pub tick_calls : ℕ

pub record CentralCpu : Type 0 where
  pub cpu : ℕ
  pub state : CoreState
  pub current_entity : Option ℕ
  pub started_at_ns : ℕ
  pub stats : CentralStats

-- `central_idle_cpus`, whether `central_policy` is allocated, and whether the timer is armed.
pub record CentralGlobals (M : Type 0) : Type 0 where
  pub idle_cpus : M
  pub idle_smt : M
  pub central_policy : Bool
  pub timer_armed : Bool

abbrev pub CentralWorld : Type 0 → Type 0 → Type 0
CentralWorld S M = World S CentralEntity CentralCpu (CentralGlobals M)

abbrev pub left_cpu : IpanemaState → Option ℕ → Option ℕ
left_cpu ready_tick current = none
left_cpu _ current = current

abbrev pub record_enqueue : IpanemaState → CentralCpu → CentralCpu
record_enqueue state cc = record cc {
  current_entity = left_cpu state cc.current_entity;
  stats = record stats { total_enqueue = add64 stats.total_enqueue 1 };
}
  where
    open cc use {stats}

abbrev pub is_null : Option ℕ → Bool
is_null none = true
is_null (some t) = false

module _ {S M : Type 0} (K : Kernel S M) where
  unfoldable pub select_cpu : ℕ → ℕ → ℕ → ℕ
  select_cpu p prev_cpu wake_flags = central_cpu

  -- The core that is updated and the cpu that is passed on are the central ones.
  unfoldable pub central_enqueue_task :
      ℕ → Rq → IpanemaState → CentralWorld S M → Option (CentralWorld S M)
  central_enqueue_task ce next_rq state w = do
    e ← w.heap ce
    let w₁ = put_core central_cpu (record_enqueue state (w.core central_cpu)) w
    let w₂ = put ce (record e { state = state; rq = some next_rq }) w₁
    some (put_kernel (K.change_state e.task state central_cpu (some next_rq) w.kernel) w₂)

  -- The part of `central_new_prepare` below its `kzalloc`, given the pointer. The object is zeroed,
  -- and 0 is SAAKM_NOT_QUEUED.
  abbrev pub init_entity : Option ℕ → ProcessEvent → CentralWorld S M → ℤ × CentralWorld S M
  init_entity none e w = (negsuc 0, w)
  init_entity (some ce) e w =
      (pos cpu, record w₁ { metadata = update w₁.metadata e.target (some ce) })
    where
      entity : CentralEntity
      entity = record {
        state = not_queued;
        task = e.target;
        rq = none;
        slice_ns = 0;
        current_slice_ns = 0;
      }

      w₁ : CentralWorld S M
      w₁ = put ce entity w

      cpu : ℕ
      cpu = select_cpu e.target (K.task_cpu e.target w.kernel) e.flags

  unfoldable pub central_new_prepare : ProcessEvent → CentralWorld S M → ℤ × CentralWorld S M
  central_new_prepare e w = init_entity (K.kzalloc (in_use w) w.kernel) e w

  unfoldable pub central_new_place : ProcessEvent → CentralWorld S M → Option (CentralWorld S M)
  central_new_place e w = do
    (ce, entity) ← policy_metadata e.target w
    let cpu_dst = K.task_cpu entity.task w.kernel
    central_enqueue_task ce (core_rq cpu_dst) ready w

  unfoldable pub central_block : ProcessEvent → CentralWorld S M → Option (CentralWorld S M)
  central_block e w = do
    (ce, entity) ← policy_metadata e.target w
    let cpu = K.task_cpu entity.task w.kernel
    let w₁ = put ce (record entity { state = blocked; rq = none }) w
    let w₂ = put_core cpu (record (w.core cpu) { current_entity = none }) w₁
    some (put_kernel (K.change_state entity.task blocked cpu none w.kernel) w₂)

  unfoldable pub central_unblock_prepare : ProcessEvent → CentralWorld S M → ℤ
  unfolding select_cpu
  central_unblock_prepare e w = pos (select_cpu e.target (K.task_cpu e.target w.kernel) e.flags)

  unfoldable pub central_unblock_place : ProcessEvent → CentralWorld S M → Option (CentralWorld S M)
  central_unblock_place e w = do
    (ce, entity) ← policy_metadata e.target w
    let cpu_dst = K.task_cpu entity.task w.kernel
    central_enqueue_task ce (core_rq cpu_dst) ready w

  abbrev pub drop_current : IpanemaState → Option ℕ → Option ℕ
  drop_current running current = none
  drop_current _ current = current

  unfoldable pub central_terminate : ProcessEvent → CentralWorld S M → Option (CentralWorld S M)
  central_terminate e w = do
    (ce, entity) ← policy_metadata e.target w
    let cpu = K.task_cpu entity.task w.kernel
    let cc = w.core cpu
    let w₁ =
        put_core cpu (record cc { current_entity = drop_current entity.state cc.current_entity }) w
    let w₂ = put ce (record entity { state = terminated; rq = none }) w₁
    let w₃ = put_kernel (K.change_state entity.task terminated cpu none w.kernel) w₂
    some (kfree ce w₃)

  unfoldable pub central_yield : ProcessEvent → CentralWorld S M → Option (CentralWorld S M)
  central_yield e w = do
    (ce, entity) ← policy_metadata e.target w
    central_enqueue_task ce (core_rq (K.task_cpu entity.task w.kernel)) ready w

  abbrev pub record_tick : ℕ → CentralWorld S M → Option (CentralWorld S M)
  record_tick ce w = do
    entity ← w.heap ce
    let cpu = K.task_cpu entity.task w.kernel
    let cc = w.core cpu
    let stats = record (cc.stats) { tick_calls = add64 cc.stats.tick_calls 1 }
    some (put_core cpu (record cc { stats = stats }) w)

  unfoldable pub central_tick : ProcessEvent → ℕ → CentralWorld S M → Option (CentralWorld S M)
  central_tick e now w = do
    (ce, entity) ← policy_metadata e.target w
    let used = add64 entity.current_slice_ns (sub64 now entity.current_slice_ns)
    let expired = put ce (record entity { current_slice_ns = 0 }) w
    let cpu = K.task_cpu entity.task w.kernel
    w' ←
        if leb entity.slice_ns used
        then central_enqueue_task ce (core_rq cpu) ready_tick expired
        else some (put ce (record entity { current_slice_ns = used }) w)
    record_tick ce w'

  abbrev pub charge_running : ℕ → CentralWorld S M → Option (CentralWorld S M)
  charge_running cpu w = elim (K.current_task cpu w.kernel) [
    | none ↦ some w
    | some curr ↦ ◌>>=◌ (policy_metadata curr w) λ r.
        let cc = w.core cpu in
        let total = add64 cc.stats.total_exec (r.1).current_slice_ns in
        some (put_core cpu (record cc { stats = record (cc.stats) { total_exec = total } }) w)
  ]

  abbrev pub run_entity : ℕ → CentralCpu → CentralCpu
  run_entity ce cc = record cc {
    current_entity = some ce;
    stats = record stats { schedule_calls = add64 stats.schedule_calls 1 };
  }
    where
      open cc use {stats}

  -- From `ce = policy_metadata(next)` on; a `next` that is NULL is read through all the same.
  abbrev pub start : ℕ → Option ℕ → CentralWorld S M → Option (CentralWorld S M)
  start cpu next w = do
    t ← next
    (ce, entity) ← policy_metadata t w
    let entity' = record entity {
      state = running;
      rq = none;
      slice_ns = default_slice;
      current_slice_ns = 0;
    }
    let w₁ = put_core cpu (run_entity ce (w.core cpu)) (put ce entity' w)
    some (put_kernel (K.change_state entity.task running cpu none w.kernel) w₁)

  unfoldable pub central_schedule : ℕ → CentralWorld S M → Option (CentralWorld S M)
  central_schedule cpu w = do
    w₁ ← charge_running cpu w
    let next = K.first_task (core_rq cpu) w₁.kernel
    if is_null next && not (cpu == central_cpu) then some w₁ else start cpu next w₁
