-- ===== src/Rusty/Tasks.antt =====
-- The rusty policy's routines for tasks (modules/rusty_saakm/rusty_saakm.c:626-814).
use saakm_misc.Prelude.{
  ℕ, ◌&&◌, false, negsuc, Option, none, some, ◌>>=◌, if◌then◌else◌, ltb, ◌==◌, ◌-◌, sub64, update,
}
use saakm_misc.Kernel.{
  IpanemaState, not_queued, running, ready, blocked, terminated, ready_tick, Rq, core_rq, Kernel,
  ProcessEvent,
}
use saakm_misc.World.{policy_metadata, put, put_kernel, kfree, in_use}
use saakm_misc.Rusty.{
  Platform, RustyWorld, RustyProcess, slice_ns, has_mask, rp_cpumask, rp_tmp_cpumask,
  sizeof_unsigned,
}
use saakm_misc.Rusty.Select.{Choice, rusty_select_cpu, task_pick_domain}

module _ {S M : Type 0} (K : Kernel S M) (P : Platform S M) where
  -- The object is zeroed, and 0 is IPANEMA_NOT_QUEUED; its two masks are cleared.
  abbrev pub new_process : ℕ → RustyProcess M
  new_process p = record {
    state = not_queued;
    rq = none;
    task = p;
    cpumask = K.mask_empty;
    tmp_cpumask = K.mask_empty;
    dom_mask = 0;
    dom_id = 0;
    slice = 0;
    dispatch_local = false;
    all_cpus = false;
  }

  abbrev pub attach_process : ℕ → ℕ → RustyWorld S M → RustyWorld S M
  attach_process rp p w =
      let w₁ = put rp (new_process p) w in record w₁ { metadata = update w₁.metadata p (some rp) }

  -- The two masks, allocated without a test and cleared.
  abbrev pub allocate_masks : RustyWorld S M → Option (RustyWorld S M)
  allocate_masks w =
      if has_mask P rp_cpumask sizeof_unsigned w.kernel
        && has_mask P rp_tmp_cpumask sizeof_unsigned w.kernel
      then some w
      else none

  -- `rp->all_cpus`.
  abbrev pub set_all_cpus : ℕ → ℕ → RustyWorld S M → Option (RustyWorld S M)
  set_all_cpus rp p w = do
    e ← w.heap rp
    let all = K.mask_subset w.globals.all_cpumask (P.cpus_ptr p w.kernel)
    some (put rp (record e { all_cpus = all }) w)

  -- The part of `sched_new_prepare` below its first `kzalloc`, given the pointer.
  abbrev pub init_process : Option ℕ → ProcessEvent → RustyWorld S M → Option (Choice K P)
  init_process none e w = some (negsuc 0, w)
  init_process (some rp) e w = do
    w₀ ← allocate_masks (attach_process rp e.target w)
    w₁ ← task_pick_domain K P rp e.target w₀
    w₂ ← set_all_cpus rp e.target w₁
    rusty_select_cpu K P rp e.target (K.task_cpu e.target w₂.kernel) e.flags w₂

  unfoldable pub sched_new_prepare : ProcessEvent → RustyWorld S M → Option (Choice K P)
  unfolding rusty_select_cpu task_pick_domain
  sched_new_prepare e w = init_process (K.kzalloc (in_use w) w.kernel) e w

  unfoldable pub rusty_enqueue_task :
      ℕ → Rq → IpanemaState → RustyWorld S M → Option (RustyWorld S M)
  rusty_enqueue_task rp next_rq state w = do
    e ← w.heap rp
    let w₁ = put rp (record e { state = state; rq = some next_rq }) w
    let cpu = K.task_cpu e.task w.kernel
    some (put_kernel (K.change_state e.task state cpu (some next_rq) w.kernel) w₁)

  unfoldable pub sched_new_place : ProcessEvent → RustyWorld S M → Option (RustyWorld S M)
  unfolding rusty_enqueue_task
  sched_new_place e w = do
    (rp, process) ← policy_metadata e.target w
    let cpu_dst = K.task_cpu process.task w.kernel
    rusty_enqueue_task rp (core_rq cpu_dst) ready (put rp (record process { slice = slice_ns }) w)

  abbrev pub charged : ℕ → ℕ → ℕ
  charged slice delta = slice - (if ltb slice delta then slice else delta)

  -- `now` is what `ktime_get_ns` returns.
  unfoldable pub rusty_sched_tick : ProcessEvent → ℕ → RustyWorld S M → Option (RustyWorld S M)
  unfolding rusty_enqueue_task
  rusty_sched_tick e now w = do
    (rp, process) ← policy_metadata e.target w
    let delta_exec = sub64 now (P.exec_start e.target w.kernel)
    let left = charged process.slice delta_exec
    let w₁ = put rp (record process { slice = left }) w
    let expired = rusty_enqueue_task rp (core_rq (K.task_cpu process.task w.kernel)) ready_tick w₁
    if left == 0 then expired else some w₁

  -- The slice is cleared through the pointer that was read before.
  abbrev pub clear_slice : ℕ → RustyWorld S M → Option (RustyWorld S M)
  clear_slice rp w = do e ← w.heap rp; some (put rp (record e { slice = 0 }) w)

  unfoldable pub sched_yield : ProcessEvent → RustyWorld S M → Option (RustyWorld S M)
  unfolding rusty_enqueue_task
  sched_yield e w = do
    (rp, process) ← policy_metadata e.target w
    w₁ ← rusty_enqueue_task rp (core_rq (K.task_cpu process.task w.kernel)) ready w
    clear_slice rp w₁

  -- The task leaves its queue for a state in which it waits on none.
  abbrev pub set_aside : ℕ → RustyProcess M → IpanemaState → RustyWorld S M → RustyWorld S M
  set_aside rp e state w =
      let k = K.change_state e.task state (K.task_cpu e.task w.kernel) none w.kernel in
      put_kernel k (put rp (record e { state = state; rq = none }) w)

  unfoldable pub sched_block : ProcessEvent → RustyWorld S M → Option (RustyWorld S M)
  sched_block e w = do
    (rp, process) ← policy_metadata e.target w
    some (set_aside rp process blocked w)

  unfoldable pub sched_unblock_prepare : ProcessEvent → RustyWorld S M → Option (Choice K P)
  unfolding rusty_select_cpu
  sched_unblock_prepare e w = do
    rp ← w.metadata e.target
    rusty_select_cpu K P rp e.target (K.task_cpu e.target w.kernel) 0 w

  unfoldable pub sched_unblock_place : ProcessEvent → RustyWorld S M → Option (RustyWorld S M)
  unfolding rusty_enqueue_task
  sched_unblock_place e w = do
    (rp, process) ← policy_metadata e.target w
    rusty_enqueue_task rp (core_rq (K.task_cpu process.task w.kernel)) ready w

  unfoldable pub sched_terminate : ProcessEvent → RustyWorld S M → Option (RustyWorld S M)
  sched_terminate e w = do
    (rp, process) ← policy_metadata e.target w
    some (kfree rp (set_aside rp process terminated w))

  abbrev pub start_task : Option ℕ → RustyWorld S M → Option (RustyWorld S M)
  start_task none w = some w
  start_task (some next) w = do
    (rp, process) ← policy_metadata next w
    some (set_aside rp (record process { slice = slice_ns }) running w)

  unfoldable pub sched_schedule : ℕ → RustyWorld S M → Option (RustyWorld S M)
  sched_schedule cpu w = start_task (K.first_task (core_rq cpu) w.kernel) w
