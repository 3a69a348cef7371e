-- ===== src/GlobalFifo/Safety.antt =====
-- The routines of the global FIFO policy (modules/global_fifo/global_fifo.c) keep its invariant.
use saakm_misc.Prelude.{
  ℕ, Bool, true, false, Option, none, some, ◌≡◌, refl, sym, ◌∙◌, subst, arith, Bool-cases,
  Option-cases, inl, inr, update, ==_refl, ◌==◌, Returns, leb, add64, sub64,
}
use saakm_misc.Kernel.{
  not_queued, migrating, ready, ready_tick, blocked, terminated, running, Kernel, KernelLaws,
  ProcessEvent, CoreEvent, Rq, core_rq, global_rq,
}
use saakm_misc.Kernel.Laws.{elem-head, elem-change_state, not_current-change_state}
use saakm_misc.World.{in_use}
use saakm_misc.Framework.{always, place_on, accepted}
use saakm_misc.Framework.Contract.{Contract, update_absent}
use saakm_misc.GlobalFifo.{
  FifoWorld, quantum_ns, task_running, fifo_new_prepare, fifo_new_place, fifo_tick, fifo_yield,
  fifo_block, fifo_unblock_prepare, fifo_unblock_place, fifo_terminate, fifo_schedule, init_process,
  run_task, schedule_global,
}
use saakm_misc.GlobalFifo.Cores.{
  fifo_core_entry, fifo_core_exit, fifo_newly_idle, fifo_enter_idle, fifo_exit_idle,
}
use saakm_misc.GlobalFifo.Routines.{fifo_routines}
use saakm_misc.Tracking.Pointers.{
  Attached, Sound, Sound-put, Sound-kzalloc, Sound-change_state, Sound-remove_task,
  Sound-set_task_cpu, Sound-detach,
}
use saakm_misc.GlobalFifo.Invariant.{GlobalInv, task_of}

module _ {S M : Type 0} (K : Kernel S M) (laws : KernelLaws K) where
  admit-keeps :
      (live : ℕ → Bool) (w : FifoWorld S M) (e : ProcessEvent) (o : Option ℕ)
      → GlobalInv K live w
      → live e.target ≡ false
      → ((p : ℕ) → o ≡ some p → w.heap p ≡ none)
      → let r = init_process K o e w in
        GlobalInv K (update live e.target (accepted r.0)) (place_on K e.target r.0 r.1)
  admit-keeps live w e none inv absent fresh =
      subst (λ live. GlobalInv K live w) (update_absent live e.target absent) inv
  admit-keeps live w e (some fp) inv absent fresh = Sound-set_task_cpu K task_of laws e.target _ (
      Sound-kzalloc K task_of e.target fp
        (record {
          state = not_queued;
          task = e.target;
          rq = none;
          current_quantum_ns = 0;
          last_sched_ns = 0;
        })
        (fresh fp refl) refl inv)

  fifo_new_prepare-keeps :
      (live : ℕ → Bool) (w : FifoWorld S M) (e : ProcessEvent)
      → GlobalInv K live w
      → live e.target ≡ false
      → let r = fifo_new_prepare K e w in
        GlobalInv K (update live e.target (accepted r.0)) (place_on K e.target r.0 r.1)
  unfolding fifo_new_prepare
  fifo_new_prepare-keeps live w e inv absent =
      admit-keeps live w e (K.kzalloc (in_use w) w.kernel) inv absent
        (λ p got. not_in_use p (laws.kzalloc_fresh (in_use w) w.kernel p got))
    where
      not_in_use : (p : ℕ) → in_use w p ≡ false → w.heap p ≡ none
      not_in_use p h = ground arith

  fifo_tick-keeps :
      (live : ℕ → Bool) (w : FifoWorld S M) (e : ProcessEvent) (now : ℕ)
      → GlobalInv K live w
      → live e.target ≡ true
      → Returns (GlobalInv K live) (fifo_tick K e now w)
  unfolding fifo_tick
  fifo_tick-keeps live w e now inv h =
      let its : Attached K task_of e.target w.heap w.metadata = inv.attached e.target h in
      let used : ℕ = add64 its.entity.current_quantum_ns (sub64 its.entity.last_sched_ns now) in
      elim (Bool-cases (leb quantum_ns used)) [
        | inl over ↦
            rw (its.points, its.alive, over)
              (Sound-change_state K task_of laws e.target ready_tick _ _ h (
                Sound-put K task_of its.ptr its.entity
                  (record (its.entity) { current_quantum_ns = 0; last_sched_ns = now }) its.alive
                  refl inv))
        | inr more ↦
            rw (its.points, its.alive, more)
              (Sound-put K task_of its.ptr its.entity
                (record (its.entity) { current_quantum_ns = used; last_sched_ns = now }) its.alive
                refl inv)
      ]

  fifo_terminate-keeps :
      (live : ℕ → Bool) (w : FifoWorld S M) (e : ProcessEvent)
      → GlobalInv K live w
      → live e.target ≡ true
      → Returns (GlobalInv K (update live e.target false)) (fifo_terminate K e w)
  unfolding fifo_terminate
  fifo_terminate-keeps live w e inv h =
      let its : Attached K task_of e.target w.heap w.metadata = inv.attached e.target h in
      let cpu : ℕ = K.task_cpu e.target w.kernel in
      rw (its.points, its.alive)
        (Sound-detach K task_of laws e.target
          (λ r.
            elem-change_state K laws r e.target e.target terminated cpu none w.kernel
            ∙ rw (==_refl e.target) refl)
          (λ c. not_current-change_state K laws c e.target terminated cpu none w.kernel (λ x. cc))
          (Sound-change_state K task_of laws e.target terminated cpu none h (
            Sound-put K task_of its.ptr its.entity
              (record (its.entity) { state = terminated; rq = none }) its.alive refl inv)))

  run_task-keeps :
      (live : ℕ → Bool) (w : FifoWorld S M) (cpu now t : ℕ)
      → GlobalInv K live w
      → live t ≡ true
      → Returns (GlobalInv K live) (run_task K cpu now t w)
  run_task-keeps live w cpu now t inv h =
      let its : Attached K task_of t w.heap w.metadata = inv.attached t h in
      rw (its.points, its.alive)
        (Sound-change_state K task_of laws t running cpu none h (
          Sound-put K task_of its.ptr its.entity
            (record (its.entity) {
              state = task_running;
              rq = none;
              current_quantum_ns = 0;
              last_sched_ns = now;
            })
            its.alive refl inv))

  -- The first task of a queue is attached.
  first-live :
      (live : ℕ → Bool) (w : FifoWorld S M) (r : Rq) (t : ℕ)
      → GlobalInv K live w
      → K.first_task r w.kernel ≡ some t
      → live t ≡ true
  first-live live w r t inv first =
      inv.queued_live r t (elem-head t _ (sym (laws.first_task_lem r w.kernel) ∙ first))

  schedule_global-keeps :
      (live : ℕ → Bool) (w : FifoWorld S M) (cpu now : ℕ)
      → GlobalInv K live w
      → Returns (GlobalInv K live) (schedule_global K cpu now (K.first_task global_rq w.kernel) w)
  schedule_global-keeps live w cpu now inv = elim (Option-cases (K.first_task global_rq w.kernel)) [
    | inl empty ↦ rw empty inv
    | inr (t, first) ↦ elim (Bool-cases (K.task_cpu t w.kernel == cpu)) [
      | inl here ↦
          rw (first, here)
            (run_task-keeps live w cpu now t inv (first-live live w global_rq t inv first))
      | inr away ↦ rw (first, away) inv
    ]
  ]

  fifo_schedule-keeps :
      (live : ℕ → Bool) (w : FifoWorld S M) (cpu now : ℕ)
      → GlobalInv K live w
      → Returns (GlobalInv K live) (fifo_schedule K cpu now w)
  unfolding fifo_schedule
  fifo_schedule-keeps live w cpu now inv =
      elim (Option-cases (K.first_task (core_rq cpu) w.kernel)) [
        | inl empty ↦ rw empty (schedule_global-keeps live w cpu now inv)
        | inr (t, first) ↦
            rw first
              (run_task-keeps live w cpu now t inv (first-live live w (core_rq cpu) t inv first))
      ]

  fifo_newly_idle-keeps :
      (live : ℕ → Bool) (w : FifoWorld S M) (e : CoreEvent)
      → GlobalInv K live w
      → GlobalInv K live (fifo_newly_idle K e w)
  unfolding fifo_newly_idle
  fifo_newly_idle-keeps live w e inv = elim (Option-cases (K.first_task global_rq w.kernel)) [
    | inl empty ↦ rw empty inv
    | inr (t, first) ↦
        let h : live t ≡ true = first-live live w global_rq t inv first in
        let k₁ : S = K.remove_task global_rq t w.kernel in
        let removed : Sound K task_of live k₁ w.heap w.metadata =
          Sound-remove_task K task_of laws global_rq t inv in
        elim (Bool-cases (e.target == K.task_cpu t k₁)) [
          | inl same ↦ rw (first, same) (Sound-change_state K task_of laws t ready _ _ h removed)
          | inr other ↦
              rw (first, other)
                (Sound-change_state K task_of laws t ready _ _ h
                  (Sound-change_state K task_of laws t migrating _ _ h removed))
        ]
  ]

  pub global_contract : Contract K always (fifo_routines K) (GlobalInv K)
  unfolding fifo_new_place fifo_block fifo_unblock_prepare fifo_unblock_place fifo_yield
      fifo_core_entry fifo_core_exit fifo_enter_idle fifo_exit_idle
  global_contract = record {
    new_prepare_keeps = fifo_new_prepare-keeps;
    new_place_keeps = λ live w e inv h. Sound-change_state K task_of laws e.target ready _ _ h inv;
    block_keeps = λ live w e inv h. Sound-change_state K task_of laws e.target blocked _ _ h inv;
    unblock_prepare_keeps = λ live w e inv h off. Sound-set_task_cpu K task_of laws e.target _ inv;
    unblock_place_keeps =
        λ live w e inv h. Sound-change_state K task_of laws e.target ready _ _ h inv;
    terminate_keeps = fifo_terminate-keeps;
    yield_keeps = λ live w e inv h. Sound-change_state K task_of laws e.target ready _ _ h inv;
    tick_keeps = fifo_tick-keeps;
    schedule_keeps = λ live w cpu now inv may. fifo_schedule-keeps live w cpu now inv;
    core_entry_keeps = λ live w e inv. inv;
    core_exit_keeps = λ live w e inv. inv;
    newly_idle_keeps = fifo_newly_idle-keeps;
    enter_idle_keeps = λ live w e inv. inv;
    exit_idle_keeps = λ live w e inv. inv;
  }
