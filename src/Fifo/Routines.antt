-- ===== src/Fifo/Routines.antt =====
-- The routine table `fifo_routines` of modules/fifo_benchs/fifo.c, and what it owes the framework.
use mathlib.Core.Bool.{false≢true}
use saakm_misc.Prelude.{
  ℕ, Bool, true, false, Option, none, some, ◌≡◌, refl, sym, ◌∙◌, subst, elem, arith, Bool-cases,
  inl, inr, update,
}
use saakm_misc.Kernel.{not_queued, Kernel, KernelLaws, ProcessEvent, global_rq}
use saakm_misc.World.{in_use}
use saakm_misc.Framework.{always, Routines, place_on, accepted, is_queued}
use saakm_misc.Framework.Contract.{Contract, update_absent}
use saakm_misc.Fifo.{
  FifoProcess, FifoWorld, fifo_new_prepare, fifo_new_place, fifo_block, fifo_unblock_prepare,
  fifo_unblock_place, fifo_terminate, fifo_yield, fifo_tick, fifo_schedule, init_process,
  select_cpu,
}
use saakm_misc.Fifo.Cores.{
  fifo_get_core_state, fifo_core_entry, fifo_core_exit, fifo_newly_idle, fifo_enter_idle,
  fifo_exit_idle,
}
use saakm_misc.Tracking.{Tracked}
use saakm_misc.Tracking.Objects.{Inv-kzalloc, Inv-set_task_cpu}
use saakm_misc.Tracking.Attached.{off_queues}
use saakm_misc.Fifo.Invariant.{
  IsGood, task_of, rq_of, FifoInv, fifo_new_place-keeps, fifo_unblock_place-keeps, fifo_block-keeps,
  fifo_yield-keeps, fifo_tick-keeps, fifo_terminate-keeps,
}
use saakm_misc.Fifo.Safety.{fifo_schedule-keeps}

module _ {S M : Type 0} (K : Kernel S M) where
  abbrev pub fifo_routines : Routines (FifoWorld S M)
  fifo_routines = record {
    get_core_state = fifo_get_core_state K;
    core_entry = fifo_core_entry K;
    core_exit = λ e w. some (fifo_core_exit K e w);
    newly_idle = fifo_newly_idle K;
    enter_idle = fifo_enter_idle K;
    exit_idle = fifo_exit_idle K;
    new_prepare = λ e w. some (fifo_new_prepare K e w);
    new_place = fifo_new_place K;
    block = fifo_block K;
    unblock_prepare = λ e w. some (fifo_unblock_prepare K e w, w);
    unblock_place = fifo_unblock_place K;
    terminate = fifo_terminate K;
    yield = fifo_yield K;
    tick = fifo_tick K;
    schedule = fifo_schedule K;
  }

  module _ (laws : KernelLaws K) where
    admit-keeps :
        (live : ℕ → Bool) (w : FifoWorld S M) (e : ProcessEvent) (o : Option ℕ)
        → FifoInv K live w
        → live e.target ≡ false
        → ((p : ℕ) → o ≡ some p → w.heap p ≡ none)
        → let r = init_process K o e w in
          FifoInv K (update live e.target (accepted r.0)) (place_on K e.target r.0 r.1)
    admit-keeps live w e none inv absent fresh =
        subst (λ live. FifoInv K live w) (update_absent live e.target absent) inv
    admit-keeps live w e (some fp) inv absent fresh =
        let entity : FifoProcess = record {
          state = not_queued;
          task = e.target;
          rq = none;
          current_quantum_ns = 0;
          last_sched_ns = 0;
        } in
        let cpu : ℕ = select_cpu K e.target (K.task_cpu e.target w.kernel) e.flags w.kernel in
        Inv-set_task_cpu K task_of rq_of IsGood laws e.target cpu
          (λ r. elim (Bool-cases (elem e.target (K.rq_tasks r w.kernel))) [
            | inl there ↦ absurd (false≢true (sym absent ∙ inv.queued_live r e.target there))
            | inr away ↦ away
          ])
          (Inv-kzalloc K task_of rq_of IsGood e.target fp entity absent (fresh fp refl) refl refl
            (record { waits = refl; per_cpu = refl; in_quantum = omega arith }) inv)

    fifo_new_prepare-keeps :
        (live : ℕ → Bool) (w : FifoWorld S M) (e : ProcessEvent)
        → FifoInv K live w
        → live e.target ≡ false
        → let r = fifo_new_prepare K e w in
          FifoInv K (update live e.target (accepted r.0)) (place_on K e.target r.0 r.1)
    unfolding fifo_new_prepare
    fifo_new_prepare-keeps live w e inv absent =
        admit-keeps live w e (K.kzalloc (in_use w) w.kernel) inv absent
          (λ p got. not_in_use p (laws.kzalloc_fresh (in_use w) w.kernel p got))
      where
        not_in_use : (p : ℕ) → in_use w p ≡ false → w.heap p ≡ none
        not_in_use p h = ground arith

    fifo_unblock_prepare-keeps :
        (live : ℕ → Bool) (w : FifoWorld S M) (e : ProcessEvent)
        → FifoInv K live w
        → live e.target ≡ true
        → is_queued K e.target w ≡ false
        → FifoInv K live (place_on K e.target (fifo_unblock_prepare K e w) w)
    unfolding fifo_unblock_prepare
    fifo_unblock_prepare-keeps live w e inv h off =
        let its : Tracked K task_of rq_of IsGood e.target w.kernel w.heap w.metadata =
          inv.tracked e.target h in
        Inv-set_task_cpu K task_of rq_of IsGood laws e.target _
          (off_queues K task_of rq_of IsGood e.target inv off
            (its.on_queue global_rq ∙ its.good.per_cpu))
          inv

    pub fifo_contract : Contract K always fifo_routines (FifoInv K)
    unfolding fifo_core_entry fifo_core_exit fifo_newly_idle fifo_enter_idle fifo_exit_idle
    fifo_contract = record {
      new_prepare_keeps = fifo_new_prepare-keeps;
      new_place_keeps = fifo_new_place-keeps K laws;
      block_keeps = fifo_block-keeps K laws;
      unblock_prepare_keeps = fifo_unblock_prepare-keeps;
      unblock_place_keeps = fifo_unblock_place-keeps K laws;
      terminate_keeps = fifo_terminate-keeps K laws;
      yield_keeps = fifo_yield-keeps K laws;
      tick_keeps = fifo_tick-keeps K laws;
      schedule_keeps = λ live w cpu now inv may. fifo_schedule-keeps K laws live w cpu now inv;
      core_entry_keeps = λ live w e inv. inv;
      core_exit_keeps = λ live w e inv. inv;
      newly_idle_keeps = λ live w e inv. inv;
      enter_idle_keeps = λ live w e inv. inv;
      exit_idle_keeps = λ live w e inv. inv;
    }
