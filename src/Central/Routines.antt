-- ===== src/Central/Routines.antt =====
-- The routine table `central_routines` of modules/saakm_central/saakm_central.c, and what it owes the
-- framework.
use mathlib.Core.Bool.{false≢true}
use saakm_misc.Prelude.{
  ℕ, Bool, true, false, Option, none, some, ◌≡◌, refl, sym, ◌∙◌, subst, elem, arith, Bool-cases,
  inl, inr, update,
}
use saakm_misc.Kernel.{not_queued, Kernel, KernelLaws, ProcessEvent, Rq, global_rq}
use saakm_misc.World.{in_use}
use saakm_misc.Framework.{Routines, place_on, accepted, is_queued}
use saakm_misc.Framework.Contract.{Contract, update_absent}
use saakm_misc.Central.{
  CentralEntity, CentralWorld, central_cpu, central_new_prepare, central_new_place, central_block,
  central_unblock_prepare, central_unblock_place, central_terminate, central_yield, central_tick,
  central_schedule, init_entity, select_cpu,
}
use saakm_misc.Central.Cores.{
  central_get_core_state, central_core_entry, central_core_exit, central_newly_idle,
  central_entry_idle, central_exit_idle,
}
use saakm_misc.Tracking.{Tracked}
use saakm_misc.Tracking.Objects.{Inv-kzalloc, Inv-set_task_cpu}
use saakm_misc.Tracking.Attached.{off_queues}
use saakm_misc.Central.Invariant.{
  IsGood, task_of, rq_of, Centralised, CentralInv, central_new_place-keeps,
  central_unblock_place-keeps, central_block-keeps, central_yield-keeps, central_terminate-keeps,
}
use saakm_misc.Central.Safety.{may_schedule, central_tick-keeps, central_schedule-keeps}

module _ {S M : Type 0} (K : Kernel S M) where
  abbrev pub central_routines : Routines (CentralWorld S M)
  central_routines = record {
    get_core_state = central_get_core_state K;
    core_entry = central_core_entry K;
    core_exit = λ e w. some (central_core_exit K e w);
    newly_idle = central_newly_idle K;
    enter_idle = central_entry_idle K;
    exit_idle = central_exit_idle K;
    new_prepare = λ e w. some (central_new_prepare K e w);
    new_place = central_new_place K;
    block = central_block K;
    unblock_prepare = λ e w. some (central_unblock_prepare K e w, w);
    unblock_place = central_unblock_place K;
    terminate = central_terminate K;
    yield = central_yield K;
    tick = central_tick K;
    schedule = λ cpu now w. central_schedule K cpu w;
  }

  module _ (laws : KernelLaws K) where
    -- The kernel moves a task that is on no queue to the central cpu.
    moved-keeps :
        {live : ℕ → Bool} {k : S} {heap : ℕ → Option CentralEntity} {metadata : ℕ → Option ℕ}
        (t : ℕ)
        → ((r : Rq) → elem t (K.rq_tasks r k) ≡ false)
        → Centralised K live k heap metadata
        → Centralised K live (K.set_task_cpu t central_cpu k) heap metadata
    moved-keeps {k = k} t off inv = record {
      in_step = Inv-set_task_cpu K task_of rq_of IsGood laws t central_cpu off inv.in_step;
      on_central =
          λ u h. ground (arith, laws.task_cpu-set_task_cpu u t central_cpu k, inv.on_central u h);
    }

    admit-keeps :
        (live : ℕ → Bool) (w : CentralWorld S M) (e : ProcessEvent) (o : Option ℕ)
        → CentralInv K live w
        → live e.target ≡ false
        → ((p : ℕ) → o ≡ some p → w.heap p ≡ none)
        → let r = init_entity K o e w in
          CentralInv K (update live e.target (accepted r.0)) (place_on K e.target r.0 r.1)
    unfolding select_cpu
    admit-keeps live w e none inv absent fresh =
        subst (λ live. CentralInv K live w) (update_absent live e.target absent) inv
    admit-keeps live w e (some ce) inv absent fresh = record {
      in_step =
          Inv-set_task_cpu K task_of rq_of IsGood laws e.target central_cpu
            (λ r. elim (Bool-cases (elem e.target (K.rq_tasks r w.kernel))) [
              | inl there ↦
                  absurd (false≢true (sym absent ∙ inv.in_step.queued_live r e.target there))
              | inr away ↦ away
            ])
            (Inv-kzalloc K task_of rq_of IsGood e.target ce entity absent (fresh ce refl) refl refl
              (record { waits = refl; per_cpu = refl; in_slice = omega arith }) inv.in_step);
      on_central = λ u h.
          ground
            (arith, laws.task_cpu-set_task_cpu u e.target central_cpu w.kernel, inv.on_central u);
    }
      where
        entity : CentralEntity
        entity = record {
          state = not_queued;
          task = e.target;
          rq = none;
          slice_ns = 0;
          current_slice_ns = 0;
        }

    central_new_prepare-keeps :
        (live : ℕ → Bool) (w : CentralWorld S M) (e : ProcessEvent)
        → CentralInv K live w
        → live e.target ≡ false
        → let r = central_new_prepare K e w in
          CentralInv K (update live e.target (accepted r.0)) (place_on K e.target r.0 r.1)
    unfolding central_new_prepare
    central_new_prepare-keeps live w e inv absent =
        admit-keeps live w e (K.kzalloc (in_use w) w.kernel) inv absent
          (λ p got. not_in_use p (laws.kzalloc_fresh (in_use w) w.kernel p got))
      where
        not_in_use : (p : ℕ) → in_use w p ≡ false → w.heap p ≡ none
        not_in_use p h = ground arith

    central_unblock_prepare-keeps :
        (live : ℕ → Bool) (w : CentralWorld S M) (e : ProcessEvent)
        → CentralInv K live w
        → live e.target ≡ true
        → is_queued K e.target w ≡ false
        → CentralInv K live (place_on K e.target (central_unblock_prepare K e w) w)
    unfolding central_unblock_prepare select_cpu
    central_unblock_prepare-keeps live w e inv h off =
        let its : Tracked K task_of rq_of IsGood e.target w.kernel w.heap w.metadata =
          inv.in_step.tracked e.target h in
        moved-keeps e.target
          (off_queues K task_of rq_of IsGood e.target inv.in_step off
            (its.on_queue global_rq ∙ its.good.per_cpu))
          inv

    pub central_contract : Contract K (may_schedule K) central_routines (CentralInv K)
    unfolding central_core_entry central_core_exit central_newly_idle central_entry_idle
        central_exit_idle
    central_contract = record {
      new_prepare_keeps = central_new_prepare-keeps;
      new_place_keeps = central_new_place-keeps K laws;
      block_keeps = central_block-keeps K laws;
      unblock_prepare_keeps = central_unblock_prepare-keeps;
      unblock_place_keeps = central_unblock_place-keeps K laws;
      terminate_keeps = central_terminate-keeps K laws;
      yield_keeps = central_yield-keeps K laws;
      tick_keeps = central_tick-keeps K laws;
      schedule_keeps = λ live w cpu now inv may. central_schedule-keeps K laws live w cpu inv may;
      core_entry_keeps = λ live w e inv. inv;
      core_exit_keeps = λ live w e inv. inv;
      newly_idle_keeps = λ live w e inv. inv;
      enter_idle_keeps = λ live w e inv. inv;
      exit_idle_keeps = λ live w e inv. inv;
    }
