-- ===== src/Rusty/Routines.antt =====
-- The routine table `rusty_routines` of modules/rusty_saakm/rusty_saakm.c, and what it owes the
-- framework.
use saakm_misc.Prelude.{
  ℕ, if◌then◌else◌, Bool, true, false, ℤ, pos, negsuc, some, ◌≡◌, refl, sym, ◌∙◌, ap, subst, inl,
  inr, elem, arith, update, Returns, Returns-weaken, Bool-cases, Option-cases, ◌==◌,
}
use saakm_misc.Kernel.{
  Kernel, KernelLaws, CpumaskLaws, SmtLaws, ProcessEvent, CoreState, Rq, global_rq, active_core,
  idle_core,
}
use saakm_misc.World.{in_use}
use saakm_misc.Tracking.Objects.{Inv-restrict, Inv-set_task_cpu}
use saakm_misc.Tracking.Attached.{off_queues}
use saakm_misc.Framework.{Routines, place_on, accepted, is_queued, always}
use saakm_misc.Framework.Contract.{Contract, update_absent}
use saakm_misc.Rusty.{Platform, PlatformLaws, MaskMemory, RustyWorld}
use saakm_misc.Rusty.Select.{rusty_select_cpu}
use saakm_misc.Rusty.Tasks.{
  init_process, sched_new_prepare, sched_new_place, rusty_sched_tick, sched_yield, sched_block,
  sched_unblock_prepare, sched_unblock_place, sched_terminate, sched_schedule,
}
use saakm_misc.Rusty.Cores.{
  exit_bit, exit_in_mask, mark_core, change_idle, set_all, sched_get_core_state, sched_core_entry,
  sched_core_exit, sched_newly_idle, sched_enter_idle, sched_exit_idle,
}
use saakm_misc.Rusty.Invariant.{IsGood, task_of, rq_of, RustyInv, RustyInv-frame}
use saakm_misc.Rusty.Attempts.{Selected}
use saakm_misc.Rusty.Wakeup.{SelectedCpu, rusty_select_cpu-Selected}
use saakm_misc.Rusty.Admission.{Arrived}
use saakm_misc.Rusty.Admitted.{init_process-Arrived}
use saakm_misc.Rusty.Safety.{
  sched_new_place-keeps, sched_unblock_place-keeps, rusty_sched_tick-keeps, sched_yield-keeps,
  sched_block-keeps, sched_schedule-keeps, sched_terminate-keeps,
}

module _ {S M : Type 0} (K : Kernel S M) (P : Platform S M) where
  abbrev pub rusty_routines : Routines (RustyWorld S M)
  rusty_routines = record {
    get_core_state = sched_get_core_state K P;
    core_entry = sched_core_entry K P;
    core_exit = sched_core_exit K P;
    newly_idle = sched_newly_idle K P;
    enter_idle = sched_enter_idle K P;
    exit_idle = sched_exit_idle K P;
    new_prepare = sched_new_prepare K P;
    new_place = sched_new_place K P;
    block = sched_block K P;
    unblock_prepare = sched_unblock_prepare K P;
    unblock_place = sched_unblock_place K P;
    terminate = sched_terminate K P;
    yield = sched_yield K P;
    tick = rusty_sched_tick K P;
    schedule = λ cpu now w. sched_schedule K P cpu w;
  }

  -- The table with the calls of `core_exit` left out that would write past the mask.
  abbrev pub bounded_routines : Routines (RustyWorld S M)
  bounded_routines = record rusty_routines {
    core_exit = λ e w. if exit_in_mask K P e w then sched_core_exit K P e w else some w;
  }

  module _ (B : M) where
    -- A core event: with SMT, the mask of idle cpus stays as it is.
    core-keeps :
        (live : ℕ → Bool) (w : RustyWorld S M) (cpu : ℕ) (s : CoreState) (m : M) (f : M → M)
        → RustyInv K P B live w
        → RustyInv K P B live (change_idle K P f (set_all K P m (mark_core K P cpu s w)))
    core-keeps live w cpu s m f inv =
        RustyInv-frame K P B inv.in_step refl refl (λ c. ground arith)
          (λ active d h. rw active at h) inv

    module _ (laws : KernelLaws K) where
      moved-keeps :
          (live : ℕ → Bool) (w : RustyWorld S M) (t : ℕ) (r : ℤ)
          → ((q : Rq) → elem t (K.rq_tasks q w.kernel) ≡ false)
          → RustyInv K P B live w
          → RustyInv K P B live (place_on K t r w)
      moved-keeps live w t (pos c) off inv =
          RustyInv-frame K P B (Inv-set_task_cpu K task_of rq_of IsGood laws t c off inv.in_step)
            refl refl (λ d. refl) (λ active d h. h) inv
      moved-keeps live w t (negsuc n) off inv = inv

      -- The task stays attached if the framework accepts the result, and is dropped if not.
      refused-keeps :
          (live : ℕ → Bool) (w₀ w : RustyWorld S M) (t : ℕ) (r : ℤ)
          → RustyInv K P B live w₀
          → live t ≡ false
          → w.kernel ≡ w₀.kernel
          → RustyInv K P B (update live t true) w
          → RustyInv K P B (update live t (accepted r)) w
      refused-keeps live w₀ w t (pos c) inv₀ absent same inv = inv
      refused-keeps live w₀ w t (negsuc n) inv₀ absent same inv =
          RustyInv-frame K P B
            (Inv-restrict K task_of rq_of IsGood (λ u h. ground arith)
              (λ q u h.
                let before =
                  inv₀.in_step.queued_live q u (ap (λ k. elem u (K.rq_tasks q k)) (sym same) ∙ h) in
                elim (Bool-cases (t == u)) [ inl it ↦ ground arith | inr other ↦ rw other before ])
              (λ c u h.
                let before = inv₀.in_step.current_live c u (ap (K.current_task c) (sym same) ∙ h) in
                elim (Bool-cases (t == u)) [ inl it ↦ ground arith | inr other ↦ rw other before ])
              inv.in_step)
            refl refl (λ c. refl) (λ active d h. h) inv

      module _ (masks : CpumaskLaws K) (smt : SmtLaws K) (choices : PlatformLaws K P)
          (memory : MaskMemory P) where
        sched_new_prepare-keeps :
            (live : ℕ → Bool) (w : RustyWorld S M) (e : ProcessEvent)
            → RustyInv K P B live w
            → live e.target ≡ false
            → Returns
                (λ r.
                  RustyInv K P B
                    (update live e.target (accepted r.0))
                    (place_on K e.target r.0 r.1))
                (sched_new_prepare K P e w)
        unfolding sched_new_prepare
        sched_new_prepare-keeps live w e inv absent =
            elim (Option-cases (K.kzalloc (in_use w) w.kernel)) [
              | inl failed ↦
                  rw failed
                    (subst (λ l. RustyInv K P B l w) (update_absent live e.target absent) inv)
              | inr (rp, got) ↦
                  let unused : in_use w rp ≡ false =
                    laws.kzalloc_fresh (in_use w) w.kernel rp got in
                  rw got (
                    Returns-weaken (Arrived K P B live w e)
                      (λ r.
                        RustyInv K P B (update live e.target (accepted r.0))
                          (place_on K e.target r.0 r.1))
                      (init_process K P (some rp) e w)
                      (init_process-Arrived K P B masks smt choices memory live w e rp inv absent
                        (ground arith))
                      (λ r a.
                        moved-keeps (update live e.target (accepted r.0)) r.1 e.target r.0
                          (λ q.
                            ap (λ k. elem e.target (K.rq_tasks q k)) a.same_kernel
                            ∙ unqueued live w e.target q inv absent)
                          (refused-keeps live w r.1 e.target r.0 inv absent a.same_kernel a.inv)))
            ]
          where
            unqueued :
                (live : ℕ → Bool) (w : RustyWorld S M) (t : ℕ) (q : Rq)
                → RustyInv K P B live w
                → live t ≡ false
                → elem t (K.rq_tasks q w.kernel) ≡ false
            unqueued live w t q inv absent = elim (Bool-cases (elem t (K.rq_tasks q w.kernel))) [
              | inl there ↦ ground (arith, inv.in_step.queued_live q t there)
              | inr away ↦ away
            ]

        sched_unblock_prepare-keeps :
            (live : ℕ → Bool) (w : RustyWorld S M) (e : ProcessEvent)
            → RustyInv K P B live w
            → live e.target ≡ true
            → is_queued K e.target w ≡ false
            → Returns
                (λ r. RustyInv K P B live (place_on K e.target r.0 r.1))
                (sched_unblock_prepare K P e w)
        unfolding sched_unblock_prepare
        sched_unblock_prepare-keeps live w e inv h off =
            let t = e.target in
            let its = inv.in_step.tracked t h in
            let prev = K.task_cpu t w.kernel in
            let everywhere =
              off_queues K task_of rq_of IsGood t inv.in_step off
                (its.on_queue global_rq ∙ its.good.per_cpu) in
            let None = ((c : ℕ) → K.mask_test c its.entity.cpumask ≡ false) in
            rw its.points (
              Returns-weaken
                (Selected K P B live w t its.ptr its.entity.rq
                  (SelectedCpu K P t prev its.entity.cpumask 0 w.kernel) None)
                (λ r. RustyInv K P B live (place_on K t r.0 r.1))
                (rusty_select_cpu K P its.ptr t prev 0 w)
                (rusty_select_cpu-Selected K P B live w t its.ptr its.entity prev masks smt choices
                  memory 0 inv its.points its.alive its.owner its.good)
                (λ r s.
                  moved-keeps live r.1 t r.0
                    (λ q. ap (λ k. elem t (K.rq_tasks q k)) s.ready.same_kernel ∙ everywhere q)
                    s.ready.inv))

        pub rusty_contract : Contract K always bounded_routines (RustyInv K P B)
        unfolding sched_core_entry sched_core_exit sched_newly_idle sched_enter_idle sched_exit_idle
        rusty_contract = record {
          new_prepare_keeps = sched_new_prepare-keeps;
          new_place_keeps = sched_new_place-keeps K P B laws;
          block_keeps = sched_block-keeps K P B laws;
          unblock_prepare_keeps = sched_unblock_prepare-keeps;
          unblock_place_keeps = sched_unblock_place-keeps K P B laws;
          terminate_keeps = sched_terminate-keeps K P B laws;
          yield_keeps = sched_yield-keeps K P B laws;
          tick_keeps = rusty_sched_tick-keeps K P B laws;
          schedule_keeps = λ live w cpu now inv may. sched_schedule-keeps K P B laws live w cpu inv;
          core_entry_keeps = λ live w e inv.
              core-keeps live w e.target active_core
                (K.mask_set (w.core e.target).id w.globals.all_cpumask)
                (K.mask_clear (w.core e.target).id) inv;
          core_exit_keeps = λ live w e inv. elim (Bool-cases (exit_in_mask K P e w)) [
            | inl inside ↦ rw inside (
                core-keeps live w e.target idle_core
                  (K.mask_clear (exit_bit K P e w) w.globals.all_cpumask)
                  (K.mask_clear (w.core e.target).id) inv)
            | inr outside ↦ rw outside inv
          ];
          newly_idle_keeps = λ live w e inv. inv;
          enter_idle_keeps = λ live w e inv.
              core-keeps live w e.target idle_core w.globals.all_cpumask
                (K.mask_set (w.core e.target).id) inv;
          exit_idle_keeps = λ live w e inv.
              core-keeps live w e.target active_core w.globals.all_cpumask
                (K.mask_clear (w.core e.target).id) inv;
        }
