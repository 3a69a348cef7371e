-- ===== src/Fifo/Safety.antt =====
-- The invariant of the per-core FIFO policy (modules/fifo_benchs/fifo.c) across `fifo_schedule`.
use saakm_misc.Prelude.{
  ℕ, Bool, true, none, some, ◌≡◌, refl, sym, ◌∙◌, arith, Option-cases, inl, inr, Returns,
  Returns->>=,
}
use saakm_misc.Kernel.{running, core_rq, Kernel, KernelLaws}
use saakm_misc.Kernel.Laws.{elem-head}
use saakm_misc.Tracking.{Inv-change_state}
use saakm_misc.Tracking.Attached.{attached_object}
use saakm_misc.Fifo.{FifoProcess, FifoWorld, fifo_schedule, charge_current, pick}
use saakm_misc.Fifo.Invariant.{FifoInv, IsGood, task_of, rq_of}

module _ {S M : Type 0} (K : Kernel S M) (laws : KernelLaws K) where
  -- Charging the task that leaves the cpu changes the statistics only.
  pub charge_current-keeps :
      (live : ℕ → Bool) (w : FifoWorld S M) (cpu : ℕ)
      → FifoInv K live w
      → Returns (λ w₁. FifoInv K live w₁ × (w₁.kernel ≡ w.kernel)) (charge_current K cpu w)
  charge_current-keeps live w cpu inv = elim (Option-cases (K.current_task cpu w.kernel)) [
    | inl idle ↦ rw (idle, Returns) (inv, refl)
    | inr (t, busy) ↦
        let (fp, entity, points, alive, here, self, good, owner) =
          attached_object K task_of rq_of IsGood t inv (inv.current_live cpu t busy) in
        rw (busy, points, alive, Returns) (inv, refl)
  ]

  pick-keeps :
      (live : ℕ → Bool) (w : FifoWorld S M) (cpu now t : ℕ)
      → FifoInv K live w
      → live t ≡ true
      → Returns (FifoInv K live) (pick K cpu now t w)
  pick-keeps live w cpu now t inv h =
      let (fp, entity, points, alive, here, self, good, owner) =
        attached_object K task_of rq_of IsGood t inv h in
      let entity' : FifoProcess = record entity {
        state = running;
        rq = none;
        current_quantum_ns = 0;
        last_sched_ns = now;
      } in
      rw (points, alive)
        (Inv-change_state K task_of rq_of IsGood laws entity.task fp entity entity' running
          (K.task_cpu entity.task w.kernel) here self alive refl refl
          (record { waits = refl; per_cpu = refl; in_quantum = omega arith }) (λ d h. ground arith)
          inv)

  -- The choice of the next task, if one waits.
  then_pick-keeps :
      (live : ℕ → Bool) (w : FifoWorld S M) (cpu now : ℕ)
      → FifoInv K live w
      → Returns (FifoInv K live) (elim (K.first_task (core_rq cpu) w.kernel) [
        | none ↦ some w
        | some next ↦ pick K cpu now next w
      ])
  then_pick-keeps live w cpu now inv = elim (Option-cases (K.first_task (core_rq cpu) w.kernel)) [
    | inl empty ↦ rw empty inv
    | inr (t, first) ↦ rw first (
        pick-keeps live w cpu now t inv (
          inv.queued_live (core_rq cpu) t
            (elem-head t _ (sym (laws.first_task_lem (core_rq cpu) w.kernel) ∙ first))))
  ]

  pub fifo_schedule-keeps :
      (live : ℕ → Bool) (w : FifoWorld S M) (cpu now : ℕ)
      → FifoInv K live w
      → Returns (FifoInv K live) (fifo_schedule K cpu now w)
  unfolding fifo_schedule
  fifo_schedule-keeps live w cpu now inv =
      Returns->>= (λ w₁. FifoInv K live w₁ × (w₁.kernel ≡ w.kernel)) (FifoInv K live)
        (charge_current K cpu w) _ (charge_current-keeps live w cpu inv)
        (λ w₁ kept. then_pick-keeps live w₁ cpu now kept.0)
