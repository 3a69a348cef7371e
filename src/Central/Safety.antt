-- ===== src/Central/Safety.antt =====
-- The invariant of the central policy (modules/saakm_central/saakm_central.c) across ticks and the
-- choice of the next task.
use mathlib.Core.Bool.{false≢true}
use saakm_misc.Prelude.{
  ℕ, Bool, true, false, not, ◌&&◌, ◌||◌, ◌==◌, none, some, ◌≡◌, refl, sym, ◌∙◌, ap, subst, elem,
  arith, Bool-cases, Option-cases, inl, inr, is_some, update, Returns, Returns->>=, ==_refl, ==_iff,
  leb, add64, sub64, if◌then◌else◌,
}
use saakm_misc.Kernel.{ready_tick, running, Kernel, KernelLaws, ProcessEvent, core_rq}
use saakm_misc.Kernel.Laws.{elem-head}
use saakm_misc.Central.{
  is_null, CentralEntity, CentralWorld, central_cpu, default_slice, central_enqueue_task,
  central_tick, charge_running, start, central_schedule,
}
use saakm_misc.Tracking.Objects.{Inv-rewrite}
use saakm_misc.Tracking.Attached.{attached_object}
use saakm_misc.Central.Invariant.{
  IsGood, task_of, rq_of, Centralised, CentralInv, Centralised-change_state,
}

-- The kernel asks the central cpu for a task only when there is one. Asked with an empty queue, the
-- policy reads the task through NULL (modules/saakm_central/saakm_central.c:311-314).
abbrev pub may_schedule : {S M : Type 0} (K : Kernel S M) → ℕ → CentralWorld S M → Bool
may_schedule K cpu w =
    not (cpu == central_cpu) || is_some (K.first_task (core_rq central_cpu) w.kernel)

module _ {S M : Type 0} (K : Kernel S M) (laws : KernelLaws K) where
  -- The time that a tick of `central_tick` compares with the slice.
  abbrev pub used : ℕ → CentralEntity → ℕ
  used now e = add64 e.current_slice_ns (sub64 now e.current_slice_ns)

  -- A tick that does not end the slice only updates the time used.
  central_tick-used :
      (live : ℕ → Bool) (w : CentralWorld S M) (e : ProcessEvent) (now ce : ℕ)
      (entity : CentralEntity)
      → w.metadata e.target ≡ some ce
      → w.heap ce ≡ some entity
      → w.metadata entity.task ≡ some ce
      → IsGood entity
      → CentralInv K live w
      → leb entity.slice_ns (used now entity) ≡ false
      → Returns (CentralInv K live) (central_tick K e now w)
  unfolding central_tick
  central_tick-used live w e now ce entity points alive self good inv more =
      let entity' : CentralEntity = record entity { current_slice_ns = used now entity } in
      rw (points, alive, more)
        (rw (==_refl ce) (record {
          in_step =
              Inv-rewrite K task_of rq_of IsGood entity.task ce entity entity' self alive refl refl
                refl
                (record { waits = good.waits; per_cpu = good.per_cpu; in_slice = ground arith })
                inv.in_step;
          on_central = inv.on_central;
        }))

  -- A tick that ends the slice resets it and puts the task at the end of the central queue.
  central_tick-expired :
      (live : ℕ → Bool) (w : CentralWorld S M) (e : ProcessEvent) (now ce : ℕ)
      (entity : CentralEntity)
      → w.metadata e.target ≡ some ce
      → w.heap ce ≡ some entity
      → live entity.task ≡ true
      → w.metadata entity.task ≡ some ce
      → IsGood entity
      → CentralInv K live w
      → leb entity.slice_ns (used now entity) ≡ true
      → Returns (CentralInv K live) (central_tick K e now w)
  unfolding central_tick central_enqueue_task
  central_tick-expired live w e now ce entity points alive here self good inv over =
      let reset : CentralEntity = record entity { current_slice_ns = 0 } in
      let cpu : ℕ = K.task_cpu entity.task w.kernel in
      let entity' : CentralEntity = record reset { state = ready_tick; rq = some (core_rq cpu) } in
      let reset_inv : Centralised K live w.kernel (update w.heap ce (some reset)) w.metadata =
        record {
          in_step =
              Inv-rewrite K task_of rq_of IsGood entity.task ce entity reset self alive refl refl
                refl (record { waits = good.waits; per_cpu = good.per_cpu; in_slice = omega arith })
                inv.in_step;
          on_central = inv.on_central;
        } in
      rw (points, alive, over)
        (rw (==_refl ce) (
          rw (==_refl ce) (
            Centralised-change_state K laws ce reset entity' ready_tick central_cpu here self
              (rw (==_refl ce)) refl
              (record { waits = refl; per_cpu = refl; in_slice = omega arith }) refl
              (λ d h. ground (arith, inv.on_central entity.task here)) reset_inv)))

  pub central_tick-keeps :
      (live : ℕ → Bool) (w : CentralWorld S M) (e : ProcessEvent) (now : ℕ)
      → CentralInv K live w
      → live e.target ≡ true
      → Returns (CentralInv K live) (central_tick K e now w)
  central_tick-keeps live w e now inv h =
      let (ce, entity, points, alive, here, self, good, owner) =
        attached_object K task_of rq_of IsGood e.target inv.in_step h in
      elim (Bool-cases (leb entity.slice_ns (used now entity))) [
        | inl over ↦
            central_tick-expired live w e now ce entity points alive here self good inv over
        | inr more ↦ central_tick-used live w e now ce entity points alive self good inv more
      ]

  -- Charging the running task changes no task, no queue and no object.
  pub charge_running-keeps :
      (live : ℕ → Bool) (w : CentralWorld S M) (cpu : ℕ)
      → CentralInv K live w
      → Returns (λ w'. CentralInv K live w' × (w'.kernel ≡ w.kernel)) (charge_running K cpu w)
  charge_running-keeps live w cpu inv = elim (Option-cases (K.current_task cpu w.kernel)) [
    | inl idle ↦ rw (idle, Returns) (inv, refl)
    | inr (t, busy) ↦
        let (ce, entity, points, alive, here, self, good, owner) =
          attached_object K task_of rq_of IsGood t inv.in_step
            (inv.in_step.current_live cpu t busy) in
        rw (busy, points, alive, Returns) (inv, refl)
  ]

  start-keeps :
      (live : ℕ → Bool) (w : CentralWorld S M) (cpu t : ℕ)
      → CentralInv K live w
      → live t ≡ true
      → cpu ≡ central_cpu
      → Returns (CentralInv K live) (start K cpu (some t) w)
  start-keeps live w cpu t inv h central =
      let (ce, entity, points, alive, here, self, good, owner) =
        attached_object K task_of rq_of IsGood t inv.in_step h in
      let entity' : CentralEntity = record entity {
        state = running;
        rq = none;
        slice_ns = default_slice;
        current_slice_ns = 0;
      } in
      rw (points, alive)
        (Centralised-change_state K laws ce entity entity' running cpu here self alive refl
          (record { waits = refl; per_cpu = refl; in_slice = omega arith }) central
          (λ d k. ground arith) inv)

  -- The choice of a task on a cpu whose queue is not empty, or that is not the central one.
  then_start-keeps :
      (live : ℕ → Bool) (w : CentralWorld S M) (cpu : ℕ)
      → CentralInv K live w
      → may_schedule K cpu w ≡ true
      → Returns (CentralInv K live) (
          let next = K.first_task (core_rq cpu) w.kernel in
          if is_null next && not (cpu == central_cpu) then some w else start K cpu next w)
  then_start-keeps live w cpu inv may = elim (Option-cases (K.first_task (core_rq cpu) w.kernel)) [
    | inl empty ↦ elim (Bool-cases (cpu == central_cpu)) [
      | inl central ↦
          let is_zero : cpu ≡ central_cpu = (==_iff cpu central_cpu).0 central in
          absurd (
            false≢true (
              sym (ap is_some (subst (λ c. K.first_task (core_rq c) w.kernel ≡ none) is_zero empty))
              ∙ ground (arith, may)))
      | inr other ↦ rw (empty, other) inv
    ]
    | inr (t, first) ↦
        let there : elem t (K.rq_tasks (core_rq cpu) w.kernel) ≡ true =
          elem-head t _ (sym (laws.first_task_lem (core_rq cpu) w.kernel) ∙ first) in
        let here : live t ≡ true = inv.in_step.queued_live (core_rq cpu) t there in
        rw first (
          start-keeps live w cpu t inv here
            (sym (inv.in_step.home cpu t there) ∙ inv.on_central t here))
  ]

  pub central_schedule-keeps :
      (live : ℕ → Bool) (w : CentralWorld S M) (cpu : ℕ)
      → CentralInv K live w
      → may_schedule K cpu w ≡ true
      → Returns (CentralInv K live) (central_schedule K cpu w)
  unfolding central_schedule
  central_schedule-keeps live w cpu inv may =
      Returns->>= (λ w'. CentralInv K live w' × (w'.kernel ≡ w.kernel)) (CentralInv K live)
        (charge_running K cpu w) _ (charge_running-keeps live w cpu inv)
        (λ w' kept. then_start-keeps live w' cpu kept.0 (rw kept.1 may))
