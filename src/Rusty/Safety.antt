-- ===== src/Rusty/Safety.antt =====
-- The rusty policy's routines for attached tasks (modules/rusty_saakm/rusty_saakm.c) keep the
-- invariant.
use saakm_misc.Prelude.{
  ℕ, Bool, true, false, ◌≤◌, none, some, ◌≡◌, refl, sym, ◌∙◌, ap, subst, inl, inr, elem, arith,
  update, Returns, Returns->>=, Returns-weaken, ==_refl, Bool-cases, Option-cases, ◌==◌, sub64,
}
use saakm_misc.Kernel.{
  Kernel, KernelLaws, ProcessEvent, IpanemaState, ready, ready_tick, running, blocked, terminated,
  core_rq,
}
use saakm_misc.Kernel.Laws.{elem-change_state, not_current-change_state, elem-head}
use saakm_misc.World.{put}
use saakm_misc.Tracking.{is_waiting, Inv}
use saakm_misc.Tracking.Objects.{Inv-kfree}
use saakm_misc.Tracking.Attached.{attached_object}
use saakm_misc.Rusty.{Platform, RustyWorld, RustyProcess, slice_ns}
use saakm_misc.Rusty.Tasks.{
  rusty_enqueue_task, set_aside, charged, clear_slice, sched_new_place, rusty_sched_tick,
  sched_yield, sched_block, sched_unblock_place, sched_terminate, sched_schedule,
}
use saakm_misc.Rusty.Invariant.{
  IsGood, task_of, rq_of, RustyInv, RustyInv-frame, put-keeps, change_state-keeps,
}

module _ {S M : Type 0} (K : Kernel S M) (P : Platform S M) (B : M) (laws : KernelLaws K) where
  -- Placing a task on the queue of its cpu.
  enqueue-keeps :
      (live : ℕ → Bool) (w : RustyWorld S M) (rp : ℕ) (e : RustyProcess M) (s : IpanemaState)
      → is_waiting s ≡ true
      → w.heap rp ≡ some e
      → live e.task ≡ true
      → w.metadata e.task ≡ some rp
      → e.slice ≤ slice_ns
      → RustyInv K P B live w
      → Returns
          (λ w'.
            RustyInv K P B live w'
            × (w'.heap rp
                ≡ some (record e { state = s; rq = some (core_rq (K.task_cpu e.task w.kernel)) }))
            × (w'.metadata ≡ w.metadata))
          (rusty_enqueue_task K P rp (core_rq (K.task_cpu e.task w.kernel)) s w)
  unfolding rusty_enqueue_task
  enqueue-keeps live w rp e s waits alive here points in_slice inv = rw alive (
    change_state-keeps K P B laws w rp e e' s cpu here points alive refl
        (record { waits = waits; per_cpu = refl; in_slice = in_slice }) (λ d h. ground arith) inv,
    rw (==_refl rp) refl,
    refl,
  )
    where
      cpu : ℕ
      cpu = K.task_cpu e.task w.kernel

      e' : RustyProcess M
      e' = record e { state = s; rq = some (core_rq cpu) }

  -- As `enqueue-keeps`, for the invariant alone.
  placed-keeps :
      (live : ℕ → Bool) (w : RustyWorld S M) (rp : ℕ) (e : RustyProcess M) (s : IpanemaState)
      → is_waiting s ≡ true
      → w.heap rp ≡ some e
      → live e.task ≡ true
      → w.metadata e.task ≡ some rp
      → e.slice ≤ slice_ns
      → RustyInv K P B live w
      → Returns
          (RustyInv K P B live)
          (rusty_enqueue_task K P rp (core_rq (K.task_cpu e.task w.kernel)) s w)
  placed-keeps live w rp e s waits alive here points in_slice inv =
      Returns-weaken _ (RustyInv K P B live) _
        (enqueue-keeps live w rp e s waits alive here points in_slice inv) (λ w' k. k.0)

  -- A new slice is given, then the task placed.
  sliced-keeps :
      (live : ℕ → Bool) (w : RustyWorld S M) (rp : ℕ) (e : RustyProcess M) (n : ℕ)
      → n ≤ slice_ns
      → w.heap rp ≡ some e
      → w.metadata e.task ≡ some rp
      → IsGood e
      → RustyInv K P B live w
      → RustyInv K P B live (put rp (record e { slice = n }) w)
  sliced-keeps live w rp e n small alive points good inv =
      put-keeps K P B w e.task rp e (record e { slice = n }) points alive refl refl refl
        (record { waits = good.waits; per_cpu = good.per_cpu; in_slice = small }) inv

  pub sched_new_place-keeps :
      (live : ℕ → Bool) (w : RustyWorld S M) (e : ProcessEvent)
      → RustyInv K P B live w
      → live e.target ≡ true
      → Returns (RustyInv K P B live) (sched_new_place K P e w)
  unfolding sched_new_place
  sched_new_place-keeps live w e inv h =
      let (rp, process, points, alive, here, self, good, owner) =
        attached_object K task_of rq_of IsGood e.target inv.in_step h in
      rw (points, alive)
        (placed-keeps live (put rp (record process { slice = slice_ns }) w) rp
          (record process { slice = slice_ns }) ready refl (rw (==_refl rp) refl) here self
          (omega arith) (sliced-keeps live w rp process slice_ns (omega arith) alive self good inv))

  pub sched_unblock_place-keeps :
      (live : ℕ → Bool) (w : RustyWorld S M) (e : ProcessEvent)
      → RustyInv K P B live w
      → live e.target ≡ true
      → Returns (RustyInv K P B live) (sched_unblock_place K P e w)
  unfolding sched_unblock_place
  sched_unblock_place-keeps live w e inv h =
      let (rp, process, points, alive, here, self, good, owner) =
        attached_object K task_of rq_of IsGood e.target inv.in_step h in
      rw (points, alive)
        (placed-keeps live w rp process ready refl alive here self good.in_slice inv)

  pub rusty_sched_tick-keeps :
      (live : ℕ → Bool) (w : RustyWorld S M) (e : ProcessEvent) (now : ℕ)
      → RustyInv K P B live w
      → live e.target ≡ true
      → Returns (RustyInv K P B live) (rusty_sched_tick K P e now w)
  unfolding rusty_sched_tick
  rusty_sched_tick-keeps live w e now inv h =
      let (rp, process, points, alive, here, self, good, owner) =
        attached_object K task_of rq_of IsGood e.target inv.in_step h in
      let left : ℕ = charged K P process.slice (sub64 now (P.exec_start e.target w.kernel)) in
      let small : left ≤ slice_ns = ground (arith, good.in_slice) in
      let w₁ = put rp (record process { slice = left }) w in
      let inv₁ : RustyInv K P B live w₁ =
        sliced-keeps live w rp process left small alive self good inv in
      elim (Bool-cases (left == 0)) [
        | inr more ↦ rw (points, alive, more) inv₁
        | inl over ↦
            rw (points, alive, over)
              (placed-keeps live w₁ rp (record process { slice = left }) ready_tick refl
                (rw (==_refl rp) refl) here self small inv₁)
      ]

  pub sched_yield-keeps :
      (live : ℕ → Bool) (w : RustyWorld S M) (e : ProcessEvent)
      → RustyInv K P B live w
      → live e.target ≡ true
      → Returns (RustyInv K P B live) (sched_yield K P e w)
  unfolding sched_yield
  sched_yield-keeps live w e inv h =
      let (rp, process, points, alive, here, self, good, owner) =
        attached_object K task_of rq_of IsGood e.target inv.in_step h in
      let there = core_rq (K.task_cpu process.task w.kernel) in
      let process' : RustyProcess M = record process { state = ready; rq = some there } in
      rw (points, alive)
        (Returns->>=
          (λ w'. RustyInv K P B live w' × (w'.heap rp ≡ some process') × (w'.metadata ≡ w.metadata))
          (RustyInv K P B live) (rusty_enqueue_task K P rp there ready w) (clear_slice K P rp)
          (enqueue-keeps live w rp process ready refl alive here self good.in_slice inv)
          (λ w' (inv', alive', same). rw alive' (
            sliced-keeps live w' rp process' 0 (omega arith) alive'
              (ap (λ m. m process.task) same ∙ self)
              (record { waits = refl; per_cpu = refl; in_slice = good.in_slice }) inv')))

  -- A task is taken off its queue, for a state in which it waits on none.
  set_aside-keeps :
      (live : ℕ → Bool) (w : RustyWorld S M) (rp : ℕ) (e : RustyProcess M) (n : ℕ)
      (s : IpanemaState)
      → is_waiting s ≡ false
      → n ≤ slice_ns
      → w.heap rp ≡ some e
      → live e.task ≡ true
      → w.metadata e.task ≡ some rp
      → RustyInv K P B live w
      → RustyInv K P B live (set_aside K P rp (record e { slice = n }) s w)
  set_aside-keeps live w rp e n s idle small alive here points inv =
      change_state-keeps K P B laws w rp e (record e { slice = n; state = s; rq = none }) s
        (K.task_cpu e.task w.kernel) here points alive refl
        (record { waits = idle; per_cpu = refl; in_slice = small }) (λ d h. ground arith) inv

  pub sched_block-keeps :
      (live : ℕ → Bool) (w : RustyWorld S M) (e : ProcessEvent)
      → RustyInv K P B live w
      → live e.target ≡ true
      → Returns (RustyInv K P B live) (sched_block K P e w)
  unfolding sched_block
  sched_block-keeps live w e inv h =
      let (rp, process, points, alive, here, self, good, owner) =
        attached_object K task_of rq_of IsGood e.target inv.in_step h in
      rw (points, alive)
        (set_aside-keeps live w rp process process.slice blocked refl good.in_slice alive here self
          inv)

  pub sched_schedule-keeps :
      (live : ℕ → Bool) (w : RustyWorld S M) (cpu : ℕ)
      → RustyInv K P B live w
      → Returns (RustyInv K P B live) (sched_schedule K P cpu w)
  unfolding sched_schedule
  sched_schedule-keeps live w cpu inv = elim (Option-cases (K.first_task (core_rq cpu) w.kernel)) [
    | inl empty ↦ rw empty inv
    | inr (t, first) ↦
        let there : elem t (K.rq_tasks (core_rq cpu) w.kernel) ≡ true =
          elem-head t _ (sym (laws.first_task_lem (core_rq cpu) w.kernel) ∙ first) in
        let (rp, process, points, alive, here, self, good, owner) =
          attached_object K task_of rq_of IsGood t inv.in_step
            (inv.in_step.queued_live (core_rq cpu) t there) in
        rw (first, points, alive)
          (set_aside-keeps live w rp process slice_ns running refl (omega arith) alive here self
            inv)
  ]

  pub sched_terminate-keeps :
      (live : ℕ → Bool) (w : RustyWorld S M) (e : ProcessEvent)
      → RustyInv K P B live w
      → live e.target ≡ true
      → Returns (RustyInv K P B (update live e.target false)) (sched_terminate K P e w)
  unfolding sched_terminate
  sched_terminate-keeps live w e inv h =
      let (rp, process, points, alive, here, self, good, owner) =
        attached_object K task_of rq_of IsGood e.target inv.in_step h in
      let t : ℕ = process.task in
      let cpu : ℕ = K.task_cpu t w.kernel in
      let aside =
        set_aside-keeps live w rp process process.slice terminated refl good.in_slice alive here
          self inv in
      rw (points, alive)
        (RustyInv-frame K P B
          (subst
            (λ u.
              Inv K task_of rq_of IsGood (update live u false)
                (K.change_state t terminated cpu none w.kernel)
                (update (update w.heap rp (some (record process { state = terminated; rq = none })))
                  rp none)
                w.metadata)
            owner
            (Inv-kfree K task_of rq_of IsGood t rp
              (record process { state = terminated; rq = none }) (rw (==_refl rp) refl) refl
              (λ r.
                elem-change_state K laws r t t terminated cpu none w.kernel ∙ rw (==_refl t) refl)
              (λ d. not_current-change_state K laws d t terminated cpu none w.kernel (λ x. cc))
              aside.in_step))
          refl refl (λ c. refl) (λ active d k. k) aside)
