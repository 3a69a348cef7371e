-- ===== src/Fifo/Turnover.antt =====
-- The routines of the per-core FIFO policy (modules/fifo_benchs/fifo.c) by which tasks come, go and take a
-- cpu, against the abstract scheduler.
use mathlib.Core.Bool.{false≢true}
use mathlib.Core.Path.{fun_ext}
use saakm_misc.Prelude.{
  ℕ, IsUnique, Bool, true, false, Option, none, some, ◌≡◌, refl, sym, ◌∙◌, ap, subst, arith,
  ==_refl, ==_iff, ◌==◌, if◌then◌else◌, Bool-cases, Option-cases, inl, inr, Returns, Returns->>=,
  update, List, [], ◌∷◌, elem, without, without_head, without_absent, head?,
}
use saakm_misc.Kernel.{
  running, terminated, core_rq, Kernel, KernelLaws, ProcessEvent, current_after, forget,
}
use saakm_misc.Kernel.Laws.{elem-change_state, not_current-change_state}
use saakm_misc.Tracking.Attached.{attached_object}
use saakm_misc.Fifo.{FifoProcess, FifoWorld, fifo_terminate, fifo_schedule, charge_current, pick}
use saakm_misc.Fifo.Invariant.{IsGood, task_of, rq_of}
use saakm_misc.Fifo.Spec.{Board, set_clock, leave, dispatch}
use saakm_misc.Fifo.Shows.{Shows, changed, Shows-change}
use saakm_misc.Fifo.Moves.{Shows-move, Shows-kfree}
use saakm_misc.Fifo.Refines.{ShowsWorld}

running_current :
    (b : Bool) (t : ℕ) (o : Option ℕ)
    → current_after running b t o ≡ (if b then some t else forget t o)
running_current true t o = refl
running_current false t none = refl
running_current false t (some u) = refl

module _ {S M : Type 0} (K : Kernel S M) (laws : KernelLaws K) (live : ℕ → Bool) where
  module _ (w : FifoWorld S M) (a : Board) (shows : ShowsWorld K laws live a w) where
    pub fifo_terminate-Shows :
        (e : ProcessEvent)
        → live e.target ≡ true
        → Returns
            (ShowsWorld K laws
              (update live e.target false)
              (record (leave e.target a) { live = update a.live e.target false }))
            (fifo_terminate K e w)
    unfolding fifo_terminate
    fifo_terminate-Shows e h =
        let (fp, entity, points, alive, here, self, good, owner) =
          attached_object K task_of rq_of IsGood e.target shows.inv h in
        let entity' : FifoProcess = record entity { state = terminated; rq = none } in
        let cpu : ℕ = K.task_cpu entity.task w.kernel in
        let k' : S = K.change_state entity.task terminated cpu none w.kernel in
        rw (points, alive)
          (subst
            (λ t.
              Shows K (update live t false) k' (update (update w.heap fp (some entity')) fp none)
                w.metadata (record (leave e.target a) { live = update a.live t false }))
            owner
            (Shows-kfree K fp entity' (leave e.target a)
              (Shows-move K laws fp entity entity' a terminated false e.target shows alive self here
                owner refl refl refl
                (record { waits = refl; per_cpu = refl; in_quantum = good.in_quantum }) refl)
              (rw (==_refl fp) refl)
              (λ r.
                elem-change_state K laws r entity.task entity.task terminated cpu none w.kernel
                ∙ rw (==_refl entity.task) refl)
              (λ c.
                not_current-change_state K laws c entity.task terminated cpu none w.kernel
                  (λ x. cc))))

    -- The queues and current tasks when the first task of a cpu's queue is put there.
    dispatch_queue :
        (cpu t : ℕ) (ts : List ℕ)
        → a.queue cpu ≡ t ∷ ts
        → (c : ℕ) → without t (a.queue c) ≡ update a.queue cpu ts c
    dispatch_queue cpu t ts queue c = elim (Bool-cases (cpu == c)) [
      | inl same ↦ rw same (
          without_head t ts (a.queue c)
            (subst IsUnique (shows.same_queue c) (shows.inv.unique (core_rq c)))
            (ap a.queue (sym ((==_iff cpu c).0 same)) ∙ queue))
      | inr other ↦ rw other (
          without_absent t (a.queue c)
            (elim (Bool-cases (elem t (K.rq_tasks (core_rq c) w.kernel))) [
              | inl there ↦ absurd (
                  let here : elem t (K.rq_tasks (core_rq cpu) w.kernel) ≡ true =
                    rw (shows.same_queue cpu, queue) (rw (==_refl t) refl) in
                  let same : cpu ≡ c = sym (shows.inv.home cpu t here) ∙ shows.inv.home c t there in
                  false≢true (sym other ∙ (==_iff cpu c).1 same))
              | inr away ↦ sym (ap (elem t) (shows.same_queue c)) ∙ away
            ]))
    ]

    charge_current-Shows : (cpu : ℕ) → Returns (ShowsWorld K laws live a) (charge_current K cpu w)
    charge_current-Shows cpu = elim (Option-cases (K.current_task cpu w.kernel)) [
      | inl idle ↦ rw (idle, Returns) shows
      | inr (t, busy) ↦
          let (fp, entity, points, alive, here, self, good, owner) =
            attached_object K task_of rq_of IsGood t shows.inv
              (shows.inv.current_live cpu t busy) in
          rw (busy, points, alive, Returns) shows
    ]

    dispatch_current :
        (cpu t : ℕ)
        → a.home t ≡ cpu
        → (c : ℕ)
        → current_after running (a.home t == c) t (a.current c)
          ≡ (if cpu == c then some t else forget t (a.current c))
    dispatch_current cpu t home c = running_current (a.home t == c) t (a.current c) ∙ rw home refl

    dispatched :
        (cpu now t : ℕ) (ts : List ℕ)
        → a.queue cpu ≡ t ∷ ts
        → a.home t ≡ cpu
        → set_clock t 0 now (changed K running false t a) ≡ dispatch cpu now (t ∷ ts) a
    dispatched cpu now t ts queue home = λ i. set_clock t 0 now (record a {
      queue = fun_ext (dispatch_queue cpu t ts queue) i;
      current = fun_ext (dispatch_current cpu t home) i;
    })

    pick-Shows :
        (cpu now t : ℕ) (ts : List ℕ)
        → a.queue cpu ≡ t ∷ ts
        → Returns (ShowsWorld K laws live (dispatch cpu now (t ∷ ts) a)) (pick K cpu now t w)
    pick-Shows cpu now t ts queue =
        let there : elem t (K.rq_tasks (core_rq cpu) w.kernel) ≡ true =
          rw (shows.same_queue cpu, queue) (rw (==_refl t) refl) in
        let (fp, entity, points, alive, here, self, good, owner) =
          attached_object K task_of rq_of IsGood t shows.inv
            (shows.inv.queued_live (core_rq cpu) t there) in
        let entity' : FifoProcess = record entity {
          state = running;
          rq = none;
          current_quantum_ns = 0;
          last_sched_ns = now;
        } in
        let home : a.home t ≡ cpu = sym (shows.same_home t) ∙ shows.inv.home cpu t there in
        rw (points, alive)
          (subst
            (λ b.
              Shows K live
                (K.change_state entity.task running (K.task_cpu entity.task w.kernel) none w.kernel)
                (update w.heap fp (some entity')) w.metadata b)
            (ap (λ t. set_clock t 0 now (changed K running false t a)) owner
              ∙ dispatched cpu now t ts queue home)
            (Shows-change K live w.kernel w.heap w.metadata fp entity entity' alive self refl laws a
              running false here (record { waits = refl; per_cpu = refl; in_quantum = omega arith })
              refl shows))

    then_pick-Shows :
        (cpu now : ℕ) (l : List ℕ)
        → a.queue cpu ≡ l
        → Returns
            (ShowsWorld K laws live (dispatch cpu now l a))
            (elim (K.first_task (core_rq cpu) w.kernel) [
              | none ↦ some w
              | some next ↦ pick K cpu now next w
            ])
    then_pick-Shows cpu now [] queue =
        rw (laws.first_task_lem (core_rq cpu) w.kernel ∙ ap head? (shows.same_queue cpu ∙ queue))
          shows
    then_pick-Shows cpu now (t ∷ ts) queue =
        rw (laws.first_task_lem (core_rq cpu) w.kernel ∙ ap head? (shows.same_queue cpu ∙ queue))
          (pick-Shows cpu now t ts queue)

  pub fifo_schedule-Shows :
      (w : FifoWorld S M) (a : Board) (shows : ShowsWorld K laws live a w) (cpu now : ℕ)
      → Returns
          (ShowsWorld K laws live (dispatch cpu now (a.queue cpu) a))
          (fifo_schedule K cpu now w)
  unfolding fifo_schedule
  fifo_schedule-Shows w a shows cpu now =
      Returns->>= (ShowsWorld K laws live a) _ (charge_current K cpu w) _
        (charge_current-Shows w a shows cpu)
        (λ w₁ shows₁. then_pick-Shows w₁ a shows₁ cpu now (a.queue cpu) refl)
