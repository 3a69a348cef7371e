-- ===== src/Fifo/Refines.antt =====
-- The routines of the per-core FIFO policy (modules/fifo_benchs/fifo.c) that act on one task, against the
-- abstract scheduler.
use saakm_misc.Prelude.{
  ℕ, Bool, true, false, none, some, ◌≡◌, refl, ◌∙◌, ap, subst, arith, ==_refl, Bool-cases, inl, inr,
  Returns, leb, add64, sub64, update,
}
use saakm_misc.Kernel.{ready, ready_tick, blocked, core_rq, Kernel, KernelLaws, ProcessEvent}
use saakm_misc.Tracking.Attached.{attached_object}
use saakm_misc.Fifo.{
  FifoProcess, FifoWorld, quantum_ns, fifo_enqueue_task, fifo_new_place, fifo_tick, fifo_yield,
  fifo_block, fifo_unblock_place,
}
use saakm_misc.Fifo.Invariant.{IsGood, task_of, rq_of}
use saakm_misc.Fifo.Spec.{Board, set_clock, wait, leave, spend}
use saakm_misc.Fifo.Shows.{Shows, Shows-rewrite, shown_clock}
use saakm_misc.Fifo.Moves.{Shows-move}

module _ {S M : Type 0} (K : Kernel S M) (laws : KernelLaws K) where
  abbrev pub ShowsWorld : (ℕ → Bool) → Board → FifoWorld S M → Type 0
  ShowsWorld live a w = Shows K live w.kernel w.heap w.metadata a

  module _ (live : ℕ → Bool) (w : FifoWorld S M) (a : Board) (shows : ShowsWorld live a w) where
    enqueue-Shows :
        (t fp : ℕ) (e : FifoProcess)
        → w.heap fp ≡ some e
        → live e.task ≡ true
        → w.metadata e.task ≡ some fp
        → IsGood e
        → e.task ≡ t
        → Returns
            (ShowsWorld live (wait t a))
            (fifo_enqueue_task K fp (core_rq (K.task_cpu e.task w.kernel)) ready w)
    unfolding fifo_enqueue_task
    enqueue-Shows t fp e alive here points good owner = rw alive (
        Shows-move K laws fp e
          (record e { state = ready; rq = some (core_rq (K.task_cpu e.task w.kernel)) }) a ready
          true t shows alive points here owner refl refl refl
          (record { waits = refl; per_cpu = refl; in_quantum = good.in_quantum }) refl)

    module _ (e : ProcessEvent) (h : live e.target ≡ true) where
      pub fifo_yield-Shows : Returns (ShowsWorld live (wait e.target a)) (fifo_yield K e w)
      unfolding fifo_yield
      fifo_yield-Shows =
          let (fp, entity, points, alive, here, self, good, owner) =
            attached_object K task_of rq_of IsGood e.target shows.inv h in
          rw (points, alive) (enqueue-Shows e.target fp entity alive here self good owner)

      pub fifo_new_place-Shows : Returns (ShowsWorld live (wait e.target a)) (fifo_new_place K e w)
      unfolding fifo_new_place
      fifo_new_place-Shows =
          let (fp, entity, points, alive, here, self, good, owner) =
            attached_object K task_of rq_of IsGood e.target shows.inv h in
          rw (points, alive) (enqueue-Shows e.target fp entity alive here self good owner)

      pub fifo_unblock_place-Shows :
          Returns (ShowsWorld live (wait e.target a)) (fifo_unblock_place K e w)
      unfolding fifo_unblock_place
      fifo_unblock_place-Shows =
          let (fp, entity, points, alive, here, self, good, owner) =
            attached_object K task_of rq_of IsGood e.target shows.inv h in
          rw (points, alive) (enqueue-Shows e.target fp entity alive here self good owner)

      pub fifo_block-Shows : Returns (ShowsWorld live (leave e.target a)) (fifo_block K e w)
      unfolding fifo_block
      fifo_block-Shows =
          let (fp, entity, points, alive, here, self, good, owner) =
            attached_object K task_of rq_of IsGood e.target shows.inv h in
          rw (points, alive)
            (Shows-move K laws fp entity (record entity { state = blocked; rq = none }) a blocked
              false e.target shows alive self here owner refl refl refl
              (record { waits = refl; per_cpu = refl; in_quantum = good.in_quantum }) refl)

    module _ (e : ProcessEvent) (now fp : ℕ) (entity : FifoProcess)
        (points : w.metadata e.target ≡ some fp) (alive : w.heap fp ≡ some entity)
        (here : live entity.task ≡ true) (self : w.metadata entity.task ≡ some fp)
        (good : IsGood entity) where
      abbrev used : ℕ
      used = add64 entity.current_quantum_ns (sub64 now entity.last_sched_ns)

      tick_used :
          leb quantum_ns used ≡ false
          → Returns
              (ShowsWorld live (set_clock entity.task used entity.last_sched_ns a))
              (fifo_tick K e now w)
      unfolding fifo_tick
      tick_used more =
          rw (points, alive, more)
            (rw (==_refl fp) (
              Shows-rewrite K live w.kernel w.heap w.metadata fp entity
                (record entity { current_quantum_ns = used }) alive self refl a here refl
                (record { waits = good.waits; per_cpu = good.per_cpu; in_quantum = ground arith })
                shows))

      tick_expired :
          leb quantum_ns used ≡ true
          → Returns
              (ShowsWorld live (wait entity.task (set_clock entity.task 0 0 a)))
              (fifo_tick K e now w)
      unfolding fifo_tick
      tick_expired over =
          let reset : FifoProcess = record entity { current_quantum_ns = 0; last_sched_ns = 0 } in
          let cpu : ℕ = K.task_cpu entity.task w.kernel in
          let a' : Board = set_clock entity.task 0 0 a in
          let reset_shows : Shows K live w.kernel (update w.heap fp (some reset)) w.metadata a' =
            Shows-rewrite K live w.kernel w.heap w.metadata fp entity reset alive self refl a here
              refl (record { waits = good.waits; per_cpu = good.per_cpu; in_quantum = omega arith })
              shows in
          rw (points, alive, over)
            (rw (==_refl fp) (
              rw (==_refl fp) (
                Shows-move K laws fp reset
                  (record reset { state = ready_tick; rq = some (core_rq cpu) }) a' ready_tick true
                  entity.task reset_shows (rw (==_refl fp) refl) self here refl refl refl refl
                  (record { waits = refl; per_cpu = refl; in_quantum = omega arith }) refl)))

    pub fifo_tick-Shows :
        (e : ProcessEvent) (now : ℕ)
        → live e.target ≡ true
        → Returns (ShowsWorld live (spend e.target now a)) (fifo_tick K e now w)
    fifo_tick-Shows e now h =
        let (fp, entity, points, alive, here, self, good, owner) =
          attached_object K task_of rq_of IsGood e.target shows.inv h in
        let (charged, since) = shown_clock K e.target fp entity shows h points alive in
        let total : ℕ = add64 (a.charged e.target) (sub64 now (a.since e.target)) in
        let spent : used e now fp entity points alive here self good ≡ total =
          rw (charged, since) refl in
        elim (Bool-cases (leb quantum_ns total)) [
          | inl over ↦ rw over (
              subst
                (λ t. Returns (ShowsWorld live (wait t (set_clock t 0 0 a))) (fifo_tick K e now w))
                owner
                (tick_expired e now fp entity points alive here self good
                  (ap (leb quantum_ns) spent ∙ over)))
          | inr more ↦ rw more (
              subst (λ b. Returns (ShowsWorld live b) (fifo_tick K e now w))
                (ap
                    (λ t.
                      set_clock t (used e now fp entity points alive here self good)
                        entity.last_sched_ns a)
                    owner
                  ∙ ap (λ u. set_clock e.target u entity.last_sched_ns a) spent
                  ∙ ap (λ s. set_clock e.target total s a) since)
                (tick_used e now fp entity points alive here self good
                  (ap (leb quantum_ns) spent ∙ more)))
        ]
