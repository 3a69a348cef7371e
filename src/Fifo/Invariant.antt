-- ===== src/Fifo/Invariant.antt =====
-- The invariant of the per-core FIFO policy (modules/fifo_benchs/fifo.c), and the routines called for
-- one task.
use saakm_misc.Prelude.{
  Returns, ℕ, add64, sub64, ◌≢◌, Bool, true, false, Option, none, some, ◌≡◌, refl, subst, ◌∙◌, ◌<◌,
  leb, is_some, arith, ==_refl, Bool-cases, update, inl, inr, elem,
}
use saakm_misc.Kernel.{
  IpanemaState, ready, blocked, terminated, ready_tick, Rq, core_rq, global_rq, Kernel, KernelLaws,
  ProcessEvent, targets,
}
use saakm_misc.Kernel.Laws.{elem-change_state, not_current-change_state}
use saakm_misc.Tracking.Attached.{attached_object}
use saakm_misc.Tracking.{Inv, Inv-change_state, is_waiting}
use saakm_misc.Tracking.Objects.{Inv-rewrite, Inv-kfree}
use saakm_misc.Fifo.{
  FifoProcess, FifoWorld, quantum_ns, fifo_enqueue_task, fifo_new_place, fifo_tick, fifo_yield,
  fifo_block, fifo_unblock_place, fifo_terminate,
}

-- The object names a run queue exactly in the two ready states, a per-cpu one, and its quantum is
-- not used up.
pub record IsGood (e : FifoProcess) : Type 0 where
  pub waits : is_waiting e.state ≡ is_some e.rq
  pub per_cpu : targets e.rq global_rq ≡ false
  pub in_quantum : e.current_quantum_ns < quantum_ns

abbrev pub task_of : FifoProcess → ℕ
task_of e = e.task

abbrev pub rq_of : FifoProcess → Option Rq
rq_of e = e.rq

module _ {S M : Type 0} (K : Kernel S M) where
  abbrev pub FifoInv : (ℕ → Bool) → FifoWorld S M → Type 0
  FifoInv live w = Inv K task_of rq_of IsGood live w.kernel w.heap w.metadata

  module _ (laws : KernelLaws K) where
    -- `fifo_enqueue_task` on the task's own queue.
    pub fifo_enqueue_task-keeps :
        (live : ℕ → Bool) (w : FifoWorld S M) (fp : ℕ) (e : FifoProcess) (s : IpanemaState)
        → is_waiting s ≡ true
        → w.heap fp ≡ some e
        → live e.task ≡ true
        → w.metadata e.task ≡ some fp
        → IsGood e
        → FifoInv live w
        → Returns (FifoInv live) (fifo_enqueue_task K fp (core_rq (K.task_cpu e.task w.kernel)) s w)
    unfolding fifo_enqueue_task
    fifo_enqueue_task-keeps live w fp e s waits alive here points good inv = rw alive (
        Inv-change_state K task_of rq_of IsGood laws e.task fp e e' s cpu here points alive refl
          refl (record { waits = waits; per_cpu = refl; in_quantum = good.in_quantum })
          (λ d h. ground arith) inv)
      where
        cpu : ℕ
        cpu = K.task_cpu e.task w.kernel

        e' : FifoProcess
        e' = record e { state = s; rq = some (core_rq cpu) }

    -- The routines that only put the task back on the queue of its cpu.
    pub fifo_new_place-keeps :
        (live : ℕ → Bool) (w : FifoWorld S M) (e : ProcessEvent)
        → FifoInv live w
        → live e.target ≡ true
        → Returns (FifoInv live) (fifo_new_place K e w)
    unfolding fifo_new_place
    fifo_new_place-keeps live w e inv h =
        let (fp, entity, points, alive, here, self, good, owner) =
          attached_object K task_of rq_of IsGood e.target inv h in
        rw (points, alive)
          (fifo_enqueue_task-keeps live w fp entity ready refl alive here self good inv)

    pub fifo_unblock_place-keeps :
        (live : ℕ → Bool) (w : FifoWorld S M) (e : ProcessEvent)
        → FifoInv live w
        → live e.target ≡ true
        → Returns (FifoInv live) (fifo_unblock_place K e w)
    unfolding fifo_unblock_place
    fifo_unblock_place-keeps live w e inv h =
        let (fp, entity, points, alive, here, self, good, owner) =
          attached_object K task_of rq_of IsGood e.target inv h in
        rw (points, alive)
          (fifo_enqueue_task-keeps live w fp entity ready refl alive here self good inv)

    pub fifo_yield-keeps :
        (live : ℕ → Bool) (w : FifoWorld S M) (e : ProcessEvent)
        → FifoInv live w
        → live e.target ≡ true
        → Returns (FifoInv live) (fifo_yield K e w)
    unfolding fifo_yield
    fifo_yield-keeps live w e inv h =
        let (fp, entity, points, alive, here, self, good, owner) =
          attached_object K task_of rq_of IsGood e.target inv h in
        rw (points, alive)
          (fifo_enqueue_task-keeps live w fp entity ready refl alive here self good inv)

    pub fifo_block-keeps :
        (live : ℕ → Bool) (w : FifoWorld S M) (e : ProcessEvent)
        → FifoInv live w
        → live e.target ≡ true
        → Returns (FifoInv live) (fifo_block K e w)
    unfolding fifo_block
    fifo_block-keeps live w e inv h =
        let (fp, entity, points, alive, here, self, good, owner) =
          attached_object K task_of rq_of IsGood e.target inv h in
        let entity' : FifoProcess = record entity { state = blocked; rq = none } in
        rw (points, alive)
          (Inv-change_state K task_of rq_of IsGood laws entity.task fp entity entity' blocked
            (K.task_cpu entity.task w.kernel) here self alive refl refl
            (record { waits = refl; per_cpu = refl; in_quantum = good.in_quantum })
            (λ d h. ground arith) inv)

    -- A tick that does not end the quantum only updates the time used.
    fifo_tick-used :
        (live : ℕ → Bool) (w : FifoWorld S M) (e : ProcessEvent) (now fp : ℕ) (entity : FifoProcess)
        → w.metadata e.target ≡ some fp
        → w.heap fp ≡ some entity
        → w.metadata entity.task ≡ some fp
        → IsGood entity
        → FifoInv live w
        → leb quantum_ns (add64 entity.current_quantum_ns (sub64 now entity.last_sched_ns)) ≡ false
        → Returns (FifoInv live) (fifo_tick K e now w)
    unfolding fifo_tick
    fifo_tick-used live w e now fp entity points alive self good inv more =
        let used : ℕ = add64 entity.current_quantum_ns (sub64 now entity.last_sched_ns) in
        let entity' : FifoProcess = record entity { current_quantum_ns = used } in
        rw (points, alive, more)
          (rw (==_refl fp) (
            Inv-rewrite K task_of rq_of IsGood entity.task fp entity entity' self alive refl refl
              refl
              (record { waits = good.waits; per_cpu = good.per_cpu; in_quantum = ground arith })
              inv))

    -- A tick that ends the quantum resets it and puts the task at the end of its queue.
    fifo_tick-expired :
        (live : ℕ → Bool) (w : FifoWorld S M) (e : ProcessEvent) (now fp : ℕ) (entity : FifoProcess)
        → w.metadata e.target ≡ some fp
        → w.heap fp ≡ some entity
        → live entity.task ≡ true
        → w.metadata entity.task ≡ some fp
        → IsGood entity
        → FifoInv live w
        → leb quantum_ns (add64 entity.current_quantum_ns (sub64 now entity.last_sched_ns)) ≡ true
        → Returns (FifoInv live) (fifo_tick K e now w)
    unfolding fifo_tick
    fifo_tick-expired live w e now fp entity points alive here self good inv over =
        let reset : FifoProcess = record entity { current_quantum_ns = 0; last_sched_ns = 0 } in
        let cpu : ℕ = K.task_cpu entity.task w.kernel in
        let entity' : FifoProcess = record reset { state = ready_tick; rq = some (core_rq cpu) } in
        let reset_inv : Inv K task_of rq_of IsGood live w.kernel (update w.heap fp (some reset))
            w.metadata =
          Inv-rewrite K task_of rq_of IsGood entity.task fp entity reset self alive refl refl refl
            (record { waits = good.waits; per_cpu = good.per_cpu; in_quantum = omega arith }) inv in
        rw (points, alive, over)
          (rw (==_refl fp) (
            rw (==_refl fp) (
              Inv-change_state K task_of rq_of IsGood laws entity.task fp reset entity' ready_tick
                cpu here self (rw (==_refl fp)) refl refl
                (record { waits = refl; per_cpu = refl; in_quantum = omega arith })
                (λ d h. ground arith) reset_inv)))

    pub fifo_tick-keeps :
        (live : ℕ → Bool) (w : FifoWorld S M) (e : ProcessEvent) (now : ℕ)
        → FifoInv live w
        → live e.target ≡ true
        → Returns (FifoInv live) (fifo_tick K e now w)
    fifo_tick-keeps live w e now inv h =
        let (fp, entity, points, alive, here, self, good, owner) =
          attached_object K task_of rq_of IsGood e.target inv h in
        elim (Bool-cases
          (leb quantum_ns (add64 entity.current_quantum_ns (sub64 now entity.last_sched_ns)))) [
            | inl over ↦
                fifo_tick-expired live w e now fp entity points alive here self good inv over
            | inr more ↦ fifo_tick-used live w e now fp entity points alive self good inv more
          ]

    pub fifo_terminate-keeps :
        (live : ℕ → Bool) (w : FifoWorld S M) (e : ProcessEvent)
        → FifoInv live w
        → live e.target ≡ true
        → Returns (FifoInv (update live e.target false)) (fifo_terminate K e w)
    unfolding fifo_terminate
    fifo_terminate-keeps live w e inv h =
        let (fp, entity, points, alive, here, self, good, owner) =
          attached_object K task_of rq_of IsGood e.target inv h in
        let entity' : FifoProcess = record entity { state = terminated; rq = none } in
        let cpu : ℕ = K.task_cpu entity.task w.kernel in
        let k' : S = K.change_state entity.task terminated cpu none w.kernel in
        rw (points, alive)
          (Inv-kfree K task_of rq_of IsGood e.target fp entity' (rw (==_refl fp)) owner
            (λ r.
              subst (λ t. elem t (K.rq_tasks r k') ≡ false) owner
                (elem-change_state K laws r entity.task entity.task terminated cpu none w.kernel
                  ∙ rw (==_refl entity.task)))
            (λ c.
              subst (λ t. K.current_task c k' ≢ some t) owner
                (not_current-change_state K laws c entity.task terminated cpu none w.kernel
                  (λ x. cc)))
            (Inv-change_state K task_of rq_of IsGood laws entity.task fp entity entity' terminated
              cpu here self alive refl refl
              (record { waits = refl; per_cpu = refl; in_quantum = good.in_quantum })
              (λ d h. ground arith) inv))
