-- ===== src/Fifo/Accounting.antt =====
-- The quantum of the per-core FIFO policy (modules/fifo_benchs/fifo.c), and what its ticks charge.
use saakm_misc.Prelude.{
  ℕ, ◌+◌, ◌≤◌, ◌<◌, Bool, true, false, some, ◌≡◌, refl, ◌∙◌, ap, arith, List, [], ◌∷◌, ◌++◌,
  Returns, Returns-weaken, none, add64, sub64, u64_mod, leb, ==_refl, without_absent,
}
use saakm_misc.Kernel.{Kernel, KernelLaws, ProcessEvent, core_rq, ready_tick}
use saakm_misc.Tracking.Objects.{Inv-rewrite}
use saakm_misc.Fifo.{FifoWorld, FifoProcess, quantum_ns, fifo_tick}
use saakm_misc.Fifo.Invariant.{IsGood, task_of, rq_of}
use saakm_misc.Fifo.Order.{OnCpu}

module _ {S M : Type 0} (K : Kernel S M) where
  -- A tick charges the time since the task was put on the cpu; below the quantum nothing else
  -- changes.
  pub fifo_tick-charge :
      (live : ℕ → Bool) (w : FifoWorld S M) (cpu now t used since : ℕ) (rest : List ℕ)
      (e : ProcessEvent)
      → e.target ≡ t
      → OnCpu K live cpu t used since rest w
      → add64 used (sub64 now since) < quantum_ns
      → Returns (OnCpu K live cpu t (add64 used (sub64 now since)) since rest) (fifo_tick K e now w)
  unfolding fifo_tick
  fifo_tick-charge live w cpu now t used since rest e target on less =
      let fp : ℕ = on.ptr in
      let old : FifoProcess = on.entity in
      let points : w.metadata e.target ≡ some fp = ap w.metadata target ∙ on.points in
      let self : w.metadata old.task ≡ some fp = ap w.metadata on.owner ∙ on.points in
      let home : K.task_cpu old.task w.kernel ≡ cpu = rw on.owner on.on_cpu in
      let sum : add64 old.current_quantum_ns (sub64 now old.last_sched_ns)
          ≡ add64 used (sub64 now since) =
        rw (on.charged, on.scheduled) in
      let new : FifoProcess = record old { current_quantum_ns = add64 used (sub64 now since) } in
      let test : leb quantum_ns (add64 used (sub64 now since)) ≡ false = ground arith in
      rw (points, on.alive, sum, test)
        (rw (==_refl fp) (record {
          inv =
              Inv-rewrite K task_of rq_of IsGood old.task fp old new self on.alive refl refl refl
                (record { waits = on.good.waits; per_cpu = on.good.per_cpu; in_quantum = less })
                on.inv;
          waiting = on.waiting;
          gone = on.gone;
          is_current = on.is_current;
          on_cpu = on.on_cpu;
          ptr = fp;
          entity = new;
          points = on.points;
          alive = rw (==_refl fp);
          good = record { waits = on.good.waits; per_cpu = on.good.per_cpu; in_quantum = less };
          owner = on.owner;
          runs = on.runs;
          charged = refl;
          scheduled = on.scheduled;
          core_current = rw (home, ==_refl cpu) on.core_current;
        }))

module _ {S M : Type 0} (K : Kernel S M) (laws : KernelLaws K) where
  -- The tick at which the charges reach the quantum puts the task at the end of the queue and takes it
  -- off the cpu.
  pub fifo_tick-requeue :
      (live : ℕ → Bool) (w : FifoWorld S M) (cpu now t used since : ℕ) (rest : List ℕ)
      (e : ProcessEvent)
      → e.target ≡ t
      → OnCpu K live cpu t used since rest w
      → quantum_ns ≤ add64 used (sub64 now since)
      → Returns
          (λ w'.
            (K.rq_tasks (core_rq cpu) w'.kernel ≡ rest ++ t ∷ [])
            × (K.current_task cpu w'.kernel ≡ none))
          (fifo_tick K e now w)
  unfolding fifo_tick
  fifo_tick-requeue live w cpu now t used since rest e target on over =
      let fp : ℕ = on.ptr in
      let old : FifoProcess = on.entity in
      let points : w.metadata e.target ≡ some fp = ap w.metadata target ∙ on.points in
      let home : K.task_cpu old.task w.kernel ≡ cpu = rw on.owner on.on_cpu in
      let sum : add64 old.current_quantum_ns (sub64 now old.last_sched_ns)
          ≡ add64 used (sub64 now since) =
        rw (on.charged, on.scheduled) in
      let test : leb quantum_ns (add64 used (sub64 now since)) ≡ true = ground arith in
      rw (points, on.alive, sum, test)
        (rw (==_refl fp) (
          rw (==_refl fp) (
            laws.rq_tasks-change_state (core_rq cpu) old.task ready_tick
                  (K.task_cpu old.task w.kernel) (some (core_rq (K.task_cpu old.task w.kernel)))
                  w.kernel
                ∙ rw (home, ==_refl cpu) (rw (on.owner, on.waiting, without_absent t rest on.gone)),
            laws.current_task-change_state cpu old.task ready_tick (K.task_cpu old.task w.kernel)
                  (some (core_rq (K.task_cpu old.task w.kernel))) w.kernel
                ∙ rw (on.is_current, on.owner, ==_refl t) refl,
          )))

  -- A task that has run for less than its quantum loses the cpu: at its second tick the time before
  -- the first is charged again. `a` and `b` are the times of the ticks after it was put on the cpu. At
  -- the first tick it keeps the cpu and the queue is as it was; at the second the cpu has no current
  -- task, and the task is at the end of the queue.
  pub ticks_charge_twice :
      (live : ℕ → Bool) (w : FifoWorld S M) (cpu t since a b : ℕ) (rest : List ℕ) (e : ProcessEvent)
      → e.target ≡ t
      → OnCpu K live cpu t 0 since rest w
      → since + b < u64_mod
      → a < b
      → b < quantum_ns
      → quantum_ns ≤ a + b
      → Returns
          (λ w₁.
            (K.current_task cpu w₁.kernel ≡ some t)
            × (K.rq_tasks (core_rq cpu) w₁.kernel ≡ rest)
            × Returns
                (λ w₂.
                  (K.rq_tasks (core_rq cpu) w₂.kernel ≡ rest ++ t ∷ [])
                  × (K.current_task cpu w₂.kernel ≡ none))
                (fifo_tick K e (since + b) w₁))
          (fifo_tick K e (since + a) w)
  ticks_charge_twice live w cpu t since a b rest e target on fits order short sum =
      Returns-weaken (OnCpu K live cpu t (add64 0 (sub64 (since + a) since)) since rest) _
        (fifo_tick K e (since + a) w)
        (fifo_tick-charge K live w cpu (since + a) t 0 since rest e target on (omega arith))
        (λ w' on'. (
          on'.is_current,
          on'.waiting,
          fifo_tick-requeue live w' cpu (since + b) t _ since rest e target on' (omega arith),
        ))
