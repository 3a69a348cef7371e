-- ===== src/OneQueue/Ticks.antt =====
-- The quantum of the one-queue FIFO policy (modules/fifo_one_queue/fifo_one_queue.c).
use saakm_misc.Prelude.{
  ℕ, zero, suc, ◌+◌, ◌%◌, ◌<◌, true, false, Option, none, some, ◌>>=◌, ◌≡◌, refl, ◌∙◌, ap, [], ◌∷◌,
  ◌++◌, without, arith, Returns, add64, u64_mod, ==_refl, ◌==◌, Returns->>=,
}
use saakm_misc.Kernel.{Kernel, KernelLaws, ProcessEvent, ready_tick, global_rq}
use saakm_misc.World.{put}
use saakm_misc.OneQueue.{
  FifoWorld, FifoProcess, Machine, quantum_over, fifo_enqueue_lock, fifo_tick,
}

module _ {S M : Type 0} (K : Kernel S M) (C : Machine S) where
  -- That many ticks in a row for a task, each at the time given.
  unfoldable pub fifo_ticks : ℕ → ProcessEvent → ℕ → FifoWorld S M → Option (FifoWorld S M)
  unfolding fifo_tick
  fifo_ticks zero e now w = some w
  fifo_ticks (suc n) e now w = fifo_tick K C e now w >>= fifo_ticks n e now

  counted : FifoProcess → FifoProcess
  counted process = record process { current_quantum_ns = add64 process.current_quantum_ns 1 }

  -- The task has object `process`.
  pub record Owns (t fp : ℕ) (process : FifoProcess) (w : FifoWorld S M) : Type 0 where
    pub points : w.metadata t ≡ some fp
    pub alive : w.heap fp ≡ some process
    pub owner : process.task ≡ t

  quantum_over-lem : (q : ℕ) → quantum_over q ≡ (q % 20 == 0)
  unfolding quantum_over
  quantum_over-lem q = ground arith

  tick-quiet :
      (w : FifoWorld S M) (e : ProcessEvent) (now fp : ℕ) (process : FifoProcess)
      → Owns e.target fp process w
      → process.current_quantum_ns % 20 + 1 < 20
      → process.current_quantum_ns + 1 < u64_mod
      → fifo_tick K C e now w ≡ some (put fp (counted process) w)
  unfolding fifo_tick counted
  tick-quiet w e now fp process owns early small =
      let more : quantum_over (add64 process.current_quantum_ns 1) ≡ false =
        quantum_over-lem (add64 process.current_quantum_ns 1) ∙ ground arith in
      rw (owns.points, owns.alive, more) refl

  tick-preempts :
      (laws : KernelLaws K) (w : FifoWorld S M) (e : ProcessEvent) (now fp : ℕ)
      (process : FifoProcess) (cpu : ℕ)
      → Owns e.target fp process w
      → K.current_task cpu w.kernel ≡ some e.target
      → process.current_quantum_ns % 20 ≡ 19
      → process.current_quantum_ns + 1 < u64_mod
      → Returns
          (λ w'.
            (K.rq_tasks global_rq w'.kernel
              ≡ without e.target (K.rq_tasks global_rq w.kernel) ++ e.target ∷ [])
            × (K.current_task cpu w'.kernel ≡ none))
          (fifo_tick K C e now w)
  unfolding fifo_tick fifo_enqueue_lock
  tick-preempts laws w e now fp process cpu owns runs late small =
      let over : quantum_over (add64 process.current_quantum_ns 1) ≡ true =
        quantum_over-lem (add64 process.current_quantum_ns 1) ∙ ground arith in
      rw (owns.points, owns.alive, over)
        (rw (==_refl fp) (
          laws.rq_tasks-change_state global_rq process.task ready_tick _ (some global_rq) w.kernel
              ∙ ap (λ t. without t (K.rq_tasks global_rq w.kernel) ++ t ∷ []) owns.owner,
          laws.current_task-change_state cpu process.task ready_tick _ (some global_rq) w.kernel
              ∙ rw (runs, owns.owner, ==_refl e.target) refl,
        ))

  -- A task that has had `q` ticks keeps its cpu and its place for as long as fewer than `20 - q % 20`
  -- ticks follow, whatever the time is, and no queue and no cpu changes.
  pub fifo_ticks-quiet :
      (n : ℕ) (w : FifoWorld S M) (e : ProcessEvent) (now fp : ℕ) (process : FifoProcess)
      → Owns e.target fp process w
      → process.current_quantum_ns % 20 + n < 20
      → process.current_quantum_ns + n < u64_mod
      → Returns (λ w'. w'.kernel ≡ w.kernel) (fifo_ticks n e now w)
  unfolding fifo_ticks counted
  fifo_ticks-quiet zero w e now fp process owns early small = refl
  fifo_ticks-quiet (suc n) w e now fp process owns early small =
      rw (tick-quiet w e now fp process owns (omega arith) (omega arith)) (
        fifo_ticks-quiet n (put fp (counted process) w) e now fp (counted process)
          (record { points = owns.points; alive = rw (==_refl fp) refl; owner = owns.owner })
          (omega arith) (omega arith))

  -- The tick after those takes a task off the cpu whose current task it is, which then has none, and puts
  -- it at the end of the shared queue.
  pub fifo_ticks-preempts :
      (laws : KernelLaws K) (n : ℕ) (w : FifoWorld S M) (e : ProcessEvent) (now fp : ℕ)
      (process : FifoProcess) (cpu : ℕ)
      → Owns e.target fp process w
      → K.current_task cpu w.kernel ≡ some e.target
      → process.current_quantum_ns % 20 + suc n ≡ 20
      → process.current_quantum_ns + suc n < u64_mod
      → Returns
          (λ w'.
            (K.rq_tasks global_rq w'.kernel
              ≡ without e.target (K.rq_tasks global_rq w.kernel) ++ e.target ∷ [])
            × (K.current_task cpu w'.kernel ≡ none))
          (fifo_ticks (suc n) e now w)
  unfolding fifo_ticks counted
  fifo_ticks-preempts laws zero w e now fp process cpu owns runs at small =
      Returns->>= _ _ (fifo_tick K C e now w) _
        (tick-preempts laws w e now fp process cpu owns runs (omega arith) small) (λ w' h. h)
  fifo_ticks-preempts laws (suc n) w e now fp process cpu owns runs at small =
      rw (tick-quiet w e now fp process owns (omega arith) (omega arith)) (
        fifo_ticks-preempts laws n (put fp (counted process) w) e now fp (counted process) cpu
          (record { points = owns.points; alive = rw (==_refl fp) refl; owner = owns.owner }) runs
          (omega arith) (omega arith))
