-- ===== src/GlobalFifo/Ticks.antt =====
-- The ticks of the global FIFO policy (modules/global_fifo/global_fifo.c:223-244).
use saakm_misc.Prelude.{
  ℕ, true, false, some, ◌≡◌, ◌≢◌, ◌≤◌, ◌<◌, ◌+◌, refl, ◌∙◌, elem, arith, List, [], ◌∷◌, ◌++◌,
  Returns, ==_refl, leb, add64, sub64, u64_mod,
}
use saakm_misc.Kernel.{Kernel, KernelLaws, ProcessEvent, core_rq, global_rq, ready_tick}
use saakm_misc.Kernel.Laws.{joins, not_current-change_state}
use saakm_misc.GlobalFifo.{FifoWorld, quantum_ns, fifo_tick, is_empty}
use saakm_misc.GlobalFifo.Balance.{Runs}

module _ {S M : Type 0} (K : Kernel S M) (laws : KernelLaws K) where
  -- The times are subtracted the wrong way round, so the difference wraps.
  wraps :
      (since now : ℕ)
      → since < now
      → now + quantum_ns ≤ u64_mod
      → quantum_ns ≤ add64 0 (sub64 since now)
  wraps since now later fits = omega arith

  -- A running task loses its cpu at its first tick, however short it has run: it is put on the tick's
  -- cpu's own queue if that is empty and at the end of the shared queue if not, and is current
  -- nowhere.
  pub fifo_tick-preempts :
      (w : FifoWorld S M) (e : ProcessEvent) (cpu ptr since now : ℕ)
      → Runs K cpu e.target ptr since w
      → elem e.target (K.rq_tasks global_rq w.kernel) ≡ false
      → since < now
      → now + quantum_ns ≤ u64_mod
      → Returns
          (λ w'.
            (K.rq_tasks (core_rq e.cpu) w.kernel ≡ []
              → K.rq_tasks (core_rq e.cpu) w'.kernel ≡ e.target ∷ [])
            × ((x : ℕ) (xs : List ℕ)
                → K.rq_tasks (core_rq e.cpu) w.kernel ≡ x ∷ xs
                → K.rq_tasks global_rq w'.kernel ≡ K.rq_tasks global_rq w.kernel ++ e.target ∷ [])
            × ((c : ℕ) → K.current_task c w'.kernel ≢ some e.target))
          (fifo_tick K e now w)
  unfolding fifo_tick
  fifo_tick-preempts w e cpu ptr since now runs off later fits =
      let over : leb quantum_ns (add64 0 (sub64 since now)) ≡ true =
        ground (arith, wraps since now later fits) in
      rw (runs.object.points, runs.object.alive, runs.current_quantum, runs.since, over)
        (
          λ empty.
              rw (empty, is_empty)
                (joins K laws (core_rq e.cpu) e.target ready_tick (K.task_cpu e.target w.kernel)
                    (some (core_rq e.cpu)) w.kernel [] empty refl
                  ∙ rw (==_refl e.cpu) refl),
          λ x xs busy.
              rw (busy, is_empty)
                (joins K laws global_rq e.target ready_tick (K.task_cpu e.target w.kernel)
                  (some global_rq) w.kernel _ refl off),
          λ c.
              not_current-change_state K laws c e.target ready_tick (K.task_cpu e.target w.kernel) _
                w.kernel (λ x. cc),
        )
