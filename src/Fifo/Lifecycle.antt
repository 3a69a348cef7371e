-- ===== src/Fifo/Lifecycle.antt =====
-- The end of a task under the per-core FIFO policy (modules/fifo_benchs/fifo.c), and the core's
-- pointer to the object that it frees.
use saakm_misc.Prelude.{ℕ, ◌>>=◌, none, some, ◌≡◌, ◌∙◌, ap, List, Returns, ==_refl, without_absent}
use saakm_misc.Kernel.{Kernel, KernelLaws, ProcessEvent, core_rq, terminated, ready}
use saakm_misc.Fifo.{FifoWorld, fifo_yield, fifo_terminate, Bool}
use saakm_misc.Fifo.Order.{OnCpu}

module _ {S M : Type 0} (K : Kernel S M) (laws : KernelLaws K) where
  -- A running task that terminates leaves nothing behind: its object is freed, its core points to no
  -- object, the kernel has no current task on the cpu, and the tasks that wait there are as before.
  pub fifo_terminate-running :
      (live : ℕ → Bool) (w : FifoWorld S M) (cpu t used since : ℕ) (rest : List ℕ)
      (e : ProcessEvent)
      → e.target ≡ t
      → (on : OnCpu K live cpu t used since rest w)
      → Returns
          (λ w'.
            (w'.heap on.ptr ≡ none)
            × ((w'.core cpu).current ≡ none)
            × (K.current_task cpu w'.kernel ≡ none)
            × (K.rq_tasks (core_rq cpu) w'.kernel ≡ rest))
          (fifo_terminate K e w)
  unfolding fifo_terminate
  fifo_terminate-running live w cpu t used since rest e target on =
      let points : w.metadata e.target ≡ some on.ptr = ap w.metadata target ∙ on.points in
      let home : K.task_cpu on.entity.task w.kernel ≡ cpu = rw on.owner on.on_cpu in
      rw (points, on.alive)
        (
          rw (==_refl on.ptr),
          rw (home, ==_refl cpu, on.runs),
          laws.current_task-change_state cpu on.entity.task terminated
                (K.task_cpu on.entity.task w.kernel) none w.kernel
              ∙ rw (on.is_current, on.owner) (rw (==_refl t)),
          laws.rq_tasks-change_state (core_rq cpu) on.entity.task terminated
                (K.task_cpu on.entity.task w.kernel) none w.kernel
              ∙ rw (on.owner, on.waiting) (without_absent t rest on.gone),
        )

  -- A task that yields and then terminates, before its cpu schedules again, leaves the core's
  -- `_current` pointing to its freed object.
  pub yield-terminate_dangling :
      (live : ℕ → Bool) (w : FifoWorld S M) (cpu t used since : ℕ) (rest : List ℕ)
      (e : ProcessEvent)
      → e.target ≡ t
      → (on : OnCpu K live cpu t used since rest w)
      → Returns
          (λ w'. (w'.heap on.ptr ≡ none) × ((w'.core cpu).current ≡ some on.ptr))
          (fifo_yield K e w >>= fifo_terminate K e)
  unfolding fifo_yield fifo_terminate
  yield-terminate_dangling live w cpu t used since rest e target on =
      let points : w.metadata e.target ≡ some on.ptr = ap w.metadata target ∙ on.points in
      let home : K.task_cpu on.entity.task w.kernel ≡ cpu = rw on.owner on.on_cpu in
      let task : ℕ = on.entity.task in
      let home' : K.task_cpu task (K.change_state task ready cpu (some (core_rq cpu)) w.kernel)
          ≡ cpu =
        laws.task_cpu-change_state task task ready cpu (some (core_rq cpu)) w.kernel
        ∙ rw (==_refl task) in
      rw (points, on.alive)
        (rw on.alive (
          rw points (
            rw (==_refl on.ptr) (
              rw (==_refl on.ptr),
              rw (home, ==_refl cpu) (rw (home', ==_refl cpu) on.core_current),
            ))))
