-- ===== src/Central/Lifecycle.antt =====
-- How a task of the central policy (modules/saakm_central/saakm_central.c) leaves it.
use saakm_misc.Prelude.{
  ℕ, Bool, none, some, ◌>>=◌, ◌≡◌, ◌∙◌, ap, List, Returns, ==_refl, without_absent,
}
use saakm_misc.Kernel.{Kernel, KernelLaws, ProcessEvent, core_rq, terminated, ready}
use saakm_misc.Central.{
  CentralWorld, central_cpu, central_yield, central_terminate, central_enqueue_task,
}
use saakm_misc.Central.Order.{OnCentral}

module _ {S M : Type 0} (K : Kernel S M) (laws : KernelLaws K) where
  -- A running task that terminates leaves nothing behind: its object is freed, its core points to no
  -- object, the cpu has no current task, and the tasks that wait are as before.
  central_terminate-running :
      (live : ℕ → Bool) (w : CentralWorld S M) (t : ℕ) (rest : List ℕ) (e : ProcessEvent)
      → e.target ≡ t
      → (on : OnCentral K live t rest w)
      → Returns
          (λ w'.
            (w'.heap on.ptr ≡ none)
            × ((w'.core central_cpu).current_entity ≡ none)
            × (K.current_task central_cpu w'.kernel ≡ none)
            × (K.rq_tasks (core_rq central_cpu) w'.kernel ≡ rest))
          (central_terminate K e w)
  unfolding central_terminate
  central_terminate-running live w t rest e target on =
      let points : w.metadata e.target ≡ some on.ptr = ap w.metadata target ∙ on.points in
      let home : K.task_cpu on.entity.task w.kernel ≡ central_cpu = rw on.owner on.on_cpu in
      rw (points, on.alive)
        (
          rw (==_refl on.ptr),
          rw (home, on.runs),
          laws.current_task-change_state central_cpu on.entity.task terminated
                (K.task_cpu on.entity.task w.kernel) none w.kernel
              ∙ rw (on.is_current, on.owner) (rw (==_refl t)),
          laws.rq_tasks-change_state (core_rq central_cpu) on.entity.task terminated
                (K.task_cpu on.entity.task w.kernel) none w.kernel
              ∙ rw (on.owner, on.waiting) (without_absent t rest on.gone),
        )

  -- A task that yields and then terminates, before the central cpu schedules again, leaves the
  -- core's `current_entity` pointing to its freed object.
  pub central_yield-terminate_dangling :
      (live : ℕ → Bool) (w : CentralWorld S M) (t : ℕ) (rest : List ℕ) (e : ProcessEvent)
      → e.target ≡ t
      → (on : OnCentral K live t rest w)
      → Returns
          (λ w'. (w'.heap on.ptr ≡ none) × ((w'.core central_cpu).current_entity ≡ some on.ptr))
          (central_yield K e w >>= central_terminate K e)
  unfolding central_yield central_terminate central_enqueue_task
  central_yield-terminate_dangling live w t rest e target on =
      let points : w.metadata e.target ≡ some on.ptr = ap w.metadata target ∙ on.points in
      let home : K.task_cpu on.entity.task w.kernel ≡ central_cpu = rw on.owner on.on_cpu in
      let task : ℕ = on.entity.task in
      let home' : K.task_cpu task
            (K.change_state task ready central_cpu (some (core_rq central_cpu)) w.kernel)
          ≡ central_cpu =
        laws.task_cpu-change_state task task ready central_cpu (some (core_rq central_cpu)) w.kernel
        ∙ rw (==_refl task) in
      rw (points, on.alive)
        (rw on.alive (
          rw points
            (rw (==_refl on.ptr) (rw (==_refl on.ptr), rw home (rw home' on.core_current)))))
