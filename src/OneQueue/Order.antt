-- ===== src/OneQueue/Order.antt =====
-- How the tasks of the one-queue FIFO policy (modules/fifo_one_queue/fifo_one_queue.c) reach a cpu.
use saakm_misc.Prelude.{
  ℕ, false, none, some, ◌≡◌, refl, ◌∙◌, ap, subst, elem, List, [], ◌∷◌, Returns, IsUnique,
  without_head, ==_refl, head?, ◌==◌, Bool-cases, inl, inr,
}
use saakm_misc.Kernel.{Kernel, KernelLaws, CoreEvent, core_rq, global_rq, running, ready, migrating}
use saakm_misc.Kernel.Laws.{joins}
use saakm_misc.OneQueue.{FifoWorld, Machine, fifo_schedule}
use saakm_misc.OneQueue.Cores.{fifo_newly_idle, pull}

module _ {S M : Type 0} (K : Kernel S M) (laws : KernelLaws K) where
  -- `change_state` takes the first task off the shared queue and puts it on the queue of cpu `c`.
  leaves-global :
      (c d t : ℕ) (ts : List ℕ) (k : S)
      → IsUnique (K.rq_tasks global_rq k)
      → K.rq_tasks global_rq k ≡ t ∷ ts
      → K.rq_tasks global_rq (K.change_state t ready d (some (core_rq c)) k) ≡ ts
  leaves-global c d t ts k unique queue =
      laws.rq_tasks-change_state global_rq t ready d (some (core_rq c)) k
      ∙ without_head t ts _ unique queue

  pull-queues :
      (c t : ℕ) (ts : List ℕ) (k : S)
      → IsUnique (K.rq_tasks global_rq k)
      → K.rq_tasks global_rq k ≡ t ∷ ts
      → K.rq_tasks (core_rq c) k ≡ []
      → let k' = pull K c t k in
        (K.rq_tasks global_rq k' ≡ ts) × (K.rq_tasks (core_rq c) k' ≡ t ∷ [])
  pull-queues c t ts k unique queue idle =
      let k₁ : S = K.change_state t migrating c none k in
      let gone : elem t ts ≡ false = (subst IsUnique queue unique).0 in
      let global₁ : K.rq_tasks global_rq k₁ ≡ ts =
        laws.rq_tasks-change_state global_rq t migrating c none k
        ∙ without_head t ts _ unique queue in
      elim (Bool-cases (K.task_cpu t k == c)) [
        | inl same ↦ rw same (
          leaves-global c c t ts k unique queue,
          joins K laws (core_rq c) t ready c (some (core_rq c)) k [] idle refl
              ∙ rw (==_refl c) refl,
        )
        | inr other ↦ rw other (
          joins K laws global_rq t ready c (some (core_rq c)) k₁ ts global₁ gone,
          joins K laws (core_rq c) t ready c (some (core_rq c)) k₁ []
                (joins K laws (core_rq c) t migrating c none k [] idle refl) refl
              ∙ rw (==_refl c) refl,
        )
      ]

  -- A cpu with an empty queue of its own that goes idle and then schedules runs the first task of the
  -- shared queue, wherever the task was before, and leaves the tasks behind it. Neither the task's
  -- object nor the core's record is told: its `state` and `_current` stay as they were.
  pub newly_idle-schedule_runs :
      (C : Machine S) (w : FifoWorld S M) (e : CoreEvent) (t : ℕ) (ts : List ℕ)
      → IsUnique (K.rq_tasks global_rq w.kernel)
      → K.rq_tasks global_rq w.kernel ≡ t ∷ ts
      → K.rq_tasks (core_rq e.target) w.kernel ≡ []
      → Returns
          (λ w'.
            (K.current_task e.target w'.kernel ≡ some t)
            × (K.task_cpu t w'.kernel ≡ e.target)
            × (K.rq_tasks global_rq w'.kernel ≡ ts)
            × (K.rq_tasks (core_rq e.target) w'.kernel ≡ [])
            × (w'.heap ≡ w.heap)
            × (w'.core ≡ w.core))
          (fifo_schedule K C e.target (fifo_newly_idle K e w))
  unfolding fifo_schedule fifo_newly_idle
  newly_idle-schedule_runs C w e t ts unique queue idle =
      let c = e.target in
      let k' : S = pull K c t w.kernel in
      let (global, local) = pull-queues c t ts w.kernel unique queue idle in
      let gone : elem t ts ≡ false = (subst IsUnique queue unique).0 in
      let first : K.first_task global_rq w.kernel ≡ some t =
        laws.first_task_lem global_rq w.kernel ∙ ap head? queue in
      let next : K.first_task (core_rq c) k' ≡ some t =
        laws.first_task_lem (core_rq c) k' ∙ ap head? local in
      rw first (
        rw next (
          laws.current_task-change_state c t running c none k' ∙ rw (==_refl c) refl,
          laws.task_cpu-change_state t t running c none k' ∙ rw (==_refl t) refl,
          joins K laws global_rq t running c none k' ts global gone,
          laws.rq_tasks-change_state (core_rq c) t running c none k'
              ∙ rw local (rw (==_refl t) refl),
          refl,
          refl,
        ))
