-- ===== src/GlobalFifo/Balance.antt =====
-- How the tasks of the global FIFO policy (modules/global_fifo/global_fifo.c) reach a cpu: pulled to
-- the cpu's own queue when it goes idle, then chosen by `fifo_schedule`.
use saakm_misc.Prelude.{
  Returns-weaken, ℕ, false, none, some, ◌≡◌, refl, sym, ◌∙◌, ap, subst, elem, List, [], ◌∷◌, ◌++◌,
  Returns, IsUnique, without_head, ==_refl, ==_iff, head?, ◌==◌, Bool-cases, inl, inr,
}
use saakm_misc.Kernel.{Kernel, KernelLaws, CoreEvent, core_rq, global_rq, running, ready, migrating}
use saakm_misc.Kernel.Laws.{joins}
use saakm_misc.GlobalFifo.{FifoWorld, FifoProcess, fifo_schedule, run_task, task_running}
use saakm_misc.GlobalFifo.Cores.{fifo_newly_idle, pull}

module _ {S M : Type 0} (K : Kernel S M) where
  -- Task `t` has the object `entity`.
  pub record HasObject (t ptr : ℕ) (entity : FifoProcess) (w : FifoWorld S M) : Type 0 where
    pub points : w.metadata t ≡ some ptr
    pub alive : w.heap ptr ≡ some entity

  -- Task `t` runs on the cpu, put there at `now` with a fresh quantum.
  pub record Runs (cpu t ptr now : ℕ) (w : FifoWorld S M) : Type 0 where
    pub entity : FifoProcess
    pub object : HasObject t ptr entity w
    pub current_quantum : entity.current_quantum_ns ≡ 0
    pub since : entity.last_sched_ns ≡ now
    pub is_current : K.current_task cpu w.kernel ≡ some t
    pub on_cpu : K.task_cpu t w.kernel ≡ cpu
    pub core_current : (w.core cpu).current ≡ some ptr

module _ {S M : Type 0} (K : Kernel S M) (laws : KernelLaws K) where
  run_task-Runs :
      (w : FifoWorld S M) (cpu now t ptr : ℕ) (entity : FifoProcess)
      → HasObject K t ptr entity w
      → Returns
          (λ w'. Runs K cpu t ptr now w' × (w'.kernel ≡ K.change_state t running cpu none w.kernel))
          (run_task K cpu now t w)
  run_task-Runs w cpu now t ptr entity object =
      rw (object.points, object.alive)
        (
          record {
            entity = record entity {
              state = task_running;
              rq = none;
              current_quantum_ns = 0;
              last_sched_ns = now;
            };
            object = record { points = object.points; alive = rw (==_refl ptr) };
            current_quantum = refl;
            since = refl;
            is_current =
                laws.current_task-change_state cpu t running cpu none w.kernel ∙ rw (==_refl cpu);
            on_cpu = laws.task_cpu-change_state t t running cpu none w.kernel ∙ rw (==_refl t);
            core_current = rw (==_refl cpu);
          },
          refl,
        )

  -- The first task of the shared queue, moved to the end of the queue of cpu `c`.
  pull-queues :
      (c t : ℕ) (ts : List ℕ) (k : S)
      → IsUnique (K.rq_tasks global_rq k)
      → K.rq_tasks global_rq k ≡ t ∷ ts
      → elem t (K.rq_tasks (core_rq c) k) ≡ false
      → let k' = pull K c t (K.remove_task global_rq t k) in
        (K.rq_tasks global_rq k' ≡ ts)
        × (K.rq_tasks (core_rq c) k' ≡ K.rq_tasks (core_rq c) k ++ t ∷ [])
        × (K.task_cpu t k' ≡ c)
  pull-queues c t ts k unique queue off =
      let k₁ : S = K.remove_task global_rq t k in
      let cpu : ℕ = K.task_cpu t k₁ in
      let k₂ : S = K.change_state t migrating c none k₁ in
      let gone : elem t ts ≡ false = (subst IsUnique queue unique).0 in
      let global₁ : K.rq_tasks global_rq k₁ ≡ ts =
        laws.rq_tasks-remove_task global_rq global_rq t k ∙ without_head t ts _ unique queue in
      let local₁ : K.rq_tasks (core_rq c) k₁ ≡ K.rq_tasks (core_rq c) k =
        laws.rq_tasks-remove_task (core_rq c) global_rq t k in
      elim (Bool-cases (c == cpu)) [
        | inl same ↦ rw same (
          joins K laws global_rq t ready cpu (some (core_rq c)) k₁ ts global₁ gone,
          joins K laws (core_rq c) t ready cpu (some (core_rq c)) k₁ _ local₁ off
              ∙ rw (==_refl c) refl,
          laws.task_cpu-change_state t t ready cpu (some (core_rq c)) k₁
              ∙ rw (==_refl t) (sym ((==_iff c cpu).0 same)),
        )
        | inr other ↦ rw other (
          joins K laws global_rq t ready c (some (core_rq c)) k₂ ts
              (joins K laws global_rq t migrating c none k₁ ts global₁ gone) gone,
          joins K laws (core_rq c) t ready c (some (core_rq c)) k₂ _
                (joins K laws (core_rq c) t migrating c none k₁ _ local₁ off) off
              ∙ rw (==_refl c) refl,
          laws.task_cpu-change_state t t ready c (some (core_rq c)) k₂ ∙ rw (==_refl t) refl,
        )
      ]

  -- A cpu that goes idle takes the first task of the shared queue to the end of its own, wherever the
  -- task was before; the others keep their order, and no object changes. With an empty shared queue
  -- nothing happens.
  pub fifo_newly_idle-pulls :
      (w : FifoWorld S M) (e : CoreEvent) (t : ℕ) (ts : List ℕ)
      → IsUnique (K.rq_tasks global_rq w.kernel)
      → elem t (K.rq_tasks (core_rq e.target) w.kernel) ≡ false
      → let w' = fifo_newly_idle K e w in
        (K.rq_tasks global_rq w.kernel ≡ [] → w' ≡ w)
        × (K.rq_tasks global_rq w.kernel ≡ t ∷ ts
            → (K.rq_tasks global_rq w'.kernel ≡ ts)
              × (K.rq_tasks (core_rq e.target) w'.kernel
                  ≡ K.rq_tasks (core_rq e.target) w.kernel ++ t ∷ [])
              × (K.task_cpu t w'.kernel ≡ e.target)
              × (w'.heap ≡ w.heap)
              × (w'.metadata ≡ w.metadata))
  unfolding fifo_newly_idle
  fifo_newly_idle-pulls w e t ts unique off = (
    λ empty. rw (laws.first_task_lem global_rq w.kernel ∙ ap head? empty) refl,
    λ queue.
        let (global, local, cpu) = pull-queues e.target t ts w.kernel unique queue off in
        rw (laws.first_task_lem global_rq w.kernel ∙ ap head? queue)
          (global, local, cpu, refl, refl),
  )

  -- A cpu with an empty queue that goes idle and then schedules runs the first task of the shared
  -- queue with a fresh quantum, whichever cpu the task was on, and leaves the tasks behind it.
  pub newly_idle-schedule-Runs :
      (w : FifoWorld S M) (e : CoreEvent) (now t ptr : ℕ) (ts : List ℕ) (entity : FifoProcess)
      → IsUnique (K.rq_tasks global_rq w.kernel)
      → K.rq_tasks global_rq w.kernel ≡ t ∷ ts
      → K.rq_tasks (core_rq e.target) w.kernel ≡ []
      → HasObject K t ptr entity w
      → Returns
          (λ w'.
            Runs K e.target t ptr now w'
            × (K.rq_tasks global_rq w'.kernel ≡ ts)
            × (K.rq_tasks (core_rq e.target) w'.kernel ≡ []))
          (fifo_schedule K e.target now (fifo_newly_idle K e w))
  unfolding fifo_schedule
  newly_idle-schedule-Runs w e now t ptr ts entity unique queue idle object =
      let off : elem t (K.rq_tasks (core_rq e.target) w.kernel) ≡ false = rw idle refl in
      let w₁ : FifoWorld S M = fifo_newly_idle K e w in
      let (global, local, cpu, heap, metadata) =
        (fifo_newly_idle-pulls w e t ts unique off).1 queue in
      let gone : elem t ts ≡ false = (subst IsUnique queue unique).0 in
      let local₁ : K.rq_tasks (core_rq e.target) w₁.kernel ≡ t ∷ [] = local ∙ rw idle refl in
      let first : K.first_task (core_rq e.target) w₁.kernel ≡ some t =
        laws.first_task_lem (core_rq e.target) w₁.kernel ∙ ap head? local₁ in
      rw first (
        Returns-weaken
          (λ w'.
            Runs K e.target t ptr now w'
            × (w'.kernel ≡ K.change_state t running e.target none w₁.kernel))
          _ (run_task K e.target now t w₁)
          (run_task-Runs w₁ e.target now t ptr entity
            (record { points = rw metadata object.points; alive = rw heap object.alive }))
          (λ w' ran. (
            ran.0,
            ap (K.rq_tasks global_rq) ran.1
                ∙ joins K laws global_rq t running e.target none w₁.kernel ts global gone,
            ap (K.rq_tasks (core_rq e.target)) ran.1
                ∙ laws.rq_tasks-change_state (core_rq e.target) t running e.target none w₁.kernel
                ∙ rw local₁ (rw (==_refl t) refl),
          )))
