-- ===== src/Rusty/Slices.antt =====
-- Slices in the rusty policy (modules/rusty_saakm/rusty_saakm.c:721-740).
use saakm_misc.Prelude.{
  ℕ, ◌-◌, ◌≤◌, ◌<◌, some, [], ◌∷◌, ◌++◌, ◌≡◌, refl, ◌∙◌, subst, inl, inr, without, arith,
  Bool-cases, Returns, sub64, ◌==◌, ==_refl,
}
use saakm_misc.Kernel.{Kernel, KernelLaws, ProcessEvent, ready_tick, core_rq}
use saakm_misc.Rusty.{Platform, RustyWorld, RustyProcess}
use saakm_misc.Rusty.Tasks.{charged, rusty_enqueue_task, rusty_sched_tick}

module _ {S M : Type 0} (K : Kernel S M) (P : Platform S M) where
  -- Task `t` runs on in `w'`, with `left` of its slice; or it is last on the queue of its cpu.
  pub record RunsOn (w w' : RustyWorld S M) (rp left : ℕ) : Type 0 where
    pub process : RustyProcess M
    pub same_kernel : w'.kernel ≡ w.kernel
    pub alive : w'.heap rp ≡ some process
    pub slice_left : process.slice ≡ left

  pub record Preempted (w w' : RustyWorld S M) (t rp : ℕ) : Type 0 where
    pub process : RustyProcess M
    pub alive : w'.heap rp ≡ some process
    pub preempted : process.state ≡ ready_tick
    pub no_slice : process.slice ≡ 0
    pub last :
        let there = core_rq (K.task_cpu t w.kernel) in
        K.rq_tasks there w'.kernel ≡ without t (K.rq_tasks there w.kernel) ++ t ∷ []

  -- For a task with an object of its own, a tick returns. If less than the rest of its slice
  -- has passed since it was put on the cpu, that is taken off the slice and no queue changes. Else
  -- the slice is 0 and the task goes to the end of the queue of its cpu, as READY_TICK.
  pub rusty_sched_tick-branches :
      (laws : KernelLaws K) (w : RustyWorld S M) (e : ProcessEvent) (now rp : ℕ)
      (process : RustyProcess M)
      → w.metadata e.target ≡ some rp
      → w.heap rp ≡ some process
      → process.task ≡ e.target
      → let used = sub64 now (P.exec_start e.target w.kernel) in
        Returns
          (λ w'.
            (used < process.slice → RunsOn w w' rp (process.slice - used))
            × (process.slice ≤ used → Preempted w w' e.target rp))
          (rusty_sched_tick K P e now w)
  unfolding rusty_sched_tick rusty_enqueue_task
  rusty_sched_tick-branches laws w e now rp process points alive owner =
      let used = sub64 now (P.exec_start e.target w.kernel) in
      let left : ℕ = charged K P process.slice used in
      elim (Bool-cases (left == 0)) [
        | inr more ↦
            rw (points, alive, more)
              (
                λ h. record {
                  process = record process { slice = left };
                  same_kernel = refl;
                  alive = rw (==_refl rp) refl;
                  slice_left = ground arith;
                },
                λ h. ground arith,
              )
        | inl over ↦
            let there = core_rq (K.task_cpu process.task w.kernel) in
            let cpu = K.task_cpu process.task w.kernel in
            rw (points, alive, over)
              (rw (==_refl rp) (
                λ h. ground arith,
                λ h. record {
                  process = record process { slice = left; state = ready_tick; rq = some there };
                  alive = rw (==_refl rp) refl;
                  preempted = refl;
                  no_slice = ground arith;
                  last =
                      subst
                        (λ t.
                          let q = core_rq (K.task_cpu t w.kernel) in
                          K.rq_tasks q
                            (K.change_state process.task ready_tick cpu (some there) w.kernel)
                          ≡ without t (K.rq_tasks q w.kernel) ++ t ∷ [])
                        owner
                        (laws.rq_tasks-change_state there process.task ready_tick cpu (some there)
                            w.kernel
                          ∙ rw (==_refl cpu) refl);
                },
              ))
      ]
