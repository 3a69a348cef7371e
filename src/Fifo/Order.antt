-- ===== src/Fifo/Order.antt =====
-- The order in which the per-core FIFO policy (modules/fifo_benchs/fifo.c) runs the tasks of a cpu.
use saakm_misc.Prelude.{
  ℕ, Bool, true, none, some, ◌≡◌, refl, ◌∙◌, ap, subst, arith, elem, List, ◌∷◌, Returns, IsUnique,
  without_head, ==_refl, Returns->>=, head?, false,
}
use saakm_misc.Kernel.{Kernel, KernelLaws, core_rq, running}
use saakm_misc.Tracking.Attached.{attached_object}
use saakm_misc.Tracking.{Inv-change_state}
use saakm_misc.Fifo.{FifoWorld, FifoProcess, pick, fifo_schedule, charge_current}
use saakm_misc.Fifo.Safety.{charge_current-keeps}
use saakm_misc.Fifo.Invariant.{FifoInv, IsGood, task_of, rq_of}

module _ {S M : Type 0} (K : Kernel S M) where
  -- Task `t` runs on cpu `cpu`, put there at `since` and charged with `used` of its quantum so far,
  -- and `rest` waits behind it.
  pub record OnCpu (live : ℕ → Bool) (cpu t used since : ℕ) (rest : List ℕ) (w : FifoWorld S M)
      : Type 0 where
    pub inv : FifoInv K live w
    pub waiting : K.rq_tasks (core_rq cpu) w.kernel ≡ rest
    pub gone : elem t rest ≡ false
    pub is_current : K.current_task cpu w.kernel ≡ some t
    pub on_cpu : K.task_cpu t w.kernel ≡ cpu
    pub ptr : ℕ
    pub entity : FifoProcess
    pub points : w.metadata t ≡ some ptr
    pub alive : w.heap ptr ≡ some entity
    pub good : IsGood entity
    pub owner : entity.task ≡ t
    pub runs : entity.state ≡ running
    pub charged : entity.current_quantum_ns ≡ used
    pub scheduled : entity.last_sched_ns ≡ since
    pub core_current : (w.core cpu).current ≡ some ptr

module _ {S M : Type 0} (K : Kernel S M) (laws : KernelLaws K) where
  pick-OnCpu :
      (live : ℕ → Bool) (w : FifoWorld S M) (cpu now t : ℕ) (ts : List ℕ)
      → FifoInv K live w
      → K.rq_tasks (core_rq cpu) w.kernel ≡ t ∷ ts
      → Returns (OnCpu K live cpu t 0 now ts) (pick K cpu now t w)
  pick-OnCpu live w cpu now t ts inv queue =
      let there : elem t (K.rq_tasks (core_rq cpu) w.kernel) ≡ true = rw queue (rw (==_refl t)) in
      let here : live t ≡ true = inv.queued_live (core_rq cpu) t there in
      let at_home : K.task_cpu t w.kernel ≡ cpu = inv.home cpu t there in
      let (fp, entity, points, alive, here', self, good, owner) =
        attached_object K task_of rq_of IsGood t inv here in
      let entity' : FifoProcess = record entity {
        state = running;
        rq = none;
        current_quantum_ns = 0;
        last_sched_ns = now;
      } in
      let dst : ℕ = K.task_cpu entity.task w.kernel in
      let dst_cpu : dst ≡ cpu = rw owner at_home in
      rw (points, alive)
        (record {
          inv =
              Inv-change_state K task_of rq_of IsGood laws entity.task fp entity entity' running
                (K.task_cpu entity.task w.kernel) here' self alive refl refl
                (record { waits = refl; per_cpu = refl; in_quantum = omega arith })
                (λ d h. ground arith) inv;
          waiting =
              laws.rq_tasks-change_state (core_rq cpu) entity.task running dst none w.kernel
              ∙ rw owner (without_head t ts _ (inv.unique (core_rq cpu)) queue);
          gone = (subst IsUnique queue (inv.unique (core_rq cpu))).0;
          is_current =
              laws.current_task-change_state cpu entity.task running dst none w.kernel
              ∙ rw (dst_cpu, ==_refl cpu) (ap some owner);
          on_cpu =
              laws.task_cpu-change_state t entity.task running dst none w.kernel
              ∙ rw (owner, ==_refl t) at_home;
          ptr = fp;
          entity = entity';
          points = points;
          alive = rw (==_refl fp);
          good = record { waits = refl; per_cpu = refl; in_quantum = omega arith };
          owner = owner;
          runs = refl;
          charged = refl;
          scheduled = refl;
          core_current = rw (==_refl cpu);
        })

  -- `schedule` puts the first task of the cpu's queue on the cpu and leaves the others in order.
  pub fifo_schedule-OnCpu :
      (live : ℕ → Bool) (w : FifoWorld S M) (cpu now t : ℕ) (ts : List ℕ)
      → FifoInv K live w
      → K.rq_tasks (core_rq cpu) w.kernel ≡ t ∷ ts
      → Returns (OnCpu K live cpu t 0 now ts) (fifo_schedule K cpu now w)
  unfolding fifo_schedule
  fifo_schedule-OnCpu live w cpu now t ts inv queue =
      Returns->>= (λ w₁. FifoInv K live w₁ × (w₁.kernel ≡ w.kernel)) (OnCpu K live cpu t 0 now ts)
        (charge_current K cpu w) _ (charge_current-keeps K laws live w cpu inv)
        (λ w₁ same.
          let queue₁ : K.rq_tasks (core_rq cpu) w₁.kernel ≡ t ∷ ts = rw same.1 queue in
          let first : K.first_task (core_rq cpu) w₁.kernel ≡ some t =
            laws.first_task_lem (core_rq cpu) w₁.kernel ∙ ap head? queue₁ in
          rw first (pick-OnCpu live w₁ cpu now t ts same.0 queue₁))
