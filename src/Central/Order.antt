-- ===== src/Central/Order.antt =====
-- The order in which the central policy (modules/saakm_central/saakm_central.c) runs its tasks.
use saakm_misc.Prelude.{
  ℕ, Bool, true, false, Option, none, some, ◌>>=◌, ◌≡◌, ◌≤◌, ◌<◌, refl, ◌∙◌, ap, subst, elem, arith,
  List, [], ◌∷◌, ◌++◌, Returns, Returns->>=, IsUnique, without_absent, without_head, ==_refl, head?,
  leb, add64, sub64, u64_mod, ◌==◌,
}
use saakm_misc.Kernel.{Kernel, KernelLaws, ProcessEvent, core_rq, running, ready_tick}
use saakm_misc.Tracking.Attached.{attached_object}
use saakm_misc.Central.{
  CentralWorld, CentralEntity, central_cpu, default_slice, start, central_schedule, central_tick,
  central_enqueue_task,
}
use saakm_misc.Central.Invariant.{CentralInv, IsGood, task_of, rq_of, Centralised-change_state}
use saakm_misc.Central.Safety.{charge_running-keeps}

module _ {S M : Type 0} (K : Kernel S M) where
  -- Task `t` runs on the central cpu with a fresh slice, and `rest` waits behind it.
  pub record OnCentral (live : ℕ → Bool) (t : ℕ) (rest : List ℕ) (w : CentralWorld S M)
      : Type 0 where
    pub inv : CentralInv K live w
    pub waiting : K.rq_tasks (core_rq central_cpu) w.kernel ≡ rest
    pub gone : elem t rest ≡ false
    pub is_current : K.current_task central_cpu w.kernel ≡ some t
    pub on_cpu : K.task_cpu t w.kernel ≡ central_cpu
    pub ptr : ℕ
    pub entity : CentralEntity
    pub points : w.metadata t ≡ some ptr
    pub alive : w.heap ptr ≡ some entity
    pub owner : entity.task ≡ t
    pub runs : entity.state ≡ running
    pub slice : entity.slice_ns ≡ default_slice
    pub fresh : entity.current_slice_ns ≡ 0
    pub core_current : (w.core central_cpu).current_entity ≡ some ptr

module _ {S M : Type 0} (K : Kernel S M) (laws : KernelLaws K) where
  start-OnCentral :
      (live : ℕ → Bool) (w : CentralWorld S M) (t : ℕ) (ts : List ℕ)
      → CentralInv K live w
      → K.rq_tasks (core_rq central_cpu) w.kernel ≡ t ∷ ts
      → Returns (OnCentral K live t ts) (start K central_cpu (some t) w)
  start-OnCentral live w t ts inv queue =
      let there : elem t (K.rq_tasks (core_rq central_cpu) w.kernel) ≡ true =
        rw queue (rw (==_refl t)) in
      let unique : IsUnique (K.rq_tasks (core_rq central_cpu) w.kernel) =
        inv.in_step.unique (core_rq central_cpu) in
      let (ce, entity, points, alive, here, self, good, owner) =
        attached_object K task_of rq_of IsGood t inv.in_step
          (inv.in_step.queued_live (core_rq central_cpu) t there) in
      let entity' : CentralEntity = record entity {
        state = running;
        rq = none;
        slice_ns = default_slice;
        current_slice_ns = 0;
      } in
      rw (points, alive)
        (record {
          inv =
              Centralised-change_state K laws ce entity entity' running central_cpu here self alive
                refl (record { waits = refl; per_cpu = refl; in_slice = omega arith }) refl
                (λ d h. ground arith) inv;
          waiting =
              laws.rq_tasks-change_state (core_rq central_cpu) entity.task running central_cpu none
                w.kernel
              ∙ rw owner (without_head t ts _ unique queue);
          gone = (subst IsUnique queue unique).0;
          is_current =
              laws.current_task-change_state central_cpu entity.task running central_cpu none
                w.kernel
              ∙ ap some owner;
          on_cpu =
              laws.task_cpu-change_state t entity.task running central_cpu none w.kernel
              ∙ rw (owner, ==_refl t) refl;
          ptr = ce;
          entity = entity';
          points = points;
          alive = rw (==_refl ce);
          owner = owner;
          runs = refl;
          slice = refl;
          fresh = refl;
          core_current = refl;
        })

  -- `schedule` on the central cpu puts the first task of the queue on it, with a fresh slice, and
  -- leaves the others in their order.
  pub central_schedule-OnCentral :
      (live : ℕ → Bool) (w : CentralWorld S M) (t : ℕ) (ts : List ℕ)
      → CentralInv K live w
      → K.rq_tasks (core_rq central_cpu) w.kernel ≡ t ∷ ts
      → Returns (OnCentral K live t ts) (central_schedule K central_cpu w)
  unfolding central_schedule
  central_schedule-OnCentral live w t ts inv queue =
      Returns->>= (λ w₁. CentralInv K live w₁ × (w₁.kernel ≡ w.kernel)) (OnCentral K live t ts) _ _
        (charge_running-keeps K laws live w central_cpu inv)
        (λ w₁ same.
          let queue₁ : K.rq_tasks (core_rq central_cpu) w₁.kernel ≡ t ∷ ts = rw same.1 queue in
          let first : K.first_task (core_rq central_cpu) w₁.kernel ≡ some t =
            laws.first_task_lem (core_rq central_cpu) w₁.kernel ∙ ap head? queue₁ in
          rw first (start-OnCentral live w₁ t ts same.0 queue₁))

  -- With an empty queue, `schedule` reads the next task through NULL on the central cpu; on every
  -- other cpu it goes through and changes no task and no queue.
  pub central_schedule-empty :
      (live : ℕ → Bool) (w : CentralWorld S M) (cpu : ℕ)
      → CentralInv K live w
      → K.rq_tasks (core_rq cpu) w.kernel ≡ []
      → (cpu ≡ central_cpu → central_schedule K cpu w ≡ none)
        × ((cpu == central_cpu) ≡ false
            → Returns
                (λ w'. CentralInv K live w' × (w'.kernel ≡ w.kernel))
                (central_schedule K cpu w))
  unfolding central_schedule
  central_schedule-empty live w cpu inv empty = (
    λ central.
        faults (λ w₁. CentralInv K live w₁ × (w₁.kernel ≡ w.kernel)) _ _
          (charge_running-keeps K laws live w cpu inv)
          (λ w₁ same. rw (no_task w₁ same.1, central) refl),
    λ other.
        Returns->>= (λ w₁. CentralInv K live w₁ × (w₁.kernel ≡ w.kernel)) _ _ _
          (charge_running-keeps K laws live w cpu inv)
          (λ w₁ same. rw (no_task w₁ same.1, other) same),
  )
    where
      no_task :
          (w₁ : CentralWorld S M)
          → w₁.kernel ≡ w.kernel
          → K.first_task (core_rq cpu) w₁.kernel ≡ none
      no_task w₁ same =
          laws.first_task_lem (core_rq cpu) w₁.kernel
          ∙ ap head? (ap (K.rq_tasks (core_rq cpu)) same ∙ empty)

      faults :
          (P : CentralWorld S M → Type 0) (r : Option (CentralWorld S M))
          (f : CentralWorld S M → Option (CentralWorld S M))
          → Returns P r
          → ((w₁ : CentralWorld S M) → P w₁ → f w₁ ≡ none)
          → (r >>= f) ≡ none
      faults P none f h k = absurd h
      faults P (some w₁) f h k = k w₁ h

  -- What the tick of `central_tick` compares with the slice is the clock.
  clock : (c now : ℕ) → c ≤ now → now < u64_mod → add64 c (sub64 now c) ≡ now
  clock c now h k = omega arith

  tick-requeue :
      (live : ℕ → Bool) (w : CentralWorld S M) (now t : ℕ) (rest : List ℕ) (e : ProcessEvent)
      → e.target ≡ t
      → OnCentral K live t rest w
      → default_slice ≤ now
      → now < u64_mod
      → Returns
          (λ w'.
            (K.rq_tasks (core_rq central_cpu) w'.kernel ≡ rest ++ t ∷ [])
            × (K.current_task central_cpu w'.kernel ≡ none)
            × ((w'.core central_cpu).current_entity ≡ none))
          (central_tick K e now w)
  unfolding central_tick central_enqueue_task
  tick-requeue live w now t rest e target on late fits =
      let ce : ℕ = on.ptr in
      let old : CentralEntity = on.entity in
      let points : w.metadata e.target ≡ some ce = ap w.metadata target ∙ on.points in
      let home : K.task_cpu old.task w.kernel ≡ central_cpu = rw on.owner on.on_cpu in
      let used : add64 old.current_slice_ns (sub64 now old.current_slice_ns) ≡ now =
        rw on.fresh (clock 0 now (omega arith) fits) in
      let test : leb old.slice_ns now ≡ true = rw on.slice (ground arith) in
      rw (points, on.alive, used, test)
        (rw (==_refl ce) (
          rw (==_refl ce) (
            laws.rq_tasks-change_state (core_rq central_cpu) old.task ready_tick central_cpu
                  (some (core_rq (K.task_cpu old.task w.kernel))) w.kernel
                ∙ rw (home) (rw (on.owner, on.waiting, without_absent t rest on.gone)),
            laws.current_task-change_state central_cpu old.task ready_tick central_cpu
                  (some (core_rq (K.task_cpu old.task w.kernel))) w.kernel
                ∙ rw (on.owner, on.is_current) (rw (==_refl t)),
            ground (arith),
          )))

  -- A task that the central cpu has just been given loses it at the very next tick, however soon it
  -- comes, once the clock is past the slice length: it goes to the end of the queue and the cpu has
  -- no task.
  pub schedule-tick_preempts :
      (live : ℕ → Bool) (w : CentralWorld S M) (now t : ℕ) (ts : List ℕ)
      → CentralInv K live w
      → K.rq_tasks (core_rq central_cpu) w.kernel ≡ t ∷ ts
      → default_slice ≤ now
      → now < u64_mod
      → Returns
          (λ w'.
            (K.rq_tasks (core_rq central_cpu) w'.kernel ≡ ts ++ t ∷ [])
            × (K.current_task central_cpu w'.kernel ≡ none)
            × ((w'.core central_cpu).current_entity ≡ none))
          (central_schedule K central_cpu w
            >>= central_tick K (record { target = t; flags = 0; cpu = central_cpu }) now)
  schedule-tick_preempts live w now t ts inv queue late fits =
      Returns->>= (OnCentral K live t ts) _ _ _ (central_schedule-OnCentral live w t ts inv queue)
        (λ w' on.
          tick-requeue live w' now t ts (record { target = t; flags = 0; cpu = central_cpu }) refl
            on late fits)
