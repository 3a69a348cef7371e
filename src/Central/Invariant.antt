-- ===== src/Central/Invariant.antt =====
-- The invariant of the central policy (modules/saakm_central/saakm_central.c), and the routines
-- called for one task.
use saakm_misc.Prelude.{
  ℕ, Bool, true, false, Option, none, some, ◌≡◌, ◌≢◌, ◌≤◌, refl, ◌∙◌, subst, elem, arith, is_some,
  update, Returns, ==_refl,
}
use saakm_misc.Kernel.{
  IpanemaState, ready, blocked, terminated, Kernel, KernelLaws, ProcessEvent, Rq, core_rq,
  global_rq, targets,
}
use saakm_misc.Kernel.Laws.{elem-change_state, not_current-change_state}
use saakm_misc.Central.{
  CentralEntity, CentralWorld, central_cpu, central_enqueue_task, central_new_place,
  central_unblock_place, central_yield, central_block, central_terminate,
}
use saakm_misc.Tracking.{Inv, Inv-change_state, is_waiting}
use saakm_misc.Tracking.Objects.{Inv-kfree}
use saakm_misc.Tracking.Attached.{attached_object}

-- The object names a run queue exactly in the two ready states, a per-cpu one, and has not used more
-- than its slice.
pub record IsGood (e : CentralEntity) : Type 0 where
  pub waits : is_waiting e.state ≡ is_some e.rq
  pub per_cpu : targets e.rq global_rq ≡ false
  pub in_slice : e.current_slice_ns ≤ e.slice_ns

abbrev pub task_of : CentralEntity → ℕ
task_of e = e.task

abbrev pub rq_of : CentralEntity → Option Rq
rq_of e = e.rq

module _ {S M : Type 0} (K : Kernel S M) where
  -- The tasks' objects and queues are in step, and every attached task is on the central cpu.
  pub record Centralised (live : ℕ → Bool) (k : S) (heap : ℕ → Option CentralEntity)
      (metadata : ℕ → Option ℕ) : Type 0 where
    pub in_step : Inv K task_of rq_of IsGood live k heap metadata
    pub on_central : (t : ℕ) → live t ≡ true → K.task_cpu t k ≡ central_cpu

  abbrev pub CentralInv : (ℕ → Bool) → CentralWorld S M → Type 0
  CentralInv live w = Centralised live w.kernel w.heap w.metadata

  module _ (laws : KernelLaws K) where
    pub Centralised-change_state :
        {live : ℕ → Bool} {k : S} {heap : ℕ → Option CentralEntity} {metadata : ℕ → Option ℕ}
        (p : ℕ) (e e' : CentralEntity) (s : IpanemaState) (c : ℕ)
        → live e.task ≡ true
        → metadata e.task ≡ some p
        → heap p ≡ some e
        → e'.task ≡ e.task
        → IsGood e'
        → c ≡ central_cpu
        → ((d : ℕ) → targets e'.rq (core_rq d) ≡ true → c ≡ d)
        → Centralised live k heap metadata
        → Centralised live (K.change_state e.task s c e'.rq k) (update heap p (some e')) metadata
    Centralised-change_state {k = k} p e e' s c here points alive same good central fits inv =
        record {
          in_step =
              Inv-change_state K task_of rq_of IsGood laws e.task p e e' s c here points alive refl
                same good fits inv.in_step;
          on_central = λ u h.
              ground (
                arith,
                laws.task_cpu-change_state u e.task s c e'.rq k,
                inv.on_central u h,
                central,
              );
        }

    -- Placing a task on the queue of its cpu, which is the central one.
    pub central_enqueue_task-keeps :
        (live : ℕ → Bool) (w : CentralWorld S M) (ce : ℕ) (e : CentralEntity) (s : IpanemaState)
        → is_waiting s ≡ true
        → w.heap ce ≡ some e
        → live e.task ≡ true
        → w.metadata e.task ≡ some ce
        → e.current_slice_ns ≤ e.slice_ns
        → CentralInv live w
        → Returns
            (CentralInv live)
            (central_enqueue_task K ce (core_rq (K.task_cpu e.task w.kernel)) s w)
    unfolding central_enqueue_task
    central_enqueue_task-keeps live w ce e s waits alive here points in_slice inv = rw alive (
        Centralised-change_state ce e e' s central_cpu here points alive refl
          (record { waits = waits; per_cpu = refl; in_slice = in_slice }) refl
          (λ d h. ground (arith, inv.on_central e.task here)) inv)
      where
        e' : CentralEntity
        e' = record e { state = s; rq = some (core_rq (K.task_cpu e.task w.kernel)) }

    pub central_new_place-keeps :
        (live : ℕ → Bool) (w : CentralWorld S M) (e : ProcessEvent)
        → CentralInv live w
        → live e.target ≡ true
        → Returns (CentralInv live) (central_new_place K e w)
    unfolding central_new_place
    central_new_place-keeps live w e inv h =
        let (ce, entity, points, alive, here, self, good, owner) =
          attached_object K task_of rq_of IsGood e.target inv.in_step h in
        rw (points, alive)
          (central_enqueue_task-keeps live w ce entity ready refl alive here self good.in_slice inv)

    pub central_unblock_place-keeps :
        (live : ℕ → Bool) (w : CentralWorld S M) (e : ProcessEvent)
        → CentralInv live w
        → live e.target ≡ true
        → Returns (CentralInv live) (central_unblock_place K e w)
    unfolding central_unblock_place
    central_unblock_place-keeps live w e inv h =
        let (ce, entity, points, alive, here, self, good, owner) =
          attached_object K task_of rq_of IsGood e.target inv.in_step h in
        rw (points, alive)
          (central_enqueue_task-keeps live w ce entity ready refl alive here self good.in_slice inv)

    pub central_yield-keeps :
        (live : ℕ → Bool) (w : CentralWorld S M) (e : ProcessEvent)
        → CentralInv live w
        → live e.target ≡ true
        → Returns (CentralInv live) (central_yield K e w)
    unfolding central_yield
    central_yield-keeps live w e inv h =
        let (ce, entity, points, alive, here, self, good, owner) =
          attached_object K task_of rq_of IsGood e.target inv.in_step h in
        rw (points, alive)
          (central_enqueue_task-keeps live w ce entity ready refl alive here self good.in_slice inv)

    pub central_block-keeps :
        (live : ℕ → Bool) (w : CentralWorld S M) (e : ProcessEvent)
        → CentralInv live w
        → live e.target ≡ true
        → Returns (CentralInv live) (central_block K e w)
    unfolding central_block
    central_block-keeps live w e inv h =
        let (ce, entity, points, alive, here, self, good, owner) =
          attached_object K task_of rq_of IsGood e.target inv.in_step h in
        let entity' : CentralEntity = record entity { state = blocked; rq = none } in
        rw (points, alive)
          (Centralised-change_state ce entity entity' blocked (K.task_cpu entity.task w.kernel) here
            self alive refl (record { waits = refl; per_cpu = refl; in_slice = good.in_slice })
            (inv.on_central entity.task here) (λ d h. ground arith) inv)

    pub central_terminate-keeps :
        (live : ℕ → Bool) (w : CentralWorld S M) (e : ProcessEvent)
        → CentralInv live w
        → live e.target ≡ true
        → Returns (CentralInv (update live e.target false)) (central_terminate K e w)
    unfolding central_terminate
    central_terminate-keeps live w e inv h =
        let (ce, entity, points, alive, here, self, good, owner) =
          attached_object K task_of rq_of IsGood e.target inv.in_step h in
        let entity' : CentralEntity = record entity { state = terminated; rq = none } in
        let cpu : ℕ = K.task_cpu entity.task w.kernel in
        let k' : S = K.change_state entity.task terminated cpu none w.kernel in
        let ended : Centralised live k' (update w.heap ce (some entity')) w.metadata =
          Centralised-change_state ce entity entity' terminated cpu here self alive refl
            (record { waits = refl; per_cpu = refl; in_slice = good.in_slice })
            (inv.on_central entity.task here) (λ d h. ground arith) inv in
        rw (points, alive)
          (record {
            in_step =
                Inv-kfree K task_of rq_of IsGood e.target ce entity' (rw (==_refl ce)) owner
                  (λ r.
                    subst (λ t. elem t (K.rq_tasks r k') ≡ false) owner
                      (elem-change_state K laws r entity.task entity.task terminated cpu none
                          w.kernel
                        ∙ rw (==_refl entity.task)))
                  (λ c.
                    subst (λ t. K.current_task c k' ≢ some t) owner
                      (not_current-change_state K laws c entity.task terminated cpu none w.kernel
                        (λ x. cc)))
                  ended.in_step;
            on_central = λ u h. ended.on_central u (ground arith);
          })
