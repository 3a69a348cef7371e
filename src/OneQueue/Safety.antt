-- ===== src/OneQueue/Safety.antt =====
-- The routines of the one-queue FIFO policy (modules/fifo_one_queue/fifo_one_queue.c) keep its
-- invariant.
use saakm_misc.Prelude.{
  ℕ, Bool, true, false, Option, none, some, ◌>>=◌, ◌≡◌, refl, sym, ◌∙◌, ap, subst, arith,
  Bool-cases, Option-cases, inl, inr, update, ==_refl, ◌==◌, Returns, add64,
}
use saakm_misc.Kernel.{
  IpanemaState, migrating, ready, ready_tick, blocked, terminated, running, Kernel, KernelLaws,
  ProcessEvent, CoreEvent, Rq, core_rq, global_rq, flag_set,
}
use saakm_misc.Kernel.Laws.{elem-head, elem-change_state, not_current-change_state}
use saakm_misc.World.{in_use, put}
use saakm_misc.Tracking.Pointers.{
  Attached, Sound, Sound-put, Sound-kzalloc, Sound-change_state, Sound-set_task_cpu, Sound-kfree,
}
use saakm_misc.Framework.{always, place_on, accepted}
use saakm_misc.Framework.Contract.{Contract, update_absent}
use saakm_misc.OneQueue.{
  FifoProcess, FifoWorld, Machine, quantum_over, select_cpu, fifo_enqueue_lock, blank_process,
  init_process, fifo_new_prepare, fifo_new_place, fifo_tick, fifo_yield, fifo_block,
  fifo_unblock_prepare, fifo_unblock_place, fifo_terminate, enqueue_running_task_fifo,
  check_global_rq, fifo_schedule,
}
use saakm_misc.OneQueue.Cores.{
  fifo_core_entry, fifo_core_exit, fifo_newly_idle, fifo_enter_idle, fifo_exit_idle,
}
use saakm_misc.OneQueue.Routines.{fifo_routines}

abbrev pub task_of : FifoProcess → ℕ
task_of e = e.task

abbrev pub OneInv : {S M : Type 0} → Kernel S M → (ℕ → Bool) → FifoWorld S M → Type 0
OneInv K live w = Sound K task_of live w.kernel w.heap w.metadata

module _ {S M : Type 0} (K : Kernel S M) (C : Machine S) (laws : KernelLaws K) where
  -- The first task of a queue is attached.
  first-live :
      (live : ℕ → Bool) (w : FifoWorld S M) (r : Rq) (t : ℕ)
      → OneInv K live w
      → K.first_task r w.kernel ≡ some t
      → live t ≡ true
  first-live live w r t inv first =
      inv.queued_live r t (elem-head t _ (sym (laws.first_task_lem r w.kernel) ∙ first))

  enqueue-keeps :
      (live : ℕ → Bool) (w : FifoWorld S M) (fp : ℕ) (e : FifoProcess) (s : IpanemaState)
      → w.heap fp ≡ some e
      → live e.task ≡ true
      → OneInv K live w
      → Returns (OneInv K live) (fifo_enqueue_lock K C fp s w)
  unfolding fifo_enqueue_lock
  enqueue-keeps live w fp e s alive here inv =
      rw alive (Sound-change_state K task_of laws e.task s _ _ here inv)

  -- A task is placed by way of its object.
  place-keeps :
      (live : ℕ → Bool) (w : FifoWorld S M) (t : ℕ) (s : IpanemaState)
      → OneInv K live w
      → live t ≡ true
      → Returns (OneInv K live) (w.metadata t >>= λ fp. fifo_enqueue_lock K C fp s w)
  place-keeps live w t s inv h =
      let its : Attached K task_of t w.heap w.metadata = inv.attached t h in
      rw its.points
        (enqueue-keeps live w its.ptr its.entity s its.alive (ap live its.owner ∙ h) inv)

  prepared-keeps :
      (live : ℕ → Bool) (w : FifoWorld S M) (e : ProcessEvent) (o : Option ℕ)
      → OneInv K live w
      → live e.target ≡ false
      → ((p : ℕ) → o ≡ some p → w.heap p ≡ none)
      → let r = init_process K C o e w in
        OneInv K (update live e.target (accepted r.0)) (place_on K e.target r.0 r.1)
  unfolding select_cpu
  prepared-keeps live w e none inv absent fresh =
      subst (λ live. OneInv K live w) (update_absent live e.target absent) inv
  prepared-keeps live w e (some fp) inv absent fresh =
      let attached =
        Sound-kzalloc K task_of e.target fp (blank_process K C e.target) (fresh fp refl) refl inv in
      elim (Bool-cases (flag_set e.flags K.wf_exec)) [
        | inl exec ↦ rw exec (Sound-set_task_cpu K task_of laws e.target _ attached)
        | inr fork ↦ rw fork (Sound-set_task_cpu K task_of laws e.target _ attached)
      ]

  fifo_new_prepare-keeps :
      (live : ℕ → Bool) (w : FifoWorld S M) (e : ProcessEvent)
      → OneInv K live w
      → live e.target ≡ false
      → let r = fifo_new_prepare K C e w in
        OneInv K (update live e.target (accepted r.0)) (place_on K e.target r.0 r.1)
  unfolding fifo_new_prepare
  fifo_new_prepare-keeps live w e inv absent =
      prepared-keeps live w e (K.kzalloc (in_use w) w.kernel) inv absent
        (λ p got. not_in_use p (laws.kzalloc_fresh (in_use w) w.kernel p got))
    where
      not_in_use : (p : ℕ) → in_use w p ≡ false → w.heap p ≡ none
      not_in_use p h = ground arith

  fifo_tick-keeps :
      (live : ℕ → Bool) (w : FifoWorld S M) (e : ProcessEvent) (now : ℕ)
      → OneInv K live w
      → live e.target ≡ true
      → Returns (OneInv K live) (fifo_tick K C e now w)
  unfolding fifo_tick
  fifo_tick-keeps live w e now inv h =
      let its : Attached K task_of e.target w.heap w.metadata = inv.attached e.target h in
      let quantum : ℕ = add64 its.entity.current_quantum_ns 1 in
      let process : FifoProcess = record (its.entity) { current_quantum_ns = quantum } in
      let counted : OneInv K live (put its.ptr process w) =
        Sound-put K task_of its.ptr its.entity process its.alive refl inv in
      elim (Bool-cases (quantum_over quantum)) [
        | inr more ↦ rw (its.points, its.alive, more) counted
        | inl over ↦
            rw (its.points, its.alive, over)
              (enqueue-keeps live (put its.ptr process w) its.ptr process ready_tick
                (rw (==_refl its.ptr) refl) (ap live its.owner ∙ h) counted)
      ]

  fifo_block-keeps :
      (live : ℕ → Bool) (w : FifoWorld S M) (e : ProcessEvent)
      → OneInv K live w
      → live e.target ≡ true
      → Returns (OneInv K live) (fifo_block K C e w)
  unfolding fifo_block
  fifo_block-keeps live w e inv h =
      let its : Attached K task_of e.target w.heap w.metadata = inv.attached e.target h in
      rw (its.points, its.alive)
        (Sound-change_state K task_of laws its.entity.task blocked _ none (ap live its.owner ∙ h) (
          Sound-put K task_of its.ptr its.entity
            (record (its.entity) { state = blocked; rq = none }) its.alive refl inv))

  fifo_terminate-keeps :
      (live : ℕ → Bool) (w : FifoWorld S M) (e : ProcessEvent)
      → OneInv K live w
      → live e.target ≡ true
      → Returns (OneInv K (update live e.target false)) (fifo_terminate K C e w)
  unfolding fifo_terminate
  fifo_terminate-keeps live w e inv h =
      let its : Attached K task_of e.target w.heap w.metadata = inv.attached e.target h in
      let t : ℕ = its.entity.task in
      let cpu : ℕ = K.task_cpu t w.kernel in
      let dead : FifoProcess = record (its.entity) { state = terminated; rq = none } in
      rw (its.points, its.alive)
        (subst
          (λ u.
            Sound K task_of (update live u false) (K.change_state t terminated cpu none w.kernel)
              (update (update w.heap its.ptr (some dead)) its.ptr none) w.metadata)
          its.owner
          (Sound-kfree K task_of t its.ptr dead (rw (==_refl its.ptr) refl) refl
            (λ r. elem-change_state K laws r t t terminated cpu none w.kernel ∙ rw (==_refl t) refl)
            (λ c. not_current-change_state K laws c t terminated cpu none w.kernel (λ x. cc))
            (Sound-change_state K task_of laws t terminated cpu none (ap live its.owner ∙ h)
              (Sound-put K task_of its.ptr its.entity dead its.alive refl inv))))

  enqueue_running-keeps :
      (live : ℕ → Bool) (w : FifoWorld S M) (t cpu : ℕ)
      → OneInv K live w
      → live t ≡ true
      → Returns (OneInv K live) (enqueue_running_task_fifo K C t cpu w)
  unfolding enqueue_running_task_fifo
  enqueue_running-keeps live w t cpu inv h =
      let its : Attached K task_of t w.heap w.metadata = inv.attached t h in
      rw (its.points, its.alive)
        (Sound-change_state K task_of laws its.entity.task running cpu none (ap live its.owner ∙ h)
          (Sound-put K task_of its.ptr its.entity (record (its.entity) { state = running })
            its.alive refl inv))

  check_global-keeps :
      (live : ℕ → Bool) (w : FifoWorld S M) (cpu : ℕ)
      → OneInv K live w
      → Returns (OneInv K live) (check_global_rq K C cpu (K.first_task global_rq w.kernel) w)
  check_global-keeps live w cpu inv = elim (Option-cases (K.first_task global_rq w.kernel)) [
    | inl empty ↦ rw empty inv
    | inr (t, first) ↦ elim (Bool-cases (K.task_cpu t w.kernel == cpu)) [
      | inl here ↦
          rw (first, here)
            (enqueue_running-keeps live w t cpu inv (first-live live w global_rq t inv first))
      | inr away ↦ rw (first, away) inv
    ]
  ]

  fifo_schedule-keeps :
      (live : ℕ → Bool) (w : FifoWorld S M) (cpu : ℕ)
      → OneInv K live w
      → Returns (OneInv K live) (fifo_schedule K C cpu w)
  unfolding fifo_schedule
  fifo_schedule-keeps live w cpu inv = elim (Option-cases (K.first_task (core_rq cpu) w.kernel)) [
    | inl empty ↦ rw empty (check_global-keeps live w cpu inv)
    | inr (t, first) ↦ rw first (
        Sound-change_state K task_of laws t running cpu none
          (first-live live w (core_rq cpu) t inv first) inv)
  ]

  fifo_newly_idle-keeps :
      (live : ℕ → Bool) (w : FifoWorld S M) (e : CoreEvent)
      → OneInv K live w
      → OneInv K live (fifo_newly_idle K e w)
  unfolding fifo_newly_idle
  fifo_newly_idle-keeps live w e inv = elim (Option-cases (K.first_task global_rq w.kernel)) [
    | inl empty ↦ rw empty inv
    | inr (t, first) ↦
        let h : live t ≡ true = first-live live w global_rq t inv first in
        elim (Bool-cases (K.task_cpu t w.kernel == e.target)) [
          | inl same ↦ rw (first, same) (Sound-change_state K task_of laws t ready _ _ h inv)
          | inr other ↦
              rw (first, other)
                (Sound-change_state K task_of laws t ready _ _ h
                  (Sound-change_state K task_of laws t migrating _ _ h inv))
        ]
  ]

  pub one_contract : Contract K always (fifo_routines K C) (OneInv K)
  unfolding fifo_new_place fifo_unblock_prepare fifo_unblock_place fifo_yield fifo_core_entry
      fifo_core_exit fifo_enter_idle fifo_exit_idle select_cpu
  one_contract = record {
    new_prepare_keeps = fifo_new_prepare-keeps;
    new_place_keeps = λ live w e inv h. place-keeps live w e.target ready inv h;
    block_keeps = fifo_block-keeps;
    unblock_prepare_keeps = λ live w e inv h off. Sound-set_task_cpu K task_of laws e.target _ inv;
    unblock_place_keeps = λ live w e inv h. place-keeps live w e.target ready inv h;
    terminate_keeps = fifo_terminate-keeps;
    yield_keeps = λ live w e inv h. place-keeps live w e.target ready inv h;
    tick_keeps = fifo_tick-keeps;
    schedule_keeps = λ live w cpu now inv may. fifo_schedule-keeps live w cpu inv;
    core_entry_keeps = λ live w e inv. inv;
    core_exit_keeps = λ live w e inv. inv;
    newly_idle_keeps = fifo_newly_idle-keeps;
    enter_idle_keeps = λ live w e inv. inv;
    exit_idle_keeps = λ live w e inv. inv;
  }
