-- ===== src/Fifo/Placement.antt =====
-- Where the tasks of the per-core FIFO policy (modules/fifo_benchs/fifo.c) are in the histories of the module:
-- the abstract scheduler's, and so the module's own.
use mathlib.Core.Bool.{false≢true}
use saakm_misc.Prelude.{
  ℕ, not, ◌&&◌, Bool, true, false, none, some, ◌≡◌, refl, sym, ◌∙◌, ap, subst, arith, List, ==_refl,
  elem, without, elem-without, IsUnique, Bool-cases, inl, inr, update, if◌then◌else◌,
}
use saakm_misc.Framework.{
  Call, new_prepare, new_place, new_end, yield, block, unblock_prepare, unblock_place, unblock_end,
  terminate, tick, schedule, core_entry, core_exit, newly_idle, enter_idle, exit_idle,
}
use saakm_misc.Kernel.{ProcessEvent}
use saakm_misc.Fifo.Spec.{Board, leave, arrive, spec_call, Follows, done, step, empty_board}
use saakm_misc.Prelude.{Returns, Returns-weaken}
use saakm_misc.Kernel.{Kernel, KernelLaws, core_rq}
use saakm_misc.Framework.{always, System, run}
use saakm_misc.Framework.Loading.{IsQuiet}
use saakm_misc.Fifo.{FifoWorld}
use saakm_misc.Fifo.Routines.{fifo_routines}
use saakm_misc.Fifo.Histories.{loaded}
use saakm_misc.Fifo.Simulation.{ShowsSystem}
use saakm_misc.Fifo.Refinement.{Implements, fifo_run-Implements}
use saakm_misc.Fifo.Exclusive.{
  IsExclusive, set_clock-IsExclusive, wait-IsExclusive, leave-IsExclusive, spend-IsExclusive,
  dispatch_any-IsExclusive,
}

-- A task that is on no queue can be given any cpu, and can be attached.
move-IsExclusive :
    (t home : ℕ) (a : Board)
    → ((c : ℕ) → elem t (a.queue c) ≡ false)
    → IsExclusive a
    → IsExclusive (record a { home = update a.home t home })
move-IsExclusive t home a nowhere it = record {
  one_cpu = it.one_cpu;
  not_both = it.not_both;
  at_home = λ c u h. ground (arith, it.at_home c u h, nowhere c);
  unique = it.unique;
  queued_live = it.queued_live;
}

attach-IsExclusive :
    (t : ℕ) (b : Bool) (a : Board)
    → ((c : ℕ) → elem t (a.queue c) ≡ false)
    → IsExclusive a
    → IsExclusive (record a { live = update a.live t b })
attach-IsExclusive t b a nowhere it = record {
  one_cpu = it.one_cpu;
  not_both = it.not_both;
  at_home = it.at_home;
  unique = it.unique;
  queued_live = λ c u h. ground (arith, it.queued_live c u h, nowhere c);
}

-- A task that is not attached, or is not on the queue of its cpu, is on no queue.
dead_nowhere :
    (t : ℕ) (a : Board) → IsExclusive a → a.live t ≡ false → (c : ℕ) → elem t (a.queue c) ≡ false
dead_nowhere t a it dead c = ground (arith, it.queued_live c t)

away_nowhere :
    (t : ℕ) (a : Board)
    → IsExclusive a
    → elem t (a.queue (a.home t)) ≡ false
    → (c : ℕ) → elem t (a.queue c) ≡ false
away_nowhere t a it away c = elim (Bool-cases (elem t (a.queue c))) [
  | inl on ↦ subst (λ d. elem t (a.queue d) ≡ false) (it.at_home c t on) away
  | inr off ↦ off
]

gone_nowhere : (t c : ℕ) (a : Board) → elem t (without t (a.queue c)) ≡ false
gone_nowhere t c a = elem-without t t (a.queue c) ∙ ground (arith, ==_refl t)

-- What a call does to a task that is attached, and to one that is not.
guard-IsExclusive :
    (test : Bool) (a b : Board)
    → IsExclusive a
    → (test ≡ true → IsExclusive b)
    → IsExclusive (if test then b else a)
guard-IsExclusive true a b it steps = steps refl
guard-IsExclusive false a b it steps = it

module _ (pid : ℕ → ℕ) (wf_exec online : ℕ) where
  arrive-IsExclusive :
      (e : ProcessEvent) (a : Board)
      → a.live e.target ≡ false
      → IsExclusive a
      → IsExclusive (arrive pid wf_exec online e a)
  arrive-IsExclusive e a dead it =
      let nowhere : (c : ℕ) → elem e.target (a.queue c) ≡ false = dead_nowhere e.target a it dead in
      set_clock-IsExclusive e.target 0 0 _
        (move-IsExclusive e.target _ _ nowhere (attach-IsExclusive e.target true a nowhere it))

  spec_call-IsExclusive :
      (memory : Bool) (c : Call) (a : Board)
      → IsExclusive a
      → IsExclusive (spec_call pid wf_exec online memory c a)
  unfolding spec_call
  spec_call-IsExclusive memory (new_prepare e) a it =
      guard-IsExclusive (not (a.live e.target) && memory) a _ it
        (λ h. arrive-IsExclusive e a (ground arith) it)
  spec_call-IsExclusive memory (new_place e) a it =
      guard-IsExclusive (a.live e.target) a _ it (λ h. wait-IsExclusive e.target a h it)
  spec_call-IsExclusive memory (new_end e) a it = it
  spec_call-IsExclusive memory (yield e) a it =
      guard-IsExclusive (a.live e.target) a _ it (λ h. wait-IsExclusive e.target a h it)
  spec_call-IsExclusive memory (block e) a it =
      guard-IsExclusive (a.live e.target) a _ it (λ h. leave-IsExclusive e.target a it)
  spec_call-IsExclusive memory (unblock_prepare e) a it =
      guard-IsExclusive (a.live e.target && not (elem e.target (a.queue (a.home e.target)))) a _ it
        (λ h. move-IsExclusive e.target _ a (away_nowhere e.target a it (ground arith)) it)
  spec_call-IsExclusive memory (unblock_place e) a it =
      guard-IsExclusive (a.live e.target) a _ it (λ h. wait-IsExclusive e.target a h it)
  spec_call-IsExclusive memory (unblock_end e) a it = it
  spec_call-IsExclusive memory (terminate e) a it = guard-IsExclusive (a.live e.target) a _ it (λ h.
      attach-IsExclusive e.target false (leave e.target a) (λ c. gone_nowhere e.target c a)
        (leave-IsExclusive e.target a it))
  spec_call-IsExclusive memory (tick e now) a it =
      guard-IsExclusive (a.live e.target) a _ it (λ h. spend-IsExclusive e.target now a h it)
  spec_call-IsExclusive memory (schedule cpu now) a it =
      dispatch_any-IsExclusive cpu now a it (a.queue cpu) refl
  spec_call-IsExclusive memory (core_entry e) a it = it
  spec_call-IsExclusive memory (core_exit e) a it = it
  spec_call-IsExclusive memory (newly_idle e) a it = it
  spec_call-IsExclusive memory (enter_idle e) a it = it
  spec_call-IsExclusive memory (exit_idle e) a it = it

-- The invariant holds at the end of a run of the abstract scheduler.
Follows-IsExclusive :
    {pid : ℕ → ℕ} {wf_exec : ℕ} {cs : List Call} {a b : Board}
    → Follows pid wf_exec cs a b
    → IsExclusive a
    → IsExclusive b
Follows-IsExclusive done it = it
Follows-IsExclusive (step {c} online memory rest) it =
    Follows-IsExclusive rest (spec_call-IsExclusive _ _ online memory c _ it)

empty_board-IsExclusive : (home : ℕ → ℕ) → IsExclusive (empty_board home)
empty_board-IsExclusive home = record {
  one_cpu = λ c d t h k. absurd (cc);
  not_both = λ c d t h. refl;
  at_home = λ c t h. absurd (false≢true h);
  unique = λ c. tt;
  queued_live = λ c t h. absurd (false≢true h);
}

module _ {S M : Type 0} (K : Kernel S M) where
  -- No task runs on two cpus, none is on a queue while it runs, none is on two queues or twice on one,
  -- and a task on a queue is attached and the queue is that of the cpu that the kernel has for it.
  pub record IsPlaced (s : System (FifoWorld S M)) : Type 0 where
    pub one_cpu :
        (c d t : ℕ)
        → K.current_task c s.world.kernel ≡ some t
        → K.current_task d s.world.kernel ≡ some t
        → c ≡ d
    pub not_both :
        (c d t : ℕ)
        → K.current_task c s.world.kernel ≡ some t
        → elem t (K.rq_tasks (core_rq d) s.world.kernel) ≡ false
    pub at_home :
        (c t : ℕ)
        → elem t (K.rq_tasks (core_rq c) s.world.kernel) ≡ true
        → K.task_cpu t s.world.kernel ≡ c
    pub unique : (c : ℕ) → IsUnique (K.rq_tasks (core_rq c) s.world.kernel)
    pub queued_live :
        (c t : ℕ) → elem t (K.rq_tasks (core_rq c) s.world.kernel) ≡ true → s.live t ≡ true

  module _ (laws : KernelLaws K) where
    Shows-IsPlaced :
        (s : System (FifoWorld S M)) (a : Board)
        → ShowsSystem K laws a s
        → IsExclusive a
        → IsPlaced s
    Shows-IsPlaced s a shows it = record {
      one_cpu = λ c d t h k.
          it.one_cpu c d t (sym (shows.same_current c) ∙ h) (sym (shows.same_current d) ∙ k);
      not_both = λ c d t h.
          ap (elem t) (shows.same_queue d) ∙ it.not_both c d t (sym (shows.same_current c) ∙ h);
      at_home =
          λ c t h. shows.same_home t ∙ it.at_home c t (sym (ap (elem t) (shows.same_queue c)) ∙ h);
      unique = λ c. subst IsUnique (sym (shows.same_queue c)) (it.unique c);
      queued_live = λ c t h.
          shows.same_live t ∙ it.queued_live c t (sym (ap (elem t) (shows.same_queue c)) ∙ h);
    }

    -- From loading the module on, with no object allocated yet, no sequence of routine calls faults, and
    -- after each: no task runs on two cpus, no task that runs is on a queue, no task is on two cpus'
    -- queues or twice on one, and a task on a cpu's queue is attached and has that cpu.
    pub fifo_run-IsPlaced :
        (possible : List ℕ) (w : FifoWorld S M) (cs : List Call)
        → IsQuiet K possible w.kernel
        → ((p : ℕ) → w.heap p ≡ none)
        → Returns IsPlaced (run K always (fifo_routines K) cs (loaded K possible w))
    fifo_run-IsPlaced possible w cs quiet fresh =
        let home : ℕ → ℕ = λ t. K.task_cpu t (loaded K possible w).world.kernel in
        Returns-weaken (Implements K laws cs (empty_board home)) IsPlaced
          (run K always (fifo_routines K) cs (loaded K possible w))
          (fifo_run-Implements K laws possible w cs quiet fresh)
          (λ s h. Shows-IsPlaced s h.0 h.2 (Follows-IsExclusive h.1 (empty_board-IsExclusive home)))
