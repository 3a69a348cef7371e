-- ===== src/Fifo/Simulation.antt =====
-- Whole histories of the per-core FIFO policy (modules/fifo_benchs/fifo.c) against the abstract scheduler.
use saakm_misc.Prelude.{
  ℕ, is_some, Bool, true, false, not, ◌&&◌, Option, none, some, ◌≡◌, refl, sym, ◌∙◌, subst, arith,
  ==_refl, ◌==◌, if◌then◌else◌, Bool-cases, inl, inr, ◌>>=◌, Returns, Returns->>=, update, elem,
}
use saakm_misc.Kernel.{core_rq, Kernel, KernelLaws, ProcessEvent}
use saakm_misc.World.{in_use}
use saakm_misc.Framework.{
  place_on, accepted, always, is_queued, Call, System, for_task, deliver, new_prepare,
  unblock_prepare, terminate,
}
use saakm_misc.Tracking.{Tracked}
use saakm_misc.Framework.Contract.{update_absent}
use saakm_misc.Fifo.{
  fifo_terminate, FifoWorld, fifo_new_prepare, fifo_unblock_prepare, init_process, select_cpu,
}
use saakm_misc.Fifo.Invariant.{FifoInv, IsGood, task_of, rq_of}
use saakm_misc.Fifo.Routines.{fifo_routines, fifo_contract}
use saakm_misc.Fifo.Spec.{Board, leave, spec_call}
use saakm_misc.Fifo.Shows.{clock}
use saakm_misc.Fifo.Refines.{ShowsWorld}
use saakm_misc.Fifo.Turnover.{fifo_terminate-Shows}

module _ {S M : Type 0} (K : Kernel S M) (laws : KernelLaws K) where
  abbrev pub ShowsSystem : Board → System (FifoWorld S M) → Type 0
  ShowsSystem a s = ShowsWorld K laws s.live a s.world

  -- A new task, with an object or without memory for one.
  admit_shown :
      (live : ℕ → Bool) (w : FifoWorld S M) (a : Board) (e : ProcessEvent) (o : Option ℕ)
      → ShowsWorld K laws live a w
      → live e.target ≡ false
      → ((p : ℕ) → o ≡ some p → w.heap p ≡ none)
      → let r = init_process K o e w in
        let live' = update live e.target (accepted r.0) in
        FifoInv K live' (place_on K e.target r.0 r.1)
        → ShowsWorld K laws live'
            (spec_call K.pid K.wf_exec (K.num_online_cpus w.kernel) (is_some o) (new_prepare e) a)
            (place_on K e.target r.0 r.1)
  unfolding spec_call select_cpu
  admit_shown live w a e none shows absent fresh inv =
      rw (sym (shows.same_live e.target) ∙ absent) (record {
        inv = inv;
        same_live = λ u. ground (arith, shows.same_live u);
        same_home = shows.same_home;
        same_queue = shows.same_queue;
        same_current = shows.same_current;
        same_clock = λ u h. shows.same_clock u (ground arith);
        owned = λ q x h. ground (arith, shows.owned q x);
      })
  admit_shown live w a e (some fp) shows absent fresh inv =
      (rw (sym (shows.same_live e.target) ∙ absent) (record {
        inv = inv;
        same_live = λ u. ground (arith, shows.same_live u);
        same_home = λ u.
            laws.task_cpu-set_task_cpu u e.target _ w.kernel
            ∙ ground (arith, shows.same_home u, shows.same_home e.target);
        same_queue =
            λ c. laws.rq_tasks-set_task_cpu (core_rq c) e.target _ w.kernel ∙ shows.same_queue c;
        same_current =
            λ c. laws.current_task-set_task_cpu c e.target _ w.kernel ∙ shows.same_current c;
        same_clock = λ u h. elim (Bool-cases (e.target == u)) [
          | inl same ↦ rw same (rw (==_refl fp) refl)
          | inr other ↦
              let here : live u ≡ true = ground arith in
              let its : Tracked K task_of rq_of IsGood u w.kernel w.heap w.metadata =
                shows.inv.tracked u here in
              let apart : (fp == its.ptr) ≡ false = ground (arith, fresh fp refl, its.alive) in
              let read : clock w.heap w.metadata u ≡ some (a.charged u, a.since u) =
                shows.same_clock u here in
              rw (other, its.points) (rw apart (rw its.points at read))
        ];
        owned = λ q x h. ground (arith, shows.owned q x);
      }))

  -- Whether there is memory for a new task.
  abbrev pub has_memory : System (FifoWorld S M) → Bool
  has_memory s = is_some (K.kzalloc (in_use s.world) s.world.kernel)

  -- The system after a call shows the board after it, for the answers of the machine before it.
  abbrev pub Shown : Call → Board → System (FifoWorld S M) → System (FifoWorld S M) → Type 0
  Shown c a s =
      ShowsSystem (spec_call K.pid K.wf_exec (K.num_online_cpus s.world.kernel) (has_memory s) c a)

  module _ (s : System (FifoWorld S M)) (a : Board) (shows : ShowsSystem a s) where
    pub for_task-Shows :
        (e : ProcessEvent) (f : FifoWorld S M → Option (FifoWorld S M)) (b : Board)
        → (s.live e.target ≡ true → Returns (ShowsWorld K laws s.live b) (f s.world))
        → Returns (ShowsSystem (if a.live e.target then b else a)) (for_task e f s)
    for_task-Shows e f b acts = elim (Bool-cases (s.live e.target)) [
      | inl here ↦
          rw (here, sym (shows.same_live e.target) ∙ here)
            (Returns->>= (ShowsWorld K laws s.live b) _ (f s.world) _ (acts here) (λ w h. h))
      | inr absent ↦ rw (absent, sym (shows.same_live e.target) ∙ absent) shows
    ]

    pub terminate-Shown :
        (e : ProcessEvent)
        → Returns (Shown (terminate e) a s) (deliver K always (fifo_routines K) (terminate e) s)
    unfolding deliver spec_call
    terminate-Shown e = elim (Bool-cases (s.live e.target)) [
      | inl here ↦ rw here (
          ended here (fifo_terminate K e s.world)
            (fifo_terminate-Shows K laws s.live s.world a shows e here))
      | inr absent ↦ rw absent (
          rw (sym (shows.same_live e.target) ∙ absent) (
            subst (λ live. ShowsWorld K laws live a s.world) (update_absent s.live e.target absent)
              shows))
    ]
      where
        ended :
            s.live e.target ≡ true
            → (r : Option (FifoWorld S M))
            → Returns
                (ShowsWorld K laws
                  (update s.live e.target false)
                  (record (leave e.target a) { live = update a.live e.target false }))
                r
            → Returns (Shown (terminate e) a s) (
                (r >>= λ w. some (record s { world = w })) >>= λ s'.
                some (record s' { live = update s'.live e.target false }))
        ended here none k = k
        ended here (some w) k = rw (sym (shows.same_live e.target) ∙ here) k

    pub new_prepare-Shown :
        (e : ProcessEvent)
        → Returns (Shown (new_prepare e) a s) (deliver K always (fifo_routines K) (new_prepare e) s)
    unfolding deliver fifo_new_prepare spec_call
    new_prepare-Shown e = elim (Bool-cases (s.live e.target)) [
      | inl here ↦ rw here (rw (sym (shows.same_live e.target) ∙ here) shows)
      | inr absent ↦ rw absent (
          admit_shown s.live s.world a e (K.kzalloc (in_use s.world) s.world.kernel) shows absent
            (λ p got. not_in_use p (laws.kzalloc_fresh (in_use s.world) s.world.kernel p got))
            ((fifo_contract K laws).new_prepare_keeps s.live s.world e shows.inv absent))
    ]
      where
        not_in_use : (p : ℕ) → in_use s.world p ≡ false → s.world.heap p ≡ none
        not_in_use p h = ground arith

    pub unblock_prepare-Shown :
        (e : ProcessEvent)
        → Returns
            (Shown (unblock_prepare e) a s)
            (deliver K always (fifo_routines K) (unblock_prepare e) s)
    unfolding deliver spec_call fifo_unblock_prepare select_cpu
    unblock_prepare-Shown e =
        let t : ℕ = e.target in
        let k : S = s.world.kernel in
        let asleep : Bool = a.live t && not (elem t (a.queue (a.home t))) in
        let same : (s.live t && not (is_queued K t s.world)) ≡ asleep =
          rw (shows.same_live t, shows.same_home t, shows.same_queue (a.home t)) refl in
        elim (Bool-cases asleep) [
          | inl go ↦ rw (same ∙ go) (
              rw go (record {
                inv =
                    (fifo_contract K laws).unblock_prepare_keeps s.live s.world e shows.inv
                      (ground arith) (ground arith);
                same_live = shows.same_live;
                same_home = λ u.
                    laws.task_cpu-set_task_cpu u t _ k
                    ∙ ground (arith, shows.same_home u, shows.same_home t);
                same_queue = λ c. laws.rq_tasks-set_task_cpu (core_rq c) t _ k ∙ shows.same_queue c;
                same_current = λ c. laws.current_task-set_task_cpu c t _ k ∙ shows.same_current c;
                same_clock = shows.same_clock;
                owned = shows.owned;
              }))
          | inr stay ↦ rw (same ∙ stay) (rw stay shows)
        ]
