-- ===== src/Fifo/Shows.antt =====
-- How the memory of the per-core FIFO policy (modules/fifo_benchs/fifo.c) shows a state of the abstract
-- scheduler, and what the steps that the routines are made of do to it.
use mathlib.Core.Path.{fun_ext}
use saakm_misc.Prelude.{
  some_injective, ℕ, Bool, true, false, Option, none, some, ◌≡◌, refl, sym, ◌∙◌, ap, subst, ◌>>=◌,
  ◌==◌, ◌&&◌, if◌then◌else◌, ==_iff, ==_refl, Bool-cases, inl, inr, arith, update,
}
use saakm_misc.Kernel.{IpanemaState, core_rq, Kernel, KernelLaws, targets, placed, current_after}
use saakm_misc.Tracking.{Inv, ptr_ne, Inv-change_state, Tracked}
use saakm_misc.Tracking.Objects.{Inv-rewrite}
use saakm_misc.Fifo.{FifoProcess}
use saakm_misc.Fifo.Invariant.{IsGood, task_of, rq_of}
use saakm_misc.Fifo.Spec.{Board, set_clock}

-- A task's clock, read through its pointer.
abbrev pub clock : (ℕ → Option FifoProcess) → (ℕ → Option ℕ) → ℕ → Option (ℕ × ℕ)
clock heap metadata t = do p ← metadata t; e ← heap p; some (e.current_quantum_ns, e.last_sched_ns)

module _ {S M : Type 0} (K : Kernel S M) where
  -- The invariant holds, the memory and the board say the same of every task and cpu, and the objects
  -- that are allocated are those of the attached tasks.
  pub record Shows (live : ℕ → Bool) (k : S) (heap : ℕ → Option FifoProcess)
      (metadata : ℕ → Option ℕ) (a : Board) : Type 0 where
    pub inv : Inv K task_of rq_of IsGood live k heap metadata
    pub same_live : (t : ℕ) → live t ≡ a.live t
    pub same_home : (t : ℕ) → K.task_cpu t k ≡ a.home t
    pub same_queue : (c : ℕ) → K.rq_tasks (core_rq c) k ≡ a.queue c
    pub same_current : (c : ℕ) → K.current_task c k ≡ a.current c
    pub same_clock : (t : ℕ) → live t ≡ true → clock heap metadata t ≡ some (a.charged t, a.since t)
    pub owned :
        (p : ℕ) (e : FifoProcess)
        → heap p ≡ some e
        → (live e.task ≡ true) × (metadata e.task ≡ some p)

  -- The board after a `change_state` of a task on its own cpu.
  abbrev pub changed : IpanemaState → Bool → ℕ → Board → Board
  changed s queued t a = record a {
    queue = λ c. placed (queued && (a.home t == c)) t (a.queue c);
    current = λ c. current_after s (a.home t == c) t (a.current c);
  }

  queue_of :
      (queued : Bool) (x c : ℕ)
      → targets (if queued then some (core_rq x) else none) (core_rq c) ≡ (queued && (x == c))
  queue_of true x c = refl
  queue_of false x c = refl

  -- The object of one task is not read for the clock of another.
  pub clock_other :
      (live : ℕ → Bool) (k : S) (heap : ℕ → Option FifoProcess) (metadata : ℕ → Option ℕ) (p : ℕ)
      (e : FifoProcess)
      → heap p ≡ some e
      → (u : ℕ) (o : Option FifoProcess) → Tracked K task_of rq_of IsGood u k heap metadata
      → (e.task == u) ≡ false
      → clock (update heap p o) metadata u ≡ clock heap metadata u
  clock_other live k heap metadata p e alive u o its other =
      rw its.points (rw (ptr_ne K task_of rq_of IsGood e.task u p e alive refl its other) refl)

  module _ (live : ℕ → Bool) (k : S) (heap : ℕ → Option FifoProcess) (metadata : ℕ → Option ℕ)
      (p : ℕ) (e e' : FifoProcess) (alive : heap p ≡ some e) (points : metadata e.task ≡ some p)
      (owner' : e'.task ≡ e.task) where
    clock_self :
        clock (update heap p (some e')) metadata e.task
        ≡ some (e'.current_quantum_ns, e'.last_sched_ns)
    clock_self = rw points (rw (==_refl p) refl)

    same_clock-update :
        (a : Board)
        → Shows live k heap metadata a
        → (u : ℕ) → live u ≡ true
        → let b = set_clock e.task e'.current_quantum_ns e'.last_sched_ns a in
          clock (update heap p (some e')) metadata u ≡ some (b.charged u, b.since u)
    same_clock-update a shows u h = elim (Bool-cases (e.task == u)) [
      | inl same ↦ rw same (
          subst
            (λ v.
              clock (update heap p (some e')) metadata v
              ≡ some (e'.current_quantum_ns, e'.last_sched_ns))
            ((==_iff e.task u).0 same) clock_self)
      | inr other ↦ rw other (
          clock_other live k heap metadata p e alive u (some e') (shows.inv.tracked u h) other
          ∙ shows.same_clock u h)
    ]

    owned-update :
        live e.task ≡ true
        → ((q : ℕ) (x : FifoProcess)
            → heap q ≡ some x
            → (live x.task ≡ true) × (metadata x.task ≡ some q))
        → (q : ℕ) (x : FifoProcess) → update heap p (some e') q ≡ some x
        → (live x.task ≡ true) × (metadata x.task ≡ some q)
    owned-update here owned q x h = elim (Bool-cases (p == q)) [
      | inl same ↦ ground arith
      | inr other ↦ owned q x (ground arith)
    ]

    -- An object is rewritten, its task and run queue staying as they were.
    pub Shows-rewrite :
        (a : Board)
        → live e.task ≡ true
        → e'.rq ≡ e.rq
        → IsGood e'
        → Shows live k heap metadata a
        → Shows live k
            (update heap p (some e'))
            metadata
            (set_clock e.task e'.current_quantum_ns e'.last_sched_ns a)
    Shows-rewrite a here same_rq good shows = record {
      inv =
          Inv-rewrite K task_of rq_of IsGood e.task p e e' points alive refl owner' same_rq good
            shows.inv;
      same_live = shows.same_live;
      same_home = shows.same_home;
      same_queue = shows.same_queue;
      same_current = shows.same_current;
      same_clock = same_clock-update a shows;
      owned = owned-update here shows.owned;
    }

    -- `change_state` for a task on its own cpu, with the update of its object.
    pub Shows-change :
        (laws : KernelLaws K) (a : Board) (s : IpanemaState) (queued : Bool)
        → live e.task ≡ true
        → IsGood e'
        → e'.rq ≡ (if queued then some (core_rq (K.task_cpu e.task k)) else none)
        → Shows live k heap metadata a
        → Shows live
            (K.change_state e.task s (K.task_cpu e.task k) e'.rq k)
            (update heap p (some e'))
            metadata
            (set_clock e.task e'.current_quantum_ns e'.last_sched_ns (changed s queued e.task a))
    Shows-change laws a s queued here good rq shows = record {
      inv =
          Inv-change_state K task_of rq_of IsGood laws e.task p e e' s _ here points alive refl
            owner' good
            (λ d h.
              let h' : (queued && (K.task_cpu e.task k == d)) ≡ true =
                sym (ap (λ q. targets q (core_rq d)) rq ∙ queue_of queued (K.task_cpu e.task k) d)
                ∙ h in
              ground arith)
            shows.inv;
      same_live = shows.same_live;
      same_home = λ u.
          laws.task_cpu-change_state u e.task s (K.task_cpu e.task k) e'.rq k
          ∙ ground (arith, shows.same_home u);
      same_queue = λ c.
          laws.rq_tasks-change_state (core_rq c) e.task s (K.task_cpu e.task k) e'.rq k
          ∙ rw (ap (λ q. targets q (core_rq c)) rq ∙ queue_of queued (K.task_cpu e.task k) c)
              (rw (shows.same_home e.task, shows.same_queue c) refl);
      same_current = λ c.
          laws.current_task-change_state c e.task s (K.task_cpu e.task k) e'.rq k
          ∙ rw (shows.same_home e.task, shows.same_current c) refl;
      same_clock = same_clock-update a shows;
      owned = owned-update here shows.owned;
    }

  module _ {live : ℕ → Bool} {k : S} {heap : ℕ → Option FifoProcess} {metadata : ℕ → Option ℕ}
      {a : Board} where
    -- What the object of an attached task says of its clock.
    pub shown_clock :
        (t p : ℕ) (e : FifoProcess)
        → Shows live k heap metadata a
        → live t ≡ true
        → metadata t ≡ some p
        → heap p ≡ some e
        → (e.current_quantum_ns ≡ a.charged t) × (e.last_sched_ns ≡ a.since t)
    shown_clock t p e shows here points alive =
        let read : clock heap metadata t ≡ some (e.current_quantum_ns, e.last_sched_ns) =
          rw points (rw alive refl) in
        let same : (e.current_quantum_ns, e.last_sched_ns) ≡ (a.charged t, a.since t) =
          some_injective (sym read ∙ shows.same_clock t here) in
        (ap (λ x. x.0) same, ap (λ x. x.1) same)

-- Writing back what a table holds changes nothing.
update_same {ℓ} : {A : Type ℓ} (f : ℕ → A) (i : ℕ) → update f i (f i) ≡ f
update_same f i = fun_ext λ j. ground arith

pub set_clock-same :
    (t used since : ℕ) (a : Board)
    → used ≡ a.charged t
    → since ≡ a.since t
    → set_clock t used since a ≡ a
set_clock-same t used since a charged_same since_same =
    rw (charged_same, since_same)
      (λ i. record {
        live = a.live;
        home = a.home;
        queue = a.queue;
        current = a.current;
        charged = update_same a.charged t i;
        since = update_same a.since t i;
      })
