-- ===== src/Fifo/Visits.antt =====
-- A task that comes and goes under the per-core FIFO policy (modules/fifo_benchs/fifo.c).
use mathlib.Core.Bool.{false≢true}
use saakm_misc.Prelude.{
  ℕ, Bool, true, false, Option, none, some, ◌≡◌, ◌≢◌, refl, sym, ◌∙◌, ap, subst, arith, List, [],
  ◌∷◌, ◌++◌, ◌==◌, ==_iff, ◌⊎◌, elem, without, without_absent, ==_refl, Returns, Returns-weaken,
  Bool-cases, inl, inr,
}
use saakm_misc.Kernel.{Kernel, KernelLaws, ProcessEvent, core_rq, forget, placed}
use saakm_misc.Framework.{always, Call, System, run, new_prepare, new_place, terminate}
use saakm_misc.Fifo.{FifoWorld}
use saakm_misc.Fifo.Routines.{fifo_routines}
use saakm_misc.Fifo.Spec.{Board, spec_call, Follows, done, step}
use saakm_misc.Fifo.Shows.{clock}
use saakm_misc.Fifo.Simulation.{ShowsSystem}
use saakm_misc.Fifo.Refinement.{Implements, run-Implements}

-- The calls for a task that is forked and dies before it runs.
abbrev pub visit : ProcessEvent → List Call
visit e = new_prepare e ∷ new_place e ∷ terminate e ∷ []

without_last : (t : ℕ) (xs : List ℕ) → elem t xs ≡ false → without t (xs ++ t ∷ []) ≡ xs
without_last t [] h = rw (==_refl t) refl
without_last t (x ∷ xs) h = ground (arith, without_last t xs)

without-placed :
    (b : Bool) (t : ℕ) (xs : List ℕ) → elem t xs ≡ false → without t (placed b t xs) ≡ xs
without-placed true t xs h = rw (without_absent t xs h) (without_last t xs h)
without-placed false t xs h = rw (without_absent t xs h) (without_absent t xs h)

forget_absent : (t : ℕ) (o : Option ℕ) → o ≢ some t → forget t o ≡ o
forget_absent t none h = refl
forget_absent t (some u) h = elim (Bool-cases (u == t)) [
  | inl same ↦ absurd (h (ground arith))
  | inr other ↦ rw other refl
]

module _ {pid : ℕ → ℕ} {wf_exec : ℕ} where
  Follows-nil : {a b : Board} → Follows pid wf_exec [] a b → b ≡ a
  Follows-nil done = refl

  Follows-cons :
      {c : Call} {cs : List Call} {a b : Board}
      → Follows pid wf_exec (c ∷ cs) a b
      → (online : ℕ) × (memory : Bool) × Follows pid wf_exec cs
          (spec_call pid wf_exec online memory c a)
          b
  Follows-cons (step online memory rest) = (online, memory, rest)

-- Two boards agree but for the cpu and the clock of one task.
record Agree (t : ℕ) (a b : Board) : Type 0 where
  live : (u : ℕ) → b.live u ≡ a.live u
  home : (u : ℕ) → (t == u) ≡ false → b.home u ≡ a.home u
  queue : (c : ℕ) → b.queue c ≡ a.queue c
  current : (c : ℕ) → b.current c ≡ a.current c
  charged : (u : ℕ) → (t == u) ≡ false → b.charged u ≡ a.charged u
  since : (u : ℕ) → (t == u) ≡ false → b.since u ≡ a.since u

module _ (pid : ℕ → ℕ) (wf_exec : ℕ) (e : ProcessEvent) (a : Board)
    (absent : a.live e.target ≡ false) (off : (c : ℕ) → elem e.target (a.queue c) ≡ false)
    (idle : (c : ℕ) → a.current c ≢ some e.target) where
  -- What the three calls do to the board, whatever the machine answers.
  after_visit : ℕ → Bool → ℕ → Bool → ℕ → Bool → Board
  after_visit on₁ m₁ on₂ m₂ on₃ m₃ =
      spec_call pid wf_exec on₃ m₃ (terminate e) (
        spec_call pid wf_exec on₂ m₂ (new_place e) (spec_call pid wf_exec on₁ m₁ (new_prepare e) a))

  after_visit-Agree :
      (on₁ : ℕ) (m₁ : Bool) (on₂ : ℕ) (m₂ : Bool) (on₃ : ℕ) (m₃ : Bool)
      → Agree e.target a (after_visit on₁ m₁ on₂ m₂ on₃ m₃)
  unfolding spec_call after_visit
  after_visit-Agree on₁ true on₂ m₂ on₃ m₃ = rw absent (
      rw (==_refl e.target) (
        rw (==_refl e.target) (record {
          live = λ u. ground (arith, absent);
          home = λ u other. rw other refl;
          queue = λ c. without-placed _ e.target (a.queue c) (off c);
          current = λ c.
              ap (forget e.target) (forget_absent e.target (a.current c) (idle c))
              ∙ forget_absent e.target (a.current c) (idle c);
          charged = λ u other. rw other refl;
          since = λ u other. rw other refl;
        })))
  after_visit-Agree on₁ false on₂ m₂ on₃ m₃ = rw absent (
      rw absent (
        rw absent (record {
          live = λ u. refl;
          home = λ u other. refl;
          queue = λ c. refl;
          current = λ c. refl;
          charged = λ u other. refl;
          since = λ u other. refl;
        })))

  visit-Agree : (b : Board) → Follows pid wf_exec (visit e) a b → Agree e.target a b
  unfolding after_visit
  visit-Agree b follows =
      let (on₁, m₁, rest₁) = Follows-cons follows in
      let (on₂, m₂, rest₂) = Follows-cons rest₁ in
      let (on₃, m₃, rest₃) = Follows-cons rest₂ in
      subst (Agree e.target a) (sym (Follows-nil rest₃)) (after_visit-Agree on₁ m₁ on₂ m₂ on₃ m₃)

-- The scheduling of two memories is the same: the same tasks attached, the same cpus and clocks of these,
-- the same queues and running tasks.
pub record IsSame {S M : Type 0} (K : Kernel S M) (s s' : System (FifoWorld S M)) : Type 0 where
  pub attached : (u : ℕ) → s'.live u ≡ s.live u
  pub homes : (u : ℕ) → s.live u ≡ true → K.task_cpu u s'.world.kernel ≡ K.task_cpu u s.world.kernel
  pub queues :
      (c : ℕ) → K.rq_tasks (core_rq c) s'.world.kernel ≡ K.rq_tasks (core_rq c) s.world.kernel
  pub currents : (c : ℕ) → K.current_task c s'.world.kernel ≡ K.current_task c s.world.kernel
  pub clocks :
      (u : ℕ)
      → s.live u ≡ true
      → clock s'.world.heap s'.world.metadata u ≡ clock s.world.heap s.world.metadata u

module _ {S M : Type 0} (K : Kernel S M) (laws : KernelLaws K) where
  agreed-IsSame :
      (t : ℕ) (a b : Board) (s s' : System (FifoWorld S M))
      → s.live t ≡ false
      → ShowsSystem K laws a s
      → ShowsSystem K laws b s'
      → Agree t a b
      → IsSame K s s'
  agreed-IsSame t a b s s' absent shows shows' agree = record {
    attached = λ u. shows'.same_live u ∙ agree.live u ∙ sym (shows.same_live u);
    homes = λ u here. shows'.same_home u ∙ agree.home u (apart u here) ∙ sym (shows.same_home u);
    queues = λ c. shows'.same_queue c ∙ agree.queue c ∙ sym (shows.same_queue c);
    currents = λ c. shows'.same_current c ∙ agree.current c ∙ sym (shows.same_current c);
    clocks = λ u here.
        let here' : s'.live u ≡ true =
          shows'.same_live u ∙ agree.live u ∙ sym (shows.same_live u) ∙ here in
        shows'.same_clock u here'
        ∙ rw (agree.charged u (apart u here), agree.since u (apart u here))
            (sym (shows.same_clock u here));
  }
    where
      apart : (u : ℕ) → s.live u ≡ true → (t == u) ≡ false
      apart u here = elim (Bool-cases (t == u)) [
        | inl same ↦ absurd (false≢true (sym absent ∙ ap s.live ((==_iff t u).0 same) ∙ here))
        | inr other ↦ other
      ]

  -- A task that the policy does not have is forked, placed and dies: no call faults, and afterwards the
  -- scheduling is the same as before. The same tasks are attached, on the same cpus and with the same
  -- clocks, and every cpu has the same queue and the same running task.
  pub visit-IsSame :
      (a : Board) (s : System (FifoWorld S M)) (e : ProcessEvent)
      → ShowsSystem K laws a s
      → s.live e.target ≡ false
      → Returns (IsSame K s) (run K always (fifo_routines K) (visit e) s)
  visit-IsSame a s e shows absent =
      Returns-weaken (Implements K laws (visit e) a) (IsSame K s)
        (run K always (fifo_routines K) (visit e) s) (run-Implements K laws (visit e) s a shows)
        (λ s' (b, follows, shows'). agreed-IsSame e.target a b s s' absent shows shows' (
          visit-Agree K.pid K.wf_exec e a (sym (shows.same_live e.target) ∙ absent)
            (λ c. off c (Bool-cases (elem e.target (a.queue c))))
            (λ c h.
              false≢true
                (sym absent ∙ shows.inv.current_live c e.target (shows.same_current c ∙ h)))
            b follows))
    where
      off :
          (c : ℕ)
          → (elem e.target (a.queue c) ≡ true) ⊎ (elem e.target (a.queue c) ≡ false)
          → elem e.target (a.queue c) ≡ false
      off c (inl there) = absurd (
          false≢true (
            sym absent
            ∙ shows.inv.queued_live (core_rq c) e.target
                (ap (elem e.target) (shows.same_queue c) ∙ there)))
      off c (inr away) = away
