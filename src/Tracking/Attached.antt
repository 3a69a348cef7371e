-- ===== src/Tracking/Attached.antt =====
-- What the routines use of the invariant for the task that they are called for.
use mathlib.Core.Bool.{false≢true}
use saakm_misc.Prelude.{
  ℕ, Bool, true, false, Option, some, ◌≡◌, sym, ◌∙◌, [], IsUnique, arith, ap, subst, elem,
  Bool-cases, inl, inr, none,
}
use saakm_misc.Kernel.{Kernel, Rq, core_rq, global_rq}
use saakm_misc.Tracking.{
  Tracked, Inv, Kernel, ℕ, Option, Rq, Bool, ◌≡◌, elem, core_rq, true, false, some, ap, ◌∙◌,
}

module _ {S M E : Type 0} (K : Kernel S M) (task_of : E → ℕ) (rq_of : E → Option Rq)
    (Good : E → Type 0) {live : ℕ → Bool} {k : S} {heap : ℕ → Option E}
    {metadata : ℕ → Option ℕ} where
  -- The task's object, reached by its own pointer.
  pub attached_object :
      (t : ℕ)
      → Inv K task_of rq_of Good live k heap metadata
      → live t ≡ true
      → (p : ℕ) × (e : E) × (metadata t ≡ some p)
        × (heap p ≡ some e)
        × (live (task_of e) ≡ true)
        × (metadata (task_of e) ≡ some p)
        × Good e
        × (task_of e ≡ t)
  attached_object t inv h =
      let its : Tracked K task_of rq_of Good t k heap metadata = inv.tracked t h in
      (
        its.ptr,
        its.entity,
        its.points,
        its.alive,
        ap live its.owner ∙ h,
        ap metadata its.owner ∙ its.points,
        its.good,
        its.owner,
      )

  -- A task that the kernel may move: not on the queue of its cpu nor on the global one, so on none.
  pub off_queues :
      (t : ℕ)
      → Inv K task_of rq_of Good live k heap metadata
      → elem t (K.rq_tasks (core_rq (K.task_cpu t k)) k) ≡ false
      → elem t (K.rq_tasks global_rq k) ≡ false
      → (r : Rq) → elem t (K.rq_tasks r k) ≡ false
  off_queues t inv off off_global (core_rq c) =
      elim (Bool-cases (elem t (K.rq_tasks (core_rq c) k))) [
        | inl there ↦ absurd (
            false≢true (
              sym off
              ∙ subst (λ d. elem t (K.rq_tasks (core_rq d) k) ≡ true) (sym (inv.home c t there))
                  there))
        | inr away ↦ away
      ]
  off_queues t inv off off_global global_rq = off_global

module _ {S M E : Type 0} (K : Kernel S M) (task_of : E → ℕ) (rq_of : E → Option Rq)
    (Good : E → Type 0) where
  -- With no task attached, empty queues and idle cpus are all that the invariant asks for.
  pub Inv-empty :
      (k : S) (heap : ℕ → Option E) (metadata : ℕ → Option ℕ)
      → ((r : Rq) → K.rq_tasks r k ≡ [])
      → ((c : ℕ) → K.current_task c k ≡ none)
      → Inv K task_of rq_of Good (λ t. false) k heap metadata
  Inv-empty k heap metadata empty idle = record {
    tracked = λ t h. absurd (false≢true h);
    queued_live = λ r t h. absurd (false≢true (sym (ap (elem t) (empty r)) ∙ h));
    current_live = λ c t h. ground (arith, idle c);
    home = λ c t h. absurd (false≢true (sym (ap (elem t) (empty (core_rq c))) ∙ h));
    unique = λ r. subst IsUnique (sym (empty r)) tt;
  }
