-- ===== src/Fifo/Moves.antt =====
-- The steps of modules/fifo_benchs/fifo.c that leave a task's clock, or drop the task, and the state of the
-- abstract scheduler that the memory shows after them.
use mathlib.Core.Bool.{false≢true}
use saakm_misc.Prelude.{
  elem, ◌≢◌, ℕ, Bool, true, false, Option, none, some, ◌≡◌, refl, sym, ◌∙◌, ap, subst, ◌==◌,
  if◌then◌else◌, Bool-cases, inl, inr, arith, update,
}
use saakm_misc.Kernel.{IpanemaState, Rq, core_rq, Kernel, KernelLaws}
use saakm_misc.Tracking.Objects.{Inv-kfree}
use saakm_misc.Fifo.{FifoProcess}
use saakm_misc.Fifo.Invariant.{IsGood, task_of, rq_of}
use saakm_misc.Fifo.Spec.{Board}
use saakm_misc.Fifo.Shows.{Shows, changed, clock_other, shown_clock, Shows-change, set_clock-same}

-- `change_state` with an update that leaves the clock.
module _ {S M : Type 0} (K : Kernel S M) (laws : KernelLaws K) where
  pub Shows-move :
      {live : ℕ → Bool} {k : S} {heap : ℕ → Option FifoProcess} {metadata : ℕ → Option ℕ} (p : ℕ)
      (e e' : FifoProcess) (a : Board) (s : IpanemaState) (queued : Bool) (t : ℕ)
      → Shows K live k heap metadata a
      → heap p ≡ some e
      → metadata e.task ≡ some p
      → live e.task ≡ true
      → e.task ≡ t
      → e'.task ≡ e.task
      → e'.current_quantum_ns ≡ e.current_quantum_ns
      → e'.last_sched_ns ≡ e.last_sched_ns
      → IsGood e'
      → e'.rq ≡ (if queued then some (core_rq (K.task_cpu e.task k)) else none)
      → Shows K live
          (K.change_state e.task s (K.task_cpu e.task k) e'.rq k)
          (update heap p (some e'))
          metadata
          (changed K s queued t a)
  Shows-move {live} {k} {heap} {metadata} p e e' a s queued t shows alive points here owner owner'
        same_used same_since good rq =
      let (charged, since) = shown_clock K e.task p e shows here points alive in
      subst
        (λ b.
          Shows K live (K.change_state e.task s (K.task_cpu e.task k) e'.rq k)
            (update heap p (some e')) metadata b)
        (set_clock-same e.task _ _ (changed K s queued e.task a) (same_used ∙ charged)
            (same_since ∙ since)
          ∙ ap (λ t. changed K s queued t a) owner)
        (Shows-change K live k heap metadata p e e' alive points owner' laws a s queued here good rq
          shows)

-- A task that is on no queue and runs nowhere is dropped, and its object freed.
module _ {S M : Type 0} (K : Kernel S M) where
  pub Shows-kfree :
      {live : ℕ → Bool} {k : S} {heap : ℕ → Option FifoProcess} {metadata : ℕ → Option ℕ} (p : ℕ)
      (e : FifoProcess) (a : Board)
      → Shows K live k heap metadata a
      → heap p ≡ some e
      → ((r : Rq) → elem e.task (K.rq_tasks r k) ≡ false)
      → ((c : ℕ) → K.current_task c k ≢ some e.task)
      → Shows K
          (update live e.task false)
          k
          (update heap p none)
          metadata
          (record a { live = update a.live e.task false })
  Shows-kfree {live} {k} {heap} {metadata} p e a shows alive off idle = record {
    inv = Inv-kfree K task_of rq_of IsGood e.task p e alive refl off idle shows.inv;
    same_live = λ u. ground (arith, shows.same_live u);
    same_home = shows.same_home;
    same_queue = shows.same_queue;
    same_current = shows.same_current;
    same_clock = λ u h. elim (Bool-cases (e.task == u)) [
      | inl same ↦ absurd (false≢true (sym (rw same refl) ∙ h))
      | inr other ↦
          let here : live u ≡ true = sym (rw other refl) ∙ h in
          clock_other K live k heap metadata p e alive u none (shows.inv.tracked u here) other
          ∙ shows.same_clock u here
    ];
    owned = λ q x h. ground (arith, shows.owned q x, shows.owned p e);
  }
