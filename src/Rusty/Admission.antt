-- ===== src/Rusty/Admission.antt =====
-- `sched_new_prepare` of modules/rusty_saakm/rusty_saakm.c: the cpu of a new task.
use mathlib.Core.Bool.{false≢true}
use saakm_misc.Prelude.{
  ℕ, Bool, true, false, ℤ, pos, negsuc, ◌≤◌, some, ◌≡◌, sym, ◌∙◌, subst, ◌⊎◌, inl, inr, update,
  Returns, Returns-weaken,
}
use saakm_misc.Kernel.{Kernel, CpumaskLaws, SmtLaws, ProcessEvent, flag_set}
use saakm_misc.Rusty.{max_doms, Platform, PlatformLaws, MaskMemory, RustyWorld, RustyProcess}
use saakm_misc.Rusty.Select.{Choice, rusty_select_cpu}
use saakm_misc.Rusty.Invariant.{IsGood, RustyInv}
use saakm_misc.Rusty.Attempts.{Outcome, Selected}
use saakm_misc.Rusty.Wakeup.{SelectedCpu, rusty_select_cpu-Selected}
use saakm_misc.Rusty.Domains.{Inside, Inhabited}
use saakm_misc.Rusty.Arrival.{Meets}

module _ {S M : Type 0} (K : Kernel S M) (P : Platform S M) (B : M) (live : ℕ → Bool)
    (w : RustyWorld S M) (e : ProcessEvent) where
  -- A cpu that the task may run on, or the cpu that it is on, which is kept if it may run on one cpu
  -- only or in a synchronous wakeup; -EBUSY only if no domain has a cpu that it may run on.
  abbrev pub ArrivedAt : ℤ → Type 0
  ArrivedAt (pos c) =
      (K.mask_test c (P.cpus_ptr e.target w.kernel) ≡ true)
      ⊎ ((c ≡ K.task_cpu e.target w.kernel)
          × ((P.nr_cpus_allowed e.target w.kernel ≡ 1) ⊎ (flag_set e.flags P.wf_sync ≡ true)))
  ArrivedAt (negsuc n) =
      (n ≡ 15)
      × ((d : ℕ)
          → w.globals.nr_doms ≤ max_doms
          → ¬ (Meets K P w.globals (P.cpus_ptr e.target w.kernel) d))

  pub record Arrived (r : Choice K P) : Type 0 where
    pub inv : RustyInv K P B (update live e.target true) r.1
    pub same_kernel : r.1.kernel ≡ w.kernel
    pub arrived_at : ArrivedAt r.0

  ArrivedAt-Outcome :
      (rp : ℕ) (e₂ : RustyProcess M) (w₂ : RustyWorld S M) (r : ℤ)
      → Inside K P e₂.cpumask (P.cpus_ptr e.target w.kernel)
      → ((d : ℕ)
          → w.globals.nr_doms ≤ max_doms
          → Meets K P w.globals (P.cpus_ptr e.target w.kernel) d
          → Inhabited K P e₂.cpumask)
      → Outcome K P B
          (update live e.target true)
          w₂
          e.target
          rp
          e₂.rq
          (SelectedCpu K P e.target (K.task_cpu e.target w.kernel) e₂.cpumask e.flags w.kernel)
          ((c : ℕ) → K.mask_test c e₂.cpumask ≡ false)
          r
      → ArrivedAt r
  ArrivedAt-Outcome rp e₂ w₂ (pos c) inside filled (inl here) = inl (inside c here)
  ArrivedAt-Outcome rp e₂ w₂ (pos c) inside filled (inr (inl (one, same))) = inr (same, inl one)
  ArrivedAt-Outcome rp e₂ w₂ (pos c) inside filled (inr (inr (sync, inl same))) =
      inr (same, inr sync)
  ArrivedAt-Outcome rp e₂ w₂ (pos c) inside filled (inr (inr (sync, inr (this, here)))) = inl here
  ArrivedAt-Outcome rp e₂ w₂ (negsuc n) inside filled (busy, empty) = (
    busy,
    λ d small m. let (c, here) = filled d small m in absurd (false≢true (sym (empty c) ∙ here)),
  )

module _ {S M : Type 0} (K : Kernel S M) (P : Platform S M) (B : M) (masks : CpumaskLaws K)
    (smt : SmtLaws K) (laws : PlatformLaws K P) (memory : MaskMemory P) where
  -- From the object as `task_pick_domain` leaves it.
  pub chosen-Arrived :
      (live : ℕ → Bool) (w : RustyWorld S M) (e : ProcessEvent) (rp : ℕ) (e₂ : RustyProcess M)
      (w₂ : RustyWorld S M)
      → RustyInv K P B (update live e.target true) w₂
      → w₂.kernel ≡ w.kernel
      → w₂.metadata e.target ≡ some rp
      → w₂.heap rp ≡ some e₂
      → e₂.task ≡ e.target
      → IsGood e₂
      → Inside K P e₂.cpumask (P.cpus_ptr e.target w.kernel)
      → ((d : ℕ)
          → w.globals.nr_doms ≤ max_doms
          → Meets K P w.globals (P.cpus_ptr e.target w.kernel) d
          → Inhabited K P e₂.cpumask)
      → Returns
          (Arrived K P B live w e)
          (rusty_select_cpu K P rp e.target (K.task_cpu e.target w.kernel) e.flags w₂)
  chosen-Arrived live w e rp e₂ w₂ inv same points alive owner good inside filled =
      let p = e.target in
      let prev = K.task_cpu p w.kernel in
      let live' = update live p true in
      let None = ((c : ℕ) → K.mask_test c e₂.cpumask ≡ false) in
      let Ok = SelectedCpu K P p prev e₂.cpumask e.flags in
      Returns-weaken (Selected K P B live' w₂ p rp e₂.rq (Ok w₂.kernel) None)
        (Arrived K P B live w e) (rusty_select_cpu K P rp p prev e.flags w₂)
        (rusty_select_cpu-Selected K P B live' w₂ p rp e₂ prev masks smt laws memory e.flags inv
          points alive owner good)
        (λ r s. record {
          inv = s.ready.inv;
          same_kernel = s.ready.same_kernel ∙ same;
          arrived_at =
              ArrivedAt-Outcome K P B live w e rp e₂ w₂ r.0 inside filled
                (subst (λ k. Outcome K P B live' w₂ p rp e₂.rq (Ok k) None r.0) same s.outcome);
        })
