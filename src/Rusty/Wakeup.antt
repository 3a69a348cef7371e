-- ===== src/Rusty/Wakeup.antt =====
-- What `try_sync_wakeup` and `rusty_select_cpu` of modules/rusty_saakm/rusty_saakm.c return.
use saakm_misc.Prelude.{
  ℕ, Bool, true, false, not, ◌&&◌, ℤ, pos, negsuc, some, ◌≡◌, refl, ◌∙◌, ap, subst, Bool-cases,
  Option-cases, inl, inr, ◌⊎◌, arith, Returns, Returns->>=, Returns-weaken, if◌then◌else◌, ◌==◌,
  ltb, ==_iff,
}
use saakm_misc.Kernel.{Kernel, CpumaskLaws, SmtLaws, flag_set, core_rq}
use saakm_misc.Rusty.{max_doms, Platform, PlatformLaws, MaskMemory, RustyWorld, RustyProcess}
use saakm_misc.Rusty.Idle.{get_idle_cpumask}
use saakm_misc.Rusty.Tuner.{tuner_step}
use saakm_misc.Rusty.Select.{
  Choice, test_and_clear, try_if, select_idle, sync_here, try_sync_wakeup, rusty_select_cpu,
  is_empty, direct,
}
use saakm_misc.Rusty.Tuned.{Tuned, tuner_step-Tuned}
use saakm_misc.Rusty.Invariant.{IsGood, RustyInv, Tuned-keeps}
use saakm_misc.Rusty.Attempts.{
  Ready, Attempted, Outcome, Selected, direct-Selected, try_if-Selected, test_and_clear-Ready,
}
use saakm_misc.Rusty.Chosen.{select_idle-Selected}

module _ {S M : Type 0} (K : Kernel S M) (P : Platform S M) (p prev_cpu : ℕ) where
  -- A synchronous wakeup finds the previous cpu, or the waking one if the task may run there.
  abbrev pub SyncCpu : S → ℕ → Type 0
  SyncCpu k c = (c ≡ prev_cpu) ⊎ ((c ≡ P.this_cpu k) × (K.mask_test c (P.cpus_ptr p k) ≡ true))

  -- A cpu of the task's mask; or the previous cpu of a task that is pinned to one; or what a
  -- synchronous wakeup finds.
  abbrev pub SelectedCpu : M → ℕ → S → ℕ → Type 0
  SelectedCpu allowed wake_flags k c =
      (K.mask_test c allowed ≡ true)
      ⊎ (((P.nr_cpus_allowed p k ≡ 1) × (c ≡ prev_cpu))
          ⊎ ((flag_set wake_flags P.wf_sync ≡ true) × SyncCpu k c))

module _ {S M : Type 0} (K : Kernel S M) (P : Platform S M) (B : M) (live : ℕ → Bool)
    (w₀ : RustyWorld S M) (p rp : ℕ) (e : RustyProcess M) (prev_cpu : ℕ) (masks : CpumaskLaws K)
    (smt : SmtLaws K) (laws : PlatformLaws K P) (memory : MaskMemory P) where
  abbrev Woken : Choice K P → Type 0
  Woken = Attempted K P B live w₀ p rp e.rq (SyncCpu K P p prev_cpu w₀.kernel)

  sync_here-Attempted :
      (w : RustyWorld S M) (cores : M)
      → Ready K P B live w₀ p rp e.rq w
      → Woken (sync_here K P p e cores w)
  unfolding sync_here
  sync_here-Attempted w cores h =
      let cpu = P.this_cpu w.kernel in
      let idle = K.mask_intersects cores (get_idle_cpumask K P w.globals.idle_masks) in
      let runs = K.mask_test cpu (P.cpus_ptr p w.kernel) in
      let rest =
        not (P.is_exiting w.kernel)
        && (ltb e.dom_id max_doms && is_empty (K.rq_tasks (core_rq cpu) w.kernel)) in
      elim (Bool-cases (idle && (runs && rest))) [
        | inl here ↦ rw here (record {
          ready = h;
          range =
              subst (λ k. SyncCpu K P p prev_cpu k cpu) h.same_kernel
                (inr (refl, ground (arith, here)));
        })
        | inr elsewhere ↦ rw elsewhere (record { ready = h; range = tt })
      ]

  try_sync_wakeup-Attempted :
      (w : RustyWorld S M)
      → Ready K P B live w₀ p rp e.rq w
      → Returns Woken (try_sync_wakeup K P p e prev_cpu w)
  unfolding try_sync_wakeup
  try_sync_wakeup-Attempted w h =
      let d = (w.core (P.this_cpu w.kernel)).dom_id in
      let r = test_and_clear K P prev_cpu w in
      let ready : Ready K P B live w₀ p rp e.rq r.1 =
        test_and_clear-Ready K P B live w₀ p rp e.rq masks smt laws w prev_cpu h in
      elim (Option-cases (w.globals.dom_data d)) [
        | inl missing ↦ ground (arith, h.inv.domain d (h.inv.own_domain (P.this_cpu w.kernel)))
        | inr (cores, there) ↦ elim (Bool-cases (K.mask_test prev_cpu cores)) [
          | inr apart ↦ rw (there, apart) (sync_here-Attempted w cores h)
          | inl shared ↦ elim (Bool-cases (r.0)) [
            | inl idle ↦ rw (there, shared, idle) (record { ready = ready; range = inl refl })
            | inr busy ↦ rw (there, shared, busy) (sync_here-Attempted r.1 cores ready)
          ]
        ]
      ]

  abbrev Final : ℕ → Choice K P → Type 0
  Final wake_flags =
      Selected K P B live w₀ p rp e.rq (SelectedCpu K P p prev_cpu e.cpumask wake_flags w₀.kernel)
        ((c : ℕ) → K.mask_test c e.cpumask ≡ false)

  Allowed-Outcome :
      (wake_flags : ℕ) (r : ℤ)
      → let None = ((c : ℕ) → K.mask_test c e.cpumask ≡ false) in
        Outcome K P B live w₀ p rp e.rq (λ c. K.mask_test c e.cpumask ≡ true) None r
        → Outcome K P B live w₀ p rp e.rq
            (SelectedCpu K P p prev_cpu e.cpumask wake_flags w₀.kernel)
            None
            r
  Allowed-Outcome wake_flags (pos c) h = inl h
  Allowed-Outcome wake_flags (negsuc n) h = h

  tuned-Selected :
      (w : RustyWorld S M) (wake_flags : ℕ)
      → e.task ≡ p
      → IsGood e
      → Ready K P B live w₀ p rp e.rq w
      → Returns (Final wake_flags) (
          let any =
            try_if K P
              (flag_set wake_flags P.wf_sync)
              (try_sync_wakeup K P p e prev_cpu)
              rp
              (select_idle K P rp e prev_cpu)
              w in
          if P.nr_cpus_allowed p w.kernel == 1 then direct K P rp prev_cpu w else any)
  tuned-Selected w wake_flags owner good h =
      let Ok = SelectedCpu K P p prev_cpu e.cpumask wake_flags w₀.kernel in
      let None = ((c : ℕ) → K.mask_test c e.cpumask ≡ false) in
      elim (Bool-cases (P.nr_cpus_allowed p w.kernel == 1)) [
        | inl pinned ↦ rw pinned (
            direct-Selected K P B live w₀ p rp e.rq Ok None w prev_cpu h (
              inr (
                inl (
                  subst (λ k. P.nr_cpus_allowed p k ≡ 1) h.same_kernel ((==_iff _ 1).0 pinned),
                  refl,
                ))))
        | inr free ↦ rw free (
            try_if-Selected K P B live w₀ p rp e.rq Ok None (flag_set wake_flags P.wf_sync)
              (try_sync_wakeup K P p e prev_cpu) (SyncCpu K P p prev_cpu w₀.kernel)
              (select_idle K P rp e prev_cpu) w h (λ b. try_sync_wakeup-Attempted w h)
              (λ b c found. inr (inr (b, found)))
              (λ w' h'.
                Returns-weaken
                  (Selected K P B live w₀ p rp e.rq (λ c. K.mask_test c e.cpumask ≡ true) None)
                  (Final wake_flags) (select_idle K P rp e prev_cpu w')
                  (select_idle-Selected K P B live w₀ p rp e masks smt laws memory w' prev_cpu owner
                    good h')
                  (λ r s. record {
                    ready = s.ready;
                    outcome = Allowed-Outcome wake_flags r.0 s.outcome;
                  })))
      ]

  -- For an attached task whose object is `e`, `rusty_select_cpu` returns, and keeps the invariant and
  -- the kernel's state. A cpu that it returns is one of the task's mask; or the previous one, where
  -- the task may run on one cpu only; or, in a synchronous wakeup, the previous one or an allowed
  -- current one. It returns -EBUSY or none, and -EBUSY only if the task's mask is empty.
  pub rusty_select_cpu-Selected :
      (wake_flags : ℕ)
      → RustyInv K P B live w₀
      → w₀.metadata p ≡ some rp
      → w₀.heap rp ≡ some e
      → e.task ≡ p
      → IsGood e
      → Returns (Final wake_flags) (rusty_select_cpu K P rp p prev_cpu wake_flags w₀)
  unfolding rusty_select_cpu
  rusty_select_cpu-Selected wake_flags inv points alive owner good =
      Returns->>= (Tuned K P w₀) (Final wake_flags) (tuner_step K P w₀) _
        (tuner_step-Tuned K P memory w₀ inv.levels)
        (λ w t.
          let alive' = ap (λ h. h rp) t.same_heap ∙ alive in
          let choice = tuned-Selected w wake_flags owner good (record {
            inv = Tuned-keeps K P B w₀ w t inv;
            same_kernel = t.same_kernel;
            same_metadata = t.same_metadata;
            same_all = t.same_all;
            object = e;
            points = ap (λ m. m p) t.same_metadata ∙ points;
            alive = alive';
            owner = owner;
            same_rq = refl;
            good = good;
          }) in
          rw alive' (rw alive' at choice))
