-- ===== src/Central/Idle.antt =====
-- The idle masks of the central policy (modules/saakm_central/saakm_central.c:92-139).
use mathlib.Core.Bool.{false≢true}
use saakm_misc.Prelude.{
  ℕ, true, false, ◌==◌, ==_iff, ==_refl, ◌≡◌, refl, sym, ◌∙◌, ap, subst, arith, Bool-cases, inl,
  inr, if◌then◌else◌,
}
use saakm_misc.Kernel.{Kernel, CoreEvent, CpumaskLaws, SmtLaws}
use saakm_misc.Central.{CentralWorld}
use saakm_misc.Central.Cores.{central_entry_idle, central_exit_idle, central_core_exit}

module _ {S M : Type 0} (K : Kernel S M) where
  -- A cpu is in `idle_smt` exactly when all cpus of its physical core are idle.
  abbrev pub SmtExact : M → M → Type 0
  SmtExact cpus smt = (d : ℕ) → K.mask_test d smt ≡ K.mask_subset (K.smt_mask d) cpus

  abbrev pub IdleExact : CentralWorld S M → Type 0
  IdleExact w = SmtExact w.globals.idle_cpus w.globals.idle_smt

module _ {S M : Type 0} (K : Kernel S M) (masks : CpumaskLaws K) (smt : SmtLaws K) where
  -- Being on the same physical core is symmetric.
  sibling_sym :
      (c d : ℕ) → K.mask_test d (K.smt_mask c) ≡ true → K.mask_test c (K.smt_mask d) ≡ true
  sibling_sym c d h = ap (K.mask_test c) (smt.smt_same c d h) ∙ smt.smt_self c

  -- A mask that changes outside the cpus of `d` only stays or stops containing them alike.
  subset_ext :
      (s m n : M)
      → ((x : ℕ) → K.mask_test x s ≡ true → K.mask_test x m ≡ K.mask_test x n)
      → K.mask_subset s m ≡ K.mask_subset s n
  subset_ext s m n same = elim (Bool-cases (K.mask_subset s m)) [
    | inl in_m ↦
        in_m ∙ sym (masks.subset_intro s n (λ x h. sym (same x h) ∙ masks.test-subset x s m in_m h))
    | inr not_m ↦ elim (Bool-cases (K.mask_subset s n)) [
      | inl in_n ↦ absurd (
          false≢true
            (sym not_m ∙ masks.subset_intro s m (λ x h. same x h ∙ masks.test-subset x s n in_n h)))
      | inr not_n ↦ not_m ∙ sym not_n
    ]
  ]

  -- What happens to cpu `c` says nothing of the physical cores that it is not on.
  apart :
      (c d x : ℕ)
      → K.mask_test d (K.smt_mask c) ≡ false
      → K.mask_test x (K.smt_mask d) ≡ true
      → (c == x) ≡ false
  apart c d x off h = elim (Bool-cases (c == x)) [
    | inl same ↦
        let same' : c ≡ x = (==_iff c x).0 same in
        absurd (
          false≢true (
            sym off
            ∙ sibling_sym d c (subst (λ y. K.mask_test y (K.smt_mask d) ≡ true) (sym same') h)))
    | inr other ↦ other
  ]

  -- The masks after `entry_idle` and after `exit_idle`.
  entered :
      (c : ℕ) (cpus sm : M)
      → SmtExact K cpus sm
      → let cpus' = K.mask_set c cpus in
        SmtExact K cpus'
          (if K.mask_subset (K.smt_mask c) cpus' then K.mask_or sm (K.smt_mask c) else sm)
  entered c cpus sm exact d = elim (Bool-cases (K.mask_test d (K.smt_mask c))) [
    | inl sibling ↦
        let same : K.smt_mask d ≡ K.smt_mask c = smt.smt_same c d sibling in
        elim (Bool-cases (K.mask_subset (K.smt_mask c) (K.mask_set c cpus))) [
          | inl all ↦
              rw (all, same) (masks.test-or d sm (K.smt_mask c) ∙ ground (arith, sibling) ∙ sym all)
          | inr some_busy ↦
              rw (some_busy, same)
                (elim (Bool-cases (K.mask_test d sm)) [
                  | inl marked ↦ absurd (
                      false≢true (
                        sym some_busy
                        ∙ masks.subset_intro _ _ (λ x h.
                          masks.test-set x c cpus
                          ∙ ground (
                            arith,
                            masks.test-subset x (K.smt_mask d) cpus (sym (exact d) ∙ marked)
                                (ap (K.mask_test x) same ∙ h),
                          ))))
                  | inr unmarked ↦ unmarked ∙ sym some_busy
                ])
        ]
    | inr apart_from ↦
        let kept : K.mask_subset (K.smt_mask d) cpus
            ≡ K.mask_subset (K.smt_mask d) (K.mask_set c cpus) =
          subset_ext (K.smt_mask d) cpus (K.mask_set c cpus)
            (λ x h. sym (masks.test-set x c cpus ∙ rw (apart c d x apart_from h) refl)) in
        elim (Bool-cases (K.mask_subset (K.smt_mask c) (K.mask_set c cpus))) [
          | inl all ↦
              rw all
                (masks.test-or d sm (K.smt_mask c) ∙ ground (arith, apart_from) ∙ exact d ∙ kept)
          | inr some_busy ↦ rw some_busy (exact d ∙ kept)
        ]
  ]

  left :
      (c : ℕ) (cpus sm : M)
      → SmtExact K cpus sm
      → SmtExact K (K.mask_clear c cpus) (K.mask_andnot sm (K.smt_mask c))
  left c cpus sm exact d = elim (Bool-cases (K.mask_test d (K.smt_mask c))) [
    | inl sibling ↦
        masks.test-andnot d sm (K.smt_mask c)
        ∙ elim (Bool-cases (K.mask_subset (K.smt_mask d) (K.mask_clear c cpus))) [
          | inl all ↦ absurd (
              false≢true (
                sym (masks.test-clear c c cpus ∙ rw (==_refl c) refl)
                ∙ masks.test-subset c _ _ all (sibling_sym c d sibling)))
          | inr busy ↦ ground (arith, sibling, busy)
        ]
    | inr apart_from ↦
        masks.test-andnot d sm (K.smt_mask c)
        ∙ ground (arith, apart_from)
        ∙ exact d
        ∙ subset_ext (K.smt_mask d) cpus (K.mask_clear c cpus)
            (λ x h. sym (masks.test-clear x c cpus ∙ rw (apart c d x apart_from h) refl))
  ]

  -- Both idle events keep `idle_smt` exact: after them a cpu is in it exactly when all cpus of its
  -- physical core are in `idle_cpus`.
  pub idle_events-IdleExact :
      (e : CoreEvent) (w : CentralWorld S M)
      → IdleExact K w
      → IdleExact K (central_entry_idle K e w) × IdleExact K (central_exit_idle K e w)
  unfolding central_entry_idle central_exit_idle
  idle_events-IdleExact e w exact = (entered e.target _ _ exact, left e.target _ _ exact)

  -- `central_core_exit` takes only the cpu itself out of `idle_smt`: an idle physical core of more
  -- than one cpu stays marked idle after one of its cpus has left.
  pub central_core_exit-stale :
      (e : CoreEvent) (w : CentralWorld S M) (d : ℕ)
      → IdleExact K w
      → K.mask_test d (K.smt_mask e.target) ≡ true
      → (e.target == d) ≡ false
      → K.mask_test e.target w.globals.idle_smt ≡ true
      → let g = (central_core_exit K e w).globals in
        (K.mask_test d g.idle_smt ≡ true) × (K.mask_subset (K.smt_mask d) g.idle_cpus ≡ false)
  unfolding central_core_exit
  central_core_exit-stale e w d exact sibling other idle = (
    masks.test-clear d e.target _
        ∙ rw other (
            exact d
            ∙ ap (λ s. K.mask_subset s w.globals.idle_cpus) (smt.smt_same e.target d sibling)
            ∙ sym (exact e.target)
            ∙ idle),
    elim (Bool-cases (K.mask_subset (K.smt_mask d) (K.mask_clear e.target w.globals.idle_cpus))) [
      | inl all ↦ absurd (
          false≢true (
            sym (masks.test-clear e.target e.target _ ∙ rw (==_refl e.target) refl)
            ∙ masks.test-subset e.target _ _ all (sibling_sym e.target d sibling)))
      | inr busy ↦ busy
    ],
  )
