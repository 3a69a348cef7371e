-- ===== src/Rusty/Claims.antt =====
-- What `pick_idle_cpu` of modules/rusty_saakm/rusty_saakm.c returns, and that it does.
use mathlib.Core.Bool.{false≢true}
use saakm_misc.Prelude.{
  ℕ, zero, suc, ◌<◌, true, false, ℤ, pos, negsuc, Option, none, some, if◌then◌else◌, ◌≡◌, refl, sym,
  ◌∙◌, ap, subst, ◌⊎◌, inl, inr, arith, Bool-cases, Option-cases, Returns, Returns-weaken, ◌==◌,
}
use saakm_misc.Kernel.{Kernel, flag_set, CpumaskLaws, SmtLaws}
use saakm_misc.Rusty.{IdleMasks, Platform, PlatformLaws, pick_idle_core}
use saakm_misc.Rusty.Idle.{
  clear_smt, test_and_clear_cpu_idle, find_cpu, find_idle, claim, chosen, pick_rounds,
  pick_idle_cpu,
}

module _ {S M : Type 0} (K : Kernel S M) where
  -- What a round finds in the masks of idle cpus and of idle cores.
  abbrev FoundCase : M → ℕ → M → M → Option ℕ → Type 0
  FoundCase allowed flags cpu smt (some c) =
      (K.mask_test c allowed ≡ true) × ((K.mask_test c cpu ≡ true) ⊎ (K.mask_test c smt ≡ true))
  FoundCase allowed flags cpu smt none =
      flag_set flags pick_idle_core ≡ false
      → (d : ℕ) → K.mask_test d cpu ≡ true
      → K.mask_test d allowed ≡ false

  record Found (allowed : M) (flags : ℕ) (cpu smt : M) (r : Option ℕ × IdleMasks M) : Type 0 where
    same_cpu : r.1.cpu ≡ cpu
    same_smt : r.1.smt ≡ smt
    found : FoundCase allowed flags cpu smt r.0

  abbrev pub Within : M → M → Type 0
  Within m n = (d : ℕ) → K.mask_test d m ≡ true → K.mask_test d n ≡ true

  -- A cpu that is claimed was allowed and idle, and is the only one that is idle no more; -EBUSY
  -- leaves the idle cpus as they were, and unless a whole idle core is asked for, none of them is
  -- allowed. The mask of idle cores never grows.
  abbrev pub Claimed : M → ℕ → M → M → ℤ × IdleMasks M → Type 0
  Claimed allowed flags cpu smt (pos c, i) =
      (K.mask_test c allowed ≡ true)
      × (K.mask_test c cpu ≡ true)
      × ((d : ℕ) → K.mask_test d i.cpu ≡ (if c == d then false else K.mask_test d cpu))
      × Within i.smt smt
  Claimed allowed flags cpu smt (negsuc e, i) =
      (e ≡ 15)
      × (flag_set flags pick_idle_core ≡ false
          → (d : ℕ) → K.mask_test d cpu ≡ true
          → K.mask_test d allowed ≡ false)
      × ((d : ℕ) → K.mask_test d i.cpu ≡ K.mask_test d cpu)
      × Within i.smt smt

module _ {S M : Type 0} {K : Kernel S M} {P : Platform S M} (masks : CpumaskLaws K)
    (smt : SmtLaws K) (laws : PlatformLaws K P) where
  pub clear_smt-Within : (c : ℕ) (m : M) → Within K (clear_smt K P c m) m
  clear_smt-Within c m d h =
      ground (arith, masks.test-andnot d m (K.smt_mask c), masks.test-clear d c m)

  -- The cpu itself is always taken out of the mask of idle cores.
  clear_smt-gone : (c : ℕ) (m : M) → K.mask_test c (clear_smt K P c m) ≡ false
  clear_smt-gone c m =
      ground (arith, masks.test-andnot c m (K.smt_mask c), masks.test-clear c c m, smt.smt_self c)

  find_cpu-Found :
      (allowed : M) (flags : ℕ) (i : IdleMasks M)
      → Found K allowed flags i.cpu i.smt (find_cpu K P allowed i)
  unfolding find_cpu
  find_cpu-Found allowed flags i = record {
    same_cpu = refl;
    same_smt = refl;
    found = by_choice (P.any_and_distribute i.choices i.cpu allowed) refl;
  }
    where
      by_choice :
          (o : Option ℕ)
          → P.any_and_distribute i.choices i.cpu allowed ≡ o
          → FoundCase K allowed flags i.cpu i.smt o
      by_choice none e = λ whole d h. laws.any_and_refused i.choices d i.cpu allowed e h
      by_choice (some c) e =
          let inside = laws.any_and_in i.choices c i.cpu allowed e in (inside.1, inl inside.0)

  find_idle-Found :
      (allowed : M) (flags : ℕ) (i : IdleMasks M)
      → Found K allowed flags i.cpu i.smt (find_idle K P allowed flags i)
  unfolding find_idle
  find_idle-Found allowed flags i = elim (Bool-cases P.smt_active) [
    | inr single ↦ rw single (find_cpu-Found allowed flags i)
    | inl active ↦ rw active (elim (Option-cases (P.any_and_distribute i.choices i.smt allowed)) [
      | inr (c, e) ↦
          let inside = laws.any_and_in i.choices c i.smt allowed e in
          rw e (record { same_cpu = refl; same_smt = refl; found = (inside.1, inr inside.0) })
      | inl e ↦ rw e (elim (Bool-cases (flag_set flags pick_idle_core)) [
        | inl whole ↦ rw whole (record {
          same_cpu = refl;
          same_smt = refl;
          found = λ any. absurd (false≢true (sym any ∙ whole));
        })
        | inr any ↦
            let round : Found K allowed flags i.cpu i.smt (find_cpu K P allowed (chosen K P i)) =
              find_cpu-Found allowed flags (chosen K P i) in
            rw any
              (record { same_cpu = round.same_cpu; same_smt = round.same_smt; found = round.found })
      ])
    ])
  ]

  -- What holds of the rest of the rounds holds of all, when the round took a cpu that was not idle.
  Claimed-retry :
      (allowed : M) (flags : ℕ) (cpu cpu' sm sm' : M) (r : ℤ × IdleMasks M)
      → ((d : ℕ) → K.mask_test d cpu' ≡ K.mask_test d cpu)
      → Within K sm' sm
      → Claimed K allowed flags cpu' sm' r
      → Claimed K allowed flags cpu sm r
  Claimed-retry allowed flags cpu cpu' sm sm' (pos c, i) same less (here, idle, rest, smaller) =
      (here, sym (same c) ∙ idle, λ d. ground (arith, rest d, same d), λ d h. less d (smaller d h))
  Claimed-retry allowed flags cpu cpu' sm sm' (negsuc e, i) same less
        (busy, none_free, rest, smaller) =
      (
        busy,
        λ any d h. none_free any d (same d ∙ h),
        λ d. rest d ∙ same d,
        λ d h. less d (smaller d h),
      )

  after_claim-Within : (c : ℕ) (m : M) → Within K (if P.smt_active then clear_smt K P c m else m) m
  after_claim-Within c m d h = elim (Bool-cases P.smt_active) [
    | inl active ↦ clear_smt-Within c m d (rw active at h)
    | inr single ↦ rw single at h
  ]

  -- `found:`, given what the rest of the rounds does if there is a retry. There is one only where the
  -- cpu was taken from the mask of idle cores, which it leaves.
  claim-Claimed :
      (allowed : M) (flags : ℕ) (i : IdleMasks M) (f : Option ℕ × IdleMasks M)
      (retry : IdleMasks M → Option (ℤ × IdleMasks M))
      → Found K allowed flags i.cpu i.smt f
      → ((j : IdleMasks M)
          → P.weight j.smt < P.weight i.smt
          → Returns (Claimed K allowed flags j.cpu j.smt) (retry j))
      → (P.smt_active ≡ false → (c : ℕ) → f.0 ≡ some c → K.mask_test c i.cpu ≡ true)
      → Returns (Claimed K allowed flags i.cpu i.smt) (claim K P retry f)
  unfolding test_and_clear_cpu_idle
  claim-Claimed allowed flags i (none, j) retry f more single = (
    refl,
    f.found,
    λ d. ap (K.mask_test d) f.same_cpu,
    λ d h. subst (λ m. K.mask_test d m ≡ true) f.same_smt h,
  )
  claim-Claimed allowed flags i (some c, j) retry f more single =
      elim (Bool-cases (K.mask_test c j.cpu)) [
        | inl idle ↦ rw idle (
          f.found.0,
          ap (K.mask_test c) (sym f.same_cpu) ∙ idle,
          λ d. masks.test-clear d c j.cpu ∙ rw (ap (K.mask_test d) f.same_cpu) refl,
          λ d h. ap (K.mask_test d) (sym f.same_smt) ∙ after_claim-Within c j.smt d h,
        )
        | inr busy ↦ rw busy (elim (Bool-cases P.smt_active) [
          | inr one ↦
              absurd (false≢true (sym busy ∙ ap (K.mask_test c) f.same_cpu ∙ single one c refl))
          | inl active ↦
              Returns-weaken (Claimed K allowed flags left.cpu left.smt) _ (retry left)
                (more left (lighter busy active))
                (λ r h.
                  Claimed-retry allowed flags i.cpu left.cpu i.smt left.smt r (same busy) less h)
        ])
      ]
    where
      left : IdleMasks M
      left = (test_and_clear_cpu_idle K P c j).1

      less : Within K left.smt i.smt
      less d h = ap (K.mask_test d) (sym f.same_smt) ∙ after_claim-Within c j.smt d h

      same : K.mask_test c j.cpu ≡ false → (d : ℕ) → K.mask_test d left.cpu ≡ K.mask_test d i.cpu
      same busy d = ground (arith, masks.test-clear d c j.cpu, ap (K.mask_test d) f.same_cpu)

      lighter :
          K.mask_test c j.cpu ≡ false → P.smt_active ≡ true → P.weight left.smt < P.weight i.smt
      lighter busy active = rw active (
          laws.weight_lt c i.smt (clear_smt K P c j.smt)
            (λ d h. ap (K.mask_test d) (sym f.same_smt) ∙ clear_smt-Within c j.smt d h)
            (elim (f.found.1) [
              | inl idle ↦ absurd (false≢true (sym busy ∙ ap (K.mask_test c) f.same_cpu ∙ idle))
              | inr core_idle ↦ core_idle
            ])
            (clear_smt-gone c j.smt))

  -- Without hyper-threads a round takes its cpu from the mask of idle cpus.
  find_idle-single :
      (allowed : M) (flags : ℕ) (i : IdleMasks M) (c : ℕ)
      → P.smt_active ≡ false
      → (find_idle K P allowed flags i).0 ≡ some c
      → K.mask_test c i.cpu ≡ true
  unfolding find_idle find_cpu
  find_idle-single allowed flags i c single e =
      (laws.any_and_in i.choices c i.cpu allowed (rw single at e)).0

  pick_rounds-Claimed :
      (n : ℕ) (allowed : M) (flags : ℕ) (i : IdleMasks M)
      → P.weight i.smt < n
      → Returns (Claimed K allowed flags i.cpu i.smt) (pick_rounds K P n allowed flags i)
  unfolding pick_rounds
  pick_rounds-Claimed zero allowed flags i enough = absurd (omega arith)
  pick_rounds-Claimed (suc n) allowed flags i enough =
      claim-Claimed allowed flags i (find_idle K P allowed flags i)
        (pick_rounds K P n allowed flags) (find_idle-Found allowed flags i)
        (λ j less. pick_rounds-Claimed n allowed flags j (omega arith))
        (λ single c e. find_idle-single allowed flags i c single e)

  -- The loop of `pick_idle_cpu` ends. It returns an allowed idle cpu, which is then idle no more, all
  -- others staying as they were; or -EBUSY, which leaves the mask of idle cpus as it was and, unless
  -- a whole idle core is asked for, means that no allowed cpu is idle.
  pub pick_idle_cpu-Claimed :
      (allowed : M) (flags : ℕ) (i : IdleMasks M)
      → Returns (Claimed K allowed flags i.cpu i.smt) (pick_idle_cpu K P allowed flags i)
  unfolding pick_idle_cpu
  pick_idle_cpu-Claimed allowed flags i =
      pick_rounds-Claimed (suc (P.weight i.smt)) allowed flags i (omega arith)

  pub Claimed-Within :
      (allowed : M) (flags : ℕ) (i : IdleMasks M) (r : ℤ × IdleMasks M)
      → Claimed K allowed flags i.cpu i.smt r
      → Within K r.1.cpu i.cpu × Within K r.1.smt i.smt
  Claimed-Within allowed flags i (pos c, j) (here, idle, rest, less) =
      (λ d h. ground (arith, rest d), less)
  Claimed-Within allowed flags i (negsuc e, j) (busy, none_free, rest, less) =
      (λ d h. sym (rest d) ∙ h, less)

  pub test_and_clear-Within :
      (cpu : ℕ) (i : IdleMasks M) → Within K (test_and_clear_cpu_idle K P cpu i).1.cpu i.cpu
  unfolding test_and_clear_cpu_idle
  test_and_clear-Within cpu i d h = ground (arith, masks.test-clear d cpu i.cpu)
