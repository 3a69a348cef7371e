-- ===== src/Rusty/Marks.antt =====
-- The domains that the tuner of modules/rusty_saakm/rusty_saakm.c marks.
use mathlib.Core.Bool.{false≢true}
use saakm_misc.Prelude.{
  ℕ, true, ◌||◌, some, List, [], ◌∷◌, ◌≡◌, refl, sym, ◌∙◌, ap, subst, inl, inr, elem, arith,
  Bool-cases, Returns, Returns->>=, Returns-weaken, ==_iff, ◌==◌,
}
use saakm_misc.Kernel.{Kernel, CpumaskLaws}
use saakm_misc.Rusty.{MaskMemory, Platform, PlatformLaws, RustyWorld, Level}
use saakm_misc.Rusty.Tuner.{
  Tuning, tune_cpu, tune_cpus, tune_domain, tune_visit, tune_all, tuner_step,
}

module _ {S M : Type 0} (K : Kernel S M) (P : Platform S M) where
  -- Every cpu of the list has a level, and is in it.
  abbrev pub OwnLevel : List ℕ → Type 0
  OwnLevel cpus =
      (c : ℕ)
      → elem c cpus ≡ true
      → (l : Level M) × (P.topology c ≡ some l) × (K.mask_test c l.cores ≡ true)

module _ {S M : Type 0} (K : Kernel S M) (P : Platform S M) (masks : CpumaskLaws K)
    (laws : PlatformLaws K P) where
  -- The cpus that are done are marked in both greedy masks.
  record Marked (s : Tuning S M) : Type 0 where
    direct :
        (d : ℕ) → K.mask_test d s.done ≡ true → K.mask_test d s.world.globals.direct_greedy ≡ true
    kick : (d : ℕ) → K.mask_test d s.done ≡ true → K.mask_test d s.world.globals.kick_greedy ≡ true

  tune_cpus-done :
      (cpu : ℕ) (cs : List ℕ) (s : Tuning S M)
      → let s' = tune_cpus K P cpu cs s in
        (s'.world.globals ≡ s.world.globals)
        × ((d : ℕ) → K.mask_test d s'.done ≡ (K.mask_test d s.done || elem d cs))
  unfolding tune_cpus
  tune_cpus-done cpu [] s = (refl, λ d. ground arith)
  tune_cpus-done cpu (c ∷ cs) s =
      let (globals, done) = tune_cpus-done cpu cs (tune_cpu K P cpu c s) in
      (globals, λ d. done d ∙ ground (arith, masks.test-set d c s.done))

  tune_domain-Marked :
      (cpu : ℕ) (cores : M) (s : Tuning S M)
      → Marked s
      → Marked (tune_domain K P cpu cores s)
        × ((d : ℕ)
            → K.mask_test d (tune_domain K P cpu cores s).done
              ≡ (K.mask_test d s.done || K.mask_test d cores))
  unfolding tune_domain
  tune_domain-Marked cpu cores s h =
      let (globals, done) = tune_cpus-done cpu (P.mask_cpus cores) s in
      let s' = tune_cpus K P cpu (P.mask_cpus cores) s in
      (
        record {
          direct = λ d k.
              masks.test-or d s'.world.globals.direct_greedy cores
              ∙ ground (
                arith,
                done d,
                laws.elem-mask_cpus d cores,
                h.direct d,
                ap (λ g. K.mask_test d g.direct_greedy) globals,
              );
          kick = λ d k.
              masks.test-or d s'.world.globals.kick_greedy cores
              ∙ ground (
                arith,
                done d,
                laws.elem-mask_cpus d cores,
                h.kick d,
                ap (λ g. K.mask_test d g.kick_greedy) globals,
              );
        },
        λ d. done d ∙ ground (arith, laws.elem-mask_cpus d cores),
      )

  -- What a run over the cpus adds: those of the list are done, and none is undone.
  record Covers (cpus : List ℕ) (s s' : Tuning S M) : Type 0 where
    marked : Marked s'
    grows : (d : ℕ) → K.mask_test d s.done ≡ true → K.mask_test d s'.done ≡ true
    all : (d : ℕ) → elem d cpus ≡ true → K.mask_test d s'.done ≡ true

  tune_visit-Covers :
      (cpu : ℕ) (s : Tuning S M) (l : Level M)
      → P.topology cpu ≡ some l
      → K.mask_test cpu l.cores ≡ true
      → Marked s
      → Returns (Covers (cpu ∷ []) s) (tune_visit K P cpu s)
  tune_visit-Covers cpu s l level own h = elim (Bool-cases (K.mask_test cpu s.done)) [
    | inl done ↦ rw done (record {
      marked = h;
      grows = λ d k. k;
      all = λ d k. elim (Bool-cases (cpu == d)) [
        | inl same ↦ subst (λ c. K.mask_test c s.done ≡ true) ((==_iff cpu d).0 same) done
        | inr other ↦ ground arith
      ];
    })
    | inr new ↦
        let (marked, done) = tune_domain-Marked cpu l.cores s h in
        rw (new, level)
          (record {
            marked = marked;
            grows = λ d k. done d ∙ ground arith;
            all = λ d k. elim (Bool-cases (cpu == d)) [
              | inl same ↦
                  done d
                  ∙ ground
                      (arith, subst (λ c. K.mask_test c l.cores ≡ true) ((==_iff cpu d).0 same) own)
              | inr other ↦ ground arith
            ];
          })
  ]

  tune_all-Covers :
      (cpus : List ℕ) (s : Tuning S M)
      → OwnLevel K P cpus
      → Marked s
      → Returns (Covers cpus s) (tune_all K P cpus s)
  unfolding tune_all
  tune_all-Covers [] s own h = record {
    marked = h;
    grows = λ d k. k;
    all = λ d k. absurd (false≢true k);
  }
  tune_all-Covers (cpu ∷ cpus) s own h =
      let (l, level, here) = own cpu (ground arith) in
      Returns->>= (Covers (cpu ∷ []) s) (Covers (cpu ∷ cpus) s) (tune_visit K P cpu s) _
        (tune_visit-Covers cpu s l level here h)
        (λ s₁ k₁.
          Returns-weaken (Covers cpus s₁) (Covers (cpu ∷ cpus) s) (tune_all K P cpus s₁)
            (tune_all-Covers cpus s₁ (λ c k. own c (ground arith)) k₁.marked)
            (λ s₂ k₂. record {
              marked = k₂.marked;
              grows = λ d k. k₂.grows d (k₁.grows d k);
              all = λ d k. elim (Bool-cases (cpu == d)) [
                | inl same ↦ k₂.grows d (k₁.all d (rw same refl))
                | inr other ↦ k₂.all d (ground arith)
              ];
            }))

  -- Where every possible cpu is in its own level and memory for a mask is there, a run of the tuner
  -- returns and leaves every possible cpu in both greedy masks, whatever the times are that it reads.
  pub tuner_step-marks_all :
      (memory : MaskMemory P) (w : RustyWorld S M)
      → OwnLevel K P P.possible
      → Returns
          (λ w'.
            (c : ℕ)
            → elem c P.possible ≡ true
            → (K.mask_test c w'.globals.direct_greedy ≡ true)
              × (K.mask_test c w'.globals.kick_greedy ≡ true))
          (tuner_step K P w)
  unfolding tuner_step
  tuner_step-marks_all memory w own =
      let start : Tuning S M = record { world = w; done = K.mask_empty; dom_util = 0 } in
      rw (memory.tuner w.kernel) (
        Returns->>= (Covers P.possible start) _ (tune_all K P P.possible start) _
          (tune_all-Covers P.possible start own (record {
            direct = λ d k. absurd (false≢true (sym (masks.test-empty d) ∙ k));
            kick = λ d k. absurd (false≢true (sym (masks.test-empty d) ∙ k));
          }))
          (λ s k. λ c there. (k.marked.direct c (k.all c there), k.marked.kick c (k.all c there))))
