-- ===== src/Rusty/Tuned.antt =====
-- What a run of the tuner of modules/rusty_saakm/rusty_saakm.c leaves alone.
use saakm_misc.Prelude.{
  ℕ, if◌then◌else◌, ltb, ◌/◌, true, List, [], ◌∷◌, ◌≡◌, refl, ◌∙◌, Bool-cases, Option-cases, inl,
  inr, elem, arith, is_some, Returns, Returns->>=, Returns-weaken,
}
use saakm_misc.Kernel.{Kernel}
use saakm_misc.Rusty.{Platform, RustyWorld, MaskMemory}
use saakm_misc.Rusty.Tuner.{
  Tuning, tune_cpu, tune_cpus, mark_domain, tune_domain, tune_visit, tune_all, tuner_step,
}

module _ {S M : Type 0} (K : Kernel S M) (P : Platform S M) where
  -- The tuner writes only the cores' times and the two greedy masks.
  pub record Tuned (w w' : RustyWorld S M) : Type 0 where
    pub same_kernel : w'.kernel ≡ w.kernel
    pub same_heap : w'.heap ≡ w.heap
    pub same_metadata : w'.metadata ≡ w.metadata
    pub same_idle : w'.globals.idle_masks ≡ w.globals.idle_masks
    pub same_all : w'.globals.all_cpumask ≡ w.globals.all_cpumask
    pub same_nr : w'.globals.nr_doms ≡ w.globals.nr_doms
    pub same_data : w'.globals.dom_data ≡ w.globals.dom_data
    pub same_dom : (c : ℕ) → (w'.core c).dom_id ≡ (w.core c).dom_id
    pub same_id : (c : ℕ) → (w'.core c).id ≡ (w.core c).id

  Tuned-refl : (w : RustyWorld S M) → Tuned w w
  Tuned-refl w = record {
    same_kernel = refl;
    same_heap = refl;
    same_metadata = refl;
    same_idle = refl;
    same_all = refl;
    same_nr = refl;
    same_data = refl;
    same_dom = λ c. refl;
    same_id = λ c. refl;
  }

  Tuned-trans : {u v w : RustyWorld S M} → Tuned u v → Tuned v w → Tuned u w
  Tuned-trans h k = record {
    same_kernel = k.same_kernel ∙ h.same_kernel;
    same_heap = k.same_heap ∙ h.same_heap;
    same_metadata = k.same_metadata ∙ h.same_metadata;
    same_idle = k.same_idle ∙ h.same_idle;
    same_all = k.same_all ∙ h.same_all;
    same_nr = k.same_nr ∙ h.same_nr;
    same_data = k.same_data ∙ h.same_data;
    same_dom = λ c. k.same_dom c ∙ h.same_dom c;
    same_id = λ c. k.same_id c ∙ h.same_id c;
  }

  tune_cpu-Tuned :
      (cpu dom_cpu : ℕ) (s : Tuning S M) → Tuned s.world (tune_cpu K P cpu dom_cpu s).world
  tune_cpu-Tuned cpu dom_cpu s = record {
    same_kernel = refl;
    same_heap = refl;
    same_metadata = refl;
    same_idle = refl;
    same_all = refl;
    same_nr = refl;
    same_data = refl;
    same_dom = λ c. ground arith;
    same_id = λ c. ground arith;
  }

  tune_cpus-Tuned :
      (cpu : ℕ) (cs : List ℕ) (s : Tuning S M) → Tuned s.world (tune_cpus K P cpu cs s).world
  unfolding tune_cpus
  tune_cpus-Tuned cpu [] s = Tuned-refl s.world
  tune_cpus-Tuned cpu (c ∷ cs) s =
      Tuned-trans (tune_cpu-Tuned cpu c s) (tune_cpus-Tuned cpu cs (tune_cpu K P cpu c s))

  mark_domain-Tuned :
      (cores : M) (util : ℕ) (w : RustyWorld S M) → Tuned w (mark_domain K P cores util w)
  mark_domain-Tuned cores util w = record {
    same_kernel = refl;
    same_heap = refl;
    same_metadata = refl;
    same_idle = refl;
    same_all = refl;
    same_nr = refl;
    same_data = refl;
    same_dom = λ c. refl;
    same_id = λ c. refl;
  }

  tune_domain-Tuned :
      (cpu : ℕ) (cores : M) (s : Tuning S M) → Tuned s.world (tune_domain K P cpu cores s).world
  unfolding tune_domain
  tune_domain-Tuned cpu cores s =
      let s' = tune_cpus K P cpu (P.mask_cpus cores) s in
      Tuned-trans (tune_cpus-Tuned cpu (P.mask_cpus cores) s) (
        mark_domain-Tuned cores (if ltb 0 (P.weight cores) then s'.dom_util / P.weight cores else 0)
          s'.world)

  tune_visit-Tuned :
      (cpu : ℕ) (s : Tuning S M)
      → is_some (P.topology cpu) ≡ true
      → Returns (λ s'. Tuned s.world s'.world) (tune_visit K P cpu s)
  tune_visit-Tuned cpu s there = elim (Bool-cases (K.mask_test cpu s.done)) [
    | inl done ↦ rw done (Tuned-refl s.world)
    | inr new ↦ elim (Option-cases (P.topology cpu)) [
      | inl missing ↦ ground arith
      | inr (l, level) ↦ rw (new, level) (tune_domain-Tuned cpu l.cores s)
    ]
  ]

  tune_all-Tuned :
      (cpus : List ℕ) (s : Tuning S M)
      → ((c : ℕ) → elem c cpus ≡ true → is_some (P.topology c) ≡ true)
      → Returns (λ s'. Tuned s.world s'.world) (tune_all K P cpus s)
  unfolding tune_all
  tune_all-Tuned [] s levels = Tuned-refl s.world
  tune_all-Tuned (cpu ∷ cpus) s levels =
      Returns->>= (λ s'. Tuned s.world s'.world) (λ s'. Tuned s.world s'.world)
        (tune_visit K P cpu s) _ (tune_visit-Tuned cpu s (levels cpu (ground arith)))
        (λ s' h.
          Returns-weaken (λ t. Tuned s'.world t.world) (λ t. Tuned s.world t.world)
            (tune_all K P cpus s') (tune_all-Tuned cpus s' (λ c there. levels c (ground arith)))
            (λ t k. Tuned-trans h k))

  pub tuner_step-Tuned :
      (memory : MaskMemory P) (w : RustyWorld S M)
      → ((c : ℕ) → elem c P.possible ≡ true → is_some (P.topology c) ≡ true)
      → Returns (Tuned w) (tuner_step K P w)
  unfolding tuner_step
  tuner_step-Tuned memory w levels = rw (memory.tuner w.kernel) (
      Returns->>= (λ s. Tuned w s.world) (Tuned w) (tune_all K P P.possible _) _
        (tune_all-Tuned P.possible _ levels) (λ s h. h))
