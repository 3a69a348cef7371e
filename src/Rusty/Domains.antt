-- ===== src/Rusty/Domains.antt =====
-- The domains that `task_pick_domain` of modules/rusty_saakm/rusty_saakm.c gives a task.
use native.Mathlib.Nat.{mod-lt}
use saakm_misc.Prelude.{
  ℕ, zero, suc, ◌+◌, ◌%◌, ◌^◌, ◌<◌, true, ◌≡◌, refl, ◌∙◌, Bool-cases, Option-cases, inl, inr, arith,
  is_some, Returns, Returns-weaken,
}
use saakm_misc.Kernel.{Kernel, CpumaskLaws}
use saakm_misc.Rusty.{Platform, RustyProcess, RustyGlobals}
use saakm_misc.Rusty.Select.{Rotation, visit_domain, rotate}

module _ {S M : Type 0} (K : Kernel S M) (P : Platform S M) where
  abbrev pub Inside : M → M → Type 0
  Inside m n = (c : ℕ) → K.mask_test c m ≡ true → K.mask_test c n ≡ true

  abbrev pub Inhabited : M → Type 0
  Inhabited m = (c : ℕ) × (K.mask_test c m ≡ true)

  -- What the rounds do to the task's object: they only write its domains and its mask, which stays
  -- within the allowed cpus and, once it has a cpu, keeps one.
  pub record Turned (allowed : M) (e e' : RustyProcess M) : Type 0 where
    pub same_task : e'.task ≡ e.task
    pub same_rq : e'.rq ≡ e.rq
    pub same_state : e'.state ≡ e.state
    pub same_slice : e'.slice ≡ e.slice
    pub inside : Inside e.cpumask allowed → Inside e'.cpumask allowed
    pub filled : Inhabited e.cpumask → Inhabited e'.cpumask

  Turned-refl : (allowed : M) (e : RustyProcess M) → Turned allowed e e
  Turned-refl allowed e = record {
    same_task = refl;
    same_rq = refl;
    same_state = refl;
    same_slice = refl;
    inside = λ h. h;
    filled = λ h. h;
  }

  Turned-trans :
      (allowed : M) {e f g : RustyProcess M}
      → Turned allowed e f
      → Turned allowed f g
      → Turned allowed e g
  Turned-trans allowed h k = record {
    same_task = k.same_task ∙ h.same_task;
    same_rq = k.same_rq ∙ h.same_rq;
    same_state = k.same_state ∙ h.same_state;
    same_slice = k.same_slice ∙ h.same_slice;
    inside = λ i. k.inside (h.inside i);
    filled = λ i. k.filled (h.filled i);
  }

  module _ (masks : CpumaskLaws K) where
    -- A domain that has an allowed cpu leaves one in the task's mask.
    pub visit-hit :
        (dom : ℕ) (cores allowed : M) (s : Rotation K P)
        → K.mask_intersects allowed cores ≡ true
        → Inhabited (visit_domain K P dom cores allowed s).process.cpumask
    visit-hit dom cores allowed s hit =
        let (c, here, there) = masks.intersects_shared allowed cores hit in
        rw hit (c, masks.test-and c cores allowed ∙ ground arith)

    visit-Turned :
        (dom : ℕ) (cores allowed : M) (s : Rotation K P)
        → Turned allowed s.process (visit_domain K P dom cores allowed s).process
    visit-Turned dom cores allowed s = elim (Bool-cases (K.mask_intersects allowed cores)) [
      | inr miss ↦ rw miss (Turned-refl allowed s.process)
      | inl hit ↦
          let there : Inhabited (visit_domain K P dom cores allowed s).process.cpumask =
            visit-hit dom cores allowed s hit in
          let there' = rw hit at there in
          rw hit (record {
            same_task = refl;
            same_rq = refl;
            same_state = refl;
            same_slice = refl;
            inside = λ i c h. ground (arith, masks.test-and c cores allowed);
            filled = λ i. there';
          })
    ]

    pub rotate-Turned :
        (m : ℕ) (g : RustyGlobals M) (allowed : M) (s : Rotation K P)
        → 0 < g.nr_doms
        → ((d : ℕ) → d < g.nr_doms → is_some (g.dom_data d) ≡ true)
        → Returns (λ s'. Turned allowed s.process s'.process) (rotate K P m g allowed s)
    unfolding rotate
    rotate-Turned zero g allowed s some_dom there = Turned-refl allowed s.process
    rotate-Turned (suc m) g allowed s some_dom there =
        let dom : ℕ = (s.dom + 1) % 2 ^ 32 % g.nr_doms in
        elim (Option-cases (g.dom_data dom)) [
          | inl missing ↦ ground (arith, there dom (mod-lt ((s.dom + 1) % 2 ^ 32) some_dom))
          | inr (cores, e) ↦ rw e (
              Returns-weaken
                (λ t. Turned allowed (visit_domain K P dom cores allowed s).process t.process)
                (λ t. Turned allowed s.process t.process)
                (rotate K P m g allowed (visit_domain K P dom cores allowed s))
                (rotate-Turned m g allowed (visit_domain K P dom cores allowed s) some_dom there)
                (λ t k. Turned-trans allowed (visit-Turned dom cores allowed s) k))
        ]
