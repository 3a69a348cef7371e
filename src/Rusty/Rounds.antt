-- ===== src/Rusty/Rounds.antt =====
-- The rounds of `task_pick_domain` of modules/rusty_saakm/rusty_saakm.c reach every domain.
use native.Mathlib.Nat.{mod-lt, mod-eq_of_lt, mod_self}
use saakm_misc.Prelude.{
  ℕ, zero, suc, ◌+◌, ◌-◌, ◌%◌, ◌^◌, ◌≤◌, ◌<◌, true, false, some, ◌≡◌, refl, sym, ◌∙◌, ap, subst,
  Bool-cases, Option-cases, inl, inr, ◌⊎◌, arith, is_some, Returns, Returns-weaken, if◌then◌else◌,
  ==_iff, ◌==◌, leb, some_injective,
}
use saakm_misc.Kernel.{Kernel, CpumaskLaws}
use saakm_misc.Rusty.{max_doms, Platform, RustyGlobals}
use saakm_misc.Rusty.Select.{Rotation, visit_domain, rotate}
use saakm_misc.Rusty.Domains.{Inhabited, Turned, visit-hit, rotate-Turned}

-- The rounds from domain `a` to domain `t` of `n`, counting up and from the last one on to 0.
abbrev gap : ℕ → ℕ → ℕ → ℕ
gap n a t = if leb a t then t - a else t + n - a

next_dom-cases :
    (n dom : ℕ)
    → dom < n
    → n ≤ max_doms
    → let a = (dom + 1) % 2 ^ 32 % n in ((dom + 1 < n) × (a ≡ dom + 1)) ⊎ ((dom + 1 ≡ n) × (a ≡ 0))
next_dom-cases n dom h small =
    let whole : (dom + 1) % 2 ^ 32 ≡ dom + 1 = mod-eq_of_lt (omega arith) in
    elim (Bool-cases (dom + 1 == n)) [
      | inl last ↦
          let same : dom + 1 ≡ n = (==_iff (dom + 1) n).0 last in
          inr (same, ap (λ x. x % n) (whole ∙ same) ∙ mod_self n)
      | inr inner ↦
          let less : dom + 1 < n = ground arith in
          inl (less, ap (λ x. x % n) whole ∙ mod-eq_of_lt less)
    ]

-- A round that does not meet `t` brings it nearer.
gap-next :
    (n dom t m : ℕ)
    → dom < n
    → t < n
    → n ≤ max_doms
    → (dom == t) ≡ false
    → gap n dom t < suc m
    → gap n ((dom + 1) % 2 ^ 32 % n) t < m
gap-next n dom t m h k small apart near = elim (next_dom-cases n dom h small) [
  | inl (less, next) ↦ rw next (ground arith)
  | inr (last, next) ↦ rw next (ground arith)
]

pub gap-lt : (n x t : ℕ) → 0 < n → t < n → gap n (x % n) t < n
gap-lt n x t h k = let below : x % n < n = mod-lt x h in ground arith

module _ {S M : Type 0} (K : Kernel S M) (P : Platform S M) (masks : CpumaskLaws K) where
  visit-dom :
      (dom : ℕ) (cores allowed : M) (s : Rotation K P)
      → (visit_domain K P dom cores allowed s).dom ≡ dom
  visit-dom dom cores allowed s = elim (Bool-cases (K.mask_intersects allowed cores)) [
    | inl hit ↦ rw hit refl
    | inr miss ↦ rw miss refl
  ]

  -- Domain `t` has an allowed cpu, and comes within the rounds that are left.
  pub rotate-Inhabited :
      (m : ℕ) (g : RustyGlobals M) (allowed : M) (s : Rotation K P) (t : ℕ) (there : M)
      → t < g.nr_doms
      → g.nr_doms ≤ max_doms
      → ((d : ℕ) → d < g.nr_doms → is_some (g.dom_data d) ≡ true)
      → g.dom_data t ≡ some there
      → K.mask_intersects allowed there ≡ true
      → gap g.nr_doms ((s.dom + 1) % 2 ^ 32 % g.nr_doms) t < m
      → Returns (λ s'. Inhabited K P s'.process.cpumask) (rotate K P m g allowed s)
  unfolding rotate
  rotate-Inhabited zero g allowed s t there in_range small all at_t hit near = absurd (omega arith)
  rotate-Inhabited (suc m) g allowed s t there in_range small all at_t hit near =
      let n : ℕ = g.nr_doms in
      let dom : ℕ = (s.dom + 1) % 2 ^ 32 % n in
      let below : dom < n = mod-lt ((s.dom + 1) % 2 ^ 32) (omega arith) in
      elim (Option-cases (g.dom_data dom)) [
        | inl missing ↦ ground (arith, all dom below)
        | inr (cores, e) ↦
            let s' = visit_domain K P dom cores allowed s in
            elim (Bool-cases (dom == t)) [
              | inl reached ↦
                  let same : dom ≡ t = (==_iff dom t).0 reached in
                  let same_cores : there ≡ cores =
                    some_injective (sym at_t ∙ ap g.dom_data (sym same) ∙ e) in
                  rw e (
                    Returns-weaken (λ r. Turned K P allowed s'.process r.process)
                      (λ r. Inhabited K P r.process.cpumask) (rotate K P m g allowed s')
                      (rotate-Turned K P masks m g allowed s' (omega arith) all)
                      (λ r k. k.filled (
                        visit-hit K P masks dom cores allowed s
                          (ap (K.mask_intersects allowed) (sym same_cores) ∙ hit))))
              | inr apart ↦ rw e (
                  rotate-Inhabited m g allowed s' t there in_range small all at_t hit (
                    subst (λ d. gap n ((d + 1) % 2 ^ 32 % n) t < m)
                      (sym (visit-dom dom cores allowed s))
                      (gap-next n dom t m below in_range small apart near)))
            ]
      ]
