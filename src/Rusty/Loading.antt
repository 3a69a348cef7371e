-- ===== src/Rusty/Loading.antt =====
-- Loading the rusty policy (modules/rusty_saakm/rusty_saakm.c:945-1054): its domains.
use mathlib.Core.Bool.{false≢true}
use saakm_misc.Prelude.{
  ℕ, ◌<◌, ltb, ◌&&◌, Bool, some_injective, none, some, true, ◌||◌, List, [], ◌∷◌, ◌≡◌, refl, ◌∙◌,
  subst, ◌⊎◌, inl, inr, elem, arith, is_some, Bool-cases, Option-cases, ◌==◌, ==_iff,
}
use saakm_misc.Kernel.{Kernel}
use saakm_misc.World.{put_core}
use saakm_misc.Framework.Loading.{init_rqs}
use saakm_misc.Rusty.{Platform, RustyWorld, Level, has_bytes, max_doms, sizeof_dom_ctx, dom_ctx}
use saakm_misc.Rusty.Cores.{
  init_core, init_cores, set_dom_ids, new_domain, visit_level, build_domains,
}

pub no_result : {A : Type 0} {a : A} → none ≡ some a → ⊥
no_result h = absurd (cc)

module _ {S M : Type 0} (K : Kernel S M) (P : Platform S M) where
  -- The domains up to `nr_doms` are there, and a core's domain is one of them or still 0.
  pub record Numbered (w : RustyWorld S M) : Type 0 where
    pub some_dom : (d : ℕ) → d < w.globals.nr_doms → is_some (w.globals.dom_data d) ≡ true
    pub own : (c : ℕ) → ((w.core c).dom_id < w.globals.nr_doms) ⊎ ((w.core c).dom_id ≡ 0)

  pub init_cores-frame :
      (cpus : List ℕ) (w : RustyWorld S M)
      → let w' = init_cores K P cpus w in
        (w'.kernel ≡ init_rqs K cpus w.kernel)
        × (w'.globals.nr_doms ≡ w.globals.nr_doms)
        × ((c : ℕ) → (w'.core c).dom_id ≡ (w.core c).dom_id)
  unfolding init_cores init_rqs
  init_cores-frame [] w = (refl, refl, λ c. refl)
  init_cores-frame (cpu ∷ cpus) w =
      let (kernel, nr, dom) = init_cores-frame cpus (init_core K P cpu w) in
      (kernel, nr, λ c. dom c ∙ ground arith)

  set_dom_ids-frame :
      (d : ℕ) (cpus : List ℕ) (w : RustyWorld S M)
      → let w' = set_dom_ids K P d cpus w in
        (w'.kernel ≡ w.kernel)
        × (w'.globals ≡ w.globals)
        × ((c : ℕ) → ((w'.core c).dom_id ≡ d) ⊎ ((w'.core c).dom_id ≡ (w.core c).dom_id))
  unfolding set_dom_ids
  set_dom_ids-frame d [] w = (refl, refl, λ c. inr refl)
  set_dom_ids-frame d (cpu ∷ cpus) w =
      let w₁ = put_core cpu (record (w.core cpu) { dom_id = d }) w in
      let (kernel, globals, dom) = set_dom_ids-frame d cpus w₁ in
      (kernel, globals, λ c. ground (arith, dom c))

  new_domain-Numbered :
      (cores done : M) (w : RustyWorld S M)
      → Numbered w
      → Numbered (new_domain K P cores (done, w)).1
  new_domain-Numbered cores done w h =
      let d = w.globals.nr_doms in
      let (kernel, globals, dom) = set_dom_ids-frame d (P.mask_cpus cores) w in
      record {
        some_dom = λ i k. elim (Bool-cases (d == i)) [
          | inl new ↦ rw new refl
          | inr old ↦ rw (old, globals) (h.some_dom i (ground arith))
        ];
        own = λ c. ground (arith, dom c, h.own c);
      }

  visit_level-Numbered :
      (cpu : ℕ) (l : Level M) (s s' : M × RustyWorld S M)
      → Numbered s.1
      → visit_level K P cpu l s ≡ some s'
      → Numbered s'.1 × (s'.1.kernel ≡ s.1.kernel)
  visit_level-Numbered cpu l (done, w) s' h e = elim (Bool-cases (K.mask_test cpu done || l.numa)) [
    | inl skipped ↦
        subst (λ v. Numbered v.1 × (v.1.kernel ≡ w.kernel)) (some_injective (rw skipped at e))
          (h, refl)
    | inr new ↦
        let d = w.globals.nr_doms in
        let (kernel, globals, dom) = set_dom_ids-frame d (P.mask_cpus l.cores) w in
        elim (Bool-cases (ltb d max_doms && has_bytes P (dom_ctx d) sizeof_dom_ctx w.kernel)) [
          | inl room ↦
              subst (λ v. Numbered v.1 × (v.1.kernel ≡ w.kernel))
                (some_injective (rw (new, room) at e))
                (new_domain-Numbered l.cores done w h, kernel)
          | inr full ↦ absurd (no_result (rw (new, full) at e))
        ]
  ]

  -- When the second loop ends without an error, every cpu has a level.
  pub build_domains-Numbered :
      (cpus : List ℕ) (s : M × RustyWorld S M) (r : Bool × RustyWorld S M)
      → Numbered s.1
      → build_domains K P cpus s ≡ some r
      → Numbered r.1
        × (r.1.kernel ≡ s.1.kernel)
        × (r.0 ≡ true → (c : ℕ) → elem c cpus ≡ true → is_some (P.topology c) ≡ true)
  unfolding build_domains
  build_domains-Numbered [] s r h e =
      subst
        (λ v.
          Numbered v.1
          × (v.1.kernel ≡ s.1.kernel)
          × (v.0 ≡ true → (c : ℕ) → elem c [] ≡ true → is_some (P.topology c) ≡ true))
        (some_injective e) (h, refl, λ t c k. absurd (false≢true k))
  build_domains-Numbered (cpu ∷ cpus) s r h e = elim (Option-cases (P.topology cpu)) [
    | inl missing ↦
        subst
          (λ v.
            Numbered v.1
            × (v.1.kernel ≡ s.1.kernel)
            × (v.0 ≡ true → (c : ℕ) → elem c (cpu ∷ cpus) ≡ true → is_some (P.topology c) ≡ true))
          (some_injective (rw missing at e)) (h, refl, λ t c k. absurd (false≢true t))
    | inr (l, level) ↦ elim (Option-cases (visit_level K P cpu l s)) [
      | inl fault ↦ absurd (no_result (rw (level, fault) at e))
      | inr (s', visited) ↦
          let (numbered, same) = visit_level-Numbered cpu l s s' h visited in
          let (built, kernel, levels) =
            build_domains-Numbered cpus s' r numbered (rw (level, visited) at e) in
          (
            built,
            kernel ∙ same,
            λ t c k. elim (Bool-cases (cpu == c)) [
              | inl it ↦
                  let same_cpu : cpu ≡ c = (==_iff cpu c).0 it in
                  subst (λ d. is_some (P.topology d) ≡ true) same_cpu (rw level refl)
              | inr other ↦ levels t c (ground arith)
            ],
          )
    ]
  ]
