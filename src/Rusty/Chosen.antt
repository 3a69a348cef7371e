-- ===== src/Rusty/Chosen.antt =====
-- What `rusty_select_cpu` of modules/rusty_saakm/rusty_saakm.c returns.
use mathlib.Core.Bool.{false≢true}
use saakm_misc.Prelude.{
  ℕ, Bool, true, false, not, ◌&&◌, ℤ, pos, negsuc, ◌≡◌, refl, sym, ◌∙◌, subst, Bool-cases, inl, inr,
  arith, Returns, Returns->>=,
}
use saakm_misc.Kernel.{Kernel, CpumaskLaws, SmtLaws}
use saakm_misc.World.{put}
use saakm_misc.Rusty.{
  IdleMasks, Platform, PlatformLaws, MaskMemory, RustyWorld, RustyProcess, pick_idle_core,
}
use saakm_misc.Rusty.Idle.{pick_any_cpu, get_idle_cpumask}
use saakm_misc.Rusty.Claims.{Within}
use saakm_misc.Rusty.Picked.{Picked, pick_any_cpu-Picked}
use saakm_misc.Rusty.Select.{
  Choice, pick_idle, take_if_idle, try_if, stay, greedy, greedy_mask, select_idle,
}
use saakm_misc.Rusty.Invariant.{IsGood}
use saakm_misc.Rusty.Attempts.{
  Ready, Outcome, Selected, set_idle-Ready, put-Ready, try_if-Selected, take_if_idle-Attempted,
  pick_idle-Attempted,
}

module _ {S M : Type 0} (K : Kernel S M) (P : Platform S M) (B : M) (live : ℕ → Bool)
    (w₀ : RustyWorld S M) (p rp : ℕ) (e : RustyProcess M) (masks : CpumaskLaws K) (smt : SmtLaws K)
    (laws : PlatformLaws K P) (memory : MaskMemory P) where
  abbrev Waiting : RustyWorld S M → Type 0
  Waiting w = Ready K P B live w₀ p rp e.rq w

  abbrev pub Allowed : ℕ → Type 0
  Allowed c = K.mask_test c e.cpumask ≡ true

  abbrev pub NoneAllowed : Type 0
  NoneAllowed = (c : ℕ) → K.mask_test c e.cpumask ≡ false

  abbrev ChosenHere : Choice K P → Type 0
  ChosenHere = Selected K P B live w₀ p rp e.rq Allowed NoneAllowed

  Picked-Outcome :
      (i : IdleMasks M) (r : ℤ × IdleMasks M)
      → Picked K e.cpumask i r
      → Outcome K P B live w₀ p rp e.rq Allowed NoneAllowed r.0 × Within K r.1.cpu i.cpu
  Picked-Outcome i (pos c, j) (here, less, less_smt) = (here, less)
  Picked-Outcome i (negsuc n, j) (busy, less, less_smt) = (busy, less)

  stay-Selected :
      (w : RustyWorld S M) (prev_cpu : ℕ)
      → Waiting w
      → Returns ChosenHere (stay K P e.cpumask prev_cpu w)
  stay-Selected w prev_cpu h = elim (Bool-cases (K.mask_test prev_cpu e.cpumask)) [
    | inl domestic ↦ rw domestic (record { ready = h; outcome = domestic })
    | inr foreign ↦ rw foreign (
        Returns->>= (Picked K e.cpumask w.globals.idle_masks) ChosenHere
          (pick_any_cpu K P e.cpumask 0 w.globals.idle_masks) _
          (pick_any_cpu-Picked masks smt laws e.cpumask 0 w.globals.idle_masks)
          (λ r k.
            let (outcome, less) = Picked-Outcome w.globals.idle_masks r k in
            record {
              ready = set_idle-Ready K P B live w₀ p rp e.rq w r.1 less h;
              outcome = outcome;
            }))
  ]

  -- Nothing is in the mask that the search outside the domain chooses from.
  greedy_mask-empty : (w : RustyWorld S M) (c : ℕ) → K.mask_test c (greedy_mask K P w) ≡ false
  greedy_mask-empty w c =
      masks.test-and c K.mask_empty w.globals.direct_greedy ∙ ground (arith, masks.test-empty c)

  greedy-Selected :
      (w : RustyWorld S M) (prev_cpu : ℕ) (cores : Bool)
      → e.task ≡ p
      → IsGood e
      → Waiting w
      → Returns ChosenHere (greedy K P rp e cores (stay K P e.cpumask prev_cpu) w)
  greedy-Selected w prev_cpu cores owner good h =
      elim (Bool-cases (e.all_cpus && not (K.is_mask_empty w.globals.direct_greedy))) [
        | inr narrow ↦ rw narrow (stay-Selected w prev_cpu h)
        | inl wide ↦
            rw (wide, memory.node w.kernel)
              (try_if-Selected K P B live w₀ p rp e.rq Allowed NoneAllowed cores
                (pick_idle K P mask pick_idle_core) (λ c. K.mask_test c mask ≡ true)
                (try_if K P true (pick_idle K P mask 0) rp (stay K P e.cpumask prev_cpu)) w'
                (put-Ready K P B live w₀ p rp e.rq w (record e { tmp_cpumask = mask }) owner refl
                  (record { waits = good.waits; per_cpu = good.per_cpu; in_slice = good.in_slice })
                  h)
                (λ b.
                  pick_idle-Attempted K P B live w₀ p rp e.rq masks smt laws w' mask pick_idle_core
                    (put-Ready K P B live w₀ p rp e.rq w (record e { tmp_cpumask = mask }) owner
                      refl
                      (record {
                        waits = good.waits;
                        per_cpu = good.per_cpu;
                        in_slice = good.in_slice;
                      })
                      h))
                (λ b c found. absurd (false≢true (sym (greedy_mask-empty w c) ∙ found)))
                (λ v k.
                  try_if-Selected K P B live w₀ p rp e.rq Allowed NoneAllowed true
                    (pick_idle K P mask 0) (λ c. K.mask_test c mask ≡ true)
                    (stay K P e.cpumask prev_cpu) v k
                    (λ b. pick_idle-Attempted K P B live w₀ p rp e.rq masks smt laws v mask 0 k)
                    (λ b c found. absurd (false≢true (sym (greedy_mask-empty w c) ∙ found)))
                    (λ u j. stay-Selected u prev_cpu j)))
      ]
    where
      mask : M
      mask = greedy_mask K P w

      w' : RustyWorld S M
      w' = put rp (record e { tmp_cpumask = mask }) w

  -- The choice of an idle cpu, or of any, for a task that is not pinned to one cpu.
  pub select_idle-Selected :
      (w : RustyWorld S M) (prev_cpu : ℕ)
      → e.task ≡ p
      → IsGood e
      → Waiting w
      → Returns ChosenHere (select_idle K P rp e prev_cpu w)
  unfolding select_idle
  select_idle-Selected w prev_cpu owner good h =
      let idle = get_idle_cpumask K P w.globals.idle_masks in
      let cores = not (K.is_mask_empty idle) in
      let domestic = K.mask_test prev_cpu e.cpumask in
      let last = greedy K P rp e cores (stay K P e.cpumask prev_cpu) in
      let third = try_if K P true (pick_idle K P e.cpumask 0) rp last in
      let second = try_if K P domestic (take_if_idle K P prev_cpu) rp third in
      let first = try_if K P cores (pick_idle K P e.cpumask pick_idle_core) rp second in
      try_if-Selected K P B live w₀ p rp e.rq Allowed NoneAllowed
        (domestic && K.mask_test prev_cpu idle) (take_if_idle K P prev_cpu) (λ c. c ≡ prev_cpu)
        first w h (λ b. take_if_idle-Attempted K P B live w₀ p rp e.rq masks smt laws w prev_cpu h)
        (λ b c same. subst Allowed (sym same) (ground (arith, b)))
        (λ w₁ h₁.
          try_if-Selected K P B live w₀ p rp e.rq Allowed NoneAllowed cores
            (pick_idle K P e.cpumask pick_idle_core) Allowed second w₁ h₁
            (λ b.
              pick_idle-Attempted K P B live w₀ p rp e.rq masks smt laws w₁ e.cpumask pick_idle_core
                h₁)
            (λ b c here. here)
            (λ w₂ h₂.
              try_if-Selected K P B live w₀ p rp e.rq Allowed NoneAllowed domestic
                (take_if_idle K P prev_cpu) (λ c. c ≡ prev_cpu) third w₂ h₂
                (λ b. take_if_idle-Attempted K P B live w₀ p rp e.rq masks smt laws w₂ prev_cpu h₂)
                (λ b c same. subst Allowed (sym same) b)
                (λ w₃ h₃.
                  try_if-Selected K P B live w₀ p rp e.rq Allowed NoneAllowed true
                    (pick_idle K P e.cpumask 0) Allowed last w₃ h₃
                    (λ b.
                      pick_idle-Attempted K P B live w₀ p rp e.rq masks smt laws w₃ e.cpumask 0 h₃)
                    (λ b c here. here) (λ w₄ h₄. greedy-Selected w₄ prev_cpu cores owner good h₄))))
