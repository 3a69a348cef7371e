-- ===== src/Rusty/Picked.antt =====
-- What `pick_any_cpu` of modules/rusty_saakm/rusty_saakm.c returns.
use saakm_misc.Prelude.{
  ℕ, true, false, ℤ, pos, negsuc, Option, none, some, ◌≡◌, refl, Returns, Returns->>=,
}
use saakm_misc.Kernel.{Kernel, CpumaskLaws, SmtLaws}
use saakm_misc.Rusty.{IdleMasks, Platform, PlatformLaws}
use saakm_misc.Rusty.Idle.{chosen, pick_idle_cpu, or_any, pick_any_cpu, cpu_or_busy}
use saakm_misc.Rusty.Claims.{Within, Claimed, Claimed-Within, pick_idle_cpu-Claimed}

module _ {S M : Type 0} (K : Kernel S M) where
  -- `pick_any_cpu` returns an allowed cpu, or -EBUSY when there is none, and makes no cpu idle.
  abbrev pub Picked : M → IdleMasks M → ℤ × IdleMasks M → Type 0
  Picked allowed i (pos c, j) =
      (K.mask_test c allowed ≡ true) × Within K j.cpu i.cpu × Within K j.smt i.smt
  Picked allowed i (negsuc e, j) =
      ((e ≡ 15) × ((d : ℕ) → K.mask_test d allowed ≡ false))
      × Within K j.cpu i.cpu
      × Within K j.smt i.smt

module _ {S M : Type 0} {K : Kernel S M} {P : Platform S M} (masks : CpumaskLaws K)
    (smt : SmtLaws K) (laws : PlatformLaws K P) where
  or_any-Picked :
      (allowed : M) (flags : ℕ) (i : IdleMasks M) (r : ℤ × IdleMasks M)
      → Claimed K allowed flags i.cpu i.smt r
      → Picked K allowed i (or_any K P allowed r)
  or_any-Picked allowed flags i (pos c, j) h =
      let less = Claimed-Within masks smt laws allowed flags i (pos c, j) h in (h.0, less.0, less.1)
  or_any-Picked allowed flags i (negsuc e, j) h =
      by_choice (P.any_distribute j.choices allowed) refl
    where
      less : Within K j.cpu i.cpu × Within K j.smt i.smt
      less = Claimed-Within masks smt laws allowed flags i (negsuc e, j) h

      by_choice :
          (o : Option ℕ)
          → P.any_distribute j.choices allowed ≡ o
          → Picked K allowed i (cpu_or_busy K P o (chosen K P j))
      by_choice none e = ((refl, λ d. laws.any_refused j.choices d allowed e), less.0, less.1)
      by_choice (some c) e = (laws.any_in j.choices c allowed e, less.0, less.1)

  pub pick_any_cpu-Picked :
      (allowed : M) (flags : ℕ) (i : IdleMasks M)
      → Returns (Picked K allowed i) (pick_any_cpu K P allowed flags i)
  unfolding pick_any_cpu
  pick_any_cpu-Picked allowed flags i =
      Returns->>= (Claimed K allowed flags i.cpu i.smt) (Picked K allowed i)
        (pick_idle_cpu K P allowed flags i) _ (pick_idle_cpu-Claimed masks smt laws allowed flags i)
        (λ r h. or_any-Picked allowed flags i r h)
