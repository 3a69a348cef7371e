-- ===== src/Rusty/Attempts.antt =====
-- The attempts to choose a cpu in modules/rusty_saakm/rusty_saakm.c, one after the other.
use saakm_misc.Prelude.{
  ℕ, Bool, true, false, ℤ, pos, negsuc, Option, some, ◌≡◌, refl, sym, ◌∙◌, Bool-cases, inl, inr,
  Returns, Returns->>=, ==_refl,
}
use saakm_misc.Kernel.{Kernel, CpumaskLaws, SmtLaws, Rq}
use saakm_misc.World.{put}
use saakm_misc.Rusty.{IdleMasks, Platform, PlatformLaws, RustyWorld, RustyProcess}
use saakm_misc.Rusty.Idle.{test_and_clear_cpu_idle, pick_idle_cpu}
use saakm_misc.Rusty.Claims.{
  Within, Claimed, Claimed-Within, pick_idle_cpu-Claimed, test_and_clear-Within,
}
use saakm_misc.Rusty.Select.{
  Choice, set_idle, test_and_clear, pick_idle, direct, or_next, try_if, take_if_idle,
}
use saakm_misc.Rusty.Invariant.{IsGood, RustyInv, set_idle-keeps, put-keeps}

-- Task `p` with the object behind `rp`, whose run queue is `rq`, in the memory `w`.
module _ {S M : Type 0} (K : Kernel S M) (P : Platform S M) (B : M) (live : ℕ → Bool)
    (w₀ : RustyWorld S M) (p rp : ℕ) (rq : Option Rq) where
  -- While no cpu is chosen: the invariant holds, and the task has its object still.
  pub record Ready (w : RustyWorld S M) : Type 0 where
    pub inv : RustyInv K P B live w
    pub same_kernel : w.kernel ≡ w₀.kernel
    pub same_metadata : w.metadata ≡ w₀.metadata
    pub same_all : w.globals.all_cpumask ≡ w₀.globals.all_cpumask
    pub object : RustyProcess M
    pub points : w.metadata p ≡ some rp
    pub alive : w.heap rp ≡ some object
    pub owner : object.task ≡ p
    pub same_rq : object.rq ≡ rq
    pub good : IsGood object

  abbrev pub InRange : (ℕ → Type 0) → ℤ → Type 0
  InRange Ok (pos c) = Ok c
  InRange Ok (negsuc e) = Unit

  -- An attempt has left the memory ready for the next one, and a cpu that it found is in `Ok`.
  pub record Attempted (Ok : ℕ → Type 0) (r : Choice K P) : Type 0 where
    pub ready : Ready r.1
    pub range : InRange Ok r.0

  abbrev pub Outcome : (ℕ → Type 0) → Type 0 → ℤ → Type 0
  Outcome Ok Refused (pos c) = Ok c
  Outcome Ok Refused (negsuc e) = (e ≡ 15) × Refused

  -- A choice that is made: the cpu is in `Ok`, or the error is -EBUSY and `Refused` holds.
  pub record Selected (Ok : ℕ → Type 0) (Refused : Type 0) (r : Choice K P) : Type 0 where
    pub ready : Ready r.1
    pub outcome : Outcome Ok Refused r.0

  pub set_idle-Ready :
      (w : RustyWorld S M) (i : IdleMasks M)
      → Within K i.cpu w.globals.idle_masks.cpu
      → Ready w
      → Ready (set_idle K P i w)
  set_idle-Ready w i less h = record {
    inv = set_idle-keeps K P B w i less h.inv;
    same_kernel = h.same_kernel;
    same_metadata = h.same_metadata;
    same_all = h.same_all;
    object = h.object;
    points = h.points;
    alive = h.alive;
    owner = h.owner;
    same_rq = h.same_rq;
    good = h.good;
  }

  pub put-Ready :
      (w : RustyWorld S M) (e : RustyProcess M)
      → e.task ≡ p
      → e.rq ≡ rq
      → IsGood e
      → Ready w
      → Ready (put rp e w)
  put-Ready w e owner same_rq good h = record {
    inv =
        put-keeps K P B w p rp h.object e h.points h.alive h.owner owner (same_rq ∙ sym h.same_rq)
          good h.inv;
    same_kernel = h.same_kernel;
    same_metadata = h.same_metadata;
    same_all = h.same_all;
    object = e;
    points = h.points;
    alive = rw (==_refl rp);
    owner = owner;
    same_rq = same_rq;
    good = good;
  }

  module _ (Ok : ℕ → Type 0) (Refused : Type 0) where
    pub direct-Selected :
        (w : RustyWorld S M) (c : ℕ)
        → Ready w
        → Ok c
        → Returns (Selected Ok Refused) (direct K P rp c w)
    direct-Selected w c h ok = rw h.alive (record {
      ready =
          put-Ready w (record (h.object) { dispatch_local = true }) h.owner h.same_rq
            (record { waits = h.good.waits; per_cpu = h.good.per_cpu; in_slice = h.good.in_slice })
            h;
      outcome = ok;
    })

    or_next-Selected :
        (OkHere : ℕ → Type 0) (next : RustyWorld S M → Option (Choice K P)) (r : Choice K P)
        → Attempted OkHere r
        → ((c : ℕ) → OkHere c → Ok c)
        → ((w : RustyWorld S M) → Ready w → Returns (Selected Ok Refused) (next w))
        → Returns (Selected Ok Refused) (or_next K P rp next r)
    or_next-Selected OkHere next (pos c, w) h ok k = direct-Selected w c h.ready (ok c h.range)
    or_next-Selected OkHere next (negsuc e, w) h ok k = k w h.ready

    -- An attempt that is made only under a condition, and what follows.
    pub try_if-Selected :
        (b : Bool) (attempt : RustyWorld S M → Option (Choice K P)) (OkHere : ℕ → Type 0)
        (next : RustyWorld S M → Option (Choice K P)) (w : RustyWorld S M)
        → Ready w
        → (b ≡ true → Returns (Attempted OkHere) (attempt w))
        → (b ≡ true → (c : ℕ) → OkHere c → Ok c)
        → ((w' : RustyWorld S M) → Ready w' → Returns (Selected Ok Refused) (next w'))
        → Returns (Selected Ok Refused) (try_if K P b attempt rp next w)
    try_if-Selected true attempt OkHere next w h tried ok k =
        Returns->>= (Attempted OkHere) (Selected Ok Refused) (attempt w) (or_next K P rp next)
          (tried refl) (λ r a. or_next-Selected OkHere next r a (ok refl) k)
    try_if-Selected false attempt OkHere next w h tried ok k = k w h

  module _ (masks : CpumaskLaws K) (smt : SmtLaws K) (laws : PlatformLaws K P) where
    pub test_and_clear-Ready :
        (w : RustyWorld S M) (cpu : ℕ) → Ready w → Ready (test_and_clear K P cpu w).1
    test_and_clear-Ready w cpu h =
        set_idle-Ready w (test_and_clear_cpu_idle K P cpu w.globals.idle_masks).1
          (test_and_clear-Within masks smt laws cpu w.globals.idle_masks) h

    pub take_if_idle-Attempted :
        (w : RustyWorld S M) (cpu : ℕ)
        → Ready w
        → Returns (Attempted (λ c. c ≡ cpu)) (take_if_idle K P cpu w)
    take_if_idle-Attempted w cpu h = elim (Bool-cases (test_and_clear K P cpu w).0) [
      | inl idle ↦ record { ready = test_and_clear-Ready w cpu h; range = rw idle refl }
      | inr busy ↦ record { ready = test_and_clear-Ready w cpu h; range = rw busy tt }
    ]

    Claimed-InRange :
        (allowed : M) (flags : ℕ) (i : IdleMasks M) (r : ℤ × IdleMasks M)
        → Claimed K allowed flags i.cpu i.smt r
        → InRange (λ c. K.mask_test c allowed ≡ true) r.0
    Claimed-InRange allowed flags i (pos c, j) h = h.0
    Claimed-InRange allowed flags i (negsuc e, j) h = tt

    pub pick_idle-Attempted :
        (w : RustyWorld S M) (allowed : M) (flags : ℕ)
        → Ready w
        → Returns (Attempted (λ c. K.mask_test c allowed ≡ true)) (pick_idle K P allowed flags w)
    pick_idle-Attempted w allowed flags h =
        let i = w.globals.idle_masks in
        Returns->>= (Claimed K allowed flags i.cpu i.smt)
          (Attempted (λ c. K.mask_test c allowed ≡ true)) (pick_idle_cpu K P allowed flags i) _
          (pick_idle_cpu-Claimed masks smt laws allowed flags i)
          (λ r k. record {
            ready = set_idle-Ready w r.1 (Claimed-Within masks smt laws allowed flags i r k).0 h;
            range = Claimed-InRange allowed flags i r k;
          })
