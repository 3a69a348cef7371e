-- ===== src/Simple/Times.antt =====
-- The u64 arithmetic of scx_scheds/fifo/scx_simple.bpf.c on times modulo 2^64.
use saakm_misc.Prelude.{
  ℕ, ◌+◌, ◌-◌, ◌*◌, ◌%◌, ◌≤◌, ◌<◌, true, false, ◌≡◌, add64, sub64, u64_mod, arith, ◌∙◌,
}
use saakm_misc.Simple.{Scx, ScxLaws}

module _ {X : Scx} (laws : ScxLaws X) where
  pub time_before-less :
      (a b : ℕ)
      → a < b
      → b < a + 9223372036854775808
      → X.time_before (a % u64_mod) (b % u64_mod) ≡ true
  time_before-less a b h k = laws.time_before_lem (a % u64_mod) (b % u64_mod) ∙ ground arith

  pub time_before-not_less :
      (a b : ℕ)
      → b ≤ a
      → a < b + 9223372036854775808
      → X.time_before (a % u64_mod) (b % u64_mod) ≡ false
  time_before-not_less a b h k = laws.time_before_lem (a % u64_mod) (b % u64_mod) ∙ ground arith

  pub sub64-mod :
      (a : ℕ) → X.slice_dfl ≤ a → sub64 (a % u64_mod) X.slice_dfl ≡ (a - X.slice_dfl) % u64_mod
  sub64-mod a h = ground (arith, laws.slice_small)

  pub add64-mod : (a b : ℕ) → add64 (a % u64_mod) b ≡ (a + b) % u64_mod
  add64-mod a b = omega arith

  -- The difference of the slices, a hundredfold, does not wrap.
  pub used-exact :
      (slice : ℕ)
      → slice ≤ X.slice_dfl
      → sub64 X.slice_dfl slice * 100 % u64_mod ≡ (X.slice_dfl - slice) * 100
  used-exact slice h = ground (arith, laws.slice_small)
