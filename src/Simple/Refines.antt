-- ===== src/Simple/Refines.antt =====
-- The calls of scx_scheds/fifo/scx_simple.bpf.c do, modulo 2^64, what the specification says.
use saakm_misc.Prelude.{ℕ, ◌%◌, ◌≤◌, map, ◌≡◌, u64_mod}
use saakm_misc.Simple.{Insert, local, shared, SimpleWorld, Scx, ScxLaws, Scx, ScxLaws}
use saakm_misc.Simple.Spec.{Ideal}

abbrev pub wrapped : Insert → Insert
wrapped (local p) = local p
wrapped (shared p vtime) = shared p (vtime % u64_mod)

module _ (X : Scx) where
  -- The program's times are the specification's modulo 2^64, and so are the requests.
  pub record Represents (s : Ideal) (w : SimpleWorld) : Type 0 where
    pub now : w.vtime_now ≡ s.now % u64_mod
    pub vtime : (p : ℕ) → w.dsq_vtime p ≡ s.vtime p % u64_mod
    pub queued : w.inserted ≡ map wrapped s.queued
    pub started : X.slice_dfl ≤ s.now
