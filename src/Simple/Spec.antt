-- ===== src/Simple/Spec.antt =====
-- What the virtual times of scx_scheds/fifo/scx_simple.bpf.c stand for: numbers that never wrap.
use saakm_misc.Prelude.{
  ℕ, ◌+◌, ◌-◌, ◌*◌, ◌/◌, ◌≤◌, ◌<◌, Bool, List, [], ◌∷◌, if◌then◌else◌, leb, update,
}
use saakm_misc.Simple.{Insert, local, shared, SimpleCall, enqueue, running, enable, stopping}

pub record Ideal : Type 0 where
  pub now : ℕ
  pub vtime : ℕ → ℕ
  pub queued : List Insert

abbrev pub later : ℕ → ℕ → ℕ
later a b = if leb a b then b else a

-- The task and the clock are less than 2^62 apart.
pub record Near (s : Ideal) (p : ℕ) : Type 0 where
  pub ahead : s.vtime p < s.now + 4611686018427387904
  pub behind : s.now < s.vtime p + 4611686018427387904

module _ (slice_dfl : ℕ) where
  -- A task that has been idle is queued as if it had saved up at most one slice, and keeps no more; the clock follows the
  -- tasks that run; a task that stops is charged what it used, less for a greater weight; a new task
  -- starts at the clock.
  abbrev pub spec_call : Bool → SimpleCall → Ideal → Ideal
  spec_call fifo (enqueue cpu p) s =
      let limited = later (s.vtime p) (s.now - slice_dfl) in
      if fifo
      then record s { queued = local p ∷ s.queued }
      else record s { queued = shared p limited ∷ s.queued; vtime = update s.vtime p limited }
  spec_call fifo (running p) s = if fifo then s else record s { now = later s.now (s.vtime p) }
  spec_call fifo (enable p) s = record s { vtime = update s.vtime p s.now }
  spec_call fifo (stopping p slice weight) s =
      let charged = update s.vtime p (s.vtime p + (slice_dfl - slice) * 100 / weight) in
      if fifo then s else record s { vtime = charged }

  unfoldable pub spec_run : Bool → List SimpleCall → Ideal → Ideal
  spec_run fifo [] s = s
  spec_run fifo (c ∷ cs) s = spec_run fifo cs (spec_call fifo c s)

  -- What the calls need: times that are near, and a slice that is not longer than the default one.
  abbrev pub Regular : SimpleCall → Ideal → Type 0
  Regular (enqueue cpu p) s = Near s p
  Regular (running p) s = Near s p
  Regular (enable p) s = Unit
  Regular (stopping p slice weight) s = slice ≤ slice_dfl

  abbrev pub AllRegular : Bool → List SimpleCall → Ideal → Type 0
  AllRegular fifo [] s = Unit
  AllRegular fifo (c ∷ cs) s = Regular c s × AllRegular fifo cs (spec_call fifo c s)
