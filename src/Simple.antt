-- ===== src/Simple.antt =====
-- The BPF scheduler of scx_scheds/fifo/scx_simple.bpf.c: tasks are queued in the order of a virtual
-- time of their own, or first in, first out. What it asks of the kernel by `scx_bpf_dsq_insert` and
-- `scx_bpf_dsq_insert_vtime` is a list of requests, the last one first. A task's pid, weight and slice
-- are the kernel's, so they are arguments of the calls that read them.
pub mod Spec
pub mod Times
pub mod Refines
pub mod Copy
pub mod Accepted
mod Examples
use saakm_misc.Prelude.{
  ℕ, ◌*◌, ◌/◌, ◌%◌, ◌<◌, ◌≡◌, Bool, true, false, ℤ, pos, List, [], ◌∷◌, if◌then◌else◌, ◌==◌, leb,
  ltb, add64, sub64, u64_mod, update,
}

-- What the program uses of the kernel's headers: `SCX_SLICE_DFL`, and the macro `time_before` on u64.
pub record Scx : Type 0 where
  pub slice_dfl : ℕ
  pub time_before : ℕ → ℕ → Bool

-- `time_before(a, b)`: the difference as an s64 is negative. The slice is 20 ms in the kernel.
pub record ScxLaws (X : Scx) : Type 0 where
  pub time_before_lem : (a b : ℕ) → X.time_before a b ≡ leb 9223372036854775808 (sub64 a b)
  pub slice_small : X.slice_dfl < 4294967296

-- A task put on its cpu's own queue, or on the shared one with a virtual time.
pub data Insert : Type 0 where
  local : ℕ → Insert
  shared : ℕ → ℕ → Insert

-- `stats` counts by cpu and index.
pub record SimpleWorld : Type 0 where
  pub vtime_now : ℕ
  pub dsq_vtime : ℕ → ℕ
  pub stats : ℕ → ℕ → ℕ
  pub inserted : List Insert

unfoldable pub stat_inc : ℕ → ℕ → SimpleWorld → SimpleWorld
stat_inc cpu idx w =
    let counts = update (w.stats cpu) idx (add64 (w.stats cpu idx) 1) in
    if ltb idx 2 then record w { stats = update w.stats cpu counts } else w

-- `pid` is of 32 bits.
unfoldable pub simple_select_cpu : ℕ → ℕ → ℕ → ℕ
simple_select_cpu pid prev_cpu wake_flags = pid % 8

abbrev pub insert : Insert → SimpleWorld → SimpleWorld
insert x w = record w { inserted = x ∷ w.inserted }

-- `scx_bpf_dsq_insert_vtime` also makes the virtual time given the task's own.
abbrev pub insert_vtime : ℕ → ℕ → SimpleWorld → SimpleWorld
insert_vtime p vtime w = record (insert (shared p vtime) w) {
  dsq_vtime = update w.dsq_vtime p vtime;
}

-- A call of the kernel.
pub data SimpleCall : Type 0 where
  enqueue : ℕ → ℕ → SimpleCall
  running enable : ℕ → SimpleCall
  stopping : ℕ → ℕ → ℕ → SimpleCall

module _ (X : Scx) where
  unfoldable pub simple_enqueue : Bool → ℕ → ℕ → SimpleWorld → SimpleWorld
  unfolding stat_inc
  simple_enqueue fifo_sched cpu p w =
      let w₁ = stat_inc cpu 1 w in
      let vtime = w.dsq_vtime p in
      let oldest = sub64 w.vtime_now X.slice_dfl in
      let limited = if X.time_before vtime oldest then oldest else vtime in
      if fifo_sched then insert (local p) w₁ else insert_vtime p limited w₁

  unfoldable pub simple_running : Bool → ℕ → SimpleWorld → SimpleWorld
  simple_running fifo_sched p w =
      let vtime = w.dsq_vtime p in
      let now = if X.time_before w.vtime_now vtime then vtime else w.vtime_now in
      if fifo_sched then w else record w { vtime_now = now }

  unfoldable pub simple_stopping : Bool → ℕ → ℕ → ℕ → SimpleWorld → SimpleWorld
  simple_stopping fifo_sched p slice weight w =
      let used = sub64 X.slice_dfl slice * 100 % u64_mod / weight in
      let charged = update w.dsq_vtime p (add64 (w.dsq_vtime p) used) in
      if fifo_sched then w else record w { dsq_vtime = charged }

  unfoldable pub simple_enable : ℕ → SimpleWorld → SimpleWorld
  simple_enable p w = record w { dsq_vtime = update w.dsq_vtime p w.vtime_now }

  unfoldable pub simple_init : SimpleWorld → ℤ × SimpleWorld
  simple_init w = (pos 0, w)

  unfoldable pub simple_call : Bool → SimpleCall → SimpleWorld → SimpleWorld
  unfolding simple_enqueue simple_running simple_stopping simple_enable
  simple_call fifo_sched (enqueue cpu p) w = simple_enqueue fifo_sched cpu p w
  simple_call fifo_sched (running p) w = simple_running fifo_sched p w
  simple_call fifo_sched (enable p) w = simple_enable p w
  simple_call fifo_sched (stopping p slice weight) w = simple_stopping fifo_sched p slice weight w

  unfoldable pub simple_run : Bool → List SimpleCall → SimpleWorld → SimpleWorld
  unfolding simple_call
  simple_run fifo_sched [] w = w
  simple_run fifo_sched (c ∷ cs) w = simple_run fifo_sched cs (simple_call fifo_sched c w)
