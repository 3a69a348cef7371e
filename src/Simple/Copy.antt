-- ===== src/Simple/Copy.antt =====
-- The BPF scheduler of modules/rusty_saakm/scx_simple.bpf.c, a copy of scx_scheds/fifo/scx_simple.bpf.c that
-- creates its shared queue and spreads the tasks over twenty cpus. Its data are of the same types.
use saakm_misc.Prelude.{
  ℕ, ◌*◌, ◌/◌, ◌%◌, ◌≡◌, Bool, true, ℤ, pos, negsuc, List, [], ◌∷◌, if◌then◌else◌, ltb, add64,
  sub64, u64_mod, update,
}
use saakm_misc.Simple.{
  Scx, SimpleWorld, local, insert, insert_vtime, SimpleCall, enqueue, running, enable, stopping,
}

-- The kernel's queues: the call that creates one on a NUMA node (-1 for none), and whether one exists.
pub record Queues (S : Type 0) : Type 0 where
  pub scx_bpf_create_dsq : ℕ → ℤ → S → ℤ × S
  pub has_dsq : ℕ → S → Bool

-- A queue is there when the call that creates it returned 0.
pub record QueuesLaws {S : Type 0} (Q : Queues S) : Type 0 where
  pub created :
      (id : ℕ) (node : ℤ) (k : S)
      → (Q.scx_bpf_create_dsq id node k).0 ≡ pos 0
      → Q.has_dsq id (Q.scx_bpf_create_dsq id node k).1 ≡ true

abbrev pub shared_dsq : ℕ
shared_dsq = 0

unfoldable pub stat_inc : ℕ → ℕ → SimpleWorld → SimpleWorld
stat_inc cpu idx w =
    let counts = update (w.stats cpu) idx (add64 (w.stats cpu idx) 1) in
    if ltb idx 2 then record w { stats = update w.stats cpu counts } else w

-- `pid` is of 32 bits.
unfoldable pub simple_select_cpu : ℕ → ℕ → ℕ → ℕ
simple_select_cpu pid prev_cpu wake_flags = pid % 20

module _ {S : Type 0} (Q : Queues S) where
  unfoldable pub simple_init : S → ℤ × S
  simple_init k = Q.scx_bpf_create_dsq shared_dsq (negsuc 0) k

module _ (X : Scx) where
  unfoldable pub simple_enqueue : Bool → ℕ → ℕ → SimpleWorld → SimpleWorld
  unfolding stat_inc
  simple_enqueue fifo_sched cpu p w =
      let w₁ = stat_inc cpu 1 w in
      let vtime = w.dsq_vtime p in
      let oldest = sub64 w.vtime_now X.slice_dfl in
      let limited = if X.time_before vtime oldest then oldest else vtime in
      if fifo_sched then insert (local p) w₁ else insert_vtime p limited w₁

  unfoldable pub simple_running : Bool → ℕ → SimpleWorld → SimpleWorld
  simple_running fifo_sched p w =
      let vtime = w.dsq_vtime p in
      let now = if X.time_before w.vtime_now vtime then vtime else w.vtime_now in
      if fifo_sched then w else record w { vtime_now = now }

  unfoldable pub simple_stopping : Bool → ℕ → ℕ → ℕ → SimpleWorld → SimpleWorld
  simple_stopping fifo_sched p slice weight w =
      let used = sub64 X.slice_dfl slice * 100 % u64_mod / weight in
      let charged = update w.dsq_vtime p (add64 (w.dsq_vtime p) used) in
      if fifo_sched then w else record w { dsq_vtime = charged }

  unfoldable pub simple_enable : ℕ → SimpleWorld → SimpleWorld
  simple_enable p w = record w { dsq_vtime = update w.dsq_vtime p w.vtime_now }

  unfoldable pub simple_call : Bool → SimpleCall → SimpleWorld → SimpleWorld
  unfolding simple_enqueue simple_running simple_stopping simple_enable
  simple_call fifo_sched (enqueue cpu p) w = simple_enqueue fifo_sched cpu p w
  simple_call fifo_sched (running p) w = simple_running fifo_sched p w
  simple_call fifo_sched (enable p) w = simple_enable p w
  simple_call fifo_sched (stopping p slice weight) w = simple_stopping fifo_sched p slice weight w

  unfoldable pub simple_run : Bool → List SimpleCall → SimpleWorld → SimpleWorld
  unfolding simple_call
  simple_run fifo_sched [] w = w
  simple_run fifo_sched (c ∷ cs) w = simple_run fifo_sched cs (simple_call fifo_sched c w)
