-- ===== src/OneQueue/Choices.antt =====
-- The choice of a cpu in the one-queue FIFO policy (modules/fifo_one_queue/fifo_one_queue.c).
use saakm_misc.Prelude.{
  ℕ, ◌<◌, true, false, ◌≡◌, refl, if◌then◌else◌, ◌==◌, ltb, arith, Bool-cases, inl, inr,
}
use saakm_misc.Kernel.{Kernel, CpumaskLaws}
use saakm_misc.OneQueue.{FifoWorld, Machine, select_cpu}

module _ {S M : Type 0} (K : Kernel S M) (C : Machine S) where
  -- The choice from a cpu of the machine is one of its cpus, and leaves exactly that cpu busy. It is
  -- the cpu itself if that is idle. If not, it is whatever number the variable `cpu` held before it
  -- was written, where that is a cpu, idle or not, and else the cpu itself.
  pub select_cpu-claims :
      (masks : CpumaskLaws K) (prev_cpu : ℕ) (w : FifoWorld S M)
      → prev_cpu < C.nr_cpu_ids
      → let r = select_cpu K C prev_cpu w in
        let idle = w.globals.idle_cores in
        let stale = C.uninitialised prev_cpu w.kernel in
        (r.0 < C.nr_cpu_ids)
        × ((d : ℕ)
            → K.mask_test d r.1.globals.idle_cores
              ≡ (if r.0 == d then false else K.mask_test d idle))
        × (K.mask_test prev_cpu idle ≡ true → r.0 ≡ prev_cpu)
        × (K.mask_test prev_cpu idle ≡ false
            → r.0 ≡ (if ltb stale C.nr_cpu_ids then stale else prev_cpu))
  unfolding select_cpu
  select_cpu-claims masks prev_cpu w below =
      let idle = w.globals.idle_cores in
      let stale = C.uninitialised prev_cpu w.kernel in
      let found = if K.mask_test prev_cpu idle then prev_cpu else stale in
      let cpu = if ltb found C.nr_cpu_ids then found else prev_cpu in
      (
        ground arith,
        λ d. elim (Bool-cases (K.mask_test cpu idle)) [
          | inl there ↦ rw there (masks.test-clear d cpu idle)
          | inr busy ↦ rw busy (ground (arith, busy))
        ],
        λ h. ground arith,
        λ h. rw h refl,
      )
