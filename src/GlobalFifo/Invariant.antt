-- ===== src/GlobalFifo/Invariant.antt =====
-- The invariant of the global FIFO policy (modules/global_fifo/global_fifo.c). Its objects do not name
-- a run queue, so the invariant is about pointers.
use saakm_misc.Prelude.{ℕ, Bool}
use saakm_misc.Kernel.{Kernel}
use saakm_misc.Tracking.Pointers.{Sound}
use saakm_misc.GlobalFifo.{FifoProcess, FifoWorld}

abbrev pub task_of : FifoProcess → ℕ
task_of e = e.task

abbrev pub GlobalInv : {S M : Type 0} → Kernel S M → (ℕ → Bool) → FifoWorld S M → Type 0
GlobalInv K live w = Sound K task_of live w.kernel w.heap w.metadata
