-- ===== src/Fifo/Histories.antt =====
-- Every history of the per-core FIFO policy (modules/fifo_benchs/fifo.c), from loading the module on.
use saakm_misc.Prelude.{ℕ, true, false, ◌≡◌, refl, ◌∙◌, ap, List, [], ◌∷◌, pos, Returns}
use saakm_misc.Kernel.{Kernel, KernelLaws}
use saakm_misc.Framework.{always, Call, System, deliver, run}
use saakm_misc.Framework.Contract.{Holds, deliver-Holds, run-Holds}
use saakm_misc.Framework.Loading.{IsQuiet, init_rqs, init_rqs-empty, init_rqs-idle}
use saakm_misc.Tracking.Attached.{Inv-empty}
use saakm_misc.Fifo.{FifoWorld}
use saakm_misc.Fifo.Cores.{init_core, init_cores, fifo_mod_init}
use saakm_misc.Fifo.Invariant.{IsGood, task_of, rq_of, FifoInv}
use saakm_misc.Fifo.Routines.{fifo_routines, fifo_contract}

-- The system right after the module is loaded.
unfoldable pub loaded :
    {S M : Type 0} (K : Kernel S M) → List ℕ → FifoWorld S M → System (FifoWorld S M)
loaded K possible w = record {
  world = (fifo_mod_init K possible true (pos 0) w).1;
  live = λ t. false;
}

module _ {S M : Type 0} (K : Kernel S M) (laws : KernelLaws K) where
  -- Every routine, called by the kernel in any state that satisfies the invariant, reads no bad
  -- pointer and keeps the invariant.
  pub fifo_deliver-Holds :
      (c : Call) (s : System (FifoWorld S M))
      → Holds (FifoInv K) s
      → Returns (Holds (FifoInv K)) (deliver K always (fifo_routines K) c s)
  fifo_deliver-Holds c s inv = deliver-Holds (fifo_contract K laws) c s inv

  pub init_cores-kernel :
      (possible : List ℕ) (w : FifoWorld S M)
      → (init_cores K possible w).kernel ≡ init_rqs K possible w.kernel
  unfolding init_cores init_rqs
  init_cores-kernel [] w = refl
  init_cores-kernel (cpu ∷ cpus) w = init_cores-kernel cpus (init_core K cpu w)

  pub loaded-FifoInv :
      (possible : List ℕ) (w : FifoWorld S M)
      → IsQuiet K possible w.kernel
      → Holds (FifoInv K) (loaded K possible w)
  unfolding loaded fifo_mod_init
  loaded-FifoInv possible w quiet =
      let same : (init_cores K possible w).kernel ≡ init_rqs K possible w.kernel =
        init_cores-kernel possible w in
      Inv-empty K task_of rq_of IsGood _ _ _
        (λ r. ap (K.rq_tasks r) same ∙ init_rqs-empty K laws possible w.kernel quiet r)
        (λ c. ap (K.current_task c) same ∙ init_rqs-idle K laws possible w.kernel quiet c)

  -- From loading the module on, whatever routines the kernel calls in whatever order, none of them
  -- reads a NULL or a freed pointer, and the invariant holds at the end: every attached task has an
  -- object of its own, alive, that names the run queue which the kernel has the task on, all queued
  -- and current tasks are attached, a queued task stands once, on the queue of its own cpu.
  pub fifo_run-loaded :
      (possible : List ℕ) (w : FifoWorld S M) (cs : List Call)
      → IsQuiet K possible w.kernel
      → Returns (Holds (FifoInv K)) (run K always (fifo_routines K) cs (loaded K possible w))
  fifo_run-loaded possible w cs quiet =
      run-Holds (fifo_contract K laws) cs (loaded K possible w) (loaded-FifoInv possible w quiet)
