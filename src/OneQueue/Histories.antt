-- ===== src/OneQueue/Histories.antt =====
-- Every history of the one-queue FIFO policy (modules/fifo_one_queue/fifo_one_queue.c), from loading
-- it on.
use saakm_misc.Prelude.{ℕ, true, false, ◌≡◌, refl, ◌∙◌, ap, List, [], ◌∷◌, pos, Returns}
use saakm_misc.Kernel.{Kernel, KernelLaws, global_rq}
use saakm_misc.Framework.{always, Call, System, run}
use saakm_misc.Framework.Contract.{Holds, run-Holds}
use saakm_misc.Framework.Loading.{IsQuiet, init_rqs, init_rqs-empty, init_rqs-idle, global-IsQuiet}
use saakm_misc.Tracking.Pointers.{Sound-empty}
use saakm_misc.OneQueue.{FifoWorld, Machine}
use saakm_misc.OneQueue.Cores.{init_core, init_cores, fifo_mod_init}
use saakm_misc.OneQueue.Routines.{fifo_routines}
use saakm_misc.OneQueue.Safety.{OneInv, task_of, one_contract}

-- The system right after the module is loaded.
unfoldable pub loaded :
    {S M : Type 0} (K : Kernel S M) → List ℕ → FifoWorld S M → System (FifoWorld S M)
loaded K possible w = record {
  world = (fifo_mod_init K possible true true (pos 0) w).1;
  live = λ t. false;
}

module _ {S M : Type 0} (K : Kernel S M) (C : Machine S) (laws : KernelLaws K) where
  init_cores-kernel :
      (possible : List ℕ) (w : FifoWorld S M)
      → (init_cores K possible w).kernel ≡ init_rqs K possible w.kernel
  unfolding init_cores init_rqs
  init_cores-kernel [] w = refl
  init_cores-kernel (cpu ∷ cpus) w = init_cores-kernel cpus (init_core K cpu w)

  loaded-OneInv :
      (possible : List ℕ) (w : FifoWorld S M)
      → IsQuiet K possible w.kernel
      → Holds (OneInv K) (loaded K possible w)
  unfolding loaded fifo_mod_init
  loaded-OneInv possible w quiet =
      let k : S = K.init_rq global_rq w.kernel in
      let quiet' : IsQuiet K possible k = global-IsQuiet K laws possible w.kernel quiet in
      Sound-empty K task_of _ _ _
        (λ r.
          ap (K.rq_tasks r) (init_cores-kernel possible _)
          ∙ init_rqs-empty K laws possible k quiet' r)
        (λ c.
          ap (K.current_task c) (init_cores-kernel possible _)
          ∙ init_rqs-idle K laws possible k quiet' c)

  -- From loading the module on, whatever routines the kernel calls in whatever order, and whatever the
  -- variable `cpu` of `select_cpu` holds before it is written: none of them reads a NULL or a freed
  -- pointer, and at the end every attached task has a live object of its own and every queued or
  -- current task is attached.
  pub one_run-loaded :
      (possible : List ℕ) (w : FifoWorld S M) (cs : List Call)
      → IsQuiet K possible w.kernel
      → Returns (Holds (OneInv K)) (run K always (fifo_routines K C) cs (loaded K possible w))
  one_run-loaded possible w cs quiet =
      run-Holds (one_contract K C laws) cs (loaded K possible w) (loaded-OneInv possible w quiet)
