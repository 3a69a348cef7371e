-- ===== src/GlobalFifo/Histories.antt =====
-- Every history of the global FIFO policy (modules/global_fifo/global_fifo.c), from loading it on.
use mathlib.Core.Bool.{false≢true}
use saakm_misc.Prelude.{
  is_some, ℕ, true, false, ◌≡◌, refl, sym, ◌∙◌, ap, elem, List, [], ◌∷◌, pos, Returns,
}
use saakm_misc.Kernel.{Kernel, KernelLaws, global_rq}
use saakm_misc.Framework.{always, Call, System, run}
use saakm_misc.Framework.Contract.{Holds, run-Holds}
use saakm_misc.Framework.Loading.{IsQuiet, init_rqs, init_rqs-empty, init_rqs-idle, global-IsQuiet}
use saakm_misc.GlobalFifo.{FifoWorld}
use saakm_misc.GlobalFifo.Cores.{init_core, init_cores, fifo_mod_init}
use saakm_misc.GlobalFifo.Routines.{fifo_routines}
use saakm_misc.GlobalFifo.Invariant.{GlobalInv}
use saakm_misc.GlobalFifo.Safety.{global_contract}

-- The system right after the module is loaded.
unfoldable pub loaded :
    {S M : Type 0} (K : Kernel S M) → List ℕ → FifoWorld S M → System (FifoWorld S M)
loaded K possible w = record {
  world = (fifo_mod_init K possible true true (pos 0) w).1;
  live = λ t. false;
}

module _ {S M : Type 0} (K : Kernel S M) (laws : KernelLaws K) where
  init_cores-kernel :
      (possible : List ℕ) (w : FifoWorld S M)
      → (init_cores K possible w).kernel ≡ init_rqs K possible w.kernel
  unfolding init_cores init_rqs
  init_cores-kernel [] w = refl
  init_cores-kernel (cpu ∷ cpus) w = init_cores-kernel cpus (init_core K cpu w)

  loaded-GlobalInv :
      (possible : List ℕ) (w : FifoWorld S M)
      → IsQuiet K possible w.kernel
      → Holds (GlobalInv K) (loaded K possible w)
  unfolding loaded fifo_mod_init
  loaded-GlobalInv possible w quiet =
      let k : S = K.init_rq global_rq w.kernel in
      let quiet' : IsQuiet K possible k = global-IsQuiet K laws possible w.kernel quiet in
      record {
        attached = λ t h. absurd (false≢true h);
        queued_live = λ r t h. absurd (
            false≢true (
              sym (
                ap (elem t) (
                  ap (K.rq_tasks r) (init_cores-kernel possible _)
                  ∙ init_rqs-empty K laws possible k quiet' r))
              ∙ h));
        current_live = λ c t h. absurd (
            false≢true (
              sym (
                ap is_some (
                  ap (K.current_task c) (init_cores-kernel possible _)
                  ∙ init_rqs-idle K laws possible k quiet' c))
              ∙ ap is_some h));
      }

  -- From loading the module on, whatever routines the kernel calls in whatever order, none of them
  -- reads a NULL or a freed pointer, and at the end every attached task has an object of its own and
  -- every queued or current task is attached.
  pub global_run-loaded :
      (possible : List ℕ) (w : FifoWorld S M) (cs : List Call)
      → IsQuiet K possible w.kernel
      → Returns (Holds (GlobalInv K)) (run K always (fifo_routines K) cs (loaded K possible w))
  global_run-loaded possible w cs quiet =
      run-Holds (global_contract K laws) cs (loaded K possible w)
        (loaded-GlobalInv possible w quiet)
