-- ===== src/Central/Histories.antt =====
-- Every history of the central policy (modules/saakm_central/saakm_central.c), from loading it on.
use mathlib.Core.Bool.{false≢true}
use saakm_misc.Prelude.{ℕ, true, false, ◌≡◌, refl, ◌∙◌, ap, List, [], ◌∷◌, pos, Returns}
use saakm_misc.Kernel.{Kernel, KernelLaws}
use saakm_misc.Framework.{Call, System, run}
use saakm_misc.Framework.Contract.{Holds, run-Holds}
use saakm_misc.Framework.Loading.{IsQuiet, init_rqs, init_rqs-empty, init_rqs-idle}
use saakm_misc.Tracking.Attached.{Inv-empty}
use saakm_misc.Central.{CentralWorld}
use saakm_misc.Central.Cores.{init_cpu, init_cpus, saakm_central_init}
use saakm_misc.Central.Invariant.{IsGood, task_of, rq_of, CentralInv}
use saakm_misc.Central.Safety.{may_schedule}
use saakm_misc.Central.Routines.{central_routines, central_contract}

-- The system right after the module is loaded.
unfoldable pub loaded :
    {S M : Type 0} (K : Kernel S M) → List ℕ → CentralWorld S M → System (CentralWorld S M)
loaded K possible w = record {
  world = (saakm_central_init K possible true (pos 0) w).1;
  live = λ t. false;
}

module _ {S M : Type 0} (K : Kernel S M) (laws : KernelLaws K) where
  init_cpus-kernel :
      (possible : List ℕ) (w : CentralWorld S M)
      → (init_cpus K possible w).kernel ≡ init_rqs K possible w.kernel
  unfolding init_cpus init_rqs
  init_cpus-kernel [] w = refl
  init_cpus-kernel (cpu ∷ cpus) w = init_cpus-kernel cpus (init_cpu K cpu w)

  loaded-CentralInv :
      (possible : List ℕ) (w : CentralWorld S M)
      → IsQuiet K possible w.kernel
      → Holds (CentralInv K) (loaded K possible w)
  unfolding loaded saakm_central_init
  loaded-CentralInv possible w quiet =
      let same : (init_cpus K possible w).kernel ≡ init_rqs K possible w.kernel =
        init_cpus-kernel possible w in
      record {
        in_step =
            Inv-empty K task_of rq_of IsGood _ _ _
              (λ r. ap (K.rq_tasks r) same ∙ init_rqs-empty K laws possible w.kernel quiet r)
              (λ c. ap (K.current_task c) same ∙ init_rqs-idle K laws possible w.kernel quiet c);
        on_central = λ t h. absurd (false≢true h);
      }

  -- From loading the module on, whatever routines the kernel calls in whatever order, so long as it
  -- asks the central cpu for a task only when one is queued there: no routine reads a NULL or a freed
  -- pointer, and at the end every attached task is on cpu 0, has a live object of its own within its
  -- slice, and stands on no queue but the one that its object names.
  pub central_run-loaded :
      (possible : List ℕ) (w : CentralWorld S M) (cs : List Call)
      → IsQuiet K possible w.kernel
      → Returns
          (Holds (CentralInv K))
          (run K (may_schedule K) (central_routines K) cs (loaded K possible w))
  central_run-loaded possible w cs quiet =
      run-Holds (central_contract K laws) cs (loaded K possible w)
        (loaded-CentralInv possible w quiet)
