-- ===== src/Framework/Loading.antt =====
-- Loading a policy module: it sets up the run queue of each possible cpu, before any task of it
-- exists.
use saakm_misc.Prelude.{ℕ, false, none, ◌≡◌, refl, ◌∙◌, elem, arith, List, [], ◌∷◌, if◌then◌else◌}
use saakm_misc.Kernel.{Kernel, KernelLaws, Rq, core_rq, global_rq}

-- Before the module is loaded: no task of it exists, so none is current, and the run queues that
-- loading does not set up are empty.
pub record IsQuiet {S M : Type 0} (K : Kernel S M) (possible : List ℕ) (k : S) : Type 0 where
  pub others_empty : (c : ℕ) → elem c possible ≡ false → K.rq_tasks (core_rq c) k ≡ []
  pub global_empty : K.rq_tasks global_rq k ≡ []
  pub none_current : (c : ℕ) → K.current_task c k ≡ none

module _ {S M : Type 0} (K : Kernel S M) where
  -- `init_saakm_rq` for the run queue of each cpu in turn.
  unfoldable pub init_rqs : List ℕ → S → S
  init_rqs [] k = k
  init_rqs (cpu ∷ cpus) k = init_rqs cpus (K.init_rq (core_rq cpu) k)

  module _ (laws : KernelLaws K) where
    init_rqs-rq_tasks :
        (possible : List ℕ) (k : S) (c : ℕ)
        → K.rq_tasks (core_rq c) (init_rqs possible k)
          ≡ (if elem c possible then [] else K.rq_tasks (core_rq c) k)
    unfolding init_rqs
    init_rqs-rq_tasks [] k c = refl
    init_rqs-rq_tasks (cpu ∷ cpus) k c =
        init_rqs-rq_tasks cpus _ c
        ∙ ground (arith, laws.rq_tasks-init_rq (core_rq c) (core_rq cpu) k)

    init_rqs-unchanged :
        (possible : List ℕ) (k : S)
        → (K.rq_tasks global_rq (init_rqs possible k) ≡ K.rq_tasks global_rq k)
          × ((c : ℕ) → K.current_task c (init_rqs possible k) ≡ K.current_task c k)
    unfolding init_rqs
    init_rqs-unchanged [] k = (refl, λ c. refl)
    init_rqs-unchanged (cpu ∷ cpus) k =
        let (global, current) = init_rqs-unchanged cpus (K.init_rq (core_rq cpu) k) in
        (
          global ∙ laws.rq_tasks-init_rq global_rq (core_rq cpu) k,
          λ c. current c ∙ laws.current_task-init_rq c (core_rq cpu) k,
        )

    -- After loading every queue is empty and no task is current.
    pub init_rqs-empty :
        (possible : List ℕ) (k : S)
        → IsQuiet K possible k
        → (r : Rq) → K.rq_tasks r (init_rqs possible k) ≡ []
    init_rqs-empty possible k quiet global_rq =
        (init_rqs-unchanged possible k).0 ∙ quiet.global_empty
    init_rqs-empty possible k quiet (core_rq c) =
        init_rqs-rq_tasks possible k c ∙ ground (arith, quiet.others_empty c)

    pub init_rqs-idle :
        (possible : List ℕ) (k : S)
        → IsQuiet K possible k
        → (c : ℕ) → K.current_task c (init_rqs possible k) ≡ none
    init_rqs-idle possible k quiet c = (init_rqs-unchanged possible k).1 c ∙ quiet.none_current c

    -- Setting up the shared queue leaves the kernel as quiet as it was.
    pub global-IsQuiet :
        (possible : List ℕ) (k : S)
        → IsQuiet K possible k
        → IsQuiet K possible (K.init_rq global_rq k)
    global-IsQuiet possible k quiet = record {
      others_empty = λ c h. laws.rq_tasks-init_rq (core_rq c) global_rq k ∙ quiet.others_empty c h;
      global_empty = laws.rq_tasks-init_rq global_rq global_rq k;
      none_current = λ c. laws.current_task-init_rq c global_rq k ∙ quiet.none_current c;
    }
