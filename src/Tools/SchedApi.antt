-- ===== src/Tools/SchedApi.antt =====
-- The test program of code/sched-api/sched-api.c, which sets and reads scheduling classes of processes
-- and threads. Its system calls are a record of functions on an abstract state of the machine; what it
-- only prints is left out. A thread or child runs to its end when it is created: each reads the class of
-- its own alone.
use saakm_misc.Prelude.{
  ℕ, zero, suc, ◌+◌, Bool, true, false, Option, none, some, List, [], ◌∷◌, ◌++◌, if◌then◌else◌,
  ◌==◌, update,
}

abbrev pub sched_normal : ℕ
sched_normal = 0

abbrev pub sched_ipanema : ℕ
sched_ipanema = 8

abbrev pub nr_threads : ℕ
nr_threads = 10

-- The calls of a thread; `none` is an error, for `fork` a negative result. `fork` and `pthread_create`
-- give the new process or thread.
pub record Api (S : Type 0) : Type 0 where
  pub sched_getattr : ℕ → S → Option ℕ
  pub sched_setattr : ℕ → ℕ → S → Option S
  pub sched_setscheduler : ℕ → ℕ → S → Option S
  pub pthread_setschedparam : ℕ → ℕ → S → Option S
  pub fork : ℕ → S → Option (ℕ × S)
  pub pthread_create : ℕ → S → Option (ℕ × S)
  pub pthread_join : ℕ → S → Option S
  pub malloc : S → Bool

-- Code of the process returns, or ends the whole process with an exit status.
pub data Ran (S A : Type 0) : Type 0 where
  goes : A → S → Ran S A
  ended : ℕ → S → Ran S A

abbrev pub Process : Type 0 → Type 0 → Type 0
Process S A = S → Ran S A

infixl 5 ◌>>=◌ ◌>>◌
abbrev pub ◌>>=◌ : {S A B : Type 0} → Process S A → (A → Process S B) → Process S B
◌>>=◌ m f s = elim (m s) [ goes a s' ↦ f a s' | ended status s' ↦ ended status s' ]

abbrev pub ◌>>◌ : {S A B : Type 0} → Process S A → Process S B → Process S B
m >> k = m >>= λ _. k

abbrev pub pure : {S A : Type 0} → A → Process S A
pure a s = goes a s

abbrev pub exit : {S A : Type 0} → ℕ → Process S A
exit status s = ended status s

-- A call that ends the process when it fails.
abbrev pub or_exit : {S : Type 0} → (S → Option S) → Process S (Unit {0})
or_exit call s = elim (call s) [ none ↦ ended 1 s | some s' ↦ goes tt s' ]

module _ {S : Type 0} (A : Api S) where
  unfoldable pub get_scheduling_policy : ℕ → Process S ℕ
  get_scheduling_policy self s = elim (A.sched_getattr self s) [
    | none ↦ ended 1 s
    | some policy ↦ goes policy s
  ]

  unfoldable pub set_ipanema_scheduler : ℕ → Process S (Unit {0})
  set_ipanema_scheduler self = or_exit (A.sched_setscheduler self sched_ipanema)

  unfoldable pub set_ipanema_scheduler_with_pthread : ℕ → Process S (Unit {0})
  set_ipanema_scheduler_with_pthread self = or_exit (A.pthread_setschedparam self sched_ipanema)

  unfoldable pub set_eevdf_scheduler : ℕ → Process S (Unit {0})
  set_eevdf_scheduler self = or_exit (A.sched_setattr self sched_normal)

  -- The child's exit status.
  unfoldable pub child_process_fn : ℕ → S → ℕ × S
  unfolding get_scheduling_policy
  child_process_fn self s = elim (get_scheduling_policy self s) [
    | ended status s' ↦ (status, s')
    | goes policy s' ↦ (if policy == sched_ipanema then 0 else 1, s')
  ]

  -- The thread's exit code.
  unfoldable pub thread_function : ℕ → Process S ℕ
  unfolding get_scheduling_policy
  thread_function self = do
    policy ← get_scheduling_policy self
    pure (if policy == sched_ipanema then 0 else 1)

  -- The loop over `pthread_create`, with `left` rounds to go: whether all threads were created, the
  -- threads to be joined, and the variables that the threads write.
  unfoldable pub create_threads :
      {V : Type 0}
      → (ℕ → ℕ → V → Process S V)
      → ℕ
      → ℕ
      → ℕ
      → List ℕ
      → V
      → Process S (Bool × List ℕ × V)
  create_threads body self zero i tids v s = goes (true, tids, v) s
  create_threads body self (suc left) i tids v s = elim (A.pthread_create self s) [
    | none ↦ goes (false, tids, v) s
    | some (tid, s₁) ↦ elim (body i tid v s₁) [
      | ended status s₂ ↦ ended status s₂
      | goes v' s₂ ↦ create_threads body self left (i + 1) (tids ++ tid ∷ []) v' s₂
    ]
  ]

  -- The loop over `pthread_join`, which stops at the first error.
  unfoldable pub join_threads : List ℕ → Process S (Unit {0})
  join_threads [] s = goes tt s
  join_threads (tid ∷ tids) s = elim (A.pthread_join tid s) [
    | none ↦ goes tt s
    | some s' ↦ join_threads tids s'
  ]

  -- `malloc`, the two loops, and `out:`, where the threads may have been created in part.
  unfoldable pub with_threads : {V : Type 0} → (ℕ → ℕ → V → Process S V) → ℕ → V → Process S V
  unfolding create_threads join_threads
  with_threads body self v s =
      if A.malloc s
      then (create_threads body self nr_threads 0 [] v >>= λ r.
            if r.0 then (join_threads r.1 >> pure r.2) else pure r.2)
          s
      else ended 1 s

  -- The threads' exit codes are not looked at.
  unfoldable pub threads_test : ℕ → Process S (Unit {0})
  unfolding with_threads thread_function
  threads_test self = with_threads (λ i tid v. thread_function tid >> pure v) self tt

  -- `sleep(3)` of the other threads is left out.
  unfoldable pub thread_setting_sched_fn : Bool → ℕ → ℕ → (ℕ → ℕ) → Process S (ℕ → ℕ)
  unfolding get_scheduling_policy set_ipanema_scheduler set_ipanema_scheduler_with_pthread
  thread_setting_sched_fn with_pthread index self thread_policies = do
    if index == 0
        then (if with_pthread
            then set_ipanema_scheduler_with_pthread self
            else set_ipanema_scheduler self)
        else pure tt
    policy ← get_scheduling_policy self
    pure (update thread_policies index policy)

  unfoldable pub thread_setting_scheduler : Bool → ℕ → (ℕ → ℕ) → Process S (ℕ → ℕ)
  unfolding with_threads thread_setting_sched_fn
  thread_setting_scheduler with_pthread self thread_policies =
      with_threads (thread_setting_sched_fn with_pthread) self thread_policies

  -- `fork`, the child and `wait`.
  unfoldable pub child_test : ℕ → Process S (Unit {0})
  unfolding child_process_fn
  child_test self s = elim (A.fork self s) [
    | none ↦ ended 1 s
    | some (pid, s') ↦ goes tt (child_process_fn pid s').1
  ]

  -- What `main` returns are the policies that it printed last, with and without pthread.
  unfoldable pub main : ℕ → Process S ((ℕ → ℕ) × (ℕ → ℕ))
  main self = do
    get_scheduling_policy self
    set_ipanema_scheduler self
    policy ← get_scheduling_policy self
    if policy == sched_ipanema then pure tt else exit 1
    child_test self
    threads_test self
    set_eevdf_scheduler self
    policy ← get_scheduling_policy self
    if policy == sched_normal then pure tt else exit 1
    first ← thread_setting_scheduler false self (λ i. 0)
    second ← thread_setting_scheduler true self first
    pure (first, second)
