-- ===== src/Kernel/Defs.antt =====
-- The kernel's enumerations, as docs/ipanema-documentation/structs lists them, the operations that
-- the policies call, and the laws that the documentation gives of them.
use Prim.Native.Nat.{bit_and}
use saakm_misc.Prelude.{
  ℕ, List, [], ◌∷◌, ◌++◌, Bool, true, false, not, ◌&&◌, ◌||◌, Option, none, some, ◌≡◌, ◌==◌,
  if◌then◌else◌, head?, without, update,
}

-- `enum ipanema_state`.
pub data IpanemaState : Type 0 where
  not_queued migrating running ready blocked terminated ready_tick : IpanemaState

-- `enum ipanema_core_state`.
pub data CoreState : Type 0 where
  active_core idle_core : CoreState

-- The address of a run queue: the one inside the per-cpu core of a cpu, or the policy's global one.
pub data Rq : Type 0 where
  core_rq : ℕ → Rq
  global_rq : Rq

abbrev pub rq_eq : Rq → Rq → Bool
rq_eq (core_rq a) (core_rq b) = a == b
rq_eq global_rq global_rq = true
rq_eq _ _ = false

-- Tasks (`struct task_struct *`) and cpus are numbers.
pub record Kernel (S M : Type 0) : Type 0 where
  -- The policy calls.
  pub change_state : ℕ → IpanemaState → ℕ → Option Rq → S → S
  pub first_task : Rq → S → Option ℕ
  pub remove_task : Rq → ℕ → S → S
  pub task_cpu : ℕ → S → ℕ
  pub set_task_cpu : ℕ → ℕ → S → S
  pub current_task : ℕ → S → Option ℕ
  pub init_rq : Rq → S → S
  -- The tasks linked into a run queue, first to last (`rq->head`).
  pub rq_tasks : Rq → S → List ℕ
  -- The allocator, given the addresses in use; `none` is NULL.
  pub kzalloc : (ℕ → Bool) → S → Option ℕ
  -- Tasks, flags and cpus.
  pub pid : ℕ → ℕ
  pub wf_exec : ℕ
  pub num_online_cpus : S → ℕ
  -- `cpumask_t`.
  pub mask_empty : M
  pub mask_set : ℕ → M → M
  pub mask_clear : ℕ → M → M
  pub mask_test : ℕ → M → Bool
  pub mask_or : M → M → M
  pub mask_and : M → M → M
  pub mask_andnot : M → M → M
  pub mask_subset : M → M → Bool
  pub mask_intersects : M → M → Bool
  pub is_mask_empty : M → Bool
  -- The cpus of the physical core of a cpu, itself included.
  pub smt_mask : ℕ → M

-- `struct process_event` and `struct core_event`, as far as the policies read them.
pub record ProcessEvent : Type 0 where
  pub target : ℕ
  pub flags : ℕ
  pub cpu : ℕ

pub record CoreEvent : Type 0 where
  pub target : ℕ

-- `flags & bit`, as a test.
abbrev pub flag_set : ℕ → ℕ → Bool
flag_set flags bit = not (bit_and flags bit == 0)

-- The run queue that a call of `change_state` names, if it is `r`.
abbrev pub targets : Option Rq → Rq → Bool
targets none r = false
targets (some q) r = rq_eq q r

-- A cpu's current task once `t` is off the cpus.
abbrev pub forget : ℕ → Option ℕ → Option ℕ
forget t none = none
forget t (some u) = if u == t then none else some u

abbrev pub placed : Bool → ℕ → List ℕ → List ℕ
placed true t ts = without t ts ++ t ∷ []
placed false t ts = without t ts

abbrev pub current_after : IpanemaState → Bool → ℕ → Option ℕ → Option ℕ
current_after running true t c = some t
current_after _ _ t c = forget t c

-- `change_state` takes the task off the queue that it is on and links it at the end of the FIFO queue
-- that it is given; the cpu given becomes the task's cpu, and that cpu's current task if the new
-- state is `running`; a task put in another state is current nowhere. A fresh address is not in use.
pub record KernelLaws {S M : Type 0} (K : Kernel S M) : Type 0 where
  pub first_task_lem : (r : Rq) (k : S) → K.first_task r k ≡ head? (K.rq_tasks r k)
  pub rq_tasks-change_state :
      (r : Rq) (t : ℕ) (s : IpanemaState) (c : ℕ) (q : Option Rq) (k : S)
      → K.rq_tasks r (K.change_state t s c q k) ≡ placed (targets q r) t (K.rq_tasks r k)
  pub task_cpu-change_state :
      (u t : ℕ) (s : IpanemaState) (c : ℕ) (q : Option Rq) (k : S)
      → K.task_cpu u (K.change_state t s c q k) ≡ update (λ v. K.task_cpu v k) t c u
  pub current_task-change_state :
      (d t : ℕ) (s : IpanemaState) (c : ℕ) (q : Option Rq) (k : S)
      → K.current_task d (K.change_state t s c q k)
        ≡ current_after s (c == d) t (K.current_task d k)
  pub rq_tasks-init_rq :
      (r q : Rq) (k : S) → K.rq_tasks r (K.init_rq q k) ≡ (if rq_eq q r then [] else K.rq_tasks r k)
  pub current_task-init_rq :
      (d : ℕ) (q : Rq) (k : S) → K.current_task d (K.init_rq q k) ≡ K.current_task d k
  -- `ipanema_remove_task` takes the task off the queue named, and changes nothing else.
  pub rq_tasks-remove_task :
      (r q : Rq) (t : ℕ) (k : S)
      → K.rq_tasks r (K.remove_task q t k)
        ≡ (if rq_eq q r then without t (K.rq_tasks r k) else K.rq_tasks r k)
  pub task_cpu-remove_task :
      (u : ℕ) (q : Rq) (t : ℕ) (k : S) → K.task_cpu u (K.remove_task q t k) ≡ K.task_cpu u k
  pub current_task-remove_task :
      (d : ℕ) (q : Rq) (t : ℕ) (k : S) → K.current_task d (K.remove_task q t k) ≡ K.current_task d k
  -- Moving a task that is on no queue to another cpu, which the kernel does after a policy's `prepare`.
  pub rq_tasks-set_task_cpu :
      (r : Rq) (t c : ℕ) (k : S) → K.rq_tasks r (K.set_task_cpu t c k) ≡ K.rq_tasks r k
  pub current_task-set_task_cpu :
      (d t c : ℕ) (k : S) → K.current_task d (K.set_task_cpu t c k) ≡ K.current_task d k
  pub task_cpu-set_task_cpu :
      (u t c : ℕ) (k : S) → K.task_cpu u (K.set_task_cpu t c k) ≡ update (λ v. K.task_cpu v k) t c u
  pub kzalloc_fresh : (used : ℕ → Bool) (k : S) (p : ℕ) → K.kzalloc used k ≡ some p → used p ≡ false

pub record CpumaskLaws {S M : Type 0} (K : Kernel S M) : Type 0 where
  pub test-empty : (d : ℕ) → K.mask_test d K.mask_empty ≡ false
  pub test-set :
      (d c : ℕ) (m : M)
      → K.mask_test d (K.mask_set c m) ≡ (if c == d then true else K.mask_test d m)
  pub test-clear :
      (d c : ℕ) (m : M)
      → K.mask_test d (K.mask_clear c m) ≡ (if c == d then false else K.mask_test d m)
  pub test-or :
      (d : ℕ) (m n : M) → K.mask_test d (K.mask_or m n) ≡ (K.mask_test d m || K.mask_test d n)
  pub test-and :
      (d : ℕ) (m n : M) → K.mask_test d (K.mask_and m n) ≡ (K.mask_test d m && K.mask_test d n)
  pub test-andnot :
      (d : ℕ) (m n : M)
      → K.mask_test d (K.mask_andnot m n) ≡ (K.mask_test d m && not (K.mask_test d n))
  pub test-subset :
      (d : ℕ) (m n : M) → K.mask_subset m n ≡ true → K.mask_test d m ≡ true → K.mask_test d n ≡ true
  pub intersects_shared :
      (m n : M)
      → K.mask_intersects m n ≡ true
      → (c : ℕ) × (K.mask_test c m ≡ true) × (K.mask_test c n ≡ true)
  pub subset_intro :
      (m n : M)
      → ((d : ℕ) → K.mask_test d m ≡ true → K.mask_test d n ≡ true)
      → K.mask_subset m n ≡ true

-- `cpu_smt_mask`: the physical cores divide the cpus.
pub record SmtLaws {S M : Type 0} (K : Kernel S M) : Type 0 where
  pub smt_self : (c : ℕ) → K.mask_test c (K.smt_mask c) ≡ true
  pub smt_same : (c d : ℕ) → K.mask_test d (K.smt_mask c) ≡ true → K.smt_mask d ≡ K.smt_mask c
