-- ===== src/Rusty.antt =====
-- The rusty policy of modules/rusty_saakm/rusty_saakm.c: its objects, its variables, and what it uses
-- of the platform. A function takes the memory and returns the new one; `none` is a fault, a read
-- through a pointer that is NULL or freed, or a loop that does not end.
pub mod Idle
pub mod Claims
pub mod Picked
pub mod Tuner
pub mod Select
pub mod Tasks
pub mod Cores
pub mod Tuned
pub mod Invariant
pub mod Attempts
pub mod Chosen
pub mod Wakeup
pub mod Domains
pub mod Rounds
pub mod Arrival
pub mod Admission
pub mod Admitted
pub mod Safety
pub mod Routines
pub mod Loading
pub mod Histories
pub mod Marks
pub mod Slices
mod Machine
mod Examples
use saakm_misc.Prelude.{ℕ, Bool, Option, List, ◌≡◌, true, false, none, some, ◌<◌, elem, leb}
use saakm_misc.Kernel.{IpanemaState, CoreState, Rq, Kernel}
use saakm_misc.World.{World}

-- `SLICE_NS` and `PICK_IDLE_CORE`.
abbrev pub slice_ns : ℕ
slice_ns = 20000000

abbrev pub pick_idle_core : ℕ
pick_idle_core = 1

-- A cpu's times, as `struct kernel_cpustat` has them and as a core keeps them for the tuner.
pub record CpuTimes : Type 0 where
  pub user : ℕ
  pub nice : ℕ
  pub system : ℕ
  pub idle : ℕ
  pub iowait : ℕ
  pub irq : ℕ
  pub softirq : ℕ
  pub steal : ℕ

-- The core's run queue is `core_rq id`.
pub record RustyCore : Type 0 where
  pub state : CoreState
  pub id : ℕ
  pub dom_rr_cur : ℕ
  pub dom_id : ℕ
  pub times : CpuTimes

-- A process holds its two masks by value. `dom_mask` is the mask of its domains, bit by bit.
pub record RustyProcess (M : Type 0) : Type 0 where
  pub state : IpanemaState
  pub rq : Option Rq
  pub task : ℕ
  pub cpumask : M
  pub tmp_cpumask : M
  pub dom_mask : ℕ
  pub dom_id : ℕ
  pub slice : ℕ
  pub dispatch_local : Bool
  pub all_cpus : Bool

-- `idle_masks`, and the count of the choices that the kernel's `distribute` calls have made.
pub record IdleMasks (M : Type 0) : Type 0 where
  pub cpu : M
  pub smt : M
  pub choices : ℕ

-- The module's variables. `dom_data d` holds the cores of domain `d`, `none` where the entry is NULL or
-- there is none;
-- the last two are whether `rusty_policy` is allocated and whether the tuner's thread runs.
pub record RustyGlobals (M : Type 0) : Type 0 where
  pub idle_masks : IdleMasks M
  pub direct_greedy : M
  pub kick_greedy : M
  pub all_cpumask : M
  pub nr_doms : ℕ
  pub dom_data : ℕ → Option M
  pub rusty_policy : Bool
  pub tuner_thread : Bool

abbrev pub RustyWorld : Type 0 → Type 0 → Type 0
RustyWorld S M = World S (RustyProcess M) RustyCore (RustyGlobals M)

-- `struct topology_level`: its cores, and whether `flags & DOMAIN_NUMA`.
pub record Level (M : Type 0) : Type 0 where
  pub cores : M
  pub numa : Bool

-- The `kzalloc` calls whose result is not tested: those of `tuner_step`, `select_idle`, `sched_new_prepare` and
-- `init_sched`, one of them for each domain.
pub data Site : Type 0 where
  dom_already_done node_mask rp_cpumask rp_tmp_cpumask domain_done : Site
  all_cpumask direct_greedy_cpumask kick_greedy_cpumask rusty_policy_mem : Site
  dom_ctx : ℕ → Site

-- What the policy reads of the machine and of the tasks, and the bytes that can be used of what `kzalloc`
-- gives for so many, none when it gives NULL. The `distribute` calls choose a cpu of a
-- mask, or of two, and another one each time: the first argument is the count of choices so far.
pub record Platform (S M : Type 0) : Type 0 where
  pub smt_active : Bool
  pub possible : List ℕ
  pub topology : ℕ → Option (Level M)
  pub mask_cpus : M → List ℕ
  pub weight : M → ℕ
  pub any_distribute : ℕ → M → Option ℕ
  pub any_and_distribute : ℕ → M → M → Option ℕ
  pub this_cpu : S → ℕ
  pub cpus_ptr : ℕ → S → M
  pub nr_cpus_allowed : ℕ → S → ℕ
  pub exec_start : ℕ → S → ℕ
  pub is_exiting : S → Bool
  pub cpustat : ℕ → S → CpuTimes
  pub user_tick_ns : ℕ
  pub wf_sync : ℕ
  pub cpumask_size : ℕ
  pub kzalloc_size : Site → ℕ → S → Option ℕ

-- `MAX_DOMS`.
abbrev pub max_doms : ℕ
max_doms = 64

-- `sizeof(cpumask_size())`, the size of an `unsigned int`, and `sizeof(struct dom_ctx)`.
abbrev pub sizeof_unsigned : ℕ
sizeof_unsigned = 4

abbrev pub sizeof_dom_ctx : ℕ
sizeof_dom_ctx = 16

abbrev pub holds_bytes : ℕ → Option ℕ → Bool
holds_bytes size none = false
holds_bytes size (some usable) = leb size usable

-- Whether the memory that a `kzalloc` of so many bytes gives holds what is written there: a mask, or
-- as many bytes as were asked for. Else what follows is a write through NULL or past the end.
abbrev pub has_mask : {S M : Type 0} → Platform S M → Site → ℕ → S → Bool
has_mask P site bytes k = holds_bytes P.cpumask_size (P.kzalloc_size site bytes k)

abbrev pub has_bytes : {S M : Type 0} → Platform S M → Site → ℕ → S → Bool
has_bytes P site bytes k = holds_bytes bytes (P.kzalloc_size site bytes k)

-- What the tasks' calls and the tuner assume of the memory: that these allocations do not fail, and
-- that 4 bytes asked for hold a mask.
pub record MaskMemory {S M : Type 0} (P : Platform S M) : Type 0 where
  pub tuner : (k : S) → has_mask P dom_already_done P.cpumask_size k ≡ true
  pub node : (k : S) → has_mask P node_mask sizeof_unsigned k ≡ true
  pub process : (k : S) → has_mask P rp_cpumask sizeof_unsigned k ≡ true
  pub tmp : (k : S) → has_mask P rp_tmp_cpumask sizeof_unsigned k ≡ true

-- `for_each_cpu` goes over the cpus of the mask. A choice is made from the masks, and is refused only where there is none; a mask that lies in
-- another and lacks one of its cpus weighs less.
pub record PlatformLaws {S M : Type 0} (K : Kernel S M) (P : Platform S M) : Type 0 where
  pub elem-mask_cpus : (c : ℕ) (m : M) → elem c (P.mask_cpus m) ≡ K.mask_test c m
  pub any_and_in :
      (k c : ℕ) (m n : M)
      → P.any_and_distribute k m n ≡ some c
      → (K.mask_test c m ≡ true) × (K.mask_test c n ≡ true)
  pub any_and_refused :
      (k c : ℕ) (m n : M)
      → P.any_and_distribute k m n ≡ none
      → K.mask_test c m ≡ true
      → K.mask_test c n ≡ false
  pub any_in : (k c : ℕ) (m : M) → P.any_distribute k m ≡ some c → K.mask_test c m ≡ true
  pub any_refused : (k c : ℕ) (m : M) → P.any_distribute k m ≡ none → K.mask_test c m ≡ false
  pub weight_lt :
      (c : ℕ) (m n : M)
      → ((d : ℕ) → K.mask_test d n ≡ true → K.mask_test d m ≡ true)
      → K.mask_test c m ≡ true
      → K.mask_test c n ≡ false
      → P.weight n < P.weight m
