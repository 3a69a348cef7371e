-- ===== src/Kernel/Reference.antt =====
-- A small kernel that satisfies the laws: queues, cpus and current tasks as tables. The examples
-- run the policies on it.
use mathlib.Core.Bool.{false≢true}
use saakm_misc.Prelude.{
  ℕ, Bool-cases, inl, inr, ◌&&◌, ◌||◌, ◌/◌, ◌*◌, ◌⊎◌, ap, not, ◌++◌, ◌∷◌, elem, without,
  elem-without, elem-append, ==_refl, zero, suc, ◌+◌, List, [], Bool, true, false, Option, none,
  some, ◌≡◌, refl, ◌==◌, if◌then◌else◌, head?, update, arith,
}
use saakm_misc.Kernel.Defs.{
  Rq, rq_eq, Kernel, KernelLaws, CpumaskLaws, SmtLaws, targets, placed, current_after,
}

pub record Tables : Type 0 where
  pub queue : Rq → List ℕ
  pub cpu : ℕ → ℕ
  pub current : ℕ → Option ℕ

-- The first address not in use, of the first `fuel` from `p`.
abbrev first_free : ℕ → (ℕ → Bool) → ℕ → Option ℕ
first_free zero used p = none
first_free (suc fuel) used p = elim (used p) [
  | true ↦ first_free fuel used (suc p)
  | false ↦ some p
]

first_free_unused :
    (fuel : ℕ) (used : ℕ → Bool) (q p : ℕ) → first_free fuel used q ≡ some p → used p ≡ false
first_free_unused zero used q p h = ground arith
first_free_unused (suc fuel) used q p h = ground (arith, first_free_unused fuel used (suc q) p)

-- Masks are lists of cpus.
abbrev pub inter : List ℕ → List ℕ → List ℕ
inter [] n = []
inter (c ∷ m) n = let rest = inter m n in if elem c n then c ∷ rest else rest

abbrev minus : List ℕ → List ℕ → List ℕ
minus [] n = []
minus (c ∷ m) n = let rest = minus m n in if elem c n then rest else c ∷ rest

abbrev all_in : List ℕ → List ℕ → Bool
all_in [] n = true
all_in (c ∷ m) n = elem c n && all_in m n

abbrev any_in : List ℕ → List ℕ → Bool
any_in [] n = false
any_in (c ∷ m) n = elem c n || any_in m n

-- Two cpus to a core.
abbrev core_cpus : ℕ → List ℕ
core_cpus c = (c / 2 * 2) ∷ (c / 2 * 2 + 1) ∷ []

pub elem-inter : (d : ℕ) (m n : List ℕ) → elem d (inter m n) ≡ (elem d m && elem d n)
elem-inter d [] n = refl
elem-inter d (c ∷ m) n = ground (arith, elem-inter d m n)

elem-minus : (d : ℕ) (m n : List ℕ) → elem d (minus m n) ≡ (elem d m && not (elem d n))
elem-minus d [] n = refl
elem-minus d (c ∷ m) n = ground (arith, elem-minus d m n)

elem-all_in : (d : ℕ) (m n : List ℕ) → all_in m n ≡ true → elem d m ≡ true → elem d n ≡ true
elem-all_in d [] n h k = ground arith
elem-all_in d (c ∷ m) n h k = ground (arith, elem-all_in d m n)

all_in_intro : (m n : List ℕ) → ((d : ℕ) → elem d m ≡ true → elem d n ≡ true) → all_in m n ≡ true
all_in_intro [] n h = refl
all_in_intro (c ∷ m) n h =
    ground (arith, h c, ==_refl c, all_in_intro m n (λ d k. h d (ground arith)))

any_in_shared : (m n : List ℕ) → any_in m n ≡ true → (c : ℕ) × (elem c m ≡ true) × (elem c n ≡ true)
any_in_shared [] n h = absurd (false≢true h)
any_in_shared (c ∷ m) n h = elim (Bool-cases (elem c n)) [
  | inl there ↦ (c, ground (arith, ==_refl c), there)
  | inr away ↦ let (d, here, there) = any_in_shared m n (ground arith) in (d, ground arith, there)
]

abbrev pub reference : Kernel Tables (List ℕ)
reference = record {
  change_state = λ t s c q k. record {
    queue = λ r. placed (targets q r) t (k.queue r);
    cpu = update k.cpu t c;
    current = λ d. current_after s (c == d) t (k.current d);
  };
  first_task = λ r k. head? (k.queue r);
  remove_task = λ q t k. record k {
    queue = λ r. let rest = without t (k.queue r) in if rq_eq q r then rest else k.queue r;
  };
  task_cpu = λ t k. k.cpu t;
  set_task_cpu = λ t c k. record k { cpu = update k.cpu t c };
  current_task = λ c k. k.current c;
  init_rq = λ q k. record k { queue = λ r. if rq_eq q r then [] else k.queue r };
  rq_tasks = λ r k. k.queue r;
  kzalloc = λ used k. first_free 16 used 0;
  pid = λ t. t + 100;
  wf_exec = 2;
  num_online_cpus = λ k. 4;
  mask_empty = [];
  mask_set = λ c m. c ∷ m;
  mask_clear = without;
  mask_test = elem;
  mask_or = λ m n. m ++ n;
  mask_and = inter;
  mask_andnot = minus;
  mask_subset = all_in;
  mask_intersects = any_in;
  is_mask_empty = λ m. elim m [ [] ↦ true | c ∷ cs ↦ false ];
  smt_mask = core_cpus;
}

pub reference_laws : KernelLaws reference
reference_laws = record {
  first_task_lem = λ r k. refl;
  rq_tasks-change_state = λ r t s c q k. refl;
  task_cpu-change_state = λ u t s c q k. refl;
  current_task-change_state = λ d t s c q k. refl;
  rq_tasks-init_rq = λ r q k. refl;
  current_task-init_rq = λ d q k. refl;
  rq_tasks-remove_task = λ r q t k. refl;
  task_cpu-remove_task = λ u q t k. refl;
  current_task-remove_task = λ d q t k. refl;
  rq_tasks-set_task_cpu = λ r t c k. refl;
  current_task-set_task_cpu = λ d t c k. refl;
  task_cpu-set_task_cpu = λ u t c k. refl;
  kzalloc_fresh = λ used k p h. first_free_unused 16 used 0 p h;
}

pub reference_masks : CpumaskLaws reference
reference_masks = record {
  test-empty = λ d. refl;
  test-set = λ d c m. ground arith;
  test-clear = λ d c m. elem-without d c m;
  test-or = λ d m n. elem-append d m n;
  test-and = λ d m n. elem-inter d m n;
  test-andnot = λ d m n. elem-minus d m n;
  test-subset = λ d m n h k. elem-all_in d m n h k;
  intersects_shared = any_in_shared;
  subset_intro = all_in_intro;
}

pub reference_smt : SmtLaws reference
reference_smt = record { smt_self = λ c. ground arith; smt_same = λ c d h. same c d (ground arith) }
  where
    same : (c d : ℕ) → (d ≡ c / 2 * 2) ⊎ (d ≡ c / 2 * 2 + 1) → core_cpus d ≡ core_cpus c
    same c d h = let half : d / 2 ≡ c / 2 = omega arith in ap (λ x. (x * 2) ∷ (x * 2 + 1) ∷ []) half

-- Nothing queued, every task on cpu 0, no task current.
abbrev pub at_boot : Tables
at_boot = record { queue = λ r. []; cpu = λ t. 0; current = λ c. none }
