-- ===== src/Rusty/Machine.antt =====
-- A machine for the examples of the rusty policy (modules/rusty_saakm/rusty_saakm.c): four cpus, two
-- to a core, and a domain to each core. Masks are lists, and a choice takes the first cpu.
use mathlib.Core.Bool.{false≢true}
use saakm_misc.Prelude.{
  ℕ, suc, ◌≤◌, leb, true, false, none, some, List, [], ◌∷◌, ◌≡◌, refl, sym, ◌∙◌, inl, inr, elem,
  without, elem-without, head?, arith, Bool-cases, if◌then◌else◌, ==_refl,
}
use saakm_misc.Kernel.Reference.{Tables, reference, inter, elem-inter}
use saakm_misc.Rusty.{Platform, PlatformLaws, CpuTimes, MaskMemory}

-- The number of different cpus.
abbrev pub distinct : List ℕ → ℕ
distinct [] = 0
distinct (c ∷ m) = let n = distinct m in if elem c m then n else suc n

distinct-without_absent : (c : ℕ) (m : List ℕ) → elem c m ≡ false → without c m ≡ m
distinct-without_absent c [] h = refl
distinct-without_absent c (d ∷ m) h = ground (arith, distinct-without_absent c m)

distinct-without :
    (c : ℕ) (m : List ℕ) → elem c m ≡ true → distinct m ≡ suc (distinct (without c m))
distinct-without c [] h = absurd (false≢true h)
distinct-without c (d ∷ m) h =
    ground (arith, distinct-without c m, distinct-without_absent c m, elem-without d c m)

distinct_le :
    (n m : List ℕ) → ((d : ℕ) → elem d n ≡ true → elem d m ≡ true) → distinct n ≤ distinct m
distinct_le [] m h = omega arith
distinct_le (c ∷ n) m h = elim (Bool-cases (elem c n)) [
  | inl again ↦ rw again (distinct_le n m (λ d k. h d (ground arith)))
  | inr new ↦
      let there : elem c m ≡ true = h c (rw (==_refl c) refl) in
      let rest : distinct n ≤ distinct (without c m) =
        distinct_le n (without c m) (λ d k. ground (arith, elem-without d c m, h d)) in
      rw new (ground (arith, distinct-without c m there))
]

abbrev no_times : CpuTimes
no_times = record {
  user = 0;
  nice = 0;
  system = 0;
  idle = 0;
  iowait = 0;
  irq = 0;
  softirq = 0;
  steal = 0;
}

abbrev pub four_cpus : List ℕ
four_cpus = 0 ∷ 1 ∷ 2 ∷ 3 ∷ []

abbrev pub machine : Platform Tables (List ℕ)
machine = record {
  smt_active = true;
  possible = four_cpus;
  topology = λ c. some (record { cores = reference.smt_mask c; numa = false });
  mask_cpus = λ m. m;
  weight = distinct;
  any_distribute = λ k m. head? m;
  any_and_distribute = λ k m n. head? (inter m n);
  this_cpu = λ k. 0;
  cpus_ptr = λ p k. four_cpus;
  nr_cpus_allowed = λ p k. 4;
  exec_start = λ p k. 0;
  is_exiting = λ k. false;
  cpustat = λ c k. no_times;
  user_tick_ns = 10000000;
  wf_sync = 1;
  cpumask_size = 8;
  kzalloc_size = λ site bytes k. some (if leb bytes 8 then 8 else bytes);
}

-- Small requests get 8 bytes, which hold a mask.
pub machine_memory : MaskMemory machine
machine_memory = record {
  tuner = λ k. refl;
  node = λ k. refl;
  process = λ k. refl;
  tmp = λ k. refl;
}

head-elem : (c : ℕ) (m : List ℕ) → head? m ≡ some c → elem c m ≡ true
head-elem c [] h = ground arith
head-elem c (d ∷ m) h = ground arith

head-none : (c : ℕ) (m : List ℕ) → head? m ≡ none → elem c m ≡ false
head-none c [] h = refl
head-none c (d ∷ m) h = ground arith

pub machine_laws : PlatformLaws reference machine
machine_laws = record {
  elem-mask_cpus = λ c m. refl;
  any_and_in = λ k c m n h.
      let there = sym (elem-inter c m n) ∙ head-elem c (inter m n) h in
      (ground (arith, there), ground (arith, there));
  any_and_refused =
      λ k c m n h there. ground (arith, sym (elem-inter c m n) ∙ head-none c (inter m n) h);
  any_in = λ k c m h. head-elem c m h;
  any_refused = λ k c m h. head-none c m h;
  weight_lt = λ c m n inside there away.
      let less : distinct n ≤ distinct (without c m) =
        distinct_le n (without c m) (λ d h. ground (arith, elem-without d c m, inside d h)) in
      ground (arith, distinct-without c m there);
}
