-- ===== src/Fifo/Exclusive.antt =====
-- Where a task of the per-core FIFO policy (modules/fifo_benchs/fifo.c) can be: on one cpu, or on one
-- queue, or nowhere. Shown on the abstract scheduler.
use saakm_misc.Prelude.{
  ℕ, true, false, Option, none, some, ◌≡◌, refl, sym, ◌∙◌, subst, arith, List, [], ◌∷◌, ◌==◌,
  ==_iff, ==_refl, elem, elem-without, IsUnique, IsUnique-without, Bool-cases, inl, inr, update,
  some_injective, if◌then◌else◌, add64, sub64, ◌⊎◌, leb,
}
use saakm_misc.Kernel.{forget}
use saakm_misc.Kernel.Laws.{elem-placed, IsUnique-placed}
use saakm_misc.Fifo.{quantum_ns}
use saakm_misc.Fifo.Spec.{Board, wait, leave, spend, dispatch, set_clock}

pub record IsExclusive (a : Board) : Type 0 where
  pub one_cpu : (c d t : ℕ) → a.current c ≡ some t → a.current d ≡ some t → c ≡ d
  pub not_both : (c d t : ℕ) → a.current c ≡ some t → elem t (a.queue d) ≡ false
  pub at_home : (c t : ℕ) → elem t (a.queue c) ≡ true → a.home t ≡ c
  pub unique : (c : ℕ) → IsUnique (a.queue c)
  pub queued_live : (c t : ℕ) → elem t (a.queue c) ≡ true → a.live t ≡ true

forgotten : (t u : ℕ) (o : Option ℕ) → forget t o ≡ some u → (o ≡ some u) × ((t == u) ≡ false)
forgotten t u none h = ground arith
forgotten t u (some v) h = ground arith

pub set_clock-IsExclusive :
    (t used since : ℕ) (a : Board) → IsExclusive a → IsExclusive (set_clock t used since a)
set_clock-IsExclusive t used since a it = record {
  one_cpu = it.one_cpu;
  not_both = it.not_both;
  at_home = it.at_home;
  unique = it.unique;
  queued_live = it.queued_live;
}

pub wait-IsExclusive :
    (t : ℕ) (a : Board) → a.live t ≡ true → IsExclusive a → IsExclusive (wait t a)
wait-IsExclusive t a here it = record {
  one_cpu = λ c d u h k.
      it.one_cpu c d u (forgotten t u (a.current c) h).0 (forgotten t u (a.current d) k).0;
  not_both = λ c d u h.
      let (runs, other) = forgotten t u (a.current c) h in
      elem-placed (a.home t == d) u t (a.queue d) ∙ rw other (it.not_both c d u runs);
  at_home = λ c u h. ground (arith, elem-placed (a.home t == c) u t (a.queue c), it.at_home c u);
  unique = λ c. IsUnique-placed (a.home t == c) t (a.queue c) (it.unique c);
  queued_live =
      λ c u h. ground (arith, elem-placed (a.home t == c) u t (a.queue c), it.queued_live c u);
}

pub leave-IsExclusive : (t : ℕ) (a : Board) → IsExclusive a → IsExclusive (leave t a)
leave-IsExclusive t a it = record {
  one_cpu = λ c d u h k.
      it.one_cpu c d u (forgotten t u (a.current c) h).0 (forgotten t u (a.current d) k).0;
  not_both = λ c d u h.
      let (runs, other) = forgotten t u (a.current c) h in
      elem-without u t (a.queue d) ∙ rw other (it.not_both c d u runs);
  at_home = λ c u h. ground (arith, elem-without u t (a.queue c), it.at_home c u);
  unique = λ c. IsUnique-without t (a.queue c) (it.unique c);
  queued_live = λ c u h. ground (arith, elem-without u t (a.queue c), it.queued_live c u);
}

pub spend-IsExclusive :
    (t now : ℕ) (a : Board) → a.live t ≡ true → IsExclusive a → IsExclusive (spend t now a)
spend-IsExclusive t now a here it =
    elim (Bool-cases (leb quantum_ns (add64 (a.charged t) (sub64 now (a.since t))))) [
      | inl over ↦
          rw over (wait-IsExclusive t (set_clock t 0 0 a) here (set_clock-IsExclusive t 0 0 a it))
      | inr more ↦ rw more (set_clock-IsExclusive t _ _ a it)
    ]

-- The first task of a queue is taken to the cpu.
module _ (cpu t : ℕ) (ts : List ℕ) (a : Board) (it : IsExclusive a)
    (queue : a.queue cpu ≡ t ∷ ts) where
  taken_once : (elem t ts ≡ false) × IsUnique ts
  taken_once = subst IsUnique queue (it.unique cpu)

  first_home : a.home t ≡ cpu
  first_home = it.at_home cpu t (rw queue (rw (==_refl t) refl))

  -- The queues after it hold no other tasks than before, and not the task taken.
  elem-taken : (u d : ℕ) → elem u (update a.queue cpu ts d) ≡ true → elem u (a.queue d) ≡ true
  elem-taken u d h = elim (Bool-cases (cpu == d)) [
    | inl same ↦
        subst (λ e. elem u (a.queue e) ≡ true) ((==_iff cpu d).0 same)
          (rw queue (ground (arith, rw same at h)))
    | inr other ↦ rw other at h
  ]

  taken_gone : (d : ℕ) → elem t (update a.queue cpu ts d) ≡ false
  taken_gone d = elim (Bool-cases (cpu == d)) [
    | inl same ↦ rw same taken_once.0
    | inr other ↦ rw other (ground (arith, it.at_home d t, first_home))
  ]

  taken-IsUnique : (d : ℕ) → IsUnique (update a.queue cpu ts d)
  taken-IsUnique d = elim (Bool-cases (cpu == d)) [
    | inl same ↦ rw same taken_once.1
    | inr other ↦ rw other (it.unique d)
  ]

  -- The task that a cpu runs after it.
  taken_runs :
      (c u : ℕ)
      → (if cpu == c then some t else forget t (a.current c)) ≡ some u
      → ((cpu ≡ c) × (t ≡ u)) ⊎ ((a.current c ≡ some u) × ((t == u) ≡ false))
  taken_runs c u h = elim (Bool-cases (cpu == c)) [
    | inl same ↦ inl ((==_iff cpu c).0 same, some_injective (rw same at h))
    | inr other ↦ inr (forgotten t u (a.current c) (rw other at h))
  ]

  dispatch-IsExclusive : (now : ℕ) → IsExclusive (dispatch cpu now (t ∷ ts) a)
  dispatch-IsExclusive now = record {
    one_cpu = λ c d u h k. elim (taken_runs c u h) [
      | inl (here, same) ↦ elim (taken_runs d u k) [
        | inl (there, _) ↦ sym here ∙ there
        | inr (_, other) ↦ ground (arith)
      ]
      | inr (runs, other) ↦ elim (taken_runs d u k) [
        | inl (_, same) ↦ ground (arith)
        | inr (there, _) ↦ it.one_cpu c d u runs there
      ]
    ];
    not_both = λ c d u h. elim (taken_runs c u h) [
      | inl (_, same) ↦ subst (λ v. elem v (update a.queue cpu ts d) ≡ false) same (taken_gone d)
      | inr (runs, other) ↦ ground (arith, it.not_both c d u runs, elem-taken u d)
    ];
    at_home = λ c u h. it.at_home c u (elem-taken u c h);
    unique = λ c. taken-IsUnique c;
    queued_live = λ c u h. it.queued_live c u (elem-taken u c h);
  }

pub dispatch_any-IsExclusive :
    (cpu now : ℕ) (a : Board)
    → IsExclusive a
    → (ts : List ℕ) → a.queue cpu ≡ ts
    → IsExclusive (dispatch cpu now ts a)
dispatch_any-IsExclusive cpu now a it [] queue = it
dispatch_any-IsExclusive cpu now a it (t ∷ ts) queue = dispatch-IsExclusive cpu t ts a it queue now
