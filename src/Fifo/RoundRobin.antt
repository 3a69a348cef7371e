-- ===== src/Fifo/RoundRobin.antt =====
-- Round robin on one cpu of the per-core FIFO policy (modules/fifo_benchs/fifo.c).
use mathlib.Core.List.{append-nil, append_assoc}
use saakm_misc.Prelude.{
  ℕ, ◌>>=◌, Option, none, some, ◌≡◌, refl, sym, ◌∙◌, ap, subst, arith, List, [], ◌∷◌, ◌++◌, Returns,
  Returns-both, Returns->>=, sub64, ◌≤◌, length, true, Returns-weaken,
}
use saakm_misc.Kernel.{Kernel, KernelLaws, ProcessEvent, core_rq}
use saakm_misc.Fifo.{FifoWorld, quantum_ns, fifo_schedule, fifo_tick, Bool}
use saakm_misc.Fifo.Invariant.{FifoInv, fifo_tick-keeps}
use saakm_misc.Fifo.Order.{OnCpu, fifo_schedule-OnCpu}
use saakm_misc.Fifo.Accounting.{fifo_tick-requeue}

-- Each turn lasts the quantum at least.
abbrev pub Full : List (ℕ × ℕ) → Type 0
Full [] = Unit {0}
Full (t ∷ ts) = (quantum_ns ≤ sub64 t.1 t.0) × Full ts

module _ {S M : Type 0} (K : Kernel S M) where
  -- A turn of a cpu: `schedule` at the first time, and a tick of its current task at the second.
  unfoldable pub turn : ℕ → ℕ × ℕ → FifoWorld S M → Option (FifoWorld S M)
  turn cpu (now, later) w = fifo_schedule K cpu now w >>= λ w'.
      elim (K.current_task cpu w'.kernel) [
        | none ↦ some w'
        | some t ↦ fifo_tick K (record { target = t; flags = 0; cpu = cpu }) later w'
      ]

  unfoldable pub turns : ℕ → List (ℕ × ℕ) → FifoWorld S M → Option (FifoWorld S M)
  turns cpu [] w = some w
  turns cpu (t ∷ ts) w = turn cpu t w >>= turns cpu ts

module _ {S M : Type 0} (K : Kernel S M) (laws : KernelLaws K) where
  -- What a turn that lasts the quantum does to the queue of its cpu.
  turn-rotates :
      (live : ℕ → Bool) (w : FifoWorld S M) (cpu t : ℕ) (ts : List ℕ) (times : ℕ × ℕ)
      → FifoInv K live w
      → K.rq_tasks (core_rq cpu) w.kernel ≡ t ∷ ts
      → quantum_ns ≤ sub64 times.1 times.0
      → Returns
          (λ w'. FifoInv K live w' × (K.rq_tasks (core_rq cpu) w'.kernel ≡ ts ++ t ∷ []))
          (turn K cpu times w)
  unfolding turn
  turn-rotates live w cpu t ts (now, later) inv queue over =
      Returns->>= (OnCpu K live cpu t 0 now ts) _ (fifo_schedule K cpu now w) _
        (fifo_schedule-OnCpu K laws live w cpu now t ts inv queue)
        (λ w' picked.
          let e : ProcessEvent = record { target = t; flags = 0; cpu = cpu } in
          let here : live t ≡ true = picked.inv.current_live cpu t picked.is_current in
          rw picked.is_current (
            Returns-both _ _ (fifo_tick K e later w')
              (fifo_tick-keeps K laws live w' e later picked.inv here)
              (Returns-weaken
                (λ v.
                  (K.rq_tasks (core_rq cpu) v.kernel ≡ ts ++ t ∷ [])
                  × (K.current_task cpu v.kernel ≡ none))
                (λ v. K.rq_tasks (core_rq cpu) v.kernel ≡ ts ++ t ∷ []) (fifo_tick K e later w')
                (fifo_tick-requeue K laws live w' cpu later t 0 now ts e refl picked (ground arith))
                (λ v h. h.0))))

  -- Round robin: the task behind `xs` on a cpu's queue is the first there after one turn for each
  -- task of `xs`, if each turn lasts its quantum, and the tasks before it have gone behind it in
  -- their order. None of the turns faults.
  pub turns-round_robin :
      (live : ℕ → Bool) (w : FifoWorld S M) (cpu t : ℕ) (xs ys : List ℕ) (times : List (ℕ × ℕ))
      → FifoInv K live w
      → K.rq_tasks (core_rq cpu) w.kernel ≡ xs ++ (t ∷ ys)
      → length times ≡ length xs
      → Full times
      → Returns
          (λ w'. FifoInv K live w' × (K.rq_tasks (core_rq cpu) w'.kernel ≡ t ∷ (ys ++ xs)))
          (turns K cpu times w)
  unfolding turns
  turns-round_robin live w cpu t [] ys [] inv queue len full =
      (inv, queue ∙ ap (λ l. t ∷ l) (sym (append-nil ys)))
  turns-round_robin live w cpu t [] ys (a ∷ times) inv queue len full = absurd (omega arith)
  turns-round_robin live w cpu t (x ∷ xs) ys [] inv queue len full = absurd (omega arith)
  turns-round_robin live w cpu t (x ∷ xs) ys (a ∷ times) inv queue len full =
      Returns->>= _ _ (turn K cpu a w) _
        (turn-rotates live w cpu x (xs ++ (t ∷ ys)) a inv queue full.0)
        (λ w' h.
          subst
            (λ l.
              Returns (λ w'. FifoInv K live w' × (K.rq_tasks (core_rq cpu) w'.kernel ≡ t ∷ l))
                (turns K cpu times w'))
            (append_assoc ys (x ∷ []) xs)
            (turns-round_robin live w' cpu t xs (ys ++ x ∷ []) times h.0
              (h.1 ∙ append_assoc xs (t ∷ ys) (x ∷ [])) (omega arith) full.1))
