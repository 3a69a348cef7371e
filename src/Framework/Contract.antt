-- ===== src/Framework/Contract.antt =====
-- What a policy owes the framework: an invariant that each of its routines keeps, without a fault.
-- Then every sequence of calls keeps it.
use mathlib.Core.Path.{fun_ext}
use saakm_misc.Prelude.{
  ℕ, Bool, true, false, Option, none, some, ◌>>=◌, List, [], ◌∷◌, ◌≡◌, subst, inl, inr, arith,
  Bool-cases, Returns, Returns->>=, update,
}
use saakm_misc.Kernel.{Kernel, ProcessEvent, CoreEvent}
use saakm_misc.World.{World}
use saakm_misc.Framework.{
  Routines, Call, System, place_on, accepted, is_queued, for_task, deliver, run, new_prepare,
  new_place, new_end, yield, block, unblock_prepare, unblock_place, unblock_end, terminate, tick,
  schedule, core_entry, core_exit, newly_idle, enter_idle, exit_idle,
}

pub record Contract {S M E C G : Type 0} (K : Kernel S M) (may_schedule : ℕ → World S E C G → Bool)
    (R : Routines (World S E C G)) (I : (ℕ → Bool) → World S E C G → Type 0) : Type 0 where
  pub new_prepare_keeps :
      (live : ℕ → Bool) (w : World S E C G) (e : ProcessEvent)
      → I live w
      → live e.target ≡ false
      → Returns
          (λ r. I (update live e.target (accepted r.0)) (place_on K e.target r.0 r.1))
          (R.new_prepare e w)
  pub new_place_keeps :
      (live : ℕ → Bool) (w : World S E C G) (e : ProcessEvent)
      → I live w
      → live e.target ≡ true
      → Returns (I live) (R.new_place e w)
  pub block_keeps :
      (live : ℕ → Bool) (w : World S E C G) (e : ProcessEvent)
      → I live w
      → live e.target ≡ true
      → Returns (I live) (R.block e w)
  pub unblock_prepare_keeps :
      (live : ℕ → Bool) (w : World S E C G) (e : ProcessEvent)
      → I live w
      → live e.target ≡ true
      → is_queued K e.target w ≡ false
      → Returns (λ r. I live (place_on K e.target r.0 r.1)) (R.unblock_prepare e w)
  pub unblock_place_keeps :
      (live : ℕ → Bool) (w : World S E C G) (e : ProcessEvent)
      → I live w
      → live e.target ≡ true
      → Returns (I live) (R.unblock_place e w)
  pub terminate_keeps :
      (live : ℕ → Bool) (w : World S E C G) (e : ProcessEvent)
      → I live w
      → live e.target ≡ true
      → Returns (I (update live e.target false)) (R.terminate e w)
  pub yield_keeps :
      (live : ℕ → Bool) (w : World S E C G) (e : ProcessEvent)
      → I live w
      → live e.target ≡ true
      → Returns (I live) (R.yield e w)
  pub tick_keeps :
      (live : ℕ → Bool) (w : World S E C G) (e : ProcessEvent) (now : ℕ)
      → I live w
      → live e.target ≡ true
      → Returns (I live) (R.tick e now w)
  pub schedule_keeps :
      (live : ℕ → Bool) (w : World S E C G) (cpu now : ℕ)
      → I live w
      → may_schedule cpu w ≡ true
      → Returns (I live) (R.schedule cpu now w)
  pub core_entry_keeps :
      (live : ℕ → Bool) (w : World S E C G) (e : CoreEvent) → I live w → I live (R.core_entry e w)
  pub core_exit_keeps :
      (live : ℕ → Bool) (w : World S E C G) (e : CoreEvent)
      → I live w
      → Returns (I live) (R.core_exit e w)
  pub newly_idle_keeps :
      (live : ℕ → Bool) (w : World S E C G) (e : CoreEvent) → I live w → I live (R.newly_idle e w)
  pub enter_idle_keeps :
      (live : ℕ → Bool) (w : World S E C G) (e : CoreEvent) → I live w → I live (R.enter_idle e w)
  pub exit_idle_keeps :
      (live : ℕ → Bool) (w : World S E C G) (e : CoreEvent) → I live w → I live (R.exit_idle e w)

-- The invariant of a whole system.
abbrev pub Holds : {W : Type 0} → ((ℕ → Bool) → W → Type 0) → System W → Type 0
Holds I s = I s.live s.world

-- Dropping a task that was not attached changes nothing.
pub update_absent : (live : ℕ → Bool) (t : ℕ) → live t ≡ false → live ≡ update live t false
update_absent live t absent = fun_ext λ u. ground arith

module _ {W : Type 0} (I : (ℕ → Bool) → W → Type 0) where
  for_task-Holds :
      (s : System W) (e : ProcessEvent) (f : W → Option W)
      → Holds I s
      → (s.live e.target ≡ true → Returns (I s.live) (f s.world))
      → Returns (Holds I) (for_task e f s)
  for_task-Holds s e f inv keeps = elim (Bool-cases (s.live e.target)) [
    | inl here ↦ rw here (
        Returns->>= (I s.live) (Holds I) (f s.world) (λ w. some (record s { world = w }))
          (keeps here) (λ w h. h))
    | inr absent ↦ rw absent inv
  ]

  terminate-Holds :
      (s : System W) (e : ProcessEvent) (f : W → Option W)
      → Holds I s
      → (s.live e.target ≡ true → Returns (I (update s.live e.target false)) (f s.world))
      → Returns
          (Holds I)
          (for_task e f s >>= λ s'. some (record s' { live = update s'.live e.target false }))
  terminate-Holds s e f inv keeps = elim (Bool-cases (s.live e.target)) [
    | inl here ↦ rw here (wrapped (f s.world) (keeps here))
    | inr absent ↦
        rw absent (subst (λ live. I live s.world) (update_absent s.live e.target absent) inv)
  ]
    where
      wrapped :
          (r : Option W)
          → Returns (I (update s.live e.target false)) r
          → Returns (Holds I) (
              (r >>= λ w. some (record s { world = w })) >>= λ s'.
              some (record s' { live = update s'.live e.target false }))
      wrapped none k = k
      wrapped (some w) k = k

module _ {S M E C G : Type 0} {K : Kernel S M} {may_schedule : ℕ → World S E C G → Bool}
    {R : Routines (World S E C G)} {I : (ℕ → Bool) → World S E C G → Type 0}
    (contract : Contract K may_schedule R I) where
  schedule-Holds :
      (s : System (World S E C G)) (cpu now : ℕ)
      → Holds I s
      → Returns (Holds I) (deliver K may_schedule R (schedule cpu now) s)
  unfolding deliver
  schedule-Holds s cpu now inv = elim (Bool-cases (may_schedule cpu s.world)) [
    | inl may ↦ rw may (
        Returns->>= (I s.live) (Holds I) (R.schedule cpu now s.world)
          (λ w. some (record s { world = w }))
          (contract.schedule_keeps s.live s.world cpu now inv may) (λ w h. h))
    | inr may_not ↦ rw may_not inv
  ]

  unblock_prepare-Holds :
      (s : System (World S E C G)) (e : ProcessEvent)
      → Holds I s
      → Returns (Holds I) (deliver K may_schedule R (unblock_prepare e) s)
  unfolding deliver
  unblock_prepare-Holds s e inv = elim (Bool-cases (s.live e.target)) [
    | inl here ↦ elim (Bool-cases (is_queued K e.target s.world)) [
      | inl there ↦ rw (here, there) inv
      | inr away ↦
          rw (here, away)
            (Returns->>= (λ r. I s.live (place_on K e.target r.0 r.1)) (Holds I)
              (R.unblock_prepare e s.world) _
              (contract.unblock_prepare_keeps s.live s.world e inv here away) (λ r h. h))
    ]
    | inr absent ↦ rw absent inv
  ]

  new_prepare-Holds :
      (s : System (World S E C G)) (e : ProcessEvent)
      → Holds I s
      → Returns (Holds I) (deliver K may_schedule R (new_prepare e) s)
  unfolding deliver
  new_prepare-Holds s e inv = elim (Bool-cases (s.live e.target)) [
    | inl here ↦ rw here inv
    | inr absent ↦ rw absent (
        Returns->>= (λ r. I (update s.live e.target (accepted r.0)) (place_on K e.target r.0 r.1))
          (Holds I) (R.new_prepare e s.world) _
          (contract.new_prepare_keeps s.live s.world e inv absent) (λ r h. h))
  ]

  -- Every call keeps the invariant of a policy that fulfils its contract.
  pub deliver-Holds :
      (c : Call) (s : System (World S E C G))
      → Holds I s
      → Returns (Holds I) (deliver K may_schedule R c s)
  unfolding deliver
  deliver-Holds (new_prepare e) s inv = new_prepare-Holds s e inv
  deliver-Holds (new_place e) s inv =
      for_task-Holds I s e (R.new_place e) inv (contract.new_place_keeps s.live s.world e inv)
  deliver-Holds (new_end e) s inv = inv
  deliver-Holds (yield e) s inv =
      for_task-Holds I s e (R.yield e) inv (contract.yield_keeps s.live s.world e inv)
  deliver-Holds (block e) s inv =
      for_task-Holds I s e (R.block e) inv (contract.block_keeps s.live s.world e inv)
  deliver-Holds (unblock_prepare e) s inv = unblock_prepare-Holds s e inv
  deliver-Holds (unblock_place e) s inv =
      for_task-Holds I s e (R.unblock_place e) inv
        (contract.unblock_place_keeps s.live s.world e inv)
  deliver-Holds (unblock_end e) s inv = inv
  deliver-Holds (terminate e) s inv =
      terminate-Holds I s e (R.terminate e) inv (contract.terminate_keeps s.live s.world e inv)
  deliver-Holds (tick e now) s inv =
      for_task-Holds I s e (R.tick e now) inv (contract.tick_keeps s.live s.world e now inv)
  deliver-Holds (schedule cpu now) s inv = schedule-Holds s cpu now inv
  deliver-Holds (core_entry e) s inv = contract.core_entry_keeps s.live s.world e inv
  deliver-Holds (core_exit e) s inv =
      Returns->>= (I s.live) (Holds I) (R.core_exit e s.world) _
        (contract.core_exit_keeps s.live s.world e inv) (λ w h. h)
  deliver-Holds (newly_idle e) s inv = contract.newly_idle_keeps s.live s.world e inv
  deliver-Holds (enter_idle e) s inv = contract.enter_idle_keeps s.live s.world e inv
  deliver-Holds (exit_idle e) s inv = contract.exit_idle_keeps s.live s.world e inv

  -- So does every sequence of calls.
  pub run-Holds :
      (cs : List Call) (s : System (World S E C G))
      → Holds I s
      → Returns (Holds I) (run K may_schedule R cs s)
  unfolding run
  run-Holds [] s inv = inv
  run-Holds (c ∷ cs) s inv =
      Returns->>= (Holds I) (Holds I) (deliver K may_schedule R c s) (run K may_schedule R cs)
        (deliver-Holds c s inv) (run-Holds cs)
