-- ===== src/Fifo/Refinement.antt =====
-- The per-core FIFO policy (modules/fifo_benchs/fifo.c) implements the abstract scheduler: each call of the
-- framework, and every history from loading the module on.
use mathlib.Core.Bool.{false≢true}
use saakm_misc.Prelude.{
  sym, ℕ, Bool, none, ◌≡◌, refl, Returns, Returns->>=, Returns-weaken, List, [], ◌∷◌, ◌∙◌, ap, some,
}
use saakm_misc.Kernel.{Kernel, KernelLaws, core_rq}
use saakm_misc.Framework.{
  always, Call, System, deliver, run, new_prepare, new_place, new_end, yield, block,
  unblock_prepare, unblock_place, unblock_end, terminate, tick, schedule, core_entry, core_exit,
  newly_idle, enter_idle, exit_idle,
}
use saakm_misc.Framework.Loading.{IsQuiet, init_rqs, init_rqs-empty, init_rqs-idle}
use saakm_misc.Fifo.{
  FifoWorld, fifo_new_place, fifo_yield, fifo_block, fifo_unblock_place, fifo_tick, fifo_schedule,
}
use saakm_misc.Fifo.Cores.{
  init_core, init_cores, fifo_mod_init, fifo_core_entry, fifo_core_exit, fifo_newly_idle,
  fifo_enter_idle, fifo_exit_idle,
}
use saakm_misc.Fifo.Routines.{fifo_routines}
use saakm_misc.Fifo.Histories.{loaded, loaded-FifoInv, init_cores-kernel}
use saakm_misc.Fifo.Spec.{
  Board, spec_call, dispatch, wait, leave, spend, Follows, done, step, empty_board,
}
use saakm_misc.Fifo.Refines.{
  ShowsWorld, fifo_tick-Shows, fifo_yield-Shows, fifo_new_place-Shows, fifo_block-Shows,
  fifo_unblock_place-Shows,
}
use saakm_misc.Fifo.Turnover.{fifo_schedule-Shows}
use saakm_misc.Fifo.Simulation.{
  ShowsSystem, has_memory, Shown, for_task-Shows, terminate-Shown, new_prepare-Shown,
  unblock_prepare-Shown,
}

module _ {S M : Type 0} (K : Kernel S M) (laws : KernelLaws K) where
  schedule-Shown :
      (s : System (FifoWorld S M)) (a : Board) (cpu now : ℕ)
      → ShowsSystem K laws a s
      → Returns
          (ShowsSystem K laws (dispatch cpu now (a.queue cpu) a))
          (deliver K always (fifo_routines K) (schedule cpu now) s)
  unfolding deliver
  schedule-Shown s a cpu now shows =
      Returns->>= (ShowsWorld K laws s.live (dispatch cpu now (a.queue cpu) a)) _
        (fifo_schedule K cpu now s.world) _
        (fifo_schedule-Shows K laws s.live s.world a shows cpu now) (λ w h. h)

  pub deliver-Shown :
      (c : Call) (s : System (FifoWorld S M)) (a : Board)
      → ShowsSystem K laws a s
      → Returns (Shown K laws c a s) (deliver K always (fifo_routines K) c s)
  unfolding deliver spec_call fifo_core_entry fifo_core_exit fifo_newly_idle fifo_enter_idle
      fifo_exit_idle
  deliver-Shown (new_prepare e) s a shows = new_prepare-Shown K laws s a shows e
  deliver-Shown (new_place e) s a shows =
      for_task-Shows K laws s a shows e (fifo_new_place K e) (wait e.target a)
        (fifo_new_place-Shows K laws s.live s.world a shows e)
  deliver-Shown (new_end e) s a shows = shows
  deliver-Shown (yield e) s a shows =
      for_task-Shows K laws s a shows e (fifo_yield K e) (wait e.target a)
        (fifo_yield-Shows K laws s.live s.world a shows e)
  deliver-Shown (block e) s a shows =
      for_task-Shows K laws s a shows e (fifo_block K e) (leave e.target a)
        (fifo_block-Shows K laws s.live s.world a shows e)
  deliver-Shown (unblock_prepare e) s a shows = unblock_prepare-Shown K laws s a shows e
  deliver-Shown (unblock_place e) s a shows =
      for_task-Shows K laws s a shows e (fifo_unblock_place K e) (wait e.target a)
        (fifo_unblock_place-Shows K laws s.live s.world a shows e)
  deliver-Shown (unblock_end e) s a shows = shows
  deliver-Shown (terminate e) s a shows = terminate-Shown K laws s a shows e
  deliver-Shown (tick e now) s a shows =
      for_task-Shows K laws s a shows e (fifo_tick K e now) (spend e.target now a)
        (fifo_tick-Shows K laws s.live s.world a shows e now)
  deliver-Shown (schedule cpu now) s a shows = schedule-Shown s a cpu now shows
  deliver-Shown (core_entry e) s a shows = shows
  deliver-Shown (core_exit e) s a shows = shows
  deliver-Shown (newly_idle e) s a shows = shows
  deliver-Shown (enter_idle e) s a shows = shows
  deliver-Shown (exit_idle e) s a shows = shows

  -- A system that shows the end of some run of the abstract scheduler on these calls.
  abbrev pub Implements : List Call → Board → System (FifoWorld S M) → Type 0
  Implements cs a s = (b : Board) × Follows K.pid K.wf_exec cs a b × ShowsSystem K laws b s

  pub run-Implements :
      (cs : List Call) (s : System (FifoWorld S M)) (a : Board)
      → ShowsSystem K laws a s
      → Returns (Implements cs a) (run K always (fifo_routines K) cs s)
  unfolding run
  run-Implements [] s a shows = (a, done, shows)
  run-Implements (c ∷ cs) s a shows =
      Returns->>= (Shown K laws c a s) (Implements (c ∷ cs) a)
        (deliver K always (fifo_routines K) c s) (run K always (fifo_routines K) cs)
        (deliver-Shown c s a shows)
        (λ s₁ h.
          let online : ℕ = K.num_online_cpus s.world.kernel in
          let memory : Bool = has_memory K laws s in
          let b : Board = spec_call K.pid K.wf_exec online memory c a in
          Returns-weaken (Implements cs b) (Implements (c ∷ cs) a)
            (run K always (fifo_routines K) cs s₁) (run-Implements cs s₁ b h)
            (λ s₂ k. (k.0, step online memory k.1, k.2)))

  init_cores-heap :
      (possible : List ℕ) (w : FifoWorld S M) → (init_cores K possible w).heap ≡ w.heap
  unfolding init_cores
  init_cores-heap [] w = refl
  init_cores-heap (cpu ∷ cpus) w = init_cores-heap cpus (init_core K cpu w)

  pub loaded-Shows :
      (possible : List ℕ) (w : FifoWorld S M)
      → IsQuiet K possible w.kernel
      → ((p : ℕ) → w.heap p ≡ none)
      → ShowsSystem K laws
          (empty_board (λ t. K.task_cpu t (loaded K possible w).world.kernel))
          (loaded K possible w)
  unfolding loaded fifo_mod_init
  loaded-Shows possible w quiet fresh =
      let same : (init_cores K possible w).kernel ≡ init_rqs K possible w.kernel =
        init_cores-kernel K laws possible w in
      record {
        inv = loaded-FifoInv K laws possible w quiet;
        same_live = λ t. refl;
        same_home = λ t. refl;
        same_queue = λ c.
            ap (K.rq_tasks (core_rq c)) same
            ∙ init_rqs-empty K laws possible w.kernel quiet (core_rq c);
        same_current =
            λ c. ap (K.current_task c) same ∙ init_rqs-idle K laws possible w.kernel quiet c;
        same_clock = λ t h. absurd (false≢true h);
        owned = λ p e h.
            let freed : none ≡ some e =
              sym (ap (λ f. f p) (init_cores-heap possible w) ∙ fresh p) ∙ h in
            absurd (cc);
      }

  -- From loading the module on, with no object allocated yet, no sequence of routine calls faults, and
  -- each ends in a state that some run of the abstract scheduler on the same calls ends in: the same
  -- tasks attached, each on the same cpu, the same queue and the same running task on every cpu, and
  -- for each attached task the same clock. The allocated objects are those of the attached tasks. What
  -- the abstract run is told by the machine is the number of online cpus and whether there is memory.
  pub fifo_run-Implements :
      (possible : List ℕ) (w : FifoWorld S M) (cs : List Call)
      → IsQuiet K possible w.kernel
      → ((p : ℕ) → w.heap p ≡ none)
      → Returns
          (Implements cs (empty_board (λ t. K.task_cpu t (loaded K possible w).world.kernel)))
          (run K always (fifo_routines K) cs (loaded K possible w))
  fifo_run-Implements possible w cs quiet fresh =
      run-Implements cs (loaded K possible w) _ (loaded-Shows possible w quiet fresh)
