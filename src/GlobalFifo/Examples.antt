-- ===== src/GlobalFifo/Examples.antt =====
-- The global FIFO policy (modules/global_fifo/global_fifo.c) on the reference kernel: two tasks on the
-- shared queue, taken by cpu 2.
use saakm_misc.Prelude.{
  ℕ, true, false, ◌>>=◌, ◌≡◌, ◌≢◌, ◌++◌, Option, none, some, refl, List, [], ◌∷◌, Returns, arith,
  elem, IsUnique,
}
use saakm_misc.Kernel.{ProcessEvent, CoreEvent, core_rq, global_rq, idle_core, not_queued}
use saakm_misc.Kernel.Reference.{Tables, reference, reference_laws, reference_masks, at_boot}
use saakm_misc.Framework.{always, Call, run, deliver, new_prepare, new_place}
use saakm_misc.GlobalFifo.{
  FifoWorld, FifoCore, FifoProcess, fifo_schedule, fifo_tick, fifo_new_prepare, fifo_new_place,
  select_cpu,
}
use saakm_misc.GlobalFifo.Cores.{
  fifo_mod_init, fifo_newly_idle, fifo_core_entry, fifo_core_exit, fifo_enter_idle, fifo_exit_idle,
}
use saakm_misc.GlobalFifo.Routines.{fifo_routines}
use saakm_misc.GlobalFifo.Balance.{HasObject, Runs, newly_idle-schedule-Runs}
use saakm_misc.GlobalFifo.Masks.{core_events-masks}
use saakm_misc.GlobalFifo.Invariant.{GlobalInv}
use saakm_misc.GlobalFifo.Histories.{loaded, global_run-loaded}
use saakm_misc.Framework.Contract.{Holds}
use saakm_misc.Framework.Loading.{IsQuiet}
use saakm_misc.GlobalFifo.Ticks.{fifo_tick-preempts}

abbrev blank_core : FifoCore
blank_core = record { state = idle_core; id = 0; current = none }

abbrev blank : FifoWorld Tables (List ℕ)
blank = record {
  kernel = at_boot;
  heap = λ p. none;
  metadata = λ t. none;
  core = λ c. blank_core;
  globals = record { online_cores = []; idle_cores = []; fifo_policy = false; proc_entry = false };
}

abbrev on : ℕ → ProcessEvent
on t = record { target = t; flags = 0; cpu = 2 }

abbrev cpus : List ℕ
cpus = 0 ∷ 1 ∷ 2 ∷ 3 ∷ []

boot-IsQuiet : IsQuiet reference cpus at_boot
boot-IsQuiet = record { others_empty = λ c h. refl; global_empty = refl; none_current = λ c. refl }

-- Tasks 5 and 9 are forked, and both wait on the shared queue as tasks of cpu 1.
abbrev forks : List Call
forks = new_prepare (on 5) ∷ new_place (on 5) ∷ new_prepare (on 9) ∷ new_place (on 9) ∷ []

global_run-loaded_example :
    Returns
      (Holds (GlobalInv reference))
      (run reference always (fifo_routines reference) forks (loaded reference cpus blank))
global_run-loaded_example = global_run-loaded reference reference_laws cpus blank forks boot-IsQuiet

abbrev world_or : Option (FifoWorld Tables (List ℕ)) → FifoWorld Tables (List ℕ)
world_or none = blank
world_or (some w) = w

forked : FifoWorld Tables (List ℕ)
unfolding run deliver loaded fifo_mod_init fifo_new_prepare select_cpu fifo_new_place
forked = world_or (
    run reference always (fifo_routines reference) forks (loaded reference cpus blank) >>= λ s.
    some s.world)

abbrev first_object : FifoProcess
first_object = record {
  state = not_queued;
  task = 5;
  rq = none;
  current_quantum_ns = 0;
  last_sched_ns = 0;
}

forked_queue : reference.rq_tasks global_rq forked.kernel ≡ 5 ∷ 9 ∷ []
unfolding forked
forked_queue = refl

forked-IsUnique : IsUnique (reference.rq_tasks global_rq forked.kernel)
unfolding forked
forked-IsUnique = (refl, (refl, tt))

forked_idle : reference.rq_tasks (core_rq 2) forked.kernel ≡ []
unfolding forked
forked_idle = refl

forked_object : HasObject reference 5 0 first_object forked
unfolding forked
forked_object = record { points = refl; alive = refl }

newly_idle-schedule-Runs_example :
    Returns
      (λ w'.
        Runs reference 2 5 0 1000 w'
        × (reference.rq_tasks global_rq w'.kernel ≡ 9 ∷ [])
        × (reference.rq_tasks (core_rq 2) w'.kernel ≡ []))
      (fifo_schedule reference 2 1000 (fifo_newly_idle reference (record { target = 2 }) forked))
newly_idle-schedule-Runs_example =
    newly_idle-schedule-Runs reference reference_laws forked (record { target = 2 }) 1000 5 0
      (9 ∷ []) first_object forked-IsUnique forked_queue forked_idle forked_object

-- Task 5 on cpu 2 since time 1000.
scheduled : FifoWorld Tables (List ℕ)
unfolding forked fifo_schedule fifo_newly_idle
scheduled =
    world_or
      (fifo_schedule reference 2 1000 (fifo_newly_idle reference (record { target = 2 }) forked))

scheduled-Runs : Runs reference 2 5 0 1000 scheduled
unfolding forked scheduled
scheduled-Runs = newly_idle-schedule-Runs_example.0

scheduled_off : elem 5 (reference.rq_tasks global_rq scheduled.kernel) ≡ false
unfolding scheduled
scheduled_off = refl

-- A tick one microsecond later.
fifo_tick-preempts_example :
    Returns
      (λ w'.
        (reference.rq_tasks (core_rq 2) scheduled.kernel ≡ []
          → reference.rq_tasks (core_rq 2) w'.kernel ≡ 5 ∷ [])
        × ((x : ℕ) (xs : List ℕ)
            → reference.rq_tasks (core_rq 2) scheduled.kernel ≡ x ∷ xs
            → reference.rq_tasks global_rq w'.kernel
              ≡ reference.rq_tasks global_rq scheduled.kernel ++ 5 ∷ [])
        × ((c : ℕ) → reference.current_task c w'.kernel ≢ some 5))
      (fifo_tick reference (on 5) 2000 scheduled)
fifo_tick-preempts_example =
    fifo_tick-preempts reference reference_laws scheduled (on 5) 2 0 1000 2000 scheduled-Runs
      scheduled_off (omega arith) (omega arith)

abbrev core_zero : CoreEvent
core_zero = record { target = 0 }

core_events-masks_example :
    let online = λ (w : FifoWorld Tables (List ℕ)). reference.mask_test 0 w.globals.online_cores in
    let idle = λ (w : FifoWorld Tables (List ℕ)). reference.mask_test 0 w.globals.idle_cores in
    (online (fifo_core_entry reference core_zero blank) ≡ true)
    × (idle (fifo_core_entry reference core_zero blank) ≡ true)
    × (online (fifo_core_exit reference core_zero blank) ≡ false)
    × (idle (fifo_core_exit reference core_zero blank) ≡ false)
    × (online (fifo_enter_idle reference core_zero blank) ≡ false)
    × (idle (fifo_enter_idle reference core_zero blank) ≡ true)
    × (online (fifo_exit_idle reference core_zero blank) ≡ false)
    × (idle (fifo_exit_idle reference core_zero blank) ≡ false)
core_events-masks_example = core_events-masks reference reference_masks blank core_zero 0 refl
