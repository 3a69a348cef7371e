-- ===== src/OneQueue/Examples.antt =====
-- The one-queue FIFO policy (modules/fifo_one_queue/fifo_one_queue.c) on the reference kernel: two
-- tasks on the shared queue, four cpus.
use saakm_misc.Prelude.{
  ℕ, ◌<◌, true, false, ◌>>=◌, ◌≡◌, ◌++◌, Option, none, some, refl, List, [], ◌∷◌, Returns, arith,
  without, IsUnique, if◌then◌else◌, ◌==◌, ltb,
}
use saakm_misc.Kernel.{ProcessEvent, core_rq, global_rq, idle_core, not_queued}
use saakm_misc.Kernel.Reference.{Tables, reference, reference_laws, reference_masks, at_boot}
use saakm_misc.Framework.{always, Call, run, deliver, new_prepare, new_place}
use saakm_misc.Framework.Contract.{Holds}
use saakm_misc.Framework.Loading.{IsQuiet}
use saakm_misc.OneQueue.{
  FifoWorld, FifoCore, FifoProcess, Machine, fifo_schedule, fifo_new_prepare, fifo_new_place,
  fifo_enqueue_lock, select_cpu,
}
use saakm_misc.OneQueue.Cores.{fifo_mod_init, fifo_newly_idle}
use saakm_misc.OneQueue.Routines.{fifo_routines}
use saakm_misc.OneQueue.Safety.{OneInv}
use saakm_misc.OneQueue.Histories.{loaded, one_run-loaded}
use saakm_misc.OneQueue.Order.{newly_idle-schedule_runs}
use saakm_misc.OneQueue.Ticks.{Owns, fifo_ticks, fifo_ticks-quiet, fifo_ticks-preempts}
use saakm_misc.OneQueue.Choices.{select_cpu-claims}

abbrev four : Machine Tables
four = record { this_cpu = λ k. 0; nr_cpu_ids = 4; uninitialised = λ prev k. 3 }

abbrev blank_core : FifoCore
blank_core = record { state = idle_core; id = 0; current = none }

abbrev blank : FifoWorld Tables (List ℕ)
blank = record {
  kernel = at_boot;
  heap = λ p. none;
  metadata = λ t. none;
  core = λ c. blank_core;
  globals = record {
    online_cores = [];
    idle_cores = 2 ∷ [];
    fifo_policy = false;
    proc_entry = false;
  };
}

abbrev on : ℕ → ProcessEvent
on t = record { target = t; flags = 0; cpu = 2 }

abbrev cpus : List ℕ
cpus = 0 ∷ 1 ∷ 2 ∷ 3 ∷ []

boot-IsQuiet : IsQuiet reference cpus at_boot
boot-IsQuiet = record { others_empty = λ c h. refl; global_empty = refl; none_current = λ c. refl }

-- Tasks 5 and 9 are forked, and both wait on the shared queue.
abbrev forks : List Call
forks = new_prepare (on 5) ∷ new_place (on 5) ∷ new_prepare (on 9) ∷ new_place (on 9) ∷ []

one_run-loaded_example :
    Returns
      (Holds (OneInv reference))
      (run reference always (fifo_routines reference four) forks (loaded reference cpus blank))
one_run-loaded_example = one_run-loaded reference four reference_laws cpus blank forks boot-IsQuiet

abbrev world_or : Option (FifoWorld Tables (List ℕ)) → FifoWorld Tables (List ℕ)
world_or none = blank
world_or (some w) = w

forked : FifoWorld Tables (List ℕ)
unfolding run deliver loaded fifo_mod_init fifo_new_prepare select_cpu fifo_new_place
    fifo_enqueue_lock
forked = world_or (
    run reference always (fifo_routines reference four) forks (loaded reference cpus blank) >>= λ s.
    some s.world)

forked_queue : reference.rq_tasks global_rq forked.kernel ≡ 5 ∷ 9 ∷ []
unfolding forked
forked_queue = refl

forked-IsUnique : IsUnique (reference.rq_tasks global_rq forked.kernel)
unfolding forked
forked-IsUnique = (refl, (refl, tt))

forked_idle : reference.rq_tasks (core_rq 2) forked.kernel ≡ []
unfolding forked
forked_idle = refl

newly_idle-schedule_runs_example :
    Returns
      (λ w'.
        (reference.current_task 2 w'.kernel ≡ some 5)
        × (reference.task_cpu 5 w'.kernel ≡ 2)
        × (reference.rq_tasks global_rq w'.kernel ≡ 9 ∷ [])
        × (reference.rq_tasks (core_rq 2) w'.kernel ≡ [])
        × (w'.heap ≡ forked.heap)
        × (w'.core ≡ forked.core))
      (fifo_schedule reference four 2 (fifo_newly_idle reference (record { target = 2 }) forked))
newly_idle-schedule_runs_example =
    newly_idle-schedule_runs reference reference_laws four forked (record { target = 2 }) 5 (9 ∷ [])
      forked-IsUnique forked_queue forked_idle

abbrev first_object : FifoProcess
first_object = record {
  state = not_queued;
  task = 5;
  rq = none;
  current_quantum_ns = 0;
  last_sched_ns = 0;
}

forked-Owns : Owns reference four 5 0 first_object forked
unfolding forked
forked-Owns = record { points = refl; alive = refl; owner = refl }

fifo_ticks-quiet_example :
    Returns (λ w'. w'.kernel ≡ forked.kernel) (fifo_ticks reference four 19 (on 5) 1000 forked)
fifo_ticks-quiet_example =
    fifo_ticks-quiet reference four 19 forked (on 5) 1000 0 first_object forked-Owns (omega arith)
      (omega arith)

-- Cpu 2 goes idle, gets the first task and runs it.
on_cpu : FifoWorld Tables (List ℕ)
unfolding forked fifo_schedule fifo_newly_idle
on_cpu =
    world_or
      (fifo_schedule reference four 2 (fifo_newly_idle reference (record { target = 2 }) forked))

on_cpu-Owns : Owns reference four 5 0 first_object on_cpu
unfolding on_cpu
on_cpu-Owns = record { points = refl; alive = refl; owner = refl }

on_cpu_runs : reference.current_task 2 on_cpu.kernel ≡ some 5
unfolding on_cpu
on_cpu_runs = refl

fifo_ticks-preempts_example :
    Returns
      (λ w'.
        (reference.rq_tasks global_rq w'.kernel
          ≡ without 5 (reference.rq_tasks global_rq on_cpu.kernel) ++ 5 ∷ [])
        × (reference.current_task 2 w'.kernel ≡ none))
      (fifo_ticks reference four 20 (on 5) 1000 on_cpu)
fifo_ticks-preempts_example =
    fifo_ticks-preempts reference four reference_laws 19 on_cpu (on 5) 1000 0 first_object 2
      on_cpu-Owns on_cpu_runs (omega arith) (omega arith)

select_cpu-claims_example :
    let r = select_cpu reference four 1 blank in
    (r.0 < 4)
    × ((d : ℕ)
        → reference.mask_test d r.1.globals.idle_cores
          ≡ (if r.0 == d then false else reference.mask_test d (2 ∷ [])))
    × (reference.mask_test 1 (2 ∷ []) ≡ true → r.0 ≡ 1)
    × (reference.mask_test 1 (2 ∷ []) ≡ false → r.0 ≡ (if ltb 3 4 then 3 else 1))
select_cpu-claims_example = select_cpu-claims reference four reference_masks 1 blank (omega arith)
