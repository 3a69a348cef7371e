-- ===== src/Fifo/Examples.antt =====
-- The per-core FIFO policy (modules/fifo_benchs/fifo.c) on the reference kernel: two tasks on cpu 1
-- of four.
use saakm_misc.Prelude.{
  ℕ, ◌>>=◌, false, Option, none, some, ◌≡◌, refl, List, [], ◌∷◌, Returns, arith,
}
use saakm_misc.Kernel.{ProcessEvent, core_rq, idle_core}
use saakm_misc.Kernel.Reference.{Tables, reference, reference_laws, at_boot}
use saakm_misc.Fifo.{
  FifoWorld, FifoCore, fifo_schedule, fifo_tick, fifo_yield, fifo_terminate, select_cpu,
  fifo_new_prepare, fifo_new_place,
}
use saakm_misc.Fifo.Cores.{fifo_mod_init}
use saakm_misc.Framework.{always, Call, System, run, deliver, new_prepare, new_place}
use saakm_misc.Framework.Contract.{Holds}
use saakm_misc.Framework.Loading.{IsQuiet}
use saakm_misc.Fifo.Routines.{fifo_routines}
use saakm_misc.Fifo.Invariant.{FifoInv}
use saakm_misc.Fifo.Histories.{loaded, fifo_run-loaded}
use saakm_misc.Fifo.Order.{OnCpu, fifo_schedule-OnCpu}
use saakm_misc.Fifo.Accounting.{ticks_charge_twice}
use saakm_misc.Fifo.RoundRobin.{turns, turns-round_robin}
use saakm_misc.Fifo.Lifecycle.{fifo_terminate-running, yield-terminate_dangling}

abbrev pub blank_core : FifoCore
blank_core = record {
  state = idle_core;
  id = 0;
  current = none;
  stats = record { total_enqueue = 0; total_exec = 0; schedule_calls = 0; tick_calls = 0 };
}

abbrev pub blank : FifoWorld Tables (List ℕ)
blank = record {
  kernel = at_boot;
  heap = λ p. none;
  metadata = λ t. none;
  core = λ c. blank_core;
  globals = record { online_cores = []; fifo_policy = false; proc_entry = false };
}

abbrev pub cpus : List ℕ
cpus = 0 ∷ 1 ∷ 2 ∷ 3 ∷ []

abbrev pub on : ℕ → ProcessEvent
on t = record { target = t; flags = 0; cpu = 1 }

pub blank-IsQuiet : IsQuiet reference cpus at_boot
blank-IsQuiet = record { others_empty = λ c h. refl; global_empty = refl; none_current = λ c. refl }

-- Tasks 5 and 9 are forked, and both go to cpu 1.
abbrev pub forks : List Call
forks = new_prepare (on 5) ∷ new_place (on 5) ∷ new_prepare (on 9) ∷ new_place (on 9) ∷ []

fifo_run-loaded_example :
    Returns
      (Holds (FifoInv reference))
      (run reference always (fifo_routines reference) forks (loaded reference cpus blank))
fifo_run-loaded_example = fifo_run-loaded reference reference_laws cpus blank forks blank-IsQuiet

abbrev or_else :
    Option (System (FifoWorld Tables (List ℕ)))
    → System (FifoWorld Tables (List ℕ))
    → System (FifoWorld Tables (List ℕ))
or_else none s = s
or_else (some s) t = s

forked : System (FifoWorld Tables (List ℕ))
unfolding run deliver loaded fifo_mod_init fifo_new_prepare select_cpu fifo_new_place
forked =
    or_else (run reference always (fifo_routines reference) forks (loaded reference cpus blank))
      (loaded reference cpus blank)

forked_queue : reference.rq_tasks (core_rq 1) forked.world.kernel ≡ 5 ∷ 9 ∷ []
unfolding forked
forked_queue = refl

forked-Inv : Holds (FifoInv reference) forked
unfolding forked
forked-Inv = fifo_run-loaded_example

schedule_runs_first :
    Returns
      (OnCpu reference forked.live 1 5 0 1000 (9 ∷ []))
      (fifo_schedule reference 1 1000 forked.world)
schedule_runs_first =
    fifo_schedule-OnCpu reference reference_laws forked.live forked.world 1 1000 5 (9 ∷ [])
      forked-Inv forked_queue

abbrev world_or : Option (FifoWorld Tables (List ℕ)) → FifoWorld Tables (List ℕ)
world_or none = blank
world_or (some w) = w

-- Task 5 on cpu 1 since time 1000, task 9 behind it.
scheduled : FifoWorld Tables (List ℕ)
unfolding forked fifo_schedule
scheduled = world_or (fifo_schedule reference 1 1000 forked.world)

scheduled-OnCpu : OnCpu reference forked.live 1 5 0 1000 (9 ∷ []) scheduled
unfolding forked scheduled
scheduled-OnCpu = schedule_runs_first

-- Ticks at 8 and 12 ms: the task is taken for one that has run for 20 ms.
ticks_charge_twice_example :
    Returns
      (λ w₁.
        (reference.current_task 1 w₁.kernel ≡ some 5)
        × (reference.rq_tasks (core_rq 1) w₁.kernel ≡ 9 ∷ [])
        × Returns
            (λ w₂.
              (reference.rq_tasks (core_rq 1) w₂.kernel ≡ 9 ∷ 5 ∷ [])
              × (reference.current_task 1 w₂.kernel ≡ none))
            (fifo_tick reference (on 5) 12001000 w₁))
      (fifo_tick reference (on 5) 8001000 scheduled)
ticks_charge_twice_example =
    ticks_charge_twice reference reference_laws forked.live scheduled 1 5 1000 8000000 12000000
      (9 ∷ []) (on 5) refl scheduled-OnCpu (omega arith) (omega arith) (omega arith) (omega arith)

turns-round_robin_example :
    Returns
      (λ w.
        FifoInv reference forked.live w × (reference.rq_tasks (core_rq 1) w.kernel ≡ 9 ∷ 5 ∷ []))
      (turns reference 1 ((1000, 20001000) ∷ []) forked.world)
turns-round_robin_example =
    turns-round_robin reference reference_laws forked.live forked.world 1 9 (5 ∷ []) []
      ((1000, 20001000) ∷ []) forked-Inv forked_queue refl (omega arith)

fifo_terminate-running_example :
    Returns
      (λ w.
        (w.heap scheduled-OnCpu.ptr ≡ none)
        × ((w.core 1).current ≡ none)
        × (reference.current_task 1 w.kernel ≡ none)
        × (reference.rq_tasks (core_rq 1) w.kernel ≡ 9 ∷ []))
      (fifo_terminate reference (on 5) scheduled)
fifo_terminate-running_example =
    fifo_terminate-running reference reference_laws forked.live scheduled 1 5 0 1000 (9 ∷ []) (on 5)
      refl scheduled-OnCpu

yield-terminate_dangling_example :
    Returns
      (λ w. (w.heap scheduled-OnCpu.ptr ≡ none) × ((w.core 1).current ≡ some scheduled-OnCpu.ptr))
      (fifo_yield reference (on 5) scheduled >>= fifo_terminate reference (on 5))
yield-terminate_dangling_example =
    yield-terminate_dangling reference reference_laws forked.live scheduled 1 5 0 1000 (9 ∷ [])
      (on 5) refl scheduled-OnCpu
