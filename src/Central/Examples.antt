-- ===== src/Central/Examples.antt =====
-- The central policy (modules/saakm_central/saakm_central.c) on the reference kernel: two tasks on
-- the central cpu of four.
use saakm_misc.Prelude.{
  ℕ, ◌>>=◌, ◌==◌, ◌≡◌, true, false, negsuc, Option, none, some, refl, List, [], ◌∷◌, Returns, arith,
  if◌then◌else◌, elem,
}
use saakm_misc.Kernel.{ProcessEvent, core_rq, idle_core, active_core}
use saakm_misc.Kernel.Reference.{
  Tables, reference, reference_laws, reference_masks, reference_smt, at_boot,
}
use saakm_misc.Framework.{Call, System, run, deliver, new_prepare, new_place}
use saakm_misc.Framework.Contract.{Holds}
use saakm_misc.Framework.Loading.{IsQuiet}
use saakm_misc.Central.{
  CentralWorld, CentralCpu, central_cpu, central_schedule, central_tick, central_yield,
  central_terminate, central_new_prepare, central_new_place, select_cpu, central_enqueue_task,
}
use saakm_misc.Central.Cores.{
  saakm_central_init, central_entry_idle, central_exit_idle, central_core_exit,
  central_get_core_state,
}
use saakm_misc.Central.Invariant.{CentralInv}
use saakm_misc.Central.Safety.{may_schedule}
use saakm_misc.Central.Routines.{central_routines}
use saakm_misc.Central.Histories.{loaded, central_run-loaded}
use saakm_misc.Central.Order.{
  OnCentral, central_schedule-OnCentral, central_schedule-empty, schedule-tick_preempts,
}
use saakm_misc.Central.Idle.{IdleExact, idle_events-IdleExact, central_core_exit-stale}
use saakm_misc.Central.Loading.{saakm_central_init-branches}
use saakm_misc.Central.Lifecycle.{central_yield-terminate_dangling}

abbrev blank_core : CentralCpu
blank_core = record {
  cpu = 0;
  state = idle_core;
  current_entity = none;
  started_at_ns = 0;
  stats = record { total_enqueue = 0; total_exec = 0; schedule_calls = 0; tick_calls = 0 };
}

abbrev blank : CentralWorld Tables (List ℕ)
blank = record {
  kernel = at_boot;
  heap = λ p. none;
  metadata = λ t. none;
  core = λ c. blank_core;
  globals = record { idle_cpus = []; idle_smt = []; central_policy = false; timer_armed = false };
}

abbrev cpus : List ℕ
cpus = 0 ∷ 1 ∷ 2 ∷ 3 ∷ []

abbrev on : ℕ → ProcessEvent
on t = record { target = t; flags = 0; cpu = 0 }

boot-IsQuiet : IsQuiet reference cpus at_boot
boot-IsQuiet = record { others_empty = λ c h. refl; global_empty = refl; none_current = λ c. refl }

abbrev forks : List Call
forks = new_prepare (on 5) ∷ new_place (on 5) ∷ new_prepare (on 9) ∷ new_place (on 9) ∷ []

central_run-loaded_example : Returns (Holds (CentralInv reference)) (
    run reference
      (may_schedule reference)
      (central_routines reference)
      forks
      (loaded reference cpus blank))
central_run-loaded_example =
    central_run-loaded reference reference_laws cpus blank forks boot-IsQuiet

abbrev or_else :
    Option (System (CentralWorld Tables (List ℕ)))
    → System (CentralWorld Tables (List ℕ))
    → System (CentralWorld Tables (List ℕ))
or_else none s = s
or_else (some s) t = s

forked : System (CentralWorld Tables (List ℕ))
unfolding run deliver loaded saakm_central_init central_new_prepare select_cpu central_new_place
    central_enqueue_task
forked =
    or_else
      (run reference (may_schedule reference) (central_routines reference) forks
        (loaded reference cpus blank))
      (loaded reference cpus blank)

forked_queue : reference.rq_tasks (core_rq central_cpu) forked.world.kernel ≡ 5 ∷ 9 ∷ []
unfolding forked
forked_queue = refl

forked-Inv : Holds (CentralInv reference) forked
unfolding forked
forked-Inv = central_run-loaded_example

central_schedule-OnCentral_example :
    Returns
      (OnCentral reference forked.live 5 (9 ∷ []))
      (central_schedule reference central_cpu forked.world)
central_schedule-OnCentral_example =
    central_schedule-OnCentral reference reference_laws forked.live forked.world 5 (9 ∷ [])
      forked-Inv forked_queue

abbrev world_or : Option (CentralWorld Tables (List ℕ)) → CentralWorld Tables (List ℕ)
world_or none = blank
world_or (some w) = w

scheduled : CentralWorld Tables (List ℕ)
unfolding forked central_schedule
scheduled = world_or (central_schedule reference central_cpu forked.world)

scheduled-OnCentral : OnCentral reference forked.live 5 (9 ∷ []) scheduled
unfolding forked scheduled
scheduled-OnCentral = central_schedule-OnCentral_example

empty_queue : reference.rq_tasks (core_rq 1) forked.world.kernel ≡ []
unfolding forked
empty_queue = refl

central_schedule-empty_example :
    (1 ≡ central_cpu → central_schedule reference 1 forked.world ≡ none)
    × ((1 == central_cpu) ≡ false
        → Returns
            (λ w'. CentralInv reference forked.live w' × (w'.kernel ≡ forked.world.kernel))
            (central_schedule reference 1 forked.world))
central_schedule-empty_example =
    central_schedule-empty reference reference_laws forked.live forked.world 1 forked-Inv
      empty_queue

schedule-tick_preempts_example :
    Returns
      (λ w'.
        (reference.rq_tasks (core_rq central_cpu) w'.kernel ≡ 9 ∷ 5 ∷ [])
        × (reference.current_task central_cpu w'.kernel ≡ none)
        × ((w'.core central_cpu).current_entity ≡ none))
      (central_schedule reference central_cpu forked.world
        >>= central_tick reference (on 5) 3000000)
schedule-tick_preempts_example =
    schedule-tick_preempts reference reference_laws forked.live forked.world 3000000 5 (9 ∷ [])
      forked-Inv forked_queue (omega arith) (omega arith)

central_yield-terminate_dangling_example :
    Returns
      (λ w'.
        (w'.heap scheduled-OnCentral.ptr ≡ none)
        × ((w'.core central_cpu).current_entity ≡ some scheduled-OnCentral.ptr))
      (central_yield reference (on 5) scheduled >>= central_terminate reference (on 5))
central_yield-terminate_dangling_example =
    central_yield-terminate_dangling reference reference_laws forked.live scheduled 5 (9 ∷ [])
      (on 5) refl scheduled-OnCentral

-- No cpu is idle: no physical core is.
none_idle : IdleExact reference blank
none_idle d = refl

idle_events-IdleExact_example :
    IdleExact reference (central_entry_idle reference (record { target = 3 }) blank)
    × IdleExact reference (central_exit_idle reference (record { target = 3 }) blank)
idle_events-IdleExact_example =
    idle_events-IdleExact reference reference_masks reference_smt (record { target = 3 }) blank
      none_idle

-- Cpus 2 and 3 become idle: the physical core of both is.
core_idle : CentralWorld Tables (List ℕ)
unfolding central_entry_idle
core_idle =
    central_entry_idle reference (record { target = 3 })
      (central_entry_idle reference (record { target = 2 }) blank)

core_idle-IdleExact : IdleExact reference core_idle
unfolding core_idle
core_idle-IdleExact =
    (idle_events-IdleExact reference reference_masks reference_smt (record { target = 3 })
      (central_entry_idle reference (record { target = 2 }) blank)
      ((idle_events-IdleExact reference reference_masks reference_smt (record { target = 2 }) blank
        none_idle).0)).0

core_idle_marked : reference.mask_test 2 core_idle.globals.idle_smt ≡ true
unfolding core_idle
core_idle_marked = refl

central_core_exit-stale_example :
    let g = (central_core_exit reference (record { target = 2 }) core_idle).globals in
    (reference.mask_test 3 g.idle_smt ≡ true)
    × (reference.mask_subset (reference.smt_mask 3) g.idle_cpus ≡ false)
central_core_exit-stale_example =
    central_core_exit-stale reference reference_masks reference_smt (record { target = 2 })
      core_idle 3 core_idle-IdleExact refl refl core_idle_marked

saakm_central_init-branches_example :
    let r = saakm_central_init reference cpus true (negsuc 21) blank in
    (central_get_core_state reference (record { target = 2 }) r.1 ≡ (
      if elem 2 cpus
      then active_core
      else central_get_core_state reference (record { target = 2 }) blank))
    × (r.1.globals.idle_cpus ≡ [])
    × (r.1.globals.idle_smt ≡ [])
    × (true ≡ false → (r.0 ≡ negsuc 11) × (r.1.globals.timer_armed ≡ false))
    × (true ≡ true
        → (r.0 ≡ negsuc 21)
          × (r.1.globals.central_policy ≡ false)
          × (r.1.globals.timer_armed ≡ true))
saakm_central_init-branches_example =
    saakm_central_init-branches reference cpus (negsuc 21) blank (record { target = 2 }) true
