-- ===== src/Rusty/Examples.antt =====
-- The rusty policy (modules/rusty_saakm/rusty_saakm.c) on the example machine.
use saakm_misc.Prelude.{
  ℕ, ◌<◌, ◌≤◌, ◌-◌, true, false, ℤ, pos, Option, none, some, List, [], ◌∷◌, ◌≡◌, refl, elem, arith,
  Returns, sub64,
}
use saakm_misc.Kernel.{idle_core, ProcessEvent}
use saakm_misc.Kernel.Reference.{
  Tables, reference, reference_laws, reference_masks, reference_smt, at_boot,
}
use saakm_misc.Framework.{System, new_prepare, new_place, schedule, enter_idle, tick}
use saakm_misc.Framework.Contract.{Holds}
use saakm_misc.Framework.Loading.{IsQuiet}
use saakm_misc.Tracking.{Tracked}
use saakm_misc.Rusty.{CpuTimes, RustyCore, RustyWorld, IdleMasks}
use saakm_misc.Rusty.Idle.{pick_idle_cpu}
use saakm_misc.Rusty.Claims.{Within, Claimed, pick_idle_cpu-Claimed}
use saakm_misc.Rusty.Tuner.{tuner_step}
use saakm_misc.Rusty.Select.{rusty_select_cpu}
use saakm_misc.Rusty.Tasks.{sched_new_prepare, sched_new_place, rusty_sched_tick}
use saakm_misc.Rusty.Cores.{init_sched}
use saakm_misc.Rusty.Invariant.{IsGood, task_of, rq_of, RustyInv}
use saakm_misc.Rusty.Attempts.{Selected}
use saakm_misc.Rusty.Wakeup.{SelectedCpu, rusty_select_cpu-Selected}
use saakm_misc.Rusty.Admitted.{NewCpu, sched_new_prepare-NewCpu}
use saakm_misc.Rusty.Histories.{
  RustyStep, call, tune, rusty_run, loaded, rusty_run-loaded, rusty_run-never_idle,
}
use saakm_misc.Rusty.Marks.{tuner_step-marks_all, OwnLevel}
use saakm_misc.Rusty.Slices.{RunsOn, Preempted, rusty_sched_tick-branches}
use saakm_misc.Rusty.Machine.{machine, machine_laws, machine_memory, four_cpus}

abbrev no_times : CpuTimes
no_times = record {
  user = 0;
  nice = 0;
  system = 0;
  idle = 0;
  iowait = 0;
  irq = 0;
  softirq = 0;
  steal = 0;
}

abbrev blank_core : RustyCore
blank_core = record { state = idle_core; id = 0; dom_rr_cur = 0; dom_id = 0; times = no_times }

abbrev no_idle : IdleMasks (List ℕ)
no_idle = record { cpu = []; smt = []; choices = 0 }

abbrev blank : RustyWorld Tables (List ℕ)
blank = record {
  kernel = at_boot;
  heap = λ p. none;
  metadata = λ t. none;
  core = λ c. blank_core;
  globals = record {
    idle_masks = no_idle;
    direct_greedy = [];
    kick_greedy = [];
    all_cpumask = [];
    nr_doms = 0;
    dom_data = λ d. none;
    rusty_policy = false;
    tuner_thread = false;
  };
}

abbrev on : ℕ → ProcessEvent
on t = record { target = t; flags = 0; cpu = 0 }

boot-IsQuiet : IsQuiet reference four_cpus at_boot
boot-IsQuiet = record { others_empty = λ c h. refl; global_empty = refl; none_current = λ c. refl }

abbrev or_blank : Option (ℤ × RustyWorld Tables (List ℕ)) → RustyWorld Tables (List ℕ)
or_blank none = blank
or_blank (some (res, w)) = w

-- The memory after loading.
fresh : RustyWorld Tables (List ℕ)
unfolding init_sched
fresh = or_blank (init_sched reference machine (pos 0) 64 blank)

load_ok : init_sched reference machine (pos 0) 64 blank ≡ some (pos 0, fresh)
unfolding init_sched fresh
load_ok = refl

two_domains : fresh.globals.nr_doms ≡ 2
unfolding fresh
two_domains = refl

abbrev steps : List RustyStep
steps =
    call (new_prepare (on 5))
    ∷ call (new_place (on 5))
    ∷ tune
    ∷ call (schedule 0 100)
    ∷ call (enter_idle (record { target = 3 }))
    ∷ call (tick (on 5) 1000)
    ∷ []

start : System (RustyWorld Tables (List ℕ))
start = loaded reference machine fresh

start-Inv : Holds (RustyInv reference machine fresh.globals.idle_masks.cpu) start
unfolding start rusty_run
start-Inv =
    rusty_run-loaded reference machine reference_laws reference_masks reference_smt machine_laws
      machine_memory 64 blank fresh [] boot-IsQuiet (λ c. refl) load_ok
      (rw two_domains (omega arith))

rusty_run-never_idle_example :
    Returns
      (λ s'. Within reference s'.world.globals.idle_masks.cpu start.world.globals.idle_masks.cpu)
      (rusty_run reference machine steps start)
rusty_run-never_idle_example =
    rusty_run-never_idle reference machine reference_laws reference_masks reference_smt machine_laws
      machine_memory fresh.globals.idle_masks.cpu start steps start-Inv refl

sched_new_prepare-NewCpu_example :
    Returns
      (λ r. NewCpu reference machine fresh.globals.idle_masks.cpu start.live start.world (on 5) r.0)
      (sched_new_prepare reference machine (on 5) start.world)
unfolding start
sched_new_prepare-NewCpu_example =
    sched_new_prepare-NewCpu reference machine fresh.globals.idle_masks.cpu reference_masks
      reference_smt machine_laws machine_memory reference_laws start.live start.world (on 5)
      start-Inv refl

abbrev or_start : Option (System (RustyWorld Tables (List ℕ))) → System (RustyWorld Tables (List ℕ))
or_start none = start
or_start (some s) = s

abbrev arrival : List RustyStep
arrival = call (new_prepare (on 5)) ∷ call (new_place (on 5)) ∷ []

forked : System (RustyWorld Tables (List ℕ))
unfolding start rusty_run fresh sched_new_prepare sched_new_place
forked = or_start (rusty_run reference machine arrival start)

forked-Inv : Holds (RustyInv reference machine fresh.globals.idle_masks.cpu) forked
unfolding forked start
forked-Inv =
    rusty_run-loaded reference machine reference_laws reference_masks reference_smt machine_laws
      machine_memory 64 blank fresh arrival boot-IsQuiet (λ c. refl) load_ok
      (rw two_domains (omega arith))

forked_live : forked.live 5 ≡ true
unfolding forked
forked_live = refl

abbrev task5 :
    Tracked reference task_of rq_of IsGood 5 forked.world.kernel forked.world.heap
      forked.world.metadata
task5 = forked-Inv.in_step.tracked 5 forked_live

rusty_select_cpu-Selected_example :
    let e = task5.entity in
    Returns
      (Selected reference machine fresh.globals.idle_masks.cpu forked.live forked.world 5 task5.ptr
        e.rq
        (SelectedCpu reference machine 5 2 e.cpumask 1 forked.world.kernel)
        ((c : ℕ) → reference.mask_test c e.cpumask ≡ false))
      (rusty_select_cpu reference machine task5.ptr 5 2 1 forked.world)
rusty_select_cpu-Selected_example =
    rusty_select_cpu-Selected reference machine fresh.globals.idle_masks.cpu forked.live
      forked.world 5 task5.ptr task5.entity 2 reference_masks reference_smt machine_laws
      machine_memory 1 forked-Inv task5.points task5.alive task5.owner task5.good

rusty_sched_tick-branches_example :
    let used = sub64 30000000 0 in
    Returns
      (λ w'.
        (used < task5.entity.slice
          → RunsOn reference machine forked.world w' task5.ptr (task5.entity.slice - used))
        × (task5.entity.slice ≤ used → Preempted reference machine forked.world w' 5 task5.ptr))
      (rusty_sched_tick reference machine (on 5) 30000000 forked.world)
rusty_sched_tick-branches_example =
    rusty_sched_tick-branches reference machine reference_laws forked.world (on 5) 30000000
      task5.ptr task5.entity task5.points task5.alive task5.owner

pick_idle_cpu-Claimed_example :
    let i : IdleMasks (List ℕ) = record { cpu = 1 ∷ 2 ∷ []; smt = 2 ∷ 3 ∷ []; choices = 0 } in
    Returns
      (Claimed reference (3 ∷ 1 ∷ []) 0 (i.cpu) (i.smt))
      (pick_idle_cpu reference machine (3 ∷ 1 ∷ []) 0 i)
pick_idle_cpu-Claimed_example =
    pick_idle_cpu-Claimed reference_masks reference_smt machine_laws (3 ∷ 1 ∷ []) 0
      (record { cpu = 1 ∷ 2 ∷ []; smt = 2 ∷ 3 ∷ []; choices = 0 })

own_levels : OwnLevel reference machine four_cpus
own_levels =
    λ c h. (record { cores = reference.smt_mask c; numa = false }, refl, reference_smt.smt_self c)

tuner_step-marks_all_example :
    Returns
      (λ w'.
        (c : ℕ)
        → elem c four_cpus ≡ true
        → (reference.mask_test c w'.globals.direct_greedy ≡ true)
          × (reference.mask_test c w'.globals.kick_greedy ≡ true))
      (tuner_step reference machine start.world)
tuner_step-marks_all_example =
    tuner_step-marks_all reference machine reference_masks machine_laws machine_memory start.world
      own_levels
