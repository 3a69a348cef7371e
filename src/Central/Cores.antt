-- ===== src/Central/Cores.antt =====
-- The central policy (modules/saakm_central/saakm_central.c): cpu events, idle masks, the timer,
-- loading and unloading.
use saakm_misc.Prelude.{ℕ, Bool, true, false, ℤ, pos, negsuc, List, [], ◌∷◌, if◌then◌else◌, ◌==◌}
use saakm_misc.Kernel.{CoreState, active_core, idle_core, core_rq, Kernel, CoreEvent}
use saakm_misc.World.{put_core, put_kernel}
use saakm_misc.Central.{CentralWorld, CentralStats, central_cpu}

abbrev pub succeeded : ℤ → Bool
succeeded (pos n) = n == 0
succeeded (negsuc n) = false

-- `enum hrtimer_restart`.
pub data TimerRestart : Type 0 where
  no_restart restart : TimerRestart

unfoldable pub central_timer_callback : ℕ → TimerRestart
central_timer_callback local_cpu = if local_cpu == central_cpu then restart else no_restart

module _ {S M : Type 0} (K : Kernel S M) where
  unfoldable pub central_get_core_state : CoreEvent → CentralWorld S M → CoreState
  central_get_core_state e w = (w.core e.target).state

  abbrev pub mark : ℕ → CoreState → CentralWorld S M → CentralWorld S M
  mark cpu s w = put_core cpu (record (w.core cpu) { state = s }) w

  abbrev pub set_masks : M → M → CentralWorld S M → CentralWorld S M
  set_masks cpus smt w = record w {
    globals = record (w.globals) { idle_cpus = cpus; idle_smt = smt };
  }

  unfoldable pub central_core_entry : CoreEvent → CentralWorld S M → CentralWorld S M
  central_core_entry e w = mark e.target active_core w

  unfoldable pub central_core_exit : CoreEvent → CentralWorld S M → CentralWorld S M
  central_core_exit e w =
      set_masks (K.mask_clear e.target w.globals.idle_cpus)
        (K.mask_clear e.target w.globals.idle_smt) (mark e.target active_core w)

  unfoldable pub central_newly_idle : CoreEvent → CentralWorld S M → CentralWorld S M
  central_newly_idle e w = w

  unfoldable pub central_entry_idle : CoreEvent → CentralWorld S M → CentralWorld S M
  central_entry_idle e w =
      let cpus = K.mask_set e.target w.globals.idle_cpus in
      let smt = w.globals.idle_smt in
      let siblings = K.smt_mask e.target in
      set_masks cpus (if K.mask_subset siblings cpus then K.mask_or smt siblings else smt)
        (mark e.target idle_core w)

  unfoldable pub central_exit_idle : CoreEvent → CentralWorld S M → CentralWorld S M
  central_exit_idle e w =
      set_masks (K.mask_clear e.target w.globals.idle_cpus)
        (K.mask_andnot w.globals.idle_smt (K.smt_mask e.target)) (mark e.target active_core w)

  abbrev zero_stats : CentralStats
  zero_stats = record { total_enqueue = 0; total_exec = 0; schedule_calls = 0; tick_calls = 0 }

  abbrev pub init_cpu : ℕ → CentralWorld S M → CentralWorld S M
  init_cpu cpu w =
      let c = record (w.core cpu) { cpu = cpu; state = active_core; stats = zero_stats } in
      put_kernel (K.init_rq (core_rq cpu) w.kernel) (put_core cpu c w)

  unfoldable pub init_cpus : List ℕ → CentralWorld S M → CentralWorld S M
  init_cpus [] w = w
  init_cpus (cpu ∷ cpus) w = init_cpus cpus (init_cpu cpu w)

  abbrev set_central : Bool → Bool → CentralWorld S M → CentralWorld S M
  set_central policy timer w = record w {
    globals = record (w.globals) { central_policy = policy; timer_armed = timer };
  }

  -- `possible` are the possible cpus, `allocated` tells whether the policy's `kzalloc` succeeds, and
  -- `res` is what `saakm_add_policy` returns. -12 is -ENOMEM. The timer is started in either case.
  unfoldable pub saakm_central_init : List ℕ → Bool → ℤ → CentralWorld S M → ℤ × CentralWorld S M
  unfolding init_cpus
  saakm_central_init possible allocated res w =
      let w₁ = init_cpus possible w in
      if allocated then (res, set_central (succeeded res) true w₁) else (negsuc 11, w₁)

  unfoldable pub saakm_central_exit : CentralWorld S M → CentralWorld S M
  saakm_central_exit w = set_central false false w
