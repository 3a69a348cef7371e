-- ===== src/Fifo/Cores.antt =====
-- The per-core FIFO policy (modules/fifo_benchs/fifo.c): cpu events, loading and unloading.
use saakm_misc.Prelude.{ℕ, Bool, true, false, ℤ, pos, negsuc, List, [], ◌∷◌, if◌then◌else◌, ◌==◌}
use saakm_misc.Kernel.{CoreState, active_core, idle_core, core_rq, Kernel, CoreEvent}
use saakm_misc.World.{put_core, put_kernel}
use saakm_misc.Fifo.{FifoWorld, Stats}

abbrev pub is_zero : ℤ → Bool
is_zero (pos n) = n == 0
is_zero (negsuc n) = false

module _ {S M : Type 0} (K : Kernel S M) where
  unfoldable pub fifo_get_core_state : CoreEvent → FifoWorld S M → CoreState
  fifo_get_core_state e w = (w.core e.target).state

  abbrev pub set_state : ℕ → CoreState → FifoWorld S M → FifoWorld S M
  set_state cpu s w = put_core cpu (record (w.core cpu) { state = s }) w

  abbrev pub set_online : M → FifoWorld S M → FifoWorld S M
  set_online m w = record w { globals = record (w.globals) { online_cores = m } }

  unfoldable pub fifo_core_entry : CoreEvent → FifoWorld S M → FifoWorld S M
  fifo_core_entry e w =
      set_online (K.mask_set (w.core e.target).id w.globals.online_cores)
        (set_state e.target active_core w)

  unfoldable pub fifo_core_exit : CoreEvent → FifoWorld S M → FifoWorld S M
  fifo_core_exit e w =
      set_online (K.mask_clear (w.core e.target).id w.globals.online_cores)
        (set_state e.target idle_core w)

  unfoldable pub fifo_newly_idle : CoreEvent → FifoWorld S M → FifoWorld S M
  fifo_newly_idle e w = w

  unfoldable pub fifo_enter_idle : CoreEvent → FifoWorld S M → FifoWorld S M
  fifo_enter_idle e w = set_state e.target idle_core w

  unfoldable pub fifo_exit_idle : CoreEvent → FifoWorld S M → FifoWorld S M
  fifo_exit_idle e w = set_state e.target active_core w

  abbrev pub no_stats : Stats
  no_stats = record { total_enqueue = 0; total_exec = 0; schedule_calls = 0; tick_calls = 0 }

  -- One round of the loop over the possible cpus. `_current` is left as it is.
  abbrev pub init_core : ℕ → FifoWorld S M → FifoWorld S M
  init_core cpu w =
      let c = record (w.core cpu) { id = cpu; state = active_core; stats = no_stats } in
      let w₁ = put_kernel (K.init_rq (core_rq cpu) w.kernel) (put_core cpu c w) in
      set_online (K.mask_set cpu w.globals.online_cores) w₁

  unfoldable pub init_cores : List ℕ → FifoWorld S M → FifoWorld S M
  init_cores [] w = w
  init_cores (cpu ∷ cpus) w = init_cores cpus (init_core cpu w)

  abbrev set_policy : Bool → FifoWorld S M → FifoWorld S M
  set_policy b w = record w { globals = record (w.globals) { fifo_policy = b } }

  abbrev set_proc : Bool → FifoWorld S M → FifoWorld S M
  set_proc b w = record w { globals = record (w.globals) { proc_entry = b } }

  -- `possible` are the possible cpus, `allocated` tells whether the policy's `kzalloc` succeeds, and
  -- `res` is what `ipanema_add_policy` returns. -12 is -ENOMEM.
  unfoldable pub fifo_mod_init : List ℕ → Bool → ℤ → FifoWorld S M → ℤ × FifoWorld S M
  unfolding init_cores
  fifo_mod_init possible allocated res w =
      let w₁ = init_cores possible w in
      if allocated
      then (let w₂ = set_policy (is_zero res) w₁ in (res, set_proc true w₂))
      else (negsuc 11, w₁)

  unfoldable pub fifo_exit : FifoWorld S M → FifoWorld S M
  fifo_exit w = set_proc false (set_policy false w)
