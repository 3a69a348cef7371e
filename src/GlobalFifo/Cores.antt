-- ===== src/GlobalFifo/Cores.antt =====
-- The global FIFO policy (modules/global_fifo/global_fifo.c): cpu events, balancing, loading and
-- unloading.
use saakm_misc.Prelude.{
  ℕ, Bool, true, false, ℤ, pos, negsuc, List, [], ◌∷◌, if◌then◌else◌, ◌==◌, Option, none, some,
}
use saakm_misc.Kernel.{
  CoreState, active_core, idle_core, core_rq, global_rq, Kernel, CoreEvent, migrating, ready,
}
use saakm_misc.World.{put_core, put_kernel}
use saakm_misc.GlobalFifo.{FifoWorld}

abbrev pub is_zero : ℤ → Bool
is_zero (pos n) = n == 0
is_zero (negsuc n) = false

module _ {S M : Type 0} (K : Kernel S M) where
  unfoldable pub fifo_get_core_state : CoreEvent → FifoWorld S M → CoreState
  fifo_get_core_state e w = (w.core e.target).state

  abbrev pub set_state : ℕ → CoreState → FifoWorld S M → FifoWorld S M
  set_state cpu s w = put_core cpu (record (w.core cpu) { state = s }) w

  abbrev pub set_masks : M → M → FifoWorld S M → FifoWorld S M
  set_masks online idle w = record w {
    globals = record (w.globals) { online_cores = online; idle_cores = idle };
  }

  unfoldable pub fifo_core_entry : CoreEvent → FifoWorld S M → FifoWorld S M
  fifo_core_entry e w =
      let id = (w.core e.target).id in
      set_masks (K.mask_set id w.globals.online_cores) (K.mask_set id w.globals.idle_cores)
        (set_state e.target active_core w)

  unfoldable pub fifo_core_exit : CoreEvent → FifoWorld S M → FifoWorld S M
  fifo_core_exit e w =
      let id = (w.core e.target).id in
      set_masks (K.mask_clear id w.globals.online_cores) (K.mask_clear id w.globals.idle_cores)
        (set_state e.target idle_core w)

  -- A task of another cpu is first put into the migrating state there.
  abbrev pub pull : ℕ → ℕ → S → S
  pull local_cpu next k =
      let cpu = K.task_cpu next k in
      if local_cpu == cpu
      then K.change_state next ready cpu (some (core_rq local_cpu)) k
      else K.change_state next ready local_cpu (some (core_rq local_cpu))
          (K.change_state next migrating local_cpu none k)

  abbrev pub take : ℕ → Option ℕ → FifoWorld S M → FifoWorld S M
  take local_cpu none w = w
  take local_cpu (some next) w =
      put_kernel (pull local_cpu next (K.remove_task global_rq next w.kernel)) w

  unfoldable pub fifo_newly_idle : CoreEvent → FifoWorld S M → FifoWorld S M
  fifo_newly_idle e w = take e.target (K.first_task global_rq w.kernel) w

  unfoldable pub fifo_load_balance : CoreEvent → FifoWorld S M → FifoWorld S M
  unfolding fifo_newly_idle
  fifo_load_balance e w = fifo_newly_idle e w

  unfoldable pub fifo_enter_idle : CoreEvent → FifoWorld S M → FifoWorld S M
  fifo_enter_idle e w =
      set_masks w.globals.online_cores (K.mask_set e.target w.globals.idle_cores)
        (set_state e.target idle_core w)

  unfoldable pub fifo_exit_idle : CoreEvent → FifoWorld S M → FifoWorld S M
  fifo_exit_idle e w =
      set_masks (K.mask_clear e.target w.globals.online_cores)
        (K.mask_clear e.target w.globals.idle_cores) (set_state e.target active_core w)

  -- One round of the loop over the possible cpus.
  abbrev pub init_core : ℕ → FifoWorld S M → FifoWorld S M
  init_core cpu w =
      let c = record (w.core cpu) { id = cpu; state = active_core } in
      let w₁ = put_kernel (K.init_rq (core_rq cpu) w.kernel) (put_core cpu c w) in
      set_masks (K.mask_set cpu w.globals.online_cores) (K.mask_set cpu w.globals.idle_cores) w₁

  unfoldable pub init_cores : List ℕ → FifoWorld S M → FifoWorld S M
  init_cores [] w = w
  init_cores (cpu ∷ cpus) w = init_cores cpus (init_core cpu w)

  abbrev set_policy : Bool → FifoWorld S M → FifoWorld S M
  set_policy b w = record w { globals = record (w.globals) { fifo_policy = b } }

  abbrev set_proc : Bool → FifoWorld S M → FifoWorld S M
  set_proc b w = record w { globals = record (w.globals) { proc_entry = b } }

  -- `possible` are the possible cpus; `mask_allocated` and `policy_allocated` tell whether the two
  -- calls of `kzalloc` succeed; `res` is what `ipanema_add_policy` returns. -12 is -ENOMEM.
  unfoldable pub fifo_mod_init : List ℕ → Bool → Bool → ℤ → FifoWorld S M → ℤ × FifoWorld S M
  unfolding init_cores
  fifo_mod_init possible mask_allocated policy_allocated res w =
      let w₀ = put_kernel (K.init_rq global_rq w.kernel) w in
      let w₁ = init_cores possible (set_masks K.mask_empty K.mask_empty w₀) in
      let w₂ = set_policy (is_zero res) w₁ in
      if mask_allocated
      then (if policy_allocated then (res, set_proc true w₂) else (negsuc 11, w₁))
      else (negsuc 11, w₀)

  unfoldable pub fifo_exit : FifoWorld S M → FifoWorld S M
  fifo_exit w = set_proc false (set_policy false w)
