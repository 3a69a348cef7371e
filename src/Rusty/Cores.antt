-- ===== src/Rusty/Cores.antt =====
-- The rusty policy's routines for cpus, and loading and unloading it
-- (modules/rusty_saakm/rusty_saakm.c:252-319 and 945-1066).
use saakm_misc.Prelude.{
  ℕ, Bool, ℤ, Option, true, false, pos, negsuc, none, some, List, [], ◌∷◌, if◌then◌else◌, ◌==◌,
  ◌||◌, ◌&&◌, ltb, ◌*◌, ◌>>=◌, ◌+◌, ◌%◌, ◌^◌, update,
}
use saakm_misc.Kernel.{CoreState, active_core, idle_core, core_rq, Kernel, CoreEvent}
use saakm_misc.World.{put_core, put_kernel}
use saakm_misc.Rusty.{
  Platform, RustyWorld, Level, has_mask, has_bytes, max_doms, sizeof_dom_ctx, dom_ctx, domain_done,
  all_cpumask, direct_greedy_cpumask, kick_greedy_cpumask, rusty_policy_mem,
}
use saakm_misc.Rusty.Select.{set_idle}

module _ {S M : Type 0} (K : Kernel S M) (P : Platform S M) where
  unfoldable pub sched_get_core_state : CoreEvent → RustyWorld S M → CoreState
  sched_get_core_state e w = (w.core e.target).state

  abbrev pub mark_core : ℕ → CoreState → RustyWorld S M → RustyWorld S M
  mark_core cpu s w = put_core cpu (record (w.core cpu) { state = s }) w

  -- With SMT the one mask is changed, without it the other.
  abbrev pub change_idle : (M → M) → RustyWorld S M → RustyWorld S M
  change_idle f w =
      let i = w.globals.idle_masks in
      set_idle K P
        (record i {
          smt = if P.smt_active then f i.smt else i.smt;
          cpu = if P.smt_active then i.cpu else f i.cpu;
        })
        w

  abbrev pub set_all : M → RustyWorld S M → RustyWorld S M
  set_all m w = record w { globals = record (w.globals) { all_cpumask = m } }

  unfoldable pub sched_core_entry : CoreEvent → RustyWorld S M → RustyWorld S M
  sched_core_entry e w =
      let id = (w.core e.target).id in
      change_idle (K.mask_clear id)
        (set_all (K.mask_set id w.globals.all_cpumask) (mark_core e.target active_core w))

  -- The cpu that leaves `all_cpumask` is `c->idle`, a time, as an unsigned int.
  abbrev pub exit_bit : CoreEvent → RustyWorld S M → ℕ
  exit_bit e w = (w.core e.target).times.idle % 2 ^ 32

  -- Whether the bit is one of the mask's memory, so that nothing else is written.
  abbrev pub exit_in_mask : CoreEvent → RustyWorld S M → Bool
  exit_in_mask e w = ltb (exit_bit e w) (8 * P.cpumask_size)

  unfoldable pub sched_core_exit : CoreEvent → RustyWorld S M → Option (RustyWorld S M)
  sched_core_exit e w =
      let w' = change_idle (K.mask_clear (w.core e.target).id) (
        set_all (K.mask_clear (exit_bit e w) w.globals.all_cpumask)
          (mark_core e.target idle_core w)) in
      if exit_in_mask e w then some w' else none

  unfoldable pub sched_newly_idle : CoreEvent → RustyWorld S M → RustyWorld S M
  sched_newly_idle e w = w

  unfoldable pub sched_enter_idle : CoreEvent → RustyWorld S M → RustyWorld S M
  sched_enter_idle e w =
      change_idle (K.mask_set (w.core e.target).id) (mark_core e.target idle_core w)

  unfoldable pub sched_exit_idle : CoreEvent → RustyWorld S M → RustyWorld S M
  sched_exit_idle e w =
      change_idle (K.mask_clear (w.core e.target).id) (mark_core e.target active_core w)

  unfoldable pub set_cpus : List ℕ → M → M
  set_cpus [] m = m
  set_cpus (c ∷ cs) m = set_cpus cs (K.mask_set c m)

  -- A round of the first loop of `init_sched`.
  abbrev pub init_core : ℕ → RustyWorld S M → RustyWorld S M
  init_core cpu w =
      let c = record (w.core cpu) { id = cpu; state = active_core; dom_rr_cur = cpu } in
      let i = w.globals.idle_masks in
      let siblings = set_cpus (P.mask_cpus (K.smt_mask cpu)) i.smt in
      let i' = record i {
        smt = if P.smt_active then siblings else i.smt;
        cpu = K.mask_set cpu i.cpu;
      } in
      set_idle K P i' (
        set_all (K.mask_set cpu w.globals.all_cpumask)
          (put_kernel (K.init_rq (core_rq cpu) w.kernel) (put_core cpu c w)))

  unfoldable pub init_cores : List ℕ → RustyWorld S M → RustyWorld S M
  unfolding set_cpus
  init_cores [] w = w
  init_cores (cpu ∷ cpus) w = init_cores cpus (init_core cpu w)

  unfoldable pub set_dom_ids : ℕ → List ℕ → RustyWorld S M → RustyWorld S M
  set_dom_ids d [] w = w
  set_dom_ids d (cpu ∷ cpus) w =
      set_dom_ids d cpus (put_core cpu (record (w.core cpu) { dom_id = d }) w)

  -- The second loop: the cpus whose domain is done, and the memory.
  abbrev pub new_domain : M → M × RustyWorld S M → M × RustyWorld S M
  new_domain cores (done, w) =
      let d = w.globals.nr_doms in
      let w₁ = set_dom_ids d (P.mask_cpus cores) w in
      let g = w₁.globals in
      (
        K.mask_or done cores,
        record w₁ {
          globals = record g { dom_data = update g.dom_data d (some cores); nr_doms = d + 1 };
        },
      )

  -- The entry is allocated without a test, and its index is not compared with `MAX_DOMS`.
  abbrev pub add_domain : M → M × RustyWorld S M → Option (M × RustyWorld S M)
  add_domain cores s =
      let d = s.1.globals.nr_doms in
      if ltb d max_doms && has_bytes P (dom_ctx d) sizeof_dom_ctx s.1.kernel
      then some (new_domain cores s)
      else none

  abbrev pub visit_level : ℕ → Level M → M × RustyWorld S M → Option (M × RustyWorld S M)
  visit_level cpu l s = if K.mask_test cpu s.0 || l.numa then some s else add_domain l.cores s

  -- `if (!l) return -ENOENT;`, and what follows.
  abbrev pub with_level :
      Option (Level M)
      → (Level M → Option (Bool × RustyWorld S M))
      → RustyWorld S M
      → Option (Bool × RustyWorld S M)
  with_level none next w = some (false, w)
  with_level (some l) next w = next l

  -- Whether every cpu has a level, and the memory where the loop stops.
  unfoldable pub build_domains : List ℕ → M × RustyWorld S M → Option (Bool × RustyWorld S M)
  unfolding set_dom_ids
  build_domains [] s = some (true, s.1)
  build_domains (cpu ∷ cpus) s =
      with_level (P.topology cpu) (λ l. visit_level cpu l s >>= build_domains cpus) (s.1)

  abbrev pub succeeded : ℤ → Bool
  succeeded (pos n) = n == 0
  succeeded (negsuc n) = false

  abbrev pub clear_masks : RustyWorld S M → RustyWorld S M
  clear_masks w = record w {
    globals = record (w.globals) {
      direct_greedy = K.mask_empty;
      kick_greedy = K.mask_empty;
      all_cpumask = K.mask_empty;
      nr_doms = 0;
    };
  }

  abbrev pub registered : ℤ → RustyWorld S M → RustyWorld S M
  registered res w = record w {
    globals = record (w.globals) { tuner_thread = true; rusty_policy = succeeded res };
  }

  -- `res` is what `ipanema_add_policy` returns. -2 is -ENOENT. `sizeof_policy` bytes are asked for.
  abbrev pub register : ℤ → ℕ → Bool × RustyWorld S M → Option (ℤ × RustyWorld S M)
  register res sizeof_policy (false, w) = some (negsuc 1, w)
  register res sizeof_policy (true, w) =
      if has_bytes P rusty_policy_mem sizeof_policy w.kernel
      then some (res, registered res w)
      else none

  -- The four masks are allocated without a test.
  abbrev pub has_masks : S → Bool
  has_masks k =
      has_mask P domain_done P.cpumask_size k
      && (has_mask P all_cpumask P.cpumask_size k
          && (has_mask P direct_greedy_cpumask P.cpumask_size k
              && has_mask P kick_greedy_cpumask P.cpumask_size k))

  unfoldable pub init_sched : ℤ → ℕ → RustyWorld S M → Option (ℤ × RustyWorld S M)
  unfolding init_cores build_domains
  init_sched res sizeof_policy w =
      let cores = init_cores P.possible (clear_masks w) in
      let loading = build_domains P.possible (K.mask_empty, cores) >>= register res sizeof_policy in
      if has_masks w.kernel then loading else none

  unfoldable pub exit_sched : RustyWorld S M → RustyWorld S M
  exit_sched w = record w {
    globals = record (w.globals) { tuner_thread = false; rusty_policy = false };
  }
