-- ===== src/Rusty/Select.antt =====
-- The choice of a cpu in the rusty policy (modules/rusty_saakm/rusty_saakm.c:394-624).
use saakm_misc.Prelude.{
  ℕ, zero, suc, ◌+◌, ◌%◌, ◌^◌, Bool, true, false, not, ◌&&◌, ◌||◌, ℤ, pos, negsuc, Option, none,
  some, ◌>>=◌, List, [], ◌∷◌, if◌then◌else◌, ◌==◌, ltb, is_some,
}
use Prim.Native.Nat.{bit_or}
use saakm_misc.Kernel.{Kernel, flag_set, core_rq}
use saakm_misc.World.{put, put_core}
use saakm_misc.Rusty.{
  IdleMasks, Platform, RustyWorld, RustyProcess, RustyGlobals, pick_idle_core, max_doms, has_mask,
  node_mask, sizeof_unsigned,
}
use saakm_misc.Rusty.Idle.{test_and_clear_cpu_idle, get_idle_cpumask, pick_idle_cpu, pick_any_cpu}
use saakm_misc.Rusty.Tuner.{tuner_step}

-- `direct_greedy_numa`.
abbrev pub direct_greedy_numa : Bool
direct_greedy_numa = false

abbrev pub is_empty : List ℕ → Bool
is_empty [] = true
is_empty (t ∷ ts) = false

module _ {S M : Type 0} (K : Kernel S M) (P : Platform S M) where
  abbrev pub set_idle : IdleMasks M → RustyWorld S M → RustyWorld S M
  set_idle i w = record w { globals = record (w.globals) { idle_masks = i } }

  -- An attempt to choose a cpu: the cpu, or a negative error, and the memory.
  abbrev pub Choice : Type 0
  Choice = ℤ × RustyWorld S M

  abbrev pub test_and_clear : ℕ → RustyWorld S M → Bool × RustyWorld S M
  test_and_clear cpu w =
      let r = test_and_clear_cpu_idle K P cpu w.globals.idle_masks in (r.0, set_idle (r.1) w)

  abbrev pub pick_idle : M → ℕ → RustyWorld S M → Option Choice
  pick_idle allowed flags w = do
    r ← pick_idle_cpu K P allowed flags w.globals.idle_masks
    some (r.0, set_idle (r.1) w)

  -- The test at the end of `try_sync_wakeup`. -2 is -ENOENT.
  unfoldable pub sync_here : ℕ → RustyProcess M → M → RustyWorld S M → Choice
  unfolding get_idle_cpumask
  sync_here p rp cores w =
      let cpu = P.this_cpu w.kernel in
      let has_idle = K.mask_intersects cores (get_idle_cpumask K P w.globals.idle_masks) in
      if has_idle
        && (K.mask_test cpu (P.cpus_ptr p w.kernel)
            && (not (P.is_exiting w.kernel)
                && (ltb rp.dom_id max_doms && is_empty (K.rq_tasks (core_rq cpu) w.kernel))))
      then (pos cpu, w)
      else (negsuc 1, w)

  unfoldable pub try_sync_wakeup : ℕ → RustyProcess M → ℕ → RustyWorld S M → Option Choice
  unfolding sync_here test_and_clear_cpu_idle
  try_sync_wakeup p rp prev_cpu w = do
    cores ← w.globals.dom_data ((w.core (P.this_cpu w.kernel)).dom_id)
    let r = test_and_clear prev_cpu w
    some (
        if K.mask_test prev_cpu cores
        then (if r.0 then (pos prev_cpu, r.1) else sync_here p rp cores (r.1))
        else sync_here p rp cores w)

  -- `direct:`.
  abbrev pub direct : ℕ → ℕ → RustyWorld S M → Option Choice
  direct rp cpu w = do e ← w.heap rp; some (pos cpu, put rp (record e { dispatch_local = true }) w)

  -- A cpu that an attempt has found is taken; else the next attempt follows.
  abbrev pub or_next : ℕ → (RustyWorld S M → Option Choice) → Choice → Option Choice
  or_next rp next (pos cpu, w) = direct rp cpu w
  or_next rp next (negsuc e, w) = next w

  -- An attempt that is made only under a condition.
  abbrev pub try_if :
      Bool
      → (RustyWorld S M → Option Choice)
      → ℕ
      → (RustyWorld S M → Option Choice)
      → RustyWorld S M
      → Option Choice
  try_if b attempt rp next w = if b then (attempt w >>= or_next rp next) else next w

  abbrev pub take_if_idle : ℕ → RustyWorld S M → Option Choice
  take_if_idle cpu w = let r = test_and_clear cpu w in some (if r.0 then pos cpu else negsuc 0, r.1)

  -- The last choice: the previous cpu of a domestic task, or any allowed cpu.
  abbrev pub stay : M → ℕ → RustyWorld S M → Option Choice
  stay allowed prev_cpu w =
      if K.mask_test prev_cpu allowed
      then some (pos prev_cpu, w)
      else (pick_any_cpu K P allowed 0 w.globals.idle_masks >>= λ r. some (r.0, set_idle (r.1) w))

  -- The mask of a node stays as it was allocated, empty, so this is what the search outside the domain has to choose from.
  abbrev pub greedy_mask : RustyWorld S M → M
  greedy_mask w =
      let direct = w.globals.direct_greedy in
      if direct_greedy_numa then direct else K.mask_and K.mask_empty direct

  abbrev pub greedy :
      ℕ → RustyProcess M → Bool → (RustyWorld S M → Option Choice) → RustyWorld S M → Option Choice
  greedy rp e has_idle_cores next w =
      let mask = greedy_mask w in
      let w' = if direct_greedy_numa then w else put rp (record e { tmp_cpumask = mask }) w in
      let wide =
        try_if has_idle_cores (pick_idle mask pick_idle_core) rp
          (try_if true (pick_idle mask 0) rp next) w' in
      let found =
        if direct_greedy_numa || has_mask P node_mask sizeof_unsigned w.kernel
        then wide
        else none in
      if e.all_cpus && not (K.is_mask_empty w.globals.direct_greedy) then found else next w

  -- From the computation of `has_idle_cores` on.
  unfoldable pub select_idle : ℕ → RustyProcess M → ℕ → RustyWorld S M → Option Choice
  unfolding get_idle_cpumask pick_idle_cpu pick_any_cpu test_and_clear_cpu_idle
  select_idle rp e prev_cpu w =
      let idle_smtmask = get_idle_cpumask K P w.globals.idle_masks in
      let has_idle_cores = not (K.is_mask_empty idle_smtmask) in
      let allowed = e.cpumask in
      let domestic = K.mask_test prev_cpu allowed in
      try_if (domestic && K.mask_test prev_cpu idle_smtmask) (take_if_idle prev_cpu) rp
        (try_if has_idle_cores (pick_idle allowed pick_idle_core) rp (
          try_if domestic (take_if_idle prev_cpu) rp (
            try_if true (pick_idle allowed 0) rp
              (greedy rp e has_idle_cores (stay allowed prev_cpu)))))
        w

  unfoldable pub rusty_select_cpu : ℕ → ℕ → ℕ → ℕ → RustyWorld S M → Option Choice
  unfolding select_idle try_sync_wakeup tuner_step
  rusty_select_cpu rp p prev_cpu wake_flags w = do
    w₁ ← tuner_step K P w
    e ← w₁.heap rp
    let any =
        try_if (flag_set wake_flags P.wf_sync) (try_sync_wakeup p e prev_cpu) rp
          (select_idle rp e prev_cpu) w₁
    if P.nr_cpus_allowed p w₁.kernel == 1 then direct rp prev_cpu w₁ else any

  -- `task_pick_domain`: a round for each domain, the rounds left counted down.
  pub record Rotation : Type 0 where
    pub dom : ℕ
    pub first_dom : Option ℕ
    pub process : RustyProcess M

  abbrev pub visit_domain : ℕ → M → M → Rotation → Rotation
  visit_domain dom cores allowed s =
      let e = s.process in
      let first = if is_some s.first_dom then s.first_dom else some dom in
      let hit : Rotation = record {
        dom = dom;
        first_dom = first;
        process = record e {
          dom_mask = bit_or e.dom_mask (2 ^ dom);
          cpumask = K.mask_and cores allowed;
          dom_id = if is_some s.first_dom then e.dom_id else dom;
        };
      } in
      if K.mask_intersects allowed cores then hit else record s { dom = dom }

  unfoldable pub rotate : ℕ → RustyGlobals M → M → Rotation → Option Rotation
  rotate zero g allowed s = some s
  rotate (suc n) g allowed s = do
    let dom = (s.dom + 1) % 2 ^ 32 % g.nr_doms
    cores ← g.dom_data dom
    rotate n g allowed (visit_domain dom cores allowed s)

  unfoldable pub task_pick_domain : ℕ → ℕ → RustyWorld S M → Option (RustyWorld S M)
  unfolding rotate
  task_pick_domain rp p w = do
    e ← w.heap rp
    let cpu = P.this_cpu w.kernel
    let c = w.core cpu
    let start : Rotation = record {
      dom = c.dom_rr_cur;
      first_dom = none;
      process = record e { dom_mask = 0 };
    }
    let w₁ = put_core cpu (record c { dom_rr_cur = (c.dom_rr_cur + 1) % 2 ^ 32 }) w
    s ← rotate w.globals.nr_doms w.globals (P.cpus_ptr p w.kernel) start
    some (put rp s.process w₁)
