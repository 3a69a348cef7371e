-- ===== src/Rusty/Invariant.antt =====
-- The invariant of the rusty policy (modules/rusty_saakm/rusty_saakm.c).
use saakm_misc.Prelude.{
  ℕ, Bool, true, false, Option, some, ◌≡◌, ◌≤◌, ◌<◌, refl, elem, is_some, subst,
}
use saakm_misc.Kernel.{IpanemaState, Kernel, KernelLaws, Rq, core_rq, global_rq, targets}
use saakm_misc.World.{put, put_kernel}
use saakm_misc.Tracking.{Inv, Inv-change_state, is_waiting}
use saakm_misc.Tracking.Objects.{Inv-rewrite}
use saakm_misc.Rusty.{IdleMasks, Platform, RustyWorld, RustyProcess, slice_ns}
use saakm_misc.Rusty.Claims.{Within}
use saakm_misc.Rusty.Select.{set_idle}
use saakm_misc.Rusty.Tuned.{Tuned}

module _ {M : Type 0} where
  -- The object names a run queue exactly in the two ready states, a per-cpu one, and its slice is at
  -- most a whole one.
  pub record IsGood (e : RustyProcess M) : Type 0 where
    pub waits : is_waiting e.state ≡ is_some e.rq
    pub per_cpu : targets e.rq global_rq ≡ false
    pub in_slice : e.slice ≤ slice_ns

  abbrev pub task_of : RustyProcess M → ℕ
  task_of e = e.task

  abbrev pub rq_of : RustyProcess M → Option Rq
  rq_of e = e.rq

-- `B` bounds the mask of idle cpus where SMT is active.
module _ {S M : Type 0} (K : Kernel S M) (P : Platform S M) (B : M) where
  -- The tasks' objects and queues are in step; every possible cpu has a level, every domain up to
  -- `nr_doms` is there, and every core belongs to one; with SMT, no cpu has become idle.
  pub record RustyInv (live : ℕ → Bool) (w : RustyWorld S M) : Type 0 where
    pub in_step : Inv K task_of rq_of IsGood live w.kernel w.heap w.metadata
    pub levels : (c : ℕ) → elem c P.possible ≡ true → is_some (P.topology c) ≡ true
    pub domain : (d : ℕ) → d < w.globals.nr_doms → is_some (w.globals.dom_data d) ≡ true
    pub own_domain : (c : ℕ) → (w.core c).dom_id < w.globals.nr_doms
    pub shrinks : P.smt_active ≡ true → Within K w.globals.idle_masks.cpu B

  -- The invariant reads the kernel, the tasks' objects, the domains and the mask of idle cpus.
  pub RustyInv-frame :
      {live : ℕ → Bool} {w w' : RustyWorld S M}
      → Inv K task_of rq_of IsGood live w'.kernel w'.heap w'.metadata
      → w'.globals.nr_doms ≡ w.globals.nr_doms
      → w'.globals.dom_data ≡ w.globals.dom_data
      → ((c : ℕ) → (w'.core c).dom_id ≡ (w.core c).dom_id)
      → (P.smt_active ≡ true → Within K w'.globals.idle_masks.cpu w.globals.idle_masks.cpu)
      → {live₀ : ℕ → Bool} → RustyInv live₀ w
      → RustyInv live w'
  RustyInv-frame in_step nr doms dom less inv = record {
    in_step = in_step;
    levels = inv.levels;
    domain = λ d h. rw doms (inv.domain d (subst (λ n. d < n) nr h));
    own_domain = λ c. rw (nr, dom c) (inv.own_domain c);
    shrinks = λ active d h. inv.shrinks active d (less active d h);
  }

  pub set_idle-keeps :
      {live : ℕ → Bool} (w : RustyWorld S M) (i : IdleMasks M)
      → Within K i.cpu w.globals.idle_masks.cpu
      → RustyInv live w
      → RustyInv live (set_idle K P i w)
  set_idle-keeps w i less inv =
      RustyInv-frame inv.in_step refl refl (λ c. refl) (λ active. less) inv

  pub Tuned-keeps :
      {live : ℕ → Bool} (w w' : RustyWorld S M)
      → Tuned K P w w'
      → RustyInv live w
      → RustyInv live w'
  Tuned-keeps w w' t inv =
      RustyInv-frame (rw (t.same_kernel, t.same_heap, t.same_metadata) inv.in_step) t.same_nr
        t.same_data t.same_dom (λ active d h. subst (λ i. K.mask_test d i.cpu ≡ true) t.same_idle h)
        inv

  -- A write to an attached task's object that leaves its task and its run queue as they are.
  pub put-keeps :
      {live : ℕ → Bool} (w : RustyWorld S M) (t rp : ℕ) (e e' : RustyProcess M)
      → w.metadata t ≡ some rp
      → w.heap rp ≡ some e
      → e.task ≡ t
      → e'.task ≡ t
      → e'.rq ≡ e.rq
      → IsGood e'
      → RustyInv live w
      → RustyInv live (put rp e' w)
  put-keeps w t rp e e' points alive owner owner' same_rq good inv =
      RustyInv-frame
        (Inv-rewrite K task_of rq_of IsGood t rp e e' points alive owner owner' same_rq good
          inv.in_step)
        refl refl (λ c. refl) (λ active d h. h) inv

  -- A call of `change_state`, with its write to the task's object.
  pub change_state-keeps :
      (laws : KernelLaws K)
      → {live : ℕ → Bool} (w : RustyWorld S M) (rp : ℕ) (e e' : RustyProcess M) (s : IpanemaState)
        (c : ℕ)
      → live e.task ≡ true
      → w.metadata e.task ≡ some rp
      → w.heap rp ≡ some e
      → e'.task ≡ e.task
      → IsGood e'
      → ((d : ℕ) → targets e'.rq (core_rq d) ≡ true → c ≡ d)
      → RustyInv live w
      → RustyInv live (put_kernel (K.change_state e.task s c e'.rq w.kernel) (put rp e' w))
  change_state-keeps laws w rp e e' s c here points alive same good fits inv =
      RustyInv-frame
        (Inv-change_state K task_of rq_of IsGood laws e.task rp e e' s c here points alive refl same
          good fits inv.in_step)
        refl refl (λ c. refl) (λ active d h. h) inv
