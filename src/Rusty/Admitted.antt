-- ===== src/Rusty/Admitted.antt =====
-- `sched_new_prepare` of modules/rusty_saakm/rusty_saakm.c, from its allocation on.
use saakm_misc.Prelude.{
  ℕ, Bool, true, false, ◌<◌, none, some, ◌>>=◌, ◌≡◌, refl, sym, subst, arith, update, Returns,
  Returns->>=, ==_refl, ℤ, pos, Option-cases, negsuc, inr, ◌⊎◌, inl, Returns-weaken,
}
use saakm_misc.Kernel.{Kernel, CpumaskLaws, SmtLaws, ProcessEvent, KernelLaws}
use saakm_misc.World.{put, in_use}
use saakm_misc.Tracking.Objects.{Inv-kzalloc}
use saakm_misc.Rusty.{Platform, PlatformLaws, MaskMemory, RustyWorld, RustyProcess}
use saakm_misc.Rusty.Select.{task_pick_domain, rusty_select_cpu}
use saakm_misc.Rusty.Tasks.{
  new_process, attach_process, set_all_cpus, init_process, sched_new_prepare,
}
use saakm_misc.Rusty.Invariant.{IsGood, task_of, rq_of, RustyInv, RustyInv-frame, put-keeps}
use saakm_misc.Rusty.Arrival.{turn_core, Domained, task_pick_domain-Domained}
use saakm_misc.Rusty.Admission.{Arrived, chosen-Arrived, ArrivedAt}

module _ {S M : Type 0} (K : Kernel S M) (P : Platform S M) (B : M) where
  -- The task's fresh object, in memory in which the core's rotation has moved on.
  attached-RustyInv :
      (live : ℕ → Bool) (w : RustyWorld S M) (t rp : ℕ)
      → RustyInv K P B live w
      → live t ≡ false
      → w.heap rp ≡ none
      → RustyInv K P B (update live t true) (turn_core K P (attach_process K P rp t w))
  attached-RustyInv live w t rp inv absent fresh =
      RustyInv-frame K P B
        (Inv-kzalloc K task_of rq_of IsGood t rp (new_process K P t) absent fresh refl refl
          (record { waits = refl; per_cpu = refl; in_slice = omega arith }) inv.in_step)
        refl refl (λ c. ground arith) (λ active d h. h) inv

  abbrev pub NewCpu : (ℕ → Bool) → RustyWorld S M → ProcessEvent → ℤ → Type 0
  NewCpu live w e (pos c) = ArrivedAt K P B live w e (pos c)
  NewCpu live w e (negsuc n) =
      ((n ≡ 0) × (K.kzalloc (in_use w) w.kernel ≡ none)) ⊎ ArrivedAt K P B live w e (negsuc n)

  ArrivedAt-NewCpu :
      (live : ℕ → Bool) (w : RustyWorld S M) (e : ProcessEvent) (r : ℤ)
      → ArrivedAt K P B live w e r
      → NewCpu live w e r
  ArrivedAt-NewCpu live w e (pos c) h = h
  ArrivedAt-NewCpu live w e (negsuc n) h = inr h

  module _ (masks : CpumaskLaws K) (smt : SmtLaws K) (laws : PlatformLaws K P)
      (memory : MaskMemory P) where
    Domained-Arrived :
        (live : ℕ → Bool) (w : RustyWorld S M) (e : ProcessEvent) (rp : ℕ) (w₁ : RustyWorld S M)
        → RustyInv K P B live w
        → live e.target ≡ false
        → w.heap rp ≡ none
        → Domained K P (attach_process K P rp e.target w) e.target rp (new_process K P e.target) w₁
        → Returns (Arrived K P B live w e) (
            set_all_cpus K P rp e.target w₁ >>= λ w₂.
            rusty_select_cpu K P rp e.target (K.task_cpu e.target w₂.kernel) e.flags w₂)
    Domained-Arrived live w e rp w₁ inv absent fresh d =
        subst
          (λ v. Returns (Arrived K P B live w e) (
            set_all_cpus K P rp e.target v >>= λ w₂.
            rusty_select_cpu K P rp e.target (K.task_cpu e.target w₂.kernel) e.flags w₂))
          (sym d.shape)
          (rw (==_refl rp) (
            chosen-Arrived K P B masks smt laws memory live w e rp e₂ (put rp e₂ (put rp e₁ turned))
              inv₂ refl (rw (==_refl e.target) refl) (rw (==_refl rp) refl) d.turned.same_task good₂
              (d.turned.inside (λ c h. ground (arith, masks.test-empty c)))
              (λ n small m. d.inhabited n small m)))
      where
        t : ℕ
        t = e.target

        turned : RustyWorld S M
        turned = turn_core K P (attach_process K P rp t w)

        e₁ : RustyProcess M
        e₁ = d.process

        e₂ : RustyProcess M
        e₂ = record e₁ { all_cpus = K.mask_subset w.globals.all_cpumask (P.cpus_ptr t w.kernel) }

        good₁ : IsGood e₁
        good₁ = record {
          waits = rw (d.turned.same_state, d.turned.same_rq) refl;
          per_cpu = rw d.turned.same_rq refl;
          in_slice = rw d.turned.same_slice (omega arith);
        }

        good₂ : IsGood e₂
        good₂ = record { waits = good₁.waits; per_cpu = good₁.per_cpu; in_slice = good₁.in_slice }

        inv₁ : RustyInv K P B (update live t true) (put rp e₁ turned)
        inv₁ =
            put-keeps K P B turned t rp (new_process K P t) e₁ (rw (==_refl t) refl)
              (rw (==_refl rp) refl) refl d.turned.same_task d.turned.same_rq good₁
              (attached-RustyInv live w t rp inv absent fresh)

        inv₂ : RustyInv K P B (update live t true) (put rp e₂ (put rp e₁ turned))
        inv₂ =
            put-keeps K P B (put rp e₁ turned) t rp e₁ e₂ (rw (==_refl t) refl)
              (rw (==_refl rp) refl) d.turned.same_task d.turned.same_task refl good₂ inv₁

    -- With an object allocated, `sched_new_prepare` returns a cpu, or -EBUSY.
    pub init_process-Arrived :
        (live : ℕ → Bool) (w : RustyWorld S M) (e : ProcessEvent) (rp : ℕ)
        → RustyInv K P B live w
        → live e.target ≡ false
        → w.heap rp ≡ none
        → Returns (Arrived K P B live w e) (init_process K P (some rp) e w)
    init_process-Arrived live w e rp inv absent fresh =
        let wₐ = attach_process K P rp e.target w in
        let some_dom : 0 < w.globals.nr_doms = omega (arith, inv.own_domain 0) in
        rw (memory.process w.kernel, memory.tmp w.kernel)
          (Returns->>= (Domained K P wₐ e.target rp (new_process K P e.target))
            (Arrived K P B live w e) (task_pick_domain K P rp e.target wₐ) _
            (task_pick_domain-Domained K P masks wₐ e.target rp (new_process K P e.target)
              (rw (==_refl rp) refl) some_dom inv.domain)
            (λ w₁ d. Domained-Arrived live w e rp w₁ inv absent fresh d))

    -- For a task that is not attached yet, in any state of a history, `sched_new_prepare` returns if the
    -- memory of the masks, which is not tested, is there and holds them. A
    -- cpu that it returns is one that the task may run on, or the one that it is on, which is kept if
    -- the task may run on one cpu only or in a synchronous wakeup. An error is -1 where no object can
    -- be allocated, or -EBUSY where no domain has a cpu that the task may run on.
    pub sched_new_prepare-NewCpu :
        (kernel_laws : KernelLaws K) (live : ℕ → Bool) (w : RustyWorld S M) (e : ProcessEvent)
        → RustyInv K P B live w
        → live e.target ≡ false
        → Returns (λ r. NewCpu live w e r.0) (sched_new_prepare K P e w)
    unfolding sched_new_prepare
    sched_new_prepare-NewCpu kernel_laws live w e inv absent =
        elim (Option-cases (K.kzalloc (in_use w) w.kernel)) [
          | inl failed ↦ rw failed (inl (refl, failed))
          | inr (rp, got) ↦
              let unused : in_use w rp ≡ false =
                kernel_laws.kzalloc_fresh (in_use w) w.kernel rp got in
              rw got (
                Returns-weaken (Arrived K P B live w e) (λ r. NewCpu live w e r.0)
                  (init_process K P (some rp) e w)
                  (init_process-Arrived live w e rp inv absent (ground arith))
                  (λ r a. ArrivedAt-NewCpu live w e r.0 a.arrived_at))
        ]
