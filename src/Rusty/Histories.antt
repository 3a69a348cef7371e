-- ===== src/Rusty/Histories.antt =====
-- Every history of the rusty policy (modules/rusty_saakm/rusty_saakm.c), from loading it on: calls of
-- its routines, and runs of the tuner in between, which has a thread of its own.
use saakm_misc.Prelude.{
  ℕ, ◌<◌, Bool, true, false, pos, negsuc, Option-cases, Bool-cases, some_injective, sym, subst,
  Option, none, some, ◌>>=◌, List, [], ◌∷◌, ◌≡◌, refl, ◌∙◌, ap, inr, elem, arith, Returns,
  Returns->>=, Returns-weaken, is_some, inl,
}
use saakm_misc.Kernel.{Kernel, KernelLaws, CpumaskLaws, SmtLaws, Rq}
use saakm_misc.Framework.{Call, System, deliver, always}
use saakm_misc.Framework.Contract.{Holds, deliver-Holds}
use saakm_misc.Framework.Loading.{IsQuiet, init_rqs-empty, init_rqs-idle}
use saakm_misc.Tracking.Attached.{Inv-empty}
use saakm_misc.Rusty.{Platform, PlatformLaws, MaskMemory, RustyWorld, has_bytes, rusty_policy_mem}
use saakm_misc.Rusty.Tuner.{tuner_step}
use saakm_misc.Rusty.Cores.{
  init_cores, build_domains, clear_masks, register, registered, has_masks, init_sched,
}
use saakm_misc.Rusty.Claims.{Within}
use saakm_misc.Rusty.Tuned.{tuner_step-Tuned}
use saakm_misc.Rusty.Invariant.{IsGood, task_of, rq_of, RustyInv, Tuned-keeps}
use saakm_misc.Rusty.Loading.{Numbered, init_cores-frame, build_domains-Numbered, no_result}
use saakm_misc.Rusty.Routines.{bounded_routines, rusty_contract}

pub data RustyStep : Type 0 where
  call : Call → RustyStep
  tune : RustyStep

error_is_not_ok : {n m : ℕ} → negsuc n ≡ pos m → ⊥
error_is_not_ok h = absurd (cc)

module _ {S M : Type 0} (K : Kernel S M) (P : Platform S M) where
  unfoldable pub take_step : RustyStep → System (RustyWorld S M) → Option (System (RustyWorld S M))
  unfolding deliver tuner_step
  take_step (call c) s = deliver K always (bounded_routines K P) c s
  take_step tune s = tuner_step K P s.world >>= λ w. some (record s { world = w })

  unfoldable pub rusty_run :
      List RustyStep → System (RustyWorld S M) → Option (System (RustyWorld S M))
  unfolding take_step
  rusty_run [] s = some s
  rusty_run (x ∷ xs) s = take_step x s >>= rusty_run xs

  -- The system right after the module is loaded into the memory given.
  abbrev pub loaded : RustyWorld S M → System (RustyWorld S M)
  loaded w = record { world = w; live = λ t. false }

module _ {S M : Type 0} (K : Kernel S M) (P : Platform S M) (B : M) (laws : KernelLaws K)
    (masks : CpumaskLaws K) (smt : SmtLaws K) (choices : PlatformLaws K P)
    (memory : MaskMemory P) where
  take_step-Holds :
      (x : RustyStep) (s : System (RustyWorld S M))
      → Holds (RustyInv K P B) s
      → Returns (Holds (RustyInv K P B)) (take_step K P x s)
  unfolding take_step
  take_step-Holds (call c) s h =
      deliver-Holds (rusty_contract K P B laws masks smt choices memory) c s h
  take_step-Holds tune s h =
      Returns->>= (RustyInv K P B s.live) (Holds (RustyInv K P B)) (tuner_step K P s.world) _
        (Returns-weaken _ (RustyInv K P B s.live) (tuner_step K P s.world)
          (tuner_step-Tuned K P memory s.world h.levels) (λ w t. Tuned-keeps K P B s.world w t h))
        (λ w k. k)

  rusty_run-Holds :
      (xs : List RustyStep) (s : System (RustyWorld S M))
      → Holds (RustyInv K P B) s
      → Returns (Holds (RustyInv K P B)) (rusty_run K P xs s)
  unfolding rusty_run
  rusty_run-Holds [] s h = h
  rusty_run-Holds (x ∷ xs) s h =
      Returns->>= (Holds (RustyInv K P B)) (Holds (RustyInv K P B)) (take_step K P x s)
        (rusty_run K P xs) (take_step-Holds x s h) (rusty_run-Holds xs)

module _ {S M : Type 0} (K : Kernel S M) (P : Platform S M) (laws : KernelLaws K)
    (masks : CpumaskLaws K) (smt : SmtLaws K) (choices : PlatformLaws K P)
    (memory : MaskMemory P) where
  -- What loading leaves when it returns 0.
  register-RustyInv :
      (sizeof_policy : ℕ) (r : Bool × RustyWorld S M) (w : RustyWorld S M)
      → Numbered K P r.1
      → ((q : Rq) → K.rq_tasks q r.1.kernel ≡ [])
      → ((c : ℕ) → K.current_task c r.1.kernel ≡ none)
      → (r.0 ≡ true → (c : ℕ) → elem c P.possible ≡ true → is_some (P.topology c) ≡ true)
      → register K P (pos 0) sizeof_policy r ≡ some (pos 0, w)
      → 0 < w.globals.nr_doms
      → RustyInv K P w.globals.idle_masks.cpu (λ t. false) w
  register-RustyInv sizeof_policy (false, v) w numbered empty idle levels ok some_dom =
      absurd (error_is_not_ok (ap (λ r. r.0) (some_injective ok)))
  register-RustyInv sizeof_policy (true, v) w numbered empty idle levels ok some_dom =
      elim (Bool-cases (has_bytes P rusty_policy_mem sizeof_policy v.kernel)) [
        | inl room ↦
            let same : registered K P (pos 0) v ≡ w =
              ap (λ r. r.1) (some_injective (rw room at ok)) in
            subst (λ u. RustyInv K P u.globals.idle_masks.cpu (λ t. false) u) same
              (record {
                in_step = Inv-empty K task_of rq_of IsGood v.kernel v.heap v.metadata empty idle;
                levels = levels refl;
                domain = numbered.some_dom;
                own_domain = λ c.
                    let found = subst (λ u. 0 < u.globals.nr_doms) (sym same) some_dom in
                    ground (arith, numbered.own c);
                shrinks = λ active d h. h;
              })
        | inr full ↦ absurd (no_result (rw full at ok))
      ]

  loaded-RustyInv :
      (sizeof_policy : ℕ) (w v : RustyWorld S M)
      → IsQuiet K P.possible w.kernel
      → ((c : ℕ) → (w.core c).dom_id ≡ 0)
      → init_sched K P (pos 0) sizeof_policy w ≡ some (pos 0, v)
      → 0 < v.globals.nr_doms
      → Holds (RustyInv K P v.globals.idle_masks.cpu) (loaded K P v)
  unfolding init_sched
  loaded-RustyInv sizeof_policy w v quiet zeroed ok some_dom =
      let w₁ = init_cores K P P.possible (clear_masks K P w) in
      let (kernel, nr, dom) = init_cores-frame K P P.possible (clear_masks K P w) in
      let start : Numbered K P w₁ = record {
        some_dom = λ d h. absurd (omega (arith, nr));
        own = λ c. inr (dom c ∙ zeroed c);
      } in
      elim (Bool-cases (has_masks K P w.kernel)) [
        | inr full ↦ absurd (no_result (rw full at ok))
        | inl room ↦ elim (Option-cases (build_domains K P P.possible (K.mask_empty, w₁))) [
          | inl fault ↦ absurd (no_result (rw (room, fault) at ok))
          | inr (r, done) ↦
              let (built, same, levels) =
                build_domains-Numbered K P P.possible (K.mask_empty, w₁) r start done in
              register-RustyInv sizeof_policy r v built
                (λ q.
                  ap (K.rq_tasks q) (same ∙ kernel)
                  ∙ init_rqs-empty K laws P.possible w.kernel quiet q)
                (λ c.
                  ap (K.current_task c) (same ∙ kernel)
                  ∙ init_rqs-idle K laws P.possible w.kernel quiet c)
                levels (rw (room, done) at ok) some_dom
        ]
      ]

  pub rusty_run-loaded :
      (sizeof_policy : ℕ) (w v : RustyWorld S M) (xs : List RustyStep)
      → IsQuiet K P.possible w.kernel
      → ((c : ℕ) → (w.core c).dom_id ≡ 0)
      → init_sched K P (pos 0) sizeof_policy w ≡ some (pos 0, v)
      → 0 < v.globals.nr_doms
      → Returns (Holds (RustyInv K P v.globals.idle_masks.cpu)) (rusty_run K P xs (loaded K P v))
  rusty_run-loaded sizeof_policy w v xs quiet zeroed ok some_dom =
      rusty_run-Holds K P v.globals.idle_masks.cpu laws masks smt choices memory xs (loaded K P v)
        (loaded-RustyInv sizeof_policy w v quiet zeroed ok some_dom)

  -- With SMT active, from a state of any such history on: a cpu that is not in the mask of idle cpus
  -- never comes into it again, whatever routines are called, `enter_idle` included, where the memory
  -- of the masks is there and without the calls of `core_exit` that would write past the mask.
  pub rusty_run-never_idle :
      (B : M) (s : System (RustyWorld S M)) (xs : List RustyStep)
      → Holds (RustyInv K P B) s
      → P.smt_active ≡ true
      → Returns
          (λ s'. Within K s'.world.globals.idle_masks.cpu s.world.globals.idle_masks.cpu)
          (rusty_run K P xs s)
  rusty_run-never_idle B s xs h active =
      let now = s.world.globals.idle_masks.cpu in
      Returns-weaken (Holds (RustyInv K P now)) (λ s'. Within K s'.world.globals.idle_masks.cpu now)
        (rusty_run K P xs s)
        (rusty_run-Holds K P now laws masks smt choices memory xs s (record {
          in_step = h.in_step;
          levels = h.levels;
          domain = h.domain;
          own_domain = h.own_domain;
          shrinks = λ on d k. k;
        }))
        (λ s' k. k.shrinks active)
