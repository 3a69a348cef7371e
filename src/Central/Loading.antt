-- ===== src/Central/Loading.antt =====
-- Loading the central policy (modules/saakm_central/saakm_central.c).
use mathlib.Core.Bool.{false≢true}
use saakm_misc.Prelude.{
  sym, negsuc, ℕ, Bool, true, false, ℤ, negsuc, ◌≡◌, refl, ◌∙◌, arith, List, [], ◌∷◌, if◌then◌else◌,
  elem,
}
use saakm_misc.Kernel.{Kernel, active_core, CoreEvent}
use saakm_misc.Central.{CentralWorld}
use saakm_misc.Central.Cores.{
  saakm_central_init, init_cpu, init_cpus, succeeded, central_get_core_state,
}

module _ {S M : Type 0} (K : Kernel S M) where
  init_cpus-state :
      (possible : List ℕ) (w : CentralWorld S M) (e : CoreEvent)
      → central_get_core_state K e (init_cpus K possible w)
        ≡ (if elem e.target possible then active_core else central_get_core_state K e w)
  unfolding init_cpus central_get_core_state
  init_cpus-state [] w e = refl
  init_cpus-state (cpu ∷ cpus) w e = init_cpus-state cpus (init_cpu K cpu w) e ∙ ground arith

  init_cpus-globals :
      (possible : List ℕ) (w : CentralWorld S M)
      → let g = (init_cpus K possible w).globals in
        (g.idle_cpus ≡ w.globals.idle_cpus)
        × (g.idle_smt ≡ w.globals.idle_smt)
        × (g.timer_armed ≡ w.globals.timer_armed)
  unfolding init_cpus
  init_cpus-globals [] w = (refl, refl, refl)
  init_cpus-globals (cpu ∷ cpus) w = init_cpus-globals cpus (init_cpu K cpu w)

  -- Loading makes every possible cpu active and leaves the other cpus and the idle masks as they
  -- were. When the policy cannot be allocated it then returns -ENOMEM and starts no timer. Else it
  -- returns what the kernel's registration does, keeps the policy exactly when that is 0, and arms
  -- the timer even when it is not, so a module that failed to load leaves its timer behind.
  pub saakm_central_init-branches :
      (possible : List ℕ) (res : ℤ) (w : CentralWorld S M) (e : CoreEvent) (allocated : Bool)
      → let r = saakm_central_init K possible allocated res w in
        (central_get_core_state K e r.1
          ≡ (if elem e.target possible then active_core else central_get_core_state K e w))
        × (r.1.globals.idle_cpus ≡ w.globals.idle_cpus)
        × (r.1.globals.idle_smt ≡ w.globals.idle_smt)
        × (allocated ≡ false
            → (r.0 ≡ negsuc 11) × (r.1.globals.timer_armed ≡ w.globals.timer_armed))
        × (allocated ≡ true
            → (r.0 ≡ res)
              × (r.1.globals.central_policy ≡ succeeded res)
              × (r.1.globals.timer_armed ≡ true))
  unfolding saakm_central_init central_get_core_state
  saakm_central_init-branches possible res w e false =
      let (cpus, smt, timer) = init_cpus-globals possible w in
      (init_cpus-state possible w e, cpus, smt, λ h. (refl, timer), λ h. absurd (false≢true h))
  saakm_central_init-branches possible res w e true =
      let (cpus, smt, timer) = init_cpus-globals possible w in
      (
        init_cpus-state possible w e,
        cpus,
        smt,
        λ h. absurd (false≢true (sym h)),
        λ h. (refl, refl, refl),
      )
