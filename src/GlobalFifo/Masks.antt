-- ===== src/GlobalFifo/Masks.antt =====
-- The online and idle masks of the global FIFO policy (modules/global_fifo/global_fifo.c).
use saakm_misc.Prelude.{ℕ, true, false, ◌==◌, ◌≡◌, refl, ◌∙◌, if◌then◌else◌}
use saakm_misc.Kernel.{Kernel, CpumaskLaws, CoreEvent}
use saakm_misc.GlobalFifo.{FifoWorld}
use saakm_misc.GlobalFifo.Cores.{fifo_core_entry, fifo_core_exit, fifo_enter_idle, fifo_exit_idle}

module _ {S M : Type 0} (K : Kernel S M) (masks : CpumaskLaws K) where
  -- The four events of a core whose `id` is its cpu, each stated for any cpu `d`: entering puts the
  -- core into both masks and leaving takes it out of both; going idle puts it into the idle mask
  -- alone, but ending that takes it out of the idle mask and of the online mask too. No other cpu's
  -- bit changes.
  pub core_events-masks :
      (w : FifoWorld S M) (e : CoreEvent) (d : ℕ)
      → (w.core e.target).id ≡ e.target
      → let online = λ (w' : FifoWorld S M). K.mask_test d w'.globals.online_cores in
        let idle = λ (w' : FifoWorld S M). K.mask_test d w'.globals.idle_cores in
        let here = e.target == d in
        (online (fifo_core_entry K e w) ≡ (if here then true else online w))
        × (idle (fifo_core_entry K e w) ≡ (if here then true else idle w))
        × (online (fifo_core_exit K e w) ≡ (if here then false else online w))
        × (idle (fifo_core_exit K e w) ≡ (if here then false else idle w))
        × (online (fifo_enter_idle K e w) ≡ online w)
        × (idle (fifo_enter_idle K e w) ≡ (if here then true else idle w))
        × (online (fifo_exit_idle K e w) ≡ (if here then false else online w))
        × (idle (fifo_exit_idle K e w) ≡ (if here then false else idle w))
  unfolding fifo_core_entry fifo_core_exit fifo_enter_idle fifo_exit_idle
  core_events-masks w e d own = (
    masks.test-set d _ w.globals.online_cores ∙ rw own,
    masks.test-set d _ w.globals.idle_cores ∙ rw own,
    masks.test-clear d _ w.globals.online_cores ∙ rw own,
    masks.test-clear d _ w.globals.idle_cores ∙ rw own,
    refl,
    masks.test-set d _ w.globals.idle_cores,
    masks.test-clear d _ w.globals.online_cores,
    masks.test-clear d _ w.globals.idle_cores,
  )
