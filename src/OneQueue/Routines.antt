-- ===== src/OneQueue/Routines.antt =====
-- The routine table `fifo_routines` of modules/fifo_one_queue/fifo_one_queue.c.
use saakm_misc.Prelude.{some}
use saakm_misc.Kernel.{Kernel}
use saakm_misc.Framework.{Routines}
use saakm_misc.OneQueue.{
  FifoWorld, Machine, fifo_new_prepare, fifo_new_place, fifo_block, fifo_unblock_prepare,
  fifo_unblock_place, fifo_terminate, fifo_yield, fifo_tick, fifo_schedule,
}
use saakm_misc.OneQueue.Cores.{
  fifo_get_core_state, fifo_core_entry, fifo_core_exit, fifo_newly_idle, fifo_enter_idle,
  fifo_exit_idle,
}

module _ {S M : Type 0} (K : Kernel S M) (C : Machine S) where
  abbrev pub fifo_routines : Routines (FifoWorld S M)
  fifo_routines = record {
    get_core_state = fifo_get_core_state K;
    core_entry = fifo_core_entry K;
    core_exit = λ e w. some (fifo_core_exit K e w);
    newly_idle = fifo_newly_idle K;
    enter_idle = fifo_enter_idle K;
    exit_idle = fifo_exit_idle K;
    new_prepare = λ e w. some (fifo_new_prepare K C e w);
    new_place = fifo_new_place K C;
    block = fifo_block K C;
    unblock_prepare = λ e w. some (fifo_unblock_prepare K C e w);
    unblock_place = fifo_unblock_place K C;
    terminate = fifo_terminate K C;
    yield = fifo_yield K C;
    tick = fifo_tick K C;
    schedule = λ cpu now w. fifo_schedule K C cpu w;
  }
