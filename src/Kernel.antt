-- ===== src/Kernel.antt =====
-- What the policy modules call from the kernel (linux/saakm.h, linux/ipanema.h, linux/cpumask.h and
-- the allocator), none of which is in this repository: a record of operations on an abstract kernel
-- state `S` and an abstract type `M` of cpu masks.
mod Defs
pub mod Laws
pub mod Reference
pub use Defs.{
  IpanemaState, not_queued, migrating, running, ready, blocked, terminated, ready_tick, CoreState,
  active_core, idle_core, Rq, core_rq, global_rq, rq_eq, Kernel, ProcessEvent, CoreEvent, flag_set,
  targets, forget, placed, current_after, KernelLaws, CpumaskLaws, SmtLaws,
}
