-- ===== src/Simple/Examples.antt =====
-- The scheduler of scx_scheds/fifo/scx_simple.bpf.c, and its copy in modules/rusty_saakm, at a clock
-- that is about to wrap.
use saakm_misc.Prelude.{ℕ, elem, negsuc, pos, if◌then◌else◌, List, [], ◌∷◌, leb, sub64}
use saakm_misc.Simple.{Scx, SimpleWorld, SimpleCall, enqueue, running, enable, stopping}
use saakm_misc.Simple.Spec.{Ideal}
use saakm_misc.Simple.Copy
use saakm_misc.Simple.Copy.{Queues}

abbrev kernel : Scx
kernel = record { slice_dfl = 20000000; time_before = λ a b. leb 9223372036854775808 (sub64 a b) }

-- The clock is 5 below 2^64, and the tasks are 15 ahead of it, so their times have wrapped.
abbrev ideal : Ideal
ideal = record { now = 18446744073709551611; vtime = λ p. 18446744073709551626; queued = [] }

abbrev near_wrap : SimpleWorld
near_wrap = record {
  vtime_now = 18446744073709551611;
  dsq_vtime = λ p. 10;
  stats = λ cpu idx. 0;
  inserted = [];
}

abbrev calls : List SimpleCall
calls = enqueue 0 7 ∷ running 7 ∷ stopping 7 1000 100 ∷ enable 8 ∷ []

-- The kernel's queues as the list of their ids; creating one twice fails with -EEXIST.
abbrev listed : Queues (List ℕ)
listed = record {
  scx_bpf_create_dsq = λ id node k. if elem id k then (negsuc 16, k) else (pos 0, id ∷ k);
  has_dsq = λ id k. elem id k;
}
