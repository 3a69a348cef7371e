-- ===== src/Rusty/Tuner.antt =====
-- The tuner of the rusty policy (modules/rusty_saakm/rusty_saakm.c:112-250): it compares the cpus' times with those of
-- its last run and marks domains in the greedy masks.
use saakm_misc.Prelude.{
  ℕ, ◌+◌, ◌/◌, ◌%◌, ◌^◌, Bool, ◌||◌, Option, none, some, ◌>>=◌, List, [], ◌∷◌, if◌then◌else◌, ltb,
  leb, add64, sub64,
}
use saakm_misc.Kernel.{Kernel}
use saakm_misc.World.{put_core}
use saakm_misc.Rusty.{CpuTimes, Platform, RustyWorld, has_mask, dom_already_done}

-- `direct_greedy_under` and `kick_greedy_under`.
abbrev pub direct_greedy_under : ℕ
direct_greedy_under = 90

abbrev pub kick_greedy_under : ℕ
kick_greedy_under = 100

abbrev pub map_times : (ℕ → ℕ) → CpuTimes → CpuTimes
map_times f t = record {
  user = f t.user;
  nice = f t.nice;
  system = f t.system;
  idle = f t.idle;
  iowait = f t.iowait;
  irq = f t.irq;
  softirq = f t.softirq;
  steal = f t.steal;
}

-- `(new - prev) < 0 ? 0 : (new - prev)` on u64.
unfoldable pub sub_or_zero : ℕ → ℕ → ℕ
sub_or_zero new prev = if ltb (sub64 new prev) 0 then 0 else sub64 new prev

abbrev pub times_since : CpuTimes → CpuTimes → CpuTimes
times_since new prev = record {
  user = sub_or_zero new.user prev.user;
  nice = sub_or_zero new.nice prev.nice;
  system = sub_or_zero new.system prev.system;
  idle = sub_or_zero new.idle prev.idle;
  iowait = sub_or_zero new.iowait prev.iowait;
  irq = sub_or_zero new.irq prev.irq;
  softirq = sub_or_zero new.softirq prev.softirq;
  steal = sub_or_zero new.steal prev.steal;
}

-- `max((busy_use / total_use), 1)`.
unfoldable pub cpu_util : CpuTimes → ℕ
unfolding sub_or_zero
cpu_util t =
    let busy =
      add64 (add64 (add64 (add64 (add64 t.user t.system) t.nice) t.irq) t.softirq) t.steal in
    let total = add64 (add64 t.idle busy) t.iowait in
    let share = busy / total in if ltb 0 total then (if leb 1 share then share else 1) else 1

-- The variables that the loop over the cpus carries: the cpus already done, and `dom_util`, an
-- `int` of 32 bits that is never reset.
pub record Tuning (S M : Type 0) : Type 0 where
  pub world : RustyWorld S M
  pub done : M
  pub dom_util : ℕ

module _ {S M : Type 0} (K : Kernel S M) (P : Platform S M) where
  -- A round of the inner loop. The times that are read are those of the outer loop's `cpu`.
  abbrev pub tune_cpu : ℕ → ℕ → Tuning S M → Tuning S M
  tune_cpu cpu dom_cpu s =
      let new = map_times (λ t. t / P.user_tick_ns) (P.cpustat cpu s.world.kernel) in
      let c = s.world.core dom_cpu in
      record {
        world = put_core dom_cpu (record c { times = new }) s.world;
        done = K.mask_set dom_cpu s.done;
        dom_util = (s.dom_util + cpu_util (times_since new c.times)) % 2 ^ 32;
      }

  unfoldable pub tune_cpus : ℕ → List ℕ → Tuning S M → Tuning S M
  unfolding cpu_util
  tune_cpus cpu [] s = s
  tune_cpus cpu (dom_cpu ∷ cs) s = tune_cpus cpu cs (tune_cpu cpu dom_cpu s)

  -- `direct_greedy_under > 0.99999` holds of an integer from 1 on.
  abbrev pub enabled : ℕ → ℕ → Bool
  enabled under util = leb 1 under || ltb util under

  abbrev pub mark_domain : M → ℕ → RustyWorld S M → RustyWorld S M
  mark_domain cores util w =
      let g = w.globals in
      let direct = K.mask_or g.direct_greedy cores in
      let kick = K.mask_or g.kick_greedy cores in
      record w {
        globals = record g {
          direct_greedy = if enabled direct_greedy_under util then direct else g.direct_greedy;
          kick_greedy = if enabled kick_greedy_under util then kick else g.kick_greedy;
        };
      }

  unfoldable pub tune_domain : ℕ → M → Tuning S M → Tuning S M
  unfolding tune_cpus
  tune_domain cpu cores s =
      let s' = tune_cpus cpu (P.mask_cpus cores) s in
      let util = if ltb 0 (P.weight cores) then s'.dom_util / P.weight cores else 0 in
      record s' { world = mark_domain cores util s'.world }

  -- A round of the outer loop: the domain of a cpu that is not done is read through its level.
  abbrev pub tune_visit : ℕ → Tuning S M → Option (Tuning S M)
  tune_visit cpu s =
      if K.mask_test cpu s.done
      then some s
      else (P.topology cpu >>= λ l. some (tune_domain cpu l.cores s))

  unfoldable pub tune_all : List ℕ → Tuning S M → Option (Tuning S M)
  unfolding tune_domain
  tune_all [] s = some s
  tune_all (cpu ∷ cpus) s = tune_visit cpu s >>= tune_all cpus

  unfoldable pub tuner_step : RustyWorld S M → Option (RustyWorld S M)
  unfolding tune_all
  tuner_step w =
      let start : Tuning S M = record { world = w; done = K.mask_empty; dom_util = 0 } in
      let run = tune_all P.possible start >>= λ s. some s.world in
      if has_mask P dom_already_done P.cpumask_size w.kernel then run else none
