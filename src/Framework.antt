-- ===== src/Framework.antt =====
-- The framework's side of a policy: the routine table that a module registers (`struct
-- saakm_module_routines`) as a record, and any sequence of calls of the routines. The kernel calls a
-- task's routines only from a successful `new_prepare` of the task until its `terminate`; `live`
-- remembers for which tasks that is.
pub mod Contract
pub mod Loading
use saakm_misc.Prelude.{
  ℕ, Bool, true, false, not, ◌&&◌, ℤ, pos, negsuc, Option, none, some, ◌>>=◌, List, [], ◌∷◌,
  if◌then◌else◌, elem, update,
}
use saakm_misc.Kernel.{Kernel, ProcessEvent, CoreEvent, CoreState, core_rq}
use saakm_misc.World.{World, put_kernel}

pub record Routines (W : Type 0) : Type 0 where
  pub get_core_state : CoreEvent → W → CoreState
  pub core_entry : CoreEvent → W → W
  pub core_exit : CoreEvent → W → Option W
  pub newly_idle : CoreEvent → W → W
  pub enter_idle : CoreEvent → W → W
  pub exit_idle : CoreEvent → W → W
  pub new_prepare : ProcessEvent → W → Option (ℤ × W)
  pub new_place : ProcessEvent → W → Option W
  pub block : ProcessEvent → W → Option W
  pub unblock_prepare : ProcessEvent → W → Option (ℤ × W)
  pub unblock_place : ProcessEvent → W → Option W
  pub terminate : ProcessEvent → W → Option W
  pub yield : ProcessEvent → W → Option W
  pub tick : ProcessEvent → ℕ → W → Option W
  pub schedule : ℕ → ℕ → W → Option W

pub data Call : Type 0 where
  new_prepare new_place new_end yield block unblock_prepare unblock_place unblock_end terminate :
      ProcessEvent → Call
  tick : ProcessEvent → ℕ → Call
  schedule : ℕ → ℕ → Call
  core_entry core_exit newly_idle enter_idle exit_idle : CoreEvent → Call

pub record System (W : Type 0) : Type 0 where
  pub world : W
  pub live : ℕ → Bool

abbrev pub accepted : ℤ → Bool
accepted (pos c) = true
accepted (negsuc e) = false

-- The framework may ask any cpu for its next task at any time.
abbrev pub always : {W : Type 0} → ℕ → W → Bool
always cpu w = true

module _ {S M E C G : Type 0} (K : Kernel S M) where
  -- The kernel puts a task on the cpu that `prepare` returns; a negative result refuses the task.
  abbrev pub place_on : ℕ → ℤ → World S E C G → World S E C G
  place_on t (pos c) w = put_kernel (K.set_task_cpu t c w.kernel) w
  place_on t (negsuc e) w = w

  -- Whether the task is on the queue of its cpu.
  abbrev pub is_queued : ℕ → World S E C G → Bool
  is_queued t w = elem t (K.rq_tasks (core_rq (K.task_cpu t w.kernel)) w.kernel)

  abbrev pub admit :
      ProcessEvent → System (World S E C G) → ℤ × World S E C G → System (World S E C G)
  admit e s (ret, w) = record {
    world = place_on e.target ret w;
    live = update s.live e.target (accepted ret);
  }

-- A routine called for a task of the policy, and one called for a core.
module _ {W : Type 0} where
  abbrev pub for_task : ProcessEvent → (W → Option W) → System W → Option (System W)
  for_task e f s =
      if s.live e.target then (f s.world >>= λ w. some (record s { world = w })) else some s

  abbrev pub for_core : (W → W) → System W → Option (System W)
  for_core f s = some (record s { world = f s.world })

-- `may_schedule` restricts the calls of `schedule`, for a policy that needs it.
module _ {S M E C G : Type 0} (K : Kernel S M) (may_schedule : ℕ → World S E C G → Bool)
    (R : Routines (World S E C G)) where
  unfoldable pub deliver : Call → System (World S E C G) → Option (System (World S E C G))
  deliver (new_prepare e) s =
      if s.live e.target then some s else (R.new_prepare e s.world >>= λ r. some (admit K e s r))
  deliver (new_place e) s = for_task e (R.new_place e) s
  deliver (new_end e) s = some s
  deliver (tick e now) s = for_task e (R.tick e now) s
  deliver (yield e) s = for_task e (R.yield e) s
  deliver (block e) s = for_task e (R.block e) s
  deliver (unblock_prepare e) s =
      if s.live e.target && not (is_queued K e.target s.world)
      then (R.unblock_prepare e s.world >>= λ r.
          some (record s { world = place_on K e.target r.0 r.1 }))
      else some s
  deliver (unblock_place e) s = for_task e (R.unblock_place e) s
  deliver (unblock_end e) s = some s
  deliver (terminate e) s = for_task e (R.terminate e) s >>= λ s'.
      some (record s' { live = update s'.live e.target false })
  deliver (schedule cpu now) s =
      if may_schedule cpu s.world
      then (R.schedule cpu now s.world >>= λ w. some (record s { world = w }))
      else some s
  deliver (core_entry e) s = for_core (R.core_entry e) s
  deliver (core_exit e) s = R.core_exit e s.world >>= λ w. some (record s { world = w })
  deliver (newly_idle e) s = for_core (R.newly_idle e) s
  deliver (enter_idle e) s = for_core (R.enter_idle e) s
  deliver (exit_idle e) s = for_core (R.exit_idle e) s

  unfoldable pub run : List Call → System (World S E C G) → Option (System (World S E C G))
  run [] s = some s
  run (c ∷ cs) s = deliver c s >>= run cs
