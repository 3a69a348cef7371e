-- ===== src/Fifo/Spec.antt =====
-- The abstract scheduler of modules/fifo_benchs/fifo.c: for each cpu a queue of tasks and the task that
-- runs, for each task its cpu and its clock. It has no objects, pointers, states or statistics.
use saakm_misc.Prelude.{
  ℕ, ◌%◌, Bool, true, false, not, ◌&&◌, Option, none, some, List, [], ◌∷◌, if◌then◌else◌, ◌==◌, leb,
  add64, sub64, elem, without, update,
}
use saakm_misc.Kernel.{ProcessEvent, flag_set, forget, placed}
use saakm_misc.Framework.{
  Call, new_prepare, new_place, new_end, yield, block, unblock_prepare, unblock_place, unblock_end,
  terminate, tick, schedule, core_entry, core_exit, newly_idle, enter_idle, exit_idle,
}
use saakm_misc.Fifo.{quantum_ns}

-- `charged` is the part of its quantum that a task has used, `since` the time at which it was put on
-- its cpu.
pub record Board : Type 0 where
  pub live : ℕ → Bool
  pub home : ℕ → ℕ
  pub queue : ℕ → List ℕ
  pub current : ℕ → Option ℕ
  pub charged : ℕ → ℕ
  pub since : ℕ → ℕ

abbrev pub set_clock : ℕ → ℕ → ℕ → Board → Board
set_clock t used since a = record a {
  charged = update a.charged t used;
  since = update a.since t since;
}

-- A task goes to the end of the queue of its cpu, or is on no queue; either way it runs nowhere.
abbrev pub wait : ℕ → Board → Board
wait t a = record a {
  queue = λ c. placed (a.home t == c) t (a.queue c);
  current = λ c. forget t (a.current c);
}

abbrev pub leave : ℕ → Board → Board
leave t a = record a { queue = λ c. without t (a.queue c); current = λ c. forget t (a.current c) }

-- A tick charges the time since the task was put on its cpu; a task whose charges reach the quantum
-- waits again, with a clean clock.
abbrev pub spend : ℕ → ℕ → Board → Board
spend t now a =
    let used = add64 (a.charged t) (sub64 now (a.since t)) in
    if leb quantum_ns used then wait t (set_clock t 0 0 a) else set_clock t used (a.since t) a

-- The first task of a cpu's queue is taken off it and runs there.
abbrev pub dispatch : ℕ → ℕ → List ℕ → Board → Board
dispatch cpu now [] a = a
dispatch cpu now (t ∷ ts) a = set_clock t 0 now (record a {
  queue = update a.queue cpu ts;
  current = λ c. if cpu == c then some t else forget t (a.current c);
})

module _ (pid : ℕ → ℕ) (wf_exec online : ℕ) where
  -- The cpu of a new task, and of one that wakes up.
  abbrev pub new_cpu : ProcessEvent → Board → ℕ
  new_cpu e a = if flag_set e.flags wf_exec then a.home e.target else pid e.target % online

  abbrev pub wake_cpu : ProcessEvent → Board → ℕ
  wake_cpu e a = if flag_set 0 wf_exec then a.home e.target else pid e.target % online

  abbrev pub arrive : ProcessEvent → Board → Board
  arrive e a =
      set_clock e.target 0 0 (record a {
        live = update a.live e.target true;
        home = update a.home e.target (new_cpu e a);
      })

  -- `memory` is whether there is memory for a new task. A call for a task that the policy does not
  -- have does nothing, and so do the cpu events.
  unfoldable pub spec_call : Bool → Call → Board → Board
  spec_call memory (new_prepare e) a = if not (a.live e.target) && memory then arrive e a else a
  spec_call memory (new_place e) a = if a.live e.target then wait e.target a else a
  spec_call memory (new_end e) a = a
  spec_call memory (yield e) a = if a.live e.target then wait e.target a else a
  spec_call memory (block e) a = if a.live e.target then leave e.target a else a
  spec_call memory (unblock_prepare e) a =
      if a.live e.target && not (elem e.target (a.queue (a.home e.target)))
      then record a { home = update a.home e.target (wake_cpu e a) }
      else a
  spec_call memory (unblock_place e) a = if a.live e.target then wait e.target a else a
  spec_call memory (unblock_end e) a = a
  spec_call memory (terminate e) a =
      if a.live e.target
      then record (leave e.target a) { live = update a.live e.target false }
      else a
  spec_call memory (tick e now) a = if a.live e.target then spend e.target now a else a
  spec_call memory (schedule cpu now) a = dispatch cpu now (a.queue cpu) a
  spec_call memory (core_entry e) a = a
  spec_call memory (core_exit e) a = a
  spec_call memory (newly_idle e) a = a
  spec_call memory (enter_idle e) a = a
  spec_call memory (exit_idle e) a = a

-- The runs of the abstract scheduler: before each call the machine tells how many cpus are online and
-- whether there is memory.
pub data Follows (pid : ℕ → ℕ) (wf_exec : ℕ) : List Call → Board → Board → Type 0 where
  done : {a : Board} → Follows pid wf_exec [] a a
  step :
      {c : Call} {cs : List Call} {a b : Board} (online : ℕ) (memory : Bool)
      → Follows pid wf_exec cs (spec_call pid wf_exec online memory c a) b
      → Follows pid wf_exec (c ∷ cs) a b

-- Right after loading: no tasks. The kernel's tasks have cpus already.
abbrev pub empty_board : (ℕ → ℕ) → Board
empty_board home = record {
  live = λ t. false;
  home = home;
  queue = λ c. [];
  current = λ c. none;
  charged = λ t. 0;
  since = λ t. 0;
}
