-- ===== src/Tools/SetSched.antt =====
-- The launcher of code/set_sched/set_sched.c.
use saakm_misc.Prelude.{ℕ, ℤ, pos, Option, none, some, List, ◌∷◌, if◌then◌else◌}
use saakm_misc.Tools.{Text, Os, Outcome, exits, runs, exit_failure}

-- `struct sched_attr`, the size left out.
pub record SchedAttr : Type 0 where
  pub sched_policy : ℕ
  pub sched_flags : ℕ
  pub sched_nice : ℤ
  pub sched_priority : ℕ
  pub sched_runtime : ℕ
  pub sched_deadline : ℕ
  pub sched_period : ℕ
  pub sched_ipa_policy : ℕ
  pub sched_ipa_attr_size : ℕ
  pub sched_ipa_attr : Option ℕ

-- The fields that the initialiser does not name are 0.
abbrev pub attr : SchedAttr
attr = record {
  sched_policy = 0;
  sched_flags = 0;
  sched_nice = pos 0;
  sched_priority = 0;
  sched_runtime = 0;
  sched_deadline = 0;
  sched_period = 0;
  sched_ipa_policy = 0;
  sched_ipa_attr_size = 0;
  sched_ipa_attr = none;
}

module _ {S : Type 0} (O : Os SchedAttr S) where
  -- From the system call on; what is left after a failed `execvp` is `end:` too.
  abbrev pub launch : List Text → S → Outcome S
  launch program s = elim (O.sched_setattr attr s) [
    | none ↦ exits exit_failure s
    | some s' ↦ if O.execvp program s' then runs program s' else exits exit_failure s'
  ]

  -- `sched_class` is parsed, and not used any more.
  unfoldable pub main : List Text → S → Outcome S
  main (name ∷ number ∷ path ∷ args) s = elim (O.strtol number) [
    | none ↦ exits exit_failure s
    | some sched_class ↦ launch (path ∷ args) s
  ]
  main _ s = exits exit_failure s
