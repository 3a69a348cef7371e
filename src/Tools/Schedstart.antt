-- ===== src/Tools/Schedstart.antt =====
-- The launcher of code/schedstart/schedstart.c.
use saakm_misc.Prelude.{ℕ, ℤ, pos, Option, none, some, List, [], ◌∷◌, if◌then◌else◌, ◌==◌}
use saakm_misc.Tools.{Text, Os, Outcome, exits, runs, exit_failure, to_u32, has_prefix}

abbrev pub sched_ext : ℕ
sched_ext = 7

abbrev pub sched_ipanema : ℕ
sched_ipanema = 8

-- `struct sched_attr`, the size left out; `sched_ipa_attr` is a pointer.
pub record SchedAttr : Type 0 where
  pub sched_policy : ℕ
  pub sched_flags : ℕ
  pub sched_nice : ℤ
  pub sched_priority : ℕ
  pub sched_runtime : ℕ
  pub sched_deadline : ℕ
  pub sched_period : ℕ
  pub sched_ipa_policy : ℕ
  pub sched_ipa_attr_size : ℕ
  pub sched_ipa_attr : Option ℕ
  pub sched_util_min : ℕ
  pub sched_util_max : ℕ

abbrev pub ext : Text
ext = b'e' ∷ b'x' ∷ b't' ∷ []

abbrev pub ipanema : Text
ipanema = b'i' ∷ b'p' ∷ b'a' ∷ b'n' ∷ b'e' ∷ b'm' ∷ b'a' ∷ []

unfoldable pub get_scheduling_policy_from_string : Option Text → ℕ
get_scheduling_policy_from_string none = 0
get_scheduling_policy_from_string (some sched) =
    if has_prefix ext sched
    then sched_ext
    else if has_prefix ipanema sched
    then sched_ipanema
    else 0

abbrev pub attributes : ℕ → ℤ → SchedAttr
attributes scheduling_policy ipanema_scheduling_policy = record {
  sched_policy = scheduling_policy;
  sched_flags = 0;
  sched_nice = pos 0;
  sched_priority = 0;
  sched_runtime = 0;
  sched_deadline = 0;
  sched_period = 0;
  sched_ipa_policy = to_u32 ipanema_scheduling_policy;
  sched_ipa_attr_size = 0;
  sched_ipa_attr = none;
  sched_util_min = 0;
  sched_util_max = 0;
}

module _ {S : Type 0} (O : Os SchedAttr S) where
  -- From the system call on.
  abbrev pub launch : SchedAttr → List Text → S → Outcome S
  launch attr program s = elim (O.sched_setattr attr s) [
    | none ↦ exits exit_failure s
    | some s' ↦ if O.execvp program s' then runs program s' else exits exit_failure s'
  ]

  -- From the second argument on, which is parsed when the first is known.
  abbrev pub parse_policy : ℕ → Text → List Text → S → Outcome S
  parse_policy scheduling_policy number program s = elim (O.strtol number) [
    | none ↦ exits exit_failure s
    | some policy ↦ launch (attributes scheduling_policy policy) program s
  ]

  -- The arguments are those of `argv`, the program's own name included; `argv[3]` on are a program and its
  -- arguments, and may be missing.
  unfoldable pub main : List Text → S → Outcome S
  unfolding get_scheduling_policy_from_string
  main (name ∷ strscheduler ∷ number ∷ program) s =
      let scheduling_policy = get_scheduling_policy_from_string (some strscheduler) in
      if scheduling_policy == 0
      then exits exit_failure s
      else parse_policy scheduling_policy number program s
  main _ s = exits exit_failure s
