-- ===== src/Tools.antt =====
-- The user programs that start another program under a scheduling class: code/schedstart and
-- code/set_sched. What they call of the C library and the kernel is a record of functions on an
-- abstract state of the process.
pub mod Schedstart
pub mod SetSched
pub mod Launches
pub mod SchedApi
pub mod Threads
pub mod Verdict
mod Examples
use saakm_misc.Prelude.{
  ℕ, ◌-◌, ◌%◌, Bool, true, false, ◌&&◌, ℤ, pos, negsuc, Option, List, [], ◌∷◌, ◌==◌,
}

-- A C string, without its NUL.
abbrev pub Text : Type 0
Text = List ℕ

-- `strtol(s, &end, 10)`, which finds no number if `end == s`; the system call, which sets the attributes
-- of the caller or refuses; `execvp`, which returns only when it fails. Its arguments may be empty, a
-- NULL as program.
pub record Os (A S : Type 0) : Type 0 where
  pub strtol : Text → Option ℤ
  pub sched_setattr : A → S → Option S
  pub execvp : List Text → S → Bool

-- How a program ends: with an exit status, or as the program that it started.
pub data Outcome (S : Type 0) : Type 0 where
  exits : ℕ → S → Outcome S
  runs : List Text → S → Outcome S

abbrev pub exit_failure : ℕ
exit_failure = 1

abbrev pub u32_mod : ℕ
u32_mod = 4294967296

-- A `long` converted to 32 bits without sign.
abbrev pub to_u32 : ℤ → ℕ
to_u32 (pos n) = n % u32_mod
to_u32 (negsuc n) = u32_mod - 1 - n % u32_mod

-- `!strncmp(s, prefix, strlen(prefix))`.
abbrev pub has_prefix : Text → Text → Bool
has_prefix [] s = true
has_prefix (c ∷ prefix) [] = false
has_prefix (c ∷ prefix) (d ∷ s) = (c == d) && has_prefix prefix s
