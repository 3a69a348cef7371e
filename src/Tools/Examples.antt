-- ===== src/Tools/Examples.antt =====
-- The user programs (code/schedstart, code/set_sched, code/sched-api) on small machines.
use saakm_misc.Prelude.{
  update, ◌++◌, ℕ, ◌-◌, ◌≡◌, refl, Bool, true, false, ◌&&◌, ℤ, pos, Option, none, some, List, [],
  ◌∷◌, if◌then◌else◌, leb, ◌++◌, ◌+◌,
}
use saakm_misc.Tools.{Text, Os}
use saakm_misc.Tools.Schedstart
use saakm_misc.Tools.SetSched
use saakm_misc.Tools.SchedApi.{Api, main}
use saakm_misc.Tools.Launches.{Ends, schedstart-Ends, set_sched-class_ignored}

-- Numbers of one digit.
abbrev digit : Text → Option ℤ
digit [] = none
digit (c ∷ cs) = if leb b'0' c && leb c b'9' then some (pos (c - b'0')) else none

abbrev starts : List Text → ℕ → Bool
starts [] s = false
starts (path ∷ args) s = true

-- The class of the process is the state.
abbrev launcher : Os Schedstart.SchedAttr ℕ
launcher = record {
  strtol = digit;
  sched_setattr = λ a s. some (Schedstart.SchedAttr.sched_policy a);
  execvp = starts;
}

abbrev setter : Os SetSched.SchedAttr ℕ
setter = record {
  strtol = digit;
  sched_setattr = λ a s. some (SetSched.SchedAttr.sched_policy a);
  execvp = starts;
}

abbrev two : Text
two = b'2' ∷ []

abbrev program : List Text
program = (b'l' ∷ b's' ∷ []) ∷ []

schedstart-Ends_example :
    Ends launcher
      (program ++ Schedstart.ipanema ∷ two ∷ program)
      0
      (Schedstart.main launcher (program ++ Schedstart.ipanema ∷ two ∷ program) 0)
schedstart-Ends_example = schedstart-Ends launcher (program ++ Schedstart.ipanema ∷ two ∷ program) 0

set_sched-class_ignored_example :
    SetSched.main setter ([] ∷ (b'7' ∷ []) ∷ program) 0
    ≡ SetSched.main setter ([] ∷ (b'8' ∷ []) ∷ program) 0
set_sched-class_ignored_example =
    set_sched-class_ignored setter [] (b'7' ∷ []) (b'8' ∷ []) (pos 7) (pos 8) program 0 refl refl

-- The classes of the threads, and a number that grows with each new thread.
record Classes : Type 0 where
  class : ℕ → ℕ
  made : ℕ

abbrev set : ℕ → ℕ → Classes → Option Classes
set t c s = some (record s { class = update s.class t c })

abbrev create : ℕ → Classes → Option (ℕ × Classes)
create t s =
    let new = t + 1 + s.made in
    some (new, record { class = update s.class new (s.class t); made = s.made + 1 })

abbrev threads : Api Classes
threads = record {
  sched_getattr = λ t s. some (s.class t);
  sched_setattr = set;
  sched_setscheduler = set;
  pthread_setschedparam = set;
  fork = create;
  pthread_create = create;
  pthread_join = λ t s. some s;
  malloc = λ s. true;
}

abbrev at_start : Classes
at_start = record { class = λ t. 0; made = 0 }
