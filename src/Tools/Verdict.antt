-- ===== src/Tools/Verdict.antt =====
-- The verdict of the test program of code/sched-api/sched-api.c on a kernel that keeps a scheduling class
-- for each thread.
use saakm_misc.Prelude.{ℕ, ◌<◌, if◌then◌else◌, ◌==◌, ◌≡◌}

-- The classes read so far by the threads that set one for the first of them.
abbrev pub Recorded : ℕ → (ℕ → ℕ) → Type 0
Recorded i policies = (j : ℕ) → j < i → policies j ≡ (if j == 0 then 8 else 0)
