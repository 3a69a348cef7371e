-- ===== src/Fifo/Comparisons.antt =====
-- The per-core FIFO policy (modules/fifo_benchs/fifo.c) on the reference kernel, compared with the abstract
-- scheduler.
use saakm_misc.Prelude.{◌++◌, List, [], ◌∷◌, refl, Returns}
use saakm_misc.Kernel.Reference.{reference, reference_laws}
use saakm_misc.Framework.{always, Call, run, tick, schedule, terminate}
use saakm_misc.Fifo.Routines.{fifo_routines}
use saakm_misc.Fifo.Histories.{loaded}
use saakm_misc.Fifo.Spec.{empty_board}
use saakm_misc.Fifo.Refinement.{loaded-Shows, Implements, fifo_run-Implements}
use saakm_misc.Fifo.Visits.{IsSame, visit, visit-IsSame}
use saakm_misc.Fifo.Placement.{IsPlaced, fifo_run-IsPlaced}
use saakm_misc.Fifo.Examples.{blank, blank-IsQuiet, cpus, on, forks}

-- Two tasks are forked; the first runs for its quantum, then the second runs and terminates.
abbrev history : List Call
history =
    forks ++ schedule 1 1000 ∷ tick (on 5) 20001000 ∷ schedule 1 20001000 ∷ terminate (on 9) ∷ []

fifo_run-Implements_example :
    Returns
      (Implements reference reference_laws history
        (empty_board (λ t. reference.task_cpu t (loaded reference cpus blank).world.kernel)))
      (run reference always (fifo_routines reference) history (loaded reference cpus blank))
fifo_run-Implements_example =
    fifo_run-Implements reference reference_laws cpus blank history blank-IsQuiet (λ p. refl)

fifo_run-IsPlaced_example :
    Returns
      (IsPlaced reference)
      (run reference always (fifo_routines reference) history (loaded reference cpus blank))
fifo_run-IsPlaced_example =
    fifo_run-IsPlaced reference reference_laws cpus blank history blank-IsQuiet (λ p. refl)

visit-IsSame_example :
    Returns
      (IsSame reference (loaded reference cpus blank))
      (run reference always (fifo_routines reference) (visit (on 5)) (loaded reference cpus blank))
unfolding loaded
visit-IsSame_example =
    visit-IsSame reference reference_laws
      (empty_board (λ t. reference.task_cpu t (loaded reference cpus blank).world.kernel))
      (loaded reference cpus blank) (on 5)
      (loaded-Shows reference reference_laws cpus blank blank-IsQuiet (λ p. refl)) refl
