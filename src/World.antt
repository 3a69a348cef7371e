-- ===== src/World.antt =====
-- The memory that a policy module works on, shared by the policies: the kernel's state, the objects
-- that the module allocates by address, each task's `policy_metadata` pointer, the per-cpu cores and
-- the module's other variables. A pointer that is NULL or freed reads as `none`, a fault.
use saakm_misc.Prelude.{ℕ, Bool, Option, none, some, ◌>>=◌, update, is_some}

pub record World (S E C G : Type 0) : Type 0 where
  pub kernel : S
  pub heap : ℕ → Option E
  pub metadata : ℕ → Option ℕ
  pub core : ℕ → C
  pub globals : G

module _ {S E C G : Type 0} where
  -- `policy_metadata(task)`, read through: the pointer and the object behind it.
  abbrev pub policy_metadata : ℕ → World S E C G → Option (ℕ × E)
  policy_metadata t w = do p ← w.metadata t; e ← w.heap p; some (p, e)

  -- Writes to an allocated object and to a core, and a call into the kernel.
  abbrev pub put : ℕ → E → World S E C G → World S E C G
  put p e w = record w { heap = update w.heap p (some e) }

  abbrev pub put_core : ℕ → C → World S E C G → World S E C G
  put_core c v w = record w { core = update w.core c v }

  abbrev pub put_kernel : S → World S E C G → World S E C G
  put_kernel k w = record w { kernel = k }

  -- `kfree(p)`.
  abbrev pub kfree : ℕ → World S E C G → World S E C G
  kfree p w = record w { heap = update w.heap p none }

  abbrev pub in_use : World S E C G → ℕ → Bool
  in_use w p = is_some (w.heap p)
