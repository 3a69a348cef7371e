-- ===== src/Simple/Accepted.antt =====
-- What the copy in modules/rusty_saakm/scx_simple.bpf.c does once it is loaded.
use saakm_misc.Prelude.{true, List, [], ◌∷◌, ◌≡◌}
use saakm_misc.Simple
use saakm_misc.Simple.{Insert, local, shared}
use saakm_misc.Simple.Copy
use saakm_misc.Simple.Copy.{Queues, shared_dsq}

-- The queue of every request exists.
abbrev pub AllAccepted : {S : Type 0} → Queues S → S → List Insert → Type 0
AllAccepted Q k [] = Unit
AllAccepted Q k (local p ∷ is) = AllAccepted Q k is
AllAccepted Q k (shared p v ∷ is) = (Q.has_dsq shared_dsq k ≡ true) × AllAccepted Q k is
