-- ===== src/Prelude/Lists.antt =====
-- Lists of tasks: length, membership as a test, removal, the first entry.
use Prim.Native.Nat.{ℕ, suc}
use mathlib.Core.Path.{◌≡◌, refl, subst}
use mathlib.Core.Bool.{Bool, false, ◌||◌}
use mathlib.Core.Option.{Option, none, some}
use mathlib.Core.List.{List, [], ◌∷◌, ◌++◌}
use native.Mathlib.Omega.{arith}
use saakm_misc.Prelude.Tests.{==_refl, ◌==◌, if◌then◌else◌}

module _ {ℓ} {A : Type ℓ} where
  abbrev pub length : List A → ℕ
  length [] = 0
  length (x ∷ xs) = suc (length xs)

  abbrev pub head? : List A → Option A
  head? [] = none
  head? (x ∷ xs) = some x

abbrev pub elem : ℕ → List ℕ → Bool
elem t [] = false
elem t (x ∷ xs) = (x == t) || elem t xs

abbrev pub without : ℕ → List ℕ → List ℕ
without t [] = []
without t (x ∷ xs) = let rest = without t xs in if x == t then rest else x ∷ rest

-- A list in which no task stands twice.
abbrev pub IsUnique : List ℕ → Type 0
IsUnique [] = Unit {0}
IsUnique (x ∷ xs) = (elem x xs ≡ false) × IsUnique xs

pub elem-append : (t : ℕ) (xs ys : List ℕ) → elem t (xs ++ ys) ≡ (elem t xs || elem t ys)
elem-append t [] ys = refl
elem-append t (x ∷ xs) ys = ground (arith, elem-append t xs ys)

pub elem-without :
    (t u : ℕ) (xs : List ℕ) → elem t (without u xs) ≡ (if u == t then false else elem t xs)
elem-without t u [] = ground arith
elem-without t u (x ∷ xs) = ground (arith, elem-without t u xs)

pub without_absent : (t : ℕ) (xs : List ℕ) → elem t xs ≡ false → without t xs ≡ xs
without_absent t [] h = refl
without_absent t (x ∷ xs) h = ground (arith, without_absent t xs)

pub IsUnique-without : (t : ℕ) (xs : List ℕ) → IsUnique xs → IsUnique (without t xs)
IsUnique-without t [] h = tt
IsUnique-without t (x ∷ xs) h = ground (arith, IsUnique-without t xs h.1, elem-without x t xs)

pub IsUnique-append :
    (t : ℕ) (xs : List ℕ) → elem t xs ≡ false → IsUnique xs → IsUnique (xs ++ t ∷ [])
IsUnique-append t [] a h = (refl, tt)
IsUnique-append t (x ∷ xs) a h = ground (arith, IsUnique-append t xs, elem-append x xs (t ∷ []))

pub without_head : (t : ℕ) (ts xs : List ℕ) → IsUnique xs → xs ≡ t ∷ ts → without t xs ≡ ts
without_head t ts xs unique e =
    let u : IsUnique (t ∷ ts) = subst IsUnique e unique in
    rw e (rw (==_refl t) (without_absent t ts u.0))
