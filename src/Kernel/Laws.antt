-- ===== src/Kernel/Laws.antt =====
-- What follows from the kernel's laws, in the form that the policies' proofs use.
use saakm_misc.Prelude.{
  ℕ, List, [], ◌∷◌, ◌++◌, without_absent, Bool-cases, inl, inr, Bool, true, false, Option, none,
  some, ◌≡◌, refl, ◌∙◌, ap, ◌==◌, if◌then◌else◌, ◌≢◌, ==_refl, elem, elem-append, elem-without,
  without, arith, IsUnique, IsUnique-append, IsUnique-without, sym, head?,
}
use saakm_misc.Kernel.Defs.{
  IpanemaState, Rq, core_rq, global_rq, rq_eq, Kernel, KernelLaws, targets, placed, current_after,
  running,
}

pub elem-placed :
    (b : Bool) (u t : ℕ) (xs : List ℕ) → elem u (placed b t xs) ≡ (if t == u then b else elem u xs)
elem-placed true u t xs = ground (arith, elem-append u (without t xs) (t ∷ []), elem-without u t xs)
elem-placed false u t xs = elem-without u t xs

pub IsUnique-placed : (b : Bool) (t : ℕ) (xs : List ℕ) → IsUnique xs → IsUnique (placed b t xs)
IsUnique-placed true t xs h =
    IsUnique-append t (without t xs) (elem-without t t xs ∙ (ground (arith)))
      (IsUnique-without t xs h)
IsUnique-placed false t xs h = IsUnique-without t xs h

pub rq_eq_iff : (q r : Rq) → rq_eq q r ≡ true → q ≡ r
rq_eq_iff (core_rq a) (core_rq b) h = ground arith
rq_eq_iff (core_rq a) global_rq h = ground arith
rq_eq_iff global_rq (core_rq b) h = ground arith
rq_eq_iff global_rq global_rq h = refl

pub elem-head : (t : ℕ) (xs : List ℕ) → head? xs ≡ some t → elem t xs ≡ true
elem-head t [] h = ground arith
elem-head t (x ∷ xs) h = ground arith

module _ {S M : Type 0} (K : Kernel S M) (laws : KernelLaws K) where
  -- After `change_state` a task is on the queue that the call names, and on no other.
  pub elem-change_state :
      (r : Rq) (u t : ℕ) (s : IpanemaState) (c : ℕ) (q : Option Rq) (k : S)
      → elem u (K.rq_tasks r (K.change_state t s c q k))
        ≡ (if t == u then targets q r else elem u (K.rq_tasks r k))
  elem-change_state r u t s c q k =
      ap (elem u) (laws.rq_tasks-change_state r t s c q k)
      ∙ elem-placed (targets q r) u t (K.rq_tasks r k)

  -- A current task after `change_state` was put in `running` by it, or was current before.
  pub current-change_state :
      (d t u : ℕ) (s : IpanemaState) (c : ℕ) (q : Option Rq) (k : S)
      → K.current_task d (K.change_state t s c q k) ≡ some u
      → (t == u) ≡ false
      → K.current_task d k ≡ some u
  current-change_state d t u s c q k h ne =
      current_after_cases s (c == d) (K.current_task d k)
        (sym (laws.current_task-change_state d t s c q k) ∙ h)
    where
      current_after_cases :
          (s : IpanemaState) (b : Bool) (o : Option ℕ) → current_after s b t o ≡ some u → o ≡ some u
      current_after_cases running true o e = ground arith
      current_after_cases _ _ none e = e
      current_after_cases _ _ (some v) e = ground arith

  -- A task that is put in another state than `running` is current nowhere.
  pub not_current-change_state :
      (d t : ℕ) (s : IpanemaState) (c : ℕ) (q : Option Rq) (k : S)
      → s ≢ running
      → K.current_task d (K.change_state t s c q k) ≢ some t
  not_current-change_state d t s c q k other h =
      forgotten s (c == d) (K.current_task d k) other
        (sym (laws.current_task-change_state d t s c q k) ∙ h)
    where
      forgotten :
          (s : IpanemaState) (b : Bool) (o : Option ℕ)
          → s ≢ running
          → current_after s b t o ≢ some t
      forgotten running b o ne e = ne refl
      forgotten _ b none ne e = ground arith
      forgotten _ b (some v) ne e = ground (arith, ==_refl t)

  -- A call of `change_state` for a task that is not on the queue.
  pub joins :
      (r : Rq) (t : ℕ) (s : IpanemaState) (cpu : ℕ) (q : Option Rq) (k : S) (l : List ℕ)
      → K.rq_tasks r k ≡ l
      → elem t l ≡ false
      → K.rq_tasks r (K.change_state t s cpu q k) ≡ (if targets q r then l ++ t ∷ [] else l)
  joins r t s cpu q k l queue off =
      laws.rq_tasks-change_state r t s cpu q k ∙ elim (Bool-cases (targets q r)) [
        | inl there ↦ rw (there, queue, without_absent t l off) refl
        | inr away ↦ rw (away, queue, without_absent t l off) refl
      ]
