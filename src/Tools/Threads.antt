-- ===== src/Tools/Threads.antt =====
-- A kernel that keeps a scheduling class for each thread and refuses no call, and what the loops over
-- threads of code/sched-api/sched-api.c do there.
use saakm_misc.Prelude.{
  ℕ, zero, suc, ◌+◌, true, false, Option, none, some, List, [], ◌∷◌, ◌++◌, ◌==◌, update, ◌≡◌, refl,
  ◌∙◌, ap, subst, arith, Returns, ==_refl,
}
use saakm_misc.Tools.SchedApi.{
  Api, Ran, goes, ended, Process, ◌>>=◌, get_scheduling_policy, create_threads, join_threads,
  with_threads, nr_threads,
}

-- A machine on which no call fails, for want of rights, of memory or of the class, and each does what its
-- manual says of success: each thread has a class, which is set for the thread alone; a new process or
-- thread is another one than its creator and has the creator's class. `made` counts them.
pub record NoFailure {S : Type 0} (A : Api S) (class : ℕ → S → ℕ) (made : S → ℕ) : Type 0 where
  pub getattr_lem : (t : ℕ) (s : S) → A.sched_getattr t s ≡ some (class t s)
  pub setattr_lem :
      (t c : ℕ) (s : S)
      → Returns
          (λ s'. (made s' ≡ made s) × ((u : ℕ) → class u s' ≡ update (λ v. class v s) t c u))
          (A.sched_setattr t c s)
  pub setscheduler_lem :
      (t c : ℕ) (s : S)
      → Returns
          (λ s'. (made s' ≡ made s) × ((u : ℕ) → class u s' ≡ update (λ v. class v s) t c u))
          (A.sched_setscheduler t c s)
  pub setschedparam_lem :
      (t c : ℕ) (s : S)
      → Returns
          (λ s'. (made s' ≡ made s) × ((u : ℕ) → class u s' ≡ update (λ v. class v s) t c u))
          (A.pthread_setschedparam t c s)
  pub fork_lem :
      (t : ℕ) (s : S)
      → Returns
          (λ r.
            ((r.0 == t) ≡ false)
            × (made r.1 ≡ made s + 1)
            × ((u : ℕ) → class u r.1 ≡ update (λ v. class v s) r.0 (class t s) u))
          (A.fork t s)
  pub create_lem :
      (t : ℕ) (s : S)
      → Returns
          (λ r.
            ((r.0 == t) ≡ false)
            × (made r.1 ≡ made s + 1)
            × ((u : ℕ) → class u r.1 ≡ update (λ v. class v s) r.0 (class t s) u))
          (A.pthread_create t s)
  pub join_lem :
      (t : ℕ) (s : S)
      → Returns (λ s'. (made s' ≡ made s) × ((u : ℕ) → class u s' ≡ class u s)) (A.pthread_join t s)
  pub malloc_lem : (s : S) → A.malloc s ≡ true

-- The process goes on, and what holds then.
abbrev pub Goes : {S A : Type 0} → (A → S → Type 0) → Ran S A → Type 0
Goes P (goes a s) = P a s
Goes P (ended status s) = ⊥

pub Goes->>= :
    {S A B : Type 0} (P : A → S → Type 0) (Q : B → S → Type 0) (m : Process S A)
    (f : A → Process S B) (s : S)
    → Goes P (m s)
    → ((a : A) (s' : S) → P a s' → Goes Q (f a s'))
    → Goes Q ((m >>= f) s)
Goes->>= P Q m f s h k = go (m s) h
  where
    go :
        (r : Ran _ _)
        → Goes P r
        → Goes Q (elim r [ goes a s' ↦ f a s' | ended status s' ↦ ended status s' ])
    go (goes a s') h = k a s' h
    go (ended status s') h = h

pub gone :
    {S A : Type 0} (P : A → S → Type 0) (r : Ran S A)
    → Goes P r
    → (a : A) × (s' : S) × (r ≡ goes a s') × P a s'
gone P (goes a s) h = (a, s, refl, h)
gone P (ended status s) h = absurd h

pub returned :
    {A : Type 0} (P : A → Type 0) (m : Option A) → Returns P m → (a : A) × (m ≡ some a) × P a
returned P none h = absurd h
returned P (some a) h = (a, refl, h)

-- The same for a long chain, where what is got is best a variable.
pub with_gone :
    {S A R : Type 0} (P : A → S → Type 0) (r : Ran S A)
    → Goes P r
    → ((a : A) (s' : S) → r ≡ goes a s' → P a s' → R)
    → R
with_gone P (goes a s) h k = k a s refl h
with_gone P (ended status s) h k = absurd h

pub with_returned :
    {A R : Type 0} (P : A → Type 0) (m : Option A)
    → Returns P m
    → ((a : A) → m ≡ some a → P a → R)
    → R
with_returned P none h k = absurd h
with_returned P (some a) h k = k a refl h

-- The class of a thread, and how many have been made.
abbrev pub At : {S : Type 0} → (ℕ → S → ℕ) → (S → ℕ) → ℕ → ℕ → ℕ → S → Type 0
At class made self c n s = (class self s ≡ c) × (made s ≡ n)

module _ {S : Type 0} (A : Api S) (class : ℕ → S → ℕ) (made : S → ℕ)
    (laws : NoFailure A class made) where
  pub get-Goes :
      (t c : ℕ) (s : S)
      → class t s ≡ c
      → Goes (λ p s'. (p ≡ c) × (s' ≡ s)) (get_scheduling_policy A t s)
  unfolding get_scheduling_policy
  get-Goes t c s same = rw (laws.getattr_lem t s, Goes) (same, refl)

  -- One rule for the threads: what a thread does in round `i`, when it has its creator's class `c`.
  module _ {V : Type 0} (body : ℕ → ℕ → V → Process S V) (self c : ℕ) (I : ℕ → V → Type 0)
      (turn : (i tid n : ℕ) (v : V) (s : S)
        → (tid == self) ≡ false
        → class tid s ≡ c
        → At class made self c n s
        → I i v
        → Goes (λ v' s'. I (i + 1) v' × At class made self c n s') (body i tid v s)) where
    create_threads-Goes :
        (left i n : ℕ) (tids : List ℕ) (v : V) (s : S)
        → At class made self c n s
        → I i v
        → Goes
            (λ r s'. (r.0 ≡ true) × I (i + left) r.2 × At class made self c (n + left) s')
            (create_threads A body self left i tids v s)
    unfolding create_threads
    create_threads-Goes zero i n tids v s same inv =
        (refl, subst (λ m. I m v) (omega arith) inv, (same.0, same.1 ∙ omega arith))
    create_threads-Goes (suc left) i n tids v s same inv =
        let (r, made_it, (other, counted, classes)) =
          returned _ (A.pthread_create self s) (laws.create_lem self s) in
        let self_same : At class made self c (n + 1) r.1 =
          (classes self ∙ rw other same.0, counted ∙ ap (λ m. m + 1) same.1) in
        let tid_same : class r.0 r.1 ≡ c = classes r.0 ∙ rw (==_refl r.0) same.0 in
        let (v', s₂, ran, (inv', same')) =
          gone _ (body i r.0 v r.1) (turn i r.0 (n + 1) v r.1 other tid_same self_same inv) in
        let rounds : i + 1 + left ≡ i + suc left = omega arith in
        let count : n + 1 + left ≡ n + suc left = omega arith in
        rw (made_it, Goes)
          (rw ran (
            subst
              (λ m.
                Goes (λ r s'. (r.0 ≡ true) × I m r.2 × At class made self c (n + suc left) s')
                  (create_threads A body self left (i + 1) (tids ++ r.0 ∷ []) v' s₂))
              rounds
              (subst
                (λ m.
                  Goes (λ r s'. (r.0 ≡ true) × I (i + 1 + left) r.2 × At class made self c m s')
                    (create_threads A body self left (i + 1) (tids ++ r.0 ∷ []) v' s₂))
                count
                (create_threads-Goes left (i + 1) (n + 1) (tids ++ r.0 ∷ []) v' s₂ same' inv'))))

    join_threads-Goes :
        (tids : List ℕ) (n : ℕ) (s : S)
        → At class made self c n s
        → Goes (λ _ s'. At class made self c n s') (join_threads A tids s)
    unfolding join_threads
    join_threads-Goes [] n s same = same
    join_threads-Goes (tid ∷ tids) n s same =
        let (s', joined, (counted, classes)) =
          returned _ (A.pthread_join tid s) (laws.join_lem tid s) in
        rw (joined, Goes) (join_threads-Goes tids n s' (classes self ∙ same.0, counted ∙ same.1))

    pub with_threads-Goes :
        (n : ℕ) (v : V) (s : S)
        → At class made self c n s
        → I 0 v
        → Goes
            (λ v' s'. I nr_threads v' × At class made self c (n + nr_threads) s')
            (with_threads A body self v s)
    unfolding with_threads
    with_threads-Goes n v s same inv = rw (laws.malloc_lem s) (
        Goes->>=
          (λ r s'. (r.0 ≡ true) × I nr_threads r.2 × At class made self c (n + nr_threads) s')
          (λ v' s'. I nr_threads v' × At class made self c (n + nr_threads) s')
          (create_threads A body self nr_threads 0 [] v) _ s
          (create_threads-Goes nr_threads 0 n [] v s same inv)
          (λ r s' h. rw h.0 (
            Goes->>= (λ _ s'. At class made self c (n + nr_threads) s')
              (λ v' s'. I nr_threads v' × At class made self c (n + nr_threads) s')
              (join_threads A r.1) _ s' (join_threads-Goes r.1 (n + nr_threads) s' h.2)
              (λ _ s'' same''. (h.1, same'')))))
