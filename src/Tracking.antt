-- ===== src/Tracking.antt =====
-- What every policy keeps about its tasks: each attached task has a live object of its own, and the
-- object's `rq` field names the run queue that the kernel has the task on. The policies differ in
-- the object, so its task, its run queue and its own constraint are parameters here.
pub mod Attached
pub mod Objects
pub mod Pointers
use mathlib.Core.Bool.{false≢true}
use saakm_misc.Prelude.{
  ℕ, Bool, true, false, Option, none, some, ◌≡◌, sym, ◌≢◌, ◌∙◌, ◌==◌, ==_iff, ==_refl, update, elem,
  IsUnique, arith, Bool-cases, some_injective, inl, inr, ap, subst,
}
use saakm_misc.Kernel.{IpanemaState, ready, ready_tick, Rq, core_rq, Kernel, KernelLaws, targets}
use saakm_misc.Kernel.Laws.{elem-change_state, current-change_state, IsUnique-placed}

abbrev pub is_waiting : IpanemaState → Bool
is_waiting ready = true
is_waiting ready_tick = true
is_waiting _ = false

module _ {S M E : Type 0} (K : Kernel S M) (task_of : E → ℕ) (rq_of : E → Option Rq)
    (Good : E → Type 0) where
  pub record Tracked (t : ℕ) (k : S) (heap : ℕ → Option E) (metadata : ℕ → Option ℕ) : Type 0 where
    pub ptr : ℕ
    pub entity : E
    pub points : metadata t ≡ some ptr
    pub alive : heap ptr ≡ some entity
    pub owner : task_of entity ≡ t
    pub good : Good entity
    pub on_queue : (r : Rq) → elem t (K.rq_tasks r k) ≡ targets (rq_of entity) r

  pub record Inv (live : ℕ → Bool) (k : S) (heap : ℕ → Option E) (metadata : ℕ → Option ℕ)
      : Type 0 where
    pub tracked : (t : ℕ) → live t ≡ true → Tracked t k heap metadata
    pub queued_live : (r : Rq) (t : ℕ) → elem t (K.rq_tasks r k) ≡ true → live t ≡ true
    pub current_live : (c t : ℕ) → K.current_task c k ≡ some t → live t ≡ true
    pub home : (c t : ℕ) → elem t (K.rq_tasks (core_rq c) k) ≡ true → K.task_cpu t k ≡ c
    pub unique : (r : Rq) → IsUnique (K.rq_tasks r k)

  -- Two attached tasks never share an object.
  pub ptr_ne :
      {k : S} {heap : ℕ → Option E} {metadata : ℕ → Option ℕ} (t u p : ℕ) (e : E)
      → heap p ≡ some e
      → task_of e ≡ t
      → (its : Tracked u k heap metadata) → (t == u) ≡ false
      → (p == its.ptr) ≡ false
  ptr_ne {heap = heap} t u p e alive owner its ne = elim (Bool-cases (p == its.ptr)) [
    | inl same ↦
        let same_ptr : p ≡ its.ptr = (==_iff p its.ptr).0 same in
        let same_entity : e ≡ its.entity =
          some_injective (sym alive ∙ ap heap same_ptr ∙ its.alive) in
        let same_task : t ≡ u = sym owner ∙ ap task_of same_entity ∙ its.owner in ground arith
    | inr other ↦ other
  ]

  module _ (laws : KernelLaws K) where
    -- A call of `change_state` for one task leaves the others tracked.
    pub Tracked-change_state_ne :
        {k : S} {heap : ℕ → Option E} {metadata : ℕ → Option ℕ} (t u p : ℕ) (e e' : E)
        (s : IpanemaState) (c : ℕ) (q : Option Rq)
        → heap p ≡ some e
        → task_of e ≡ t
        → (t == u) ≡ false
        → Tracked u k heap metadata
        → Tracked u (K.change_state t s c q k) (update heap p (some e')) metadata
    Tracked-change_state_ne {k = k} t u p e e' s c q alive owner ne its = record {
      ptr = its.ptr;
      entity = its.entity;
      points = its.points;
      alive = rw (ptr_ne t u p e alive owner its ne) its.alive;
      owner = its.owner;
      good = its.good;
      on_queue = λ r. elem-change_state K laws r u t s c q k ∙ rw ne (its.on_queue r);
    }

    -- A task that is moved by `change_state`, its object updated to match, stays tracked.
    pub Tracked-change_state :
        {k : S} (heap : ℕ → Option E) {metadata : ℕ → Option ℕ} (t p : ℕ) (e : E) (s : IpanemaState)
        (c : ℕ)
        → metadata t ≡ some p
        → task_of e ≡ t
        → Good e
        → Tracked t (K.change_state t s c (rq_of e) k) (update heap p (some e)) metadata
    Tracked-change_state {k = k} heap t p e s c points owner good = record {
      ptr = p;
      entity = e;
      points = points;
      alive = rw (==_refl p);
      owner = owner;
      good = good;
      on_queue = λ r. elem-change_state K laws r t t s c (rq_of e) k ∙ rw (==_refl t);
    }

    -- Every call of `change_state` by a policy, with its update of the task's object, keeps the
    -- invariant, provided that a per-cpu queue is named together with its own cpu.
    pub Inv-change_state :
        {live : ℕ → Bool} {k : S} {heap : ℕ → Option E} {metadata : ℕ → Option ℕ} (t p : ℕ)
        (e e' : E) (s : IpanemaState) (c : ℕ)
        → live t ≡ true
        → metadata t ≡ some p
        → heap p ≡ some e
        → task_of e ≡ t
        → task_of e' ≡ t
        → Good e'
        → ((d : ℕ) → targets (rq_of e') (core_rq d) ≡ true → c ≡ d)
        → Inv live k heap metadata
        → Inv live (K.change_state t s c (rq_of e') k) (update heap p (some e')) metadata
    Inv-change_state {live = live} {k = k} {heap = heap} {metadata = metadata} t p e e' s c here
          points alive owner owner' good fits inv =
        record {
          tracked = λ u h. elim (Bool-cases (t == u)) [
            | inl same ↦
                let same' : t ≡ u = (==_iff t u).0 same in
                subst
                  (λ v.
                    Tracked v (K.change_state t s c (rq_of e') k) (update heap p (some e'))
                      metadata)
                  same' (Tracked-change_state heap t p e' s c points owner' good)
            | inr other ↦
                Tracked-change_state_ne t u p e e' s c (rq_of e') alive owner other
                  (inv.tracked u h)
          ];
          queued_live = λ r u h. elim (Bool-cases (t == u)) [
            | inl same ↦ subst (λ v. live v ≡ true) ((==_iff t u).0 same) here
            | inr other ↦
                inv.queued_live r u
                  (ground (arith, elem-change_state K laws r u t s c (rq_of e') k))
          ];
          current_live = λ d u h. elim (Bool-cases (t == u)) [
            | inl same ↦ subst (λ v. live v ≡ true) ((==_iff t u).0 same) here
            | inr other ↦
                inv.current_live d u (current-change_state K laws d t u s c (rq_of e') k h other)
          ];
          home = λ d u h. ground (
            arith,
            elem-change_state K laws (core_rq d) u t s c (rq_of e') k,
            laws.task_cpu-change_state u t s c (rq_of e') k,
            fits d,
            inv.home d u,
          );
          unique = λ r.
              rw (laws.rq_tasks-change_state r t s c (rq_of e') k)
                (IsUnique-placed (targets (rq_of e') r) t _ (inv.unique r));
        }
