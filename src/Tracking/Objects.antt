-- ===== src/Tracking/Objects.antt =====
-- The invariant when a policy rewrites, frees or allocates a task's object, and when the kernel moves
-- a task.
use mathlib.Core.Bool.{false≢true}
use saakm_misc.Prelude.{
  ℕ, Bool, true, false, Option, none, some, ◌≡◌, sym, ◌≢◌, ◌∙◌, ◌==◌, ==_iff, ==_refl, update, elem,
  arith, Bool-cases, some_injective, inl, inr, ap,
}
use saakm_misc.Kernel.{Rq, core_rq, Kernel, KernelLaws, targets}
use saakm_misc.Tracking.{Tracked, Inv, ptr_ne}

module _ {S M E : Type 0} (K : Kernel S M) (task_of : E → ℕ) (rq_of : E → Option Rq)
    (Good : E → Type 0) where
  -- The object of one task is rewritten, its task and its run queue staying as they were.
  pub Inv-rewrite :
      {live : ℕ → Bool} {k : S} {heap : ℕ → Option E} {metadata : ℕ → Option ℕ} (t p : ℕ) (e e' : E)
      → metadata t ≡ some p
      → heap p ≡ some e
      → task_of e ≡ t
      → task_of e' ≡ t
      → rq_of e' ≡ rq_of e
      → Good e'
      → Inv K task_of rq_of Good live k heap metadata
      → Inv K task_of rq_of Good live k (update heap p (some e')) metadata
  Inv-rewrite {k = k} {heap = heap} {metadata = metadata} t p e e' points alive owner owner' same_rq
        good inv =
      record {
        tracked = λ u h.
            let its : Tracked K task_of rq_of Good u k heap metadata = inv.tracked u h in
            elim (Bool-cases (t == u)) [
              | inl same ↦
                  let same' : t ≡ u = (==_iff t u).0 same in
                  let ptr' : its.ptr ≡ p =
                    some_injective (sym its.points ∙ ap metadata (sym same') ∙ points) in
                  let entity' : its.entity ≡ e =
                    some_injective (sym its.alive ∙ ap heap ptr' ∙ alive) in
                  record {
                    ptr = p;
                    entity = e';
                    points = ap metadata (sym same') ∙ points;
                    alive = rw (==_refl p);
                    owner = owner' ∙ same';
                    good = good;
                    on_queue = λ r.
                        its.on_queue r ∙ ap (λ x. targets x r) (ap rq_of entity' ∙ sym same_rq);
                  }
              | inr other ↦ record {
                ptr = its.ptr;
                entity = its.entity;
                points = its.points;
                alive = rw (ptr_ne K task_of rq_of Good t u p e alive owner its other) its.alive;
                owner = its.owner;
                good = its.good;
                on_queue = its.on_queue;
              }
            ];
        queued_live = inv.queued_live;
        current_live = inv.current_live;
        home = inv.home;
        unique = inv.unique;
      }

  -- A task that is on no queue and is current nowhere may be dropped and its object freed.
  pub Inv-kfree :
      {live : ℕ → Bool} {k : S} {heap : ℕ → Option E} {metadata : ℕ → Option ℕ} (t p : ℕ) (e : E)
      → heap p ≡ some e
      → task_of e ≡ t
      → ((r : Rq) → elem t (K.rq_tasks r k) ≡ false)
      → ((c : ℕ) → K.current_task c k ≢ some t)
      → Inv K task_of rq_of Good live k heap metadata
      → Inv K task_of rq_of Good (update live t false) k (update heap p none) metadata
  Inv-kfree {live = live} {k = k} {heap = heap} {metadata = metadata} t p e alive owner off idle
        inv =
      record {
        tracked = λ u h. elim (Bool-cases (t == u)) [
          | inl same ↦ absurd (false≢true (ground arith))
          | inr other ↦
              let its : Tracked K task_of rq_of Good u k heap metadata =
                inv.tracked u (ground arith) in
              record {
                ptr = its.ptr;
                entity = its.entity;
                points = its.points;
                alive = rw (ptr_ne K task_of rq_of Good t u p e alive owner its other) its.alive;
                owner = its.owner;
                good = its.good;
                on_queue = its.on_queue;
              }
        ];
        queued_live = λ r u h. ground (arith, inv.queued_live r u, off r);
        current_live = λ c u h. ground (arith, inv.current_live c u, idle c);
        home = inv.home;
        unique = inv.unique;
      }

  -- A task that was not attached gets a fresh object.
  pub Inv-kzalloc :
      {live : ℕ → Bool} {k : S} {heap : ℕ → Option E} {metadata : ℕ → Option ℕ} (t p : ℕ) (e : E)
      → live t ≡ false
      → heap p ≡ none
      → task_of e ≡ t
      → rq_of e ≡ none
      → Good e
      → Inv K task_of rq_of Good live k heap metadata
      → Inv K task_of rq_of Good
          (update live t true)
          k
          (update heap p (some e))
          (update metadata t (some p))
  Inv-kzalloc {live = live} {k = k} {heap = heap} {metadata = metadata} t p e absent fresh owner off
        good inv =
      record {
        tracked = λ u h. elim (Bool-cases (t == u)) [
          | inl same ↦
              let same' : t ≡ u = (==_iff t u).0 same in
              record {
                ptr = p;
                entity = e;
                points = rw same;
                alive = rw (==_refl p);
                owner = owner ∙ same';
                good = good;
                on_queue = λ r. elim (Bool-cases (elem u (K.rq_tasks r k))) [
                  | inl there ↦ ground (arith, inv.queued_live r u there)
                  | inr away ↦ ground arith
                ];
              }
          | inr other ↦
              let its : Tracked K task_of rq_of Good u k heap metadata =
                inv.tracked u (ground arith) in
              record {
                ptr = its.ptr;
                entity = its.entity;
                points = rw other its.points;
                alive = ground (arith, its.alive);
                owner = its.owner;
                good = its.good;
                on_queue = its.on_queue;
              }
        ];
        queued_live = λ r u h. ground (arith, inv.queued_live r u);
        current_live = λ c u h. ground (arith, inv.current_live c u);
        home = inv.home;
        unique = inv.unique;
      }

  -- The kernel moves a task that is on no queue to another cpu.
  pub Inv-set_task_cpu :
      (laws : KernelLaws K)
      → {live : ℕ → Bool} {k : S} {heap : ℕ → Option E} {metadata : ℕ → Option ℕ} (t c : ℕ)
      → ((r : Rq) → elem t (K.rq_tasks r k) ≡ false)
      → Inv K task_of rq_of Good live k heap metadata
      → Inv K task_of rq_of Good live (K.set_task_cpu t c k) heap metadata
  Inv-set_task_cpu laws {live} {k} {heap} {metadata} t c off inv = record {
    tracked = λ u h.
        let its : Tracked K task_of rq_of Good u k heap metadata = inv.tracked u h in
        record {
          ptr = its.ptr;
          entity = its.entity;
          points = its.points;
          alive = its.alive;
          owner = its.owner;
          good = its.good;
          on_queue = λ r. ap (elem u) (laws.rq_tasks-set_task_cpu r t c k) ∙ its.on_queue r;
        };
    queued_live =
        λ r u h. inv.queued_live r u (sym (ap (elem u) (laws.rq_tasks-set_task_cpu r t c k)) ∙ h);
    current_live = λ d u h. inv.current_live d u (sym (laws.current_task-set_task_cpu d t c k) ∙ h);
    home = λ d u h. ground (
      arith,
      laws.rq_tasks-set_task_cpu (core_rq d) t c k,
      laws.task_cpu-set_task_cpu u t c k,
      off (core_rq d),
      inv.home d u,
    );
    unique = λ r. rw (laws.rq_tasks-set_task_cpu r t c k) (inv.unique r);
  }

  -- Fewer tasks are attached: those that the kernel has queued or current still are.
  pub Inv-restrict :
      {live live' : ℕ → Bool} {k : S} {heap : ℕ → Option E} {metadata : ℕ → Option ℕ}
      → ((u : ℕ) → live' u ≡ true → live u ≡ true)
      → ((r : Rq) (u : ℕ) → elem u (K.rq_tasks r k) ≡ true → live' u ≡ true)
      → ((c u : ℕ) → K.current_task c k ≡ some u → live' u ≡ true)
      → Inv K task_of rq_of Good live k heap metadata
      → Inv K task_of rq_of Good live' k heap metadata
  Inv-restrict fewer queued current inv = record {
    tracked = λ u h. inv.tracked u (fewer u h);
    queued_live = queued;
    current_live = current;
    home = inv.home;
    unique = inv.unique;
  }
