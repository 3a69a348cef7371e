-- ===== src/Tracking/Pointers.antt =====
-- What a policy keeps about its tasks if their objects do not name the run queue: each attached task
-- has an object of its own, and every queued or current task is attached. The object's task is a
-- parameter.
use mathlib.Core.Bool.{false≢true}
use saakm_misc.Prelude.{
  [], is_some, ℕ, Bool, true, false, Option, none, some, ◌≡◌, ◌≢◌, refl, sym, ◌∙◌, ap, subst, elem,
  elem-without, arith, Bool-cases, inl, inr, update, ==_refl, ==_iff, some_injective, ◌==◌,
}
use saakm_misc.Kernel.{IpanemaState, Kernel, KernelLaws, Rq}
use saakm_misc.Kernel.Laws.{elem-change_state, current-change_state}

module _ {S M E : Type 0} (K : Kernel S M) (task_of : E → ℕ) where
  pub record Attached (t : ℕ) (heap : ℕ → Option E) (metadata : ℕ → Option ℕ) : Type 0 where
    pub ptr : ℕ
    pub entity : E
    pub points : metadata t ≡ some ptr
    pub alive : heap ptr ≡ some entity
    pub owner : task_of entity ≡ t

  -- Attached tasks have an object of their own; all queued and current tasks are attached.
  pub record Sound (live : ℕ → Bool) (k : S) (heap : ℕ → Option E) (metadata : ℕ → Option ℕ)
      : Type 0 where
    pub attached : (t : ℕ) → live t ≡ true → Attached t heap metadata
    pub queued_live : (r : Rq) (t : ℕ) → elem t (K.rq_tasks r k) ≡ true → live t ≡ true
    pub current_live : (c t : ℕ) → K.current_task c k ≡ some t → live t ≡ true

  -- The object of one task is rewritten, its task staying as it was.
  pub Sound-put :
      {live : ℕ → Bool} {k : S} {heap : ℕ → Option E} {metadata : ℕ → Option ℕ} (p : ℕ) (e e' : E)
      → heap p ≡ some e
      → task_of e' ≡ task_of e
      → Sound live k heap metadata
      → Sound live k (update heap p (some e')) metadata
  Sound-put {heap = heap} p e e' alive same inv = record {
    attached = λ t h.
        let its : Attached t heap _ = inv.attached t h in
        elim (Bool-cases (p == its.ptr)) [
          | inl here ↦
              let at : p ≡ its.ptr = (==_iff p its.ptr).0 here in
              record {
                ptr = its.ptr;
                entity = e';
                points = its.points;
                alive = rw here refl;
                owner =
                    same
                    ∙ ap task_of (some_injective (sym alive ∙ ap heap at ∙ its.alive))
                    ∙ its.owner;
              }
          | inr away ↦ record {
            ptr = its.ptr;
            entity = its.entity;
            points = its.points;
            alive = rw away its.alive;
            owner = its.owner;
          }
        ];
    queued_live = inv.queued_live;
    current_live = inv.current_live;
  }

  -- A task that was not attached gets a fresh object.
  pub Sound-kzalloc :
      {live : ℕ → Bool} {k : S} {heap : ℕ → Option E} {metadata : ℕ → Option ℕ} (t p : ℕ) (e : E)
      → heap p ≡ none
      → task_of e ≡ t
      → Sound live k heap metadata
      → Sound (update live t true) k (update heap p (some e)) (update metadata t (some p))
  Sound-kzalloc {live = live} {heap = heap} t p e fresh owner inv = record {
    attached = λ u h. elim (Bool-cases (t == u)) [
      | inl same ↦ record {
        ptr = p;
        entity = e;
        points = rw same refl;
        alive = rw (==_refl p) refl;
        owner = owner ∙ (==_iff t u).0 same;
      }
      | inr other ↦
          let its : Attached u heap _ = inv.attached u (ground arith) in
          record {
            ptr = its.ptr;
            entity = its.entity;
            points = rw other its.points;
            alive = ground (arith, its.alive);
            owner = its.owner;
          }
    ];
    queued_live = λ r u h. ground (arith, inv.queued_live r u);
    current_live = λ c u h. ground (arith, inv.current_live c u);
  }

  module _ (laws : KernelLaws K) where
    -- Any call of `change_state` for an attached task.
    pub Sound-change_state :
        {live : ℕ → Bool} {k : S} {heap : ℕ → Option E} {metadata : ℕ → Option ℕ} (t : ℕ)
        (s : IpanemaState) (c : ℕ) (q : Option Rq)
        → live t ≡ true
        → Sound live k heap metadata
        → Sound live (K.change_state t s c q k) heap metadata
    Sound-change_state {live = live} {k = k} t s c q here inv = record {
      attached = inv.attached;
      queued_live = λ r u h. elim (Bool-cases (t == u)) [
        | inl same ↦ subst (λ v. live v ≡ true) ((==_iff t u).0 same) here
        | inr other ↦ inv.queued_live r u (ground (arith, elem-change_state K laws r u t s c q k))
      ];
      current_live = λ d u h. elim (Bool-cases (t == u)) [
        | inl same ↦ subst (λ v. live v ≡ true) ((==_iff t u).0 same) here
        | inr other ↦ inv.current_live d u (current-change_state K laws d t u s c q k h other)
      ];
    }

    pub Sound-remove_task :
        {live : ℕ → Bool} {k : S} {heap : ℕ → Option E} {metadata : ℕ → Option ℕ} (q : Rq) (t : ℕ)
        → Sound live k heap metadata
        → Sound live (K.remove_task q t k) heap metadata
    Sound-remove_task {k = k} q t inv = record {
      attached = inv.attached;
      queued_live = λ r u h.
          inv.queued_live r u
            (ground (arith, laws.rq_tasks-remove_task r q t k, elem-without u t (K.rq_tasks r k)));
      current_live =
          λ d u h. inv.current_live d u (sym (laws.current_task-remove_task d q t k) ∙ h);
    }

    pub Sound-set_task_cpu :
        {live : ℕ → Bool} {k : S} {heap : ℕ → Option E} {metadata : ℕ → Option ℕ} (t c : ℕ)
        → Sound live k heap metadata
        → Sound live (K.set_task_cpu t c k) heap metadata
    Sound-set_task_cpu {k = k} t c inv = record {
      attached = inv.attached;
      queued_live =
          λ r u h. inv.queued_live r u (sym (ap (elem u) (laws.rq_tasks-set_task_cpu r t c k)) ∙ h);
      current_live =
          λ d u h. inv.current_live d u (sym (laws.current_task-set_task_cpu d t c k) ∙ h);
    }

    -- A task that has been moved off the cpus and the queues may be detached; its object stays.
    pub Sound-detach :
        {live : ℕ → Bool} {k : S} {heap : ℕ → Option E} {metadata : ℕ → Option ℕ} (t : ℕ)
        → ((r : Rq) → elem t (K.rq_tasks r k) ≡ false)
        → ((c : ℕ) → K.current_task c k ≢ some t)
        → Sound live k heap metadata
        → Sound (update live t false) k heap metadata
    Sound-detach t off idle inv = record {
      attached = λ u h. inv.attached u (ground arith);
      queued_live = λ r u h. ground (arith, inv.queued_live r u, off r);
      current_live = λ c u h. ground (arith, inv.current_live c u, idle c);
    }

  -- Two attached tasks never share an object.
  other_ptr :
      {heap : ℕ → Option E} {metadata : ℕ → Option ℕ} (t u p : ℕ) (e : E)
      → heap p ≡ some e
      → task_of e ≡ t
      → (its : Attached u heap metadata) → (t == u) ≡ false
      → (p == its.ptr) ≡ false
  other_ptr {heap = heap} t u p e alive owner its ne = elim (Bool-cases (p == its.ptr)) [
    | inl same ↦
        let at : p ≡ its.ptr = (==_iff p its.ptr).0 same in
        let same_task : t ≡ u =
          sym owner
          ∙ ap task_of (some_injective (sym alive ∙ ap heap at ∙ its.alive))
          ∙ its.owner in
        ground arith
    | inr other ↦ other
  ]

  -- A task that is off the cpus and the queues is detached, and its object freed.
  pub Sound-kfree :
      {live : ℕ → Bool} {k : S} {heap : ℕ → Option E} {metadata : ℕ → Option ℕ} (t p : ℕ) (e : E)
      → heap p ≡ some e
      → task_of e ≡ t
      → ((r : Rq) → elem t (K.rq_tasks r k) ≡ false)
      → ((c : ℕ) → K.current_task c k ≢ some t)
      → Sound live k heap metadata
      → Sound (update live t false) k (update heap p none) metadata
  Sound-kfree {heap = heap} t p e alive owner off idle inv = record {
    attached = λ u h.
        let its : Attached u heap _ = inv.attached u (ground arith) in
        record {
          ptr = its.ptr;
          entity = its.entity;
          points = its.points;
          alive = rw (other_ptr t u p e alive owner its (ground arith)) its.alive;
          owner = its.owner;
        };
    queued_live = λ r u h. ground (arith, inv.queued_live r u, off r);
    current_live = λ c u h. ground (arith, inv.current_live c u, idle c);
  }

  -- With no task attached, empty queues and idle cpus are all that is needed.
  pub Sound-empty :
      (k : S) (heap : ℕ → Option E) (metadata : ℕ → Option ℕ)
      → ((r : Rq) → K.rq_tasks r k ≡ [])
      → ((c : ℕ) → K.current_task c k ≡ none)
      → Sound (λ t. false) k heap metadata
  Sound-empty k heap metadata empty idle = record {
    attached = λ t h. absurd (false≢true h);
    queued_live = λ r t h. absurd (false≢true (sym (ap (elem t) (empty r)) ∙ h));
    current_live = λ c t h. absurd (false≢true (sym (ap is_some (idle c)) ∙ ap is_some h));
  }
