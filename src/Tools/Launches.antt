-- ===== src/Tools/Launches.antt =====
-- What the launchers of code/schedstart and code/set_sched do with their arguments.
use saakm_misc.Prelude.{
  ℕ, true, false, ℤ, pos, none, Option-cases, Bool-cases, some, List, [], ◌∷◌, ◌≡◌, ◌⊎◌, inl, inr,
  refl,
}
use saakm_misc.Tools.{Text, Os, Outcome, exits, runs, exit_failure, has_prefix, to_u32}
use saakm_misc.Tools.Schedstart
use saakm_misc.Tools.SetSched

-- The class that a name asks for: 7 or 8, by its first letters.
abbrev pub Asks : Text → ℕ → Type 0
Asks name class =
    ((has_prefix Schedstart.ext name ≡ true) × (class ≡ 7))
    ⊎ ((has_prefix Schedstart.ext name ≡ false)
        × (has_prefix Schedstart.ipanema name ≡ true)
        × (class ≡ 8))

-- The attributes ask for this class and, as 32 bits, this policy, and for nothing else.
pub record AsksFor (class : ℕ) (policy : ℤ) (a : Schedstart.SchedAttr) : Type 0 where
  pub of_class : a.sched_policy ≡ class
  pub of_policy : a.sched_ipa_policy ≡ to_u32 policy
  pub no_flags : a.sched_flags ≡ 0
  pub no_nice : a.sched_nice ≡ pos 0
  pub no_priority : a.sched_priority ≡ 0
  pub no_times : (a.sched_runtime ≡ 0) × (a.sched_deadline ≡ 0) × (a.sched_period ≡ 0)
  pub no_util : (a.sched_util_min ≡ 0) × (a.sched_util_max ≡ 0)
  pub no_attr : (a.sched_ipa_attr_size ≡ 0) × (a.sched_ipa_attr ≡ none)

module _ {S : Type 0} (O : Os Schedstart.SchedAttr S) where
  -- The kernel has accepted, for the program named in `argv`, the class and the policy named there.
  pub record Accepted (argv : List Text) (program : List Text) (s s' : S) : Type 0 where
    pub name : Text
    pub first : Text
    pub number : Text
    pub class : ℕ
    pub policy : ℤ
    pub arguments : argv ≡ name ∷ first ∷ number ∷ program
    pub asks : Asks first class
    pub parsed : O.strtol number ≡ some policy
    pub attr : Schedstart.SchedAttr
    pub asks_for : AsksFor class policy attr
    pub accepted : O.sched_setattr attr s ≡ some s'

  abbrev pub Ends : List Text → S → Outcome S → Type 0
  Ends argv s (runs program s') = Accepted argv program s s' × (O.execvp program s' ≡ true)
  Ends argv s (exits status s') =
      (status ≡ exit_failure)
      × ((s' ≡ s)
          ⊎ ((program : List Text) × Accepted argv program s s' × (O.execvp program s' ≡ false)))

  launch-Ends :
      (argv : List Text) (name first number : Text) (class : ℕ) (policy : ℤ) (program : List Text)
      (s : S)
      → argv ≡ name ∷ first ∷ number ∷ program
      → Asks first class
      → O.strtol number ≡ some policy
      → Ends argv s (Schedstart.launch O (Schedstart.attributes class policy) program s)
  launch-Ends argv name first number class policy program s arguments asks parsed =
      elim (Option-cases (O.sched_setattr (Schedstart.attributes class policy) s)) [
        | inl refused ↦ rw (refused, Ends) (refl, inl refl)
        | inr (s', taken) ↦
            let it : Accepted argv program s s' = record {
              name = name;
              first = first;
              number = number;
              class = class;
              policy = policy;
              arguments = arguments;
              asks = asks;
              parsed = parsed;
              attr = Schedstart.attributes class policy;
              asks_for = record {
                of_class = refl;
                of_policy = refl;
                no_flags = refl;
                no_nice = refl;
                no_priority = refl;
                no_times = (refl, refl, refl);
                no_util = (refl, refl);
                no_attr = (refl, refl);
              };
              accepted = taken;
            } in
            rw (taken, Ends)
              (elim (Bool-cases (O.execvp program s')) [
                | inl started ↦ rw (started, Ends) (it, started)
                | inr failed ↦ rw (failed, Ends) (refl, inr (program, it, failed))
              ])
      ]

  parse-Ends :
      (argv : List Text) (name first number : Text) (class : ℕ) (program : List Text) (s : S)
      → argv ≡ name ∷ first ∷ number ∷ program
      → Asks first class
      → Ends argv s (Schedstart.parse_policy O class number program s)
  parse-Ends argv name first number class program s arguments asks =
      elim (Option-cases (O.strtol number)) [
        | inl wrong ↦ rw (wrong, Ends) (refl, inl refl)
        | inr (policy, parsed) ↦
            rw (parsed, Ends)
              (launch-Ends argv name first number class policy program s arguments asks parsed)
      ]

  -- However schedstart ends: it becomes the program named after the two policies only when the kernel has
  -- accepted the class that the first argument asks for by its first letters, 7 for ext and 8 for ipanema,
  -- with the number of the second; otherwise it exits with status 1, and the process is as it was unless
  -- the kernel had accepted these and only the program could not be started.
  pub schedstart-Ends : (argv : List Text) (s : S) → Ends argv s (Schedstart.main O argv s)
  unfolding Schedstart.main
  schedstart-Ends [] s = (refl, inl refl)
  schedstart-Ends (name ∷ []) s = (refl, inl refl)
  schedstart-Ends (name ∷ first ∷ []) s = (refl, inl refl)
  schedstart-Ends (name ∷ first ∷ number ∷ program) s =
      let argv : List Text = name ∷ first ∷ number ∷ program in
      elim (Bool-cases (has_prefix Schedstart.ext first)) [
        | inl yes_ext ↦
            rw yes_ext (parse-Ends argv name first number 7 program s refl (inl (yes_ext, refl)))
        | inr no_ext ↦ rw no_ext (elim (Bool-cases (has_prefix Schedstart.ipanema first)) [
          | inl yes_ipanema ↦
              rw yes_ipanema (
                parse-Ends argv name first number 8 program s refl
                  (inr (no_ext, yes_ipanema, refl)))
          | inr no_ipanema ↦ rw (no_ipanema, Ends) (refl, inl refl)
        ])
      ]

-- The class given to set_sched does not matter: with any two numbers for it, set_sched ends alike, from
-- the same process and for the same program.
pub set_sched-class_ignored :
    {S : Type 0} (O : Os SetSched.SchedAttr S) (name number number' : Text) (policy policy' : ℤ)
    (program : List Text) (s : S)
    → O.strtol number ≡ some policy
    → O.strtol number' ≡ some policy'
    → SetSched.main O (name ∷ number ∷ program) s ≡ SetSched.main O (name ∷ number' ∷ program) s
unfolding SetSched.main
set_sched-class_ignored O name number number' policy policy' [] s h h' = refl
set_sched-class_ignored O name number number' policy policy' (path ∷ args) s h h' =
    rw (h, h', SetSched.main) refl
