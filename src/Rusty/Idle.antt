-- ===== src/Rusty/Idle.antt =====
-- The idle masks of the rusty policy (modules/rusty_saakm/rusty_saakm.c:321-392).
use saakm_misc.Prelude.{
  ℕ, zero, suc, ◌+◌, Bool, true, false, ℤ, pos, negsuc, Option, none, some, ◌>>=◌, if◌then◌else◌,
}
use saakm_misc.Kernel.{Kernel, flag_set}
use saakm_misc.Rusty.{IdleMasks, Platform, pick_idle_core}

module _ {S M : Type 0} (K : Kernel S M) (P : Platform S M) where
  abbrev pub clear_smt : ℕ → M → M
  clear_smt cpu m =
      let siblings = K.smt_mask cpu in
      if K.mask_intersects siblings m
      then K.mask_andnot m siblings
      else if K.mask_test cpu m
      then K.mask_clear cpu m
      else m

  unfoldable pub test_and_clear_cpu_idle : ℕ → IdleMasks M → Bool × IdleMasks M
  test_and_clear_cpu_idle cpu i = (
    K.mask_test cpu i.cpu,
    record i {
      cpu = K.mask_clear cpu i.cpu;
      smt = if P.smt_active then clear_smt cpu i.smt else i.smt;
    },
  )

  unfoldable pub get_idle_cpumask : IdleMasks M → M
  get_idle_cpumask i = if P.smt_active then i.smt else i.cpu

  abbrev pub chosen : IdleMasks M → IdleMasks M
  chosen i = record i { choices = i.choices + 1 }

  -- What a round of the loop of `pick_idle_cpu` finds before `found:`, a cpu or -EBUSY.
  unfoldable pub find_cpu : M → IdleMasks M → Option ℕ × IdleMasks M
  find_cpu allowed i = (P.any_and_distribute i.choices i.cpu allowed, chosen i)

  unfoldable pub find_idle : M → ℕ → IdleMasks M → Option ℕ × IdleMasks M
  unfolding find_cpu
  find_idle allowed flags i =
      if P.smt_active
      then elim (P.any_and_distribute i.choices i.smt allowed) [
        | some cpu ↦ (some cpu, chosen i)
        | none ↦
            if flag_set flags pick_idle_core then (none, chosen i) else find_cpu allowed (chosen i)
      ]
      else find_cpu allowed i

  -- `found:`, and the jump back to `retry:`, given the rest of the rounds. -16 is -EBUSY.
  abbrev pub claim :
      (IdleMasks M → Option (ℤ × IdleMasks M)) → Option ℕ × IdleMasks M → Option (ℤ × IdleMasks M)
  claim retry (none, i) = some (negsuc 15, i)
  claim retry (some cpu, i) =
      let r = test_and_clear_cpu_idle cpu i in
      elim (r.0) [ true ↦ some (pos cpu, r.1) | false ↦ retry (r.1) ]

  unfoldable pub pick_rounds : ℕ → M → ℕ → IdleMasks M → Option (ℤ × IdleMasks M)
  unfolding find_idle test_and_clear_cpu_idle
  pick_rounds zero allowed flags i = none
  pick_rounds (suc n) allowed flags i =
      claim (pick_rounds n allowed flags) (find_idle allowed flags i)

  -- A round that does not end the loop takes cpus out of the smt mask.
  unfoldable pub pick_idle_cpu : M → ℕ → IdleMasks M → Option (ℤ × IdleMasks M)
  unfolding pick_rounds
  pick_idle_cpu allowed flags i = pick_rounds (suc (P.weight i.smt)) allowed flags i

  -- -16 is -EBUSY.
  abbrev pub cpu_or_busy : Option ℕ → IdleMasks M → ℤ × IdleMasks M
  cpu_or_busy none i = (negsuc 15, i)
  cpu_or_busy (some cpu) i = (pos cpu, i)

  abbrev pub or_any : M → ℤ × IdleMasks M → ℤ × IdleMasks M
  or_any allowed (pos cpu, i) = (pos cpu, i)
  or_any allowed (negsuc e, i) = cpu_or_busy (P.any_distribute i.choices allowed) (chosen i)

  -- `idle_enabled` is true.
  unfoldable pub pick_any_cpu : M → ℕ → IdleMasks M → Option (ℤ × IdleMasks M)
  unfolding pick_idle_cpu
  pick_any_cpu allowed flags i = do r ← pick_idle_cpu allowed flags i; some (or_any allowed r)
