-- ===== src/Rusty/Arrival.antt =====
-- A new task in modules/rusty_saakm/rusty_saakm.c: its object, its domains and its cpu.
use saakm_misc.Prelude.{
  ℕ, true, ◌≤◌, ◌<◌, ◌+◌, ◌%◌, ◌^◌, none, some, ◌≡◌, refl, is_some, Returns, Returns-with,
  Returns-at,
}
use saakm_misc.Kernel.{Kernel, CpumaskLaws}
use saakm_misc.World.{put, put_core}
use saakm_misc.Rusty.{max_doms, Platform, RustyWorld, RustyProcess, RustyGlobals}
use saakm_misc.Rusty.Select.{Rotation, rotate, task_pick_domain}
use saakm_misc.Rusty.Domains.{Inhabited, Turned, rotate-Turned}
use saakm_misc.Rusty.Rounds.{rotate-Inhabited, gap-lt}

module _ {S M : Type 0} (K : Kernel S M) (P : Platform S M) where
  abbrev pub turn_core : RustyWorld S M → RustyWorld S M
  turn_core w =
      let cpu = P.this_cpu w.kernel in
      let c = w.core cpu in put_core cpu (record c { dom_rr_cur = (c.dom_rr_cur + 1) % 2 ^ 32 }) w

  -- Domain `d`, whose cpus are `cores`, has a cpu that the task may run on.
  pub record Meets (g : RustyGlobals M) (allowed : M) (d : ℕ) : Type 0 where
    pub cores : M
    pub below : d < g.nr_doms
    pub there : g.dom_data d ≡ some cores
    pub hit : K.mask_intersects allowed cores ≡ true

  -- The object after `task_pick_domain`, in memory in which nothing but the core's rotation changed.
  pub record Domained (w : RustyWorld S M) (p rp : ℕ) (e : RustyProcess M) (w' : RustyWorld S M)
      : Type 0 where
    pub process : RustyProcess M
    pub shape : w' ≡ put rp process (turn_core w)
    pub turned : Turned K P (P.cpus_ptr p w.kernel) e process
    pub inhabited :
        (d : ℕ)
        → w.globals.nr_doms ≤ max_doms
        → Meets w.globals (P.cpus_ptr p w.kernel) d
        → Inhabited K P process.cpumask

  module _ (masks : CpumaskLaws K) where
    pub task_pick_domain-Domained :
        (w : RustyWorld S M) (p rp : ℕ) (e : RustyProcess M)
        → w.heap rp ≡ some e
        → 0 < w.globals.nr_doms
        → ((d : ℕ) → d < w.globals.nr_doms → is_some (w.globals.dom_data d) ≡ true)
        → Returns (Domained w p rp (record e { dom_mask = 0 })) (task_pick_domain K P rp p w)
    unfolding task_pick_domain
    task_pick_domain-Domained w p rp e alive some_dom all =
        let g = w.globals in
        let allowed = P.cpus_ptr p w.kernel in
        let e₀ : RustyProcess M = record e { dom_mask = 0 } in
        let start : Rotation K P = record {
          dom = (w.core (P.this_cpu w.kernel)).dom_rr_cur;
          first_dom = none;
          process = e₀;
        } in
        let Q : Rotation K P → Type 0 = λ s. Turned K P allowed e₀ s.process in
        rw alive (
          Returns-with Q (Domained w p rp e₀) (rotate K P g.nr_doms g allowed start) _
            (rotate-Turned K P masks g.nr_doms g allowed start some_dom all)
            (λ s turned result. record {
              process = s.process;
              shape = refl;
              turned = turned;
              inhabited = λ d small m.
                  Returns-at (λ s. Inhabited K P s.process.cpumask)
                    (rotate K P g.nr_doms g allowed start) s
                    (rotate-Inhabited K P masks g.nr_doms g allowed start d m.cores m.below small
                      all m.there m.hit (gap-lt g.nr_doms _ d some_dom m.below))
                    result;
            }))
