-- ===== src/Resource/Nic/Settles.antt =====
-- The NIC converges: first the rings, then the receive queues, then the transmit queues.
use node_configurator.Prelude.{
  Bool, true, false, ◌&&◌, [], ◌≡◌, refl, sym, ap, ◌∙◌, arith, inl, inr, Bool-cases,
}
use node_configurator.Text.{Text, codes, is_nil}
use node_configurator.System.{Outcome, done, ◌>>◌, Os}
use node_configurator.System.Post.{Post, Post-weaken, Triple, then_next, Anything}
use node_configurator.System.Loop.Laws.{Keeps-refl}
use node_configurator.Resource.{is_failed, is_changed, is_would_change}
use node_configurator.Resource.RingParams.{when}
use node_configurator.Resource.Nic.{
  NicResource, spreads, queue_mask_drift, masks_text, check, apply_ring_buffer_max,
  apply_queue_mask, only_if, apply, nic_resource,
}
use node_configurator.Resource.Nic.Rings.{
  HasRings, IsFull, IsFull-same, apply_ring_buffer_max-IsFull, check_rings-IsFull,
  check_rings-state,
}
use node_configurator.Resource.Nic.Masks.{
  View, HasMasks, IsSpread, view, Kept, AreSpread, Kept-AreSpread, apply_queue_mask-AreSpread,
  queue_mask_drift-AreSpread,
}
use node_configurator.Engine.Run.Converge.{IsSettled, Converges}

module _ (os : Os) (r : NicResource) (driver : HasRings os r) (kernel : HasMasks os r) where
  open os use {State}

  -- The queues of a direction are right where they are tuned.
  Queues : Bool → Text → Text → State → Type 0
  Queues b direction attr s = b ≡ true → AreSpread os r kernel direction attr s

  -- The rings are full where they are tuned.
  Rings : State → Type 0
  Rings s = r.ring_buffer_max ≡ true → IsFull os r s

  only_if_lem :
      (b : Bool) (m : State → Outcome State (Unit {0})) (Q : State → Type 0) (s : State)
      → (b ≡ true → Post (λ _. Q) Anything (m s))
      → (b ≡ false → Q s)
      → Post (λ _. Q) Anything (only_if os r b m s)
  only_if_lem true m Q s h k = h refl
  only_if_lem false m Q s h k = k refl

  only_if-Rings :
      (s : State)
      → Post (λ _. Rings) Anything (only_if os r r.ring_buffer_max (apply_ring_buffer_max os r) s)
  unfolding Rings
  only_if-Rings s =
      only_if_lem r.ring_buffer_max (apply_ring_buffer_max os r) Rings s
        (λ b.
          Post-weaken (λ _. IsFull os r) (λ _. Rings) Anything Anything
            (apply_ring_buffer_max os r s) (apply_ring_buffer_max-IsFull os r driver s)
            (λ u t h c. h) (λ t h. tt))
        (λ b c. absurd (cc (sym b ∙ c)))

  only_if-Queues :
      (b : Bool) (direction attr : Text) (s : State)
      → Post
          (λ _ t. Queues b direction attr t × Kept os r s t)
          Anything
          (only_if os r b (apply_queue_mask os r direction attr) s)
  unfolding Queues
  only_if-Queues b direction attr s =
      only_if_lem b (apply_queue_mask os r direction attr)
        (λ t. Queues b direction attr t × Kept os r s t) s
        (λ c.
          Post-weaken (λ _ t. AreSpread os r kernel direction attr t × Kept os r s t)
            (λ _ t. Queues b direction attr t × Kept os r s t) Anything Anything
            (apply_queue_mask os r direction attr s)
            (apply_queue_mask-AreSpread os r kernel direction attr s) (λ u t h. (λ d. h.0, h.1))
            (λ t h. tt))
        (λ c. (λ d. absurd (cc (sym c ∙ d)), Keeps-refl (IsSpread os r) (view os r) s))

  Rings-Kept : (s t : State) → Kept os r s t → Rings s → Rings t
  unfolding Rings
  Rings-Kept s t k h b = IsFull-same os r s t (ap (λ (v : View os r). v.0) k.same) (h b)

  Queues-Kept :
      (b : Bool) (direction attr : Text) (s t : State)
      → Kept os r s t
      → Queues b direction attr s
      → Queues b direction attr t
  unfolding Queues
  Queues-Kept b direction attr s t k h c = Kept-AreSpread os r kernel direction attr s t k (h c)

  abbrev Rps : State → Type 0
  Rps = Queues (r.rps && spreads os r) (codes "rx") (codes "rps_cpus")

  abbrev Xps : State → Type 0
  Xps = Queues (r.xps && spreads os r) (codes "tx") (codes "xps_cpus")

  abbrev rps_step : State → Outcome State (Unit {0})
  rps_step =
      only_if os r (r.rps && spreads os r) (apply_queue_mask os r (codes "rx") (codes "rps_cpus"))

  abbrev xps_step : State → Outcome State (Unit {0})
  xps_step =
      only_if os r (r.xps && spreads os r) (apply_queue_mask os r (codes "tx") (codes "xps_cpus"))

  queues_phases : Triple Rings (rps_step >> xps_step) (λ _ t. Rings t × (Rps t × Xps t)) Anything
  queues_phases =
      then_next {Q = λ t. Rings t × Rps t}
        (record {
          run = λ s h.
              Post-weaken (λ _ t. Rps t × Kept os r s t) (λ _ t. Rings t × Rps t) Anything Anything
                (rps_step s)
                (only_if-Queues (r.rps && spreads os r) (codes "rx") (codes "rps_cpus") s)
                (λ u t g. (Rings-Kept s t g.1 h, g.0)) (λ t g. tt);
        })
        (record {
          run = λ s h.
              Post-weaken (λ _ t. Xps t × Kept os r s t) (λ _ t. Rings t × (Rps t × Xps t)) Anything
                Anything (xps_step s)
                (only_if-Queues (r.xps && spreads os r) (codes "tx") (codes "xps_cpus") s)
                (λ u t g. (
                  Rings-Kept s t g.1 h.0,
                  (
                    Queues-Kept (r.rps && spreads os r) (codes "rx") (codes "rps_cpus") s t g.1 h.1,
                    g.0,
                  ),
                ))
                (λ t g. tt);
        })

  all_phases :
      Triple Anything
        (only_if os r r.ring_buffer_max (apply_ring_buffer_max os r) >> (rps_step >> xps_step))
        (λ _ t. Rings t × (Rps t × Xps t))
        Anything
  all_phases = then_next (record { run = λ s h. only_if-Rings s }) queues_phases

  -- The part of the drift that is about the queues of a direction.
  drift-Queues :
      (b : Bool) (direction attr : Text) (t : State)
      → Queues b direction attr t
      → when b (masks_text os r attr (queue_mask_drift os r direction attr t)) ≡ []
  unfolding Queues
  drift-Queues true direction attr t h =
      ap (masks_text os r attr) (queue_mask_drift-AreSpread os r kernel direction attr t (h refl))
  drift-Queues false direction attr t h = refl

  IsSettled-of_phases :
      (t : State)
      → is_nil r.interface_name ≡ false
      → Rings t × (Rps t × Xps t)
      → IsSettled (nic_resource os r) t
  unfolding check is_failed is_changed Rings
  IsSettled-of_phases t n h =
      let rings = check_rings-IsFull os r driver t h.0 in
      let rps = drift-Queues (r.rps && spreads os r) (codes "rx") (codes "rps_cpus") t h.1.0 in
      let xps = drift-Queues (r.xps && spreads os r) (codes "tx") (codes "xps_cpus") t h.1.1 in
      record {
        no_error = rw (check, n, rings, rps, xps) (ground arith);
        no_failure = rw (check, n, rings, rps, xps) (ground arith);
        no_change = rw (check, n, rings, rps, xps) (ground arith);
      }

  apply-IsSettled :
      (s t : State)
      → is_nil r.interface_name ≡ false
      → apply os r s ≡ done tt t
      → IsSettled (nic_resource os r) t
  unfolding apply
  apply-IsSettled s t n a =
      IsSettled-of_phases t n (rw (rw (apply, n) at a) at (all_phases.run s tt))

  -- After a successful `Apply`, `Check` finds the rings as large as they may be and the mask of all CPUs
  -- on every queue, where `ethtool` and the kernel keep what they accept.
  pub nic-Converges : Converges (nic_resource os r)
  unfolding check is_failed is_changed is_would_change
  nic-Converges = record {
    read_only = λ s. ground (arith, check_rings-state os r driver.only_query s);
    fails_with_error = λ s x e. ground arith;
    no_error_no_failure = λ s e. ground arith;
    only_drift = λ s e w. ground arith;
    settles = λ s t w a. elim (Bool-cases (is_nil r.interface_name)) [
      | inl n ↦ absurd (cc (rw (check, n) at w))
      | inr n ↦ apply-IsSettled s t n a
    ];
  }
