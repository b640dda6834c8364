-- ===== src/Resource/Nic/Rings.antt =====
-- The ring buffers of a NIC are at their maximum after `applyRingBufferMax`, on a driver that sets what
-- `ethtool -G` asks for.
use node_configurator.Prelude.{
  true, false, List, [], ◌∷◌, ◌++◌, if◌then◌else◌, Option, none, some, ◌≡◌, sym, ap, ◌∙◌, arith,
  inl, inr, ℤ, pos, negsuc, ltb_ℤ, Bool-cases, Option-cases,
}
use mathlib.Core.Option.{some-injective}
use node_configurator.Text.{Text, codes, is_nil}
use node_configurator.Text.Number.{show_int}
use node_configurator.System.{done, Os}
use node_configurator.System.Post.{Post, Outcome-cases, Anything}
use node_configurator.Resource.RingParams.{
  RingParams, parse_ethtool_ring_params, can_grow, ring_drift, ring_args,
}
use node_configurator.Resource.Nic.{NicResource, query_rings, check_rings, apply_ring_buffer_max}

-- The arguments of `ethtool -G` that ask for a size of one ring.
abbrev named : Text → Option ℤ → List Text
named ring (some n) = ring ∷ show_int n ∷ []
named ring none = []

abbrev pub request : Option ℤ → Option ℤ → List Text
request rx tx = named (codes "rx") rx ++ named (codes "tx") tx

abbrev pub or_kept : Option ℤ → ℤ → ℤ
or_kept (some n) cur = n
or_kept none cur = cur

-- What is asked of a ring that is smaller than it may be.
abbrev pub wish : ℤ → ℤ → Option ℤ
wish cur max = if can_grow cur max then some max else none

ltb_ℤ_irrefl : (n : ℤ) → ltb_ℤ n n ≡ false
ltb_ℤ_irrefl (pos n) = ground arith
ltb_ℤ_irrefl (negsuc n) = ground arith

can_grow-wish : (cur max : ℤ) → can_grow (or_kept (wish cur max) cur) max ≡ false
unfolding can_grow
can_grow-wish cur max = elim (Bool-cases (can_grow cur max)) [
  | inl e ↦ rw e (ground (arith, ltb_ℤ_irrefl max))
  | inr e ↦ rw e e
]

ring_args-request :
    (rp : RingParams) → ring_args rp ≡ request (wish rp.cur_rx rp.max_rx) (wish rp.cur_tx rp.max_tx)
unfolding ring_args
ring_args-request rp = elim (Bool-cases (can_grow rp.cur_rx rp.max_rx)) [
  | inl e ↦ elim (Bool-cases (can_grow rp.cur_tx rp.max_tx)) [
    | inl f ↦ rw (e, f)
    | inr f ↦ rw (e, f)
  ]
  | inr e ↦ elim (Bool-cases (can_grow rp.cur_tx rp.max_tx)) [
    | inl f ↦ rw (e, f)
    | inr f ↦ rw (e, f)
  ]
]

ring_drift-full :
    (rp : RingParams)
    → can_grow rp.cur_rx rp.max_rx ≡ false
    → can_grow rp.cur_tx rp.max_tx ≡ false
    → ring_drift rp ≡ []
unfolding ring_drift
ring_drift-full rp e f = rw (e, f)

ring_drift-no_args : (rp : RingParams) → is_nil (ring_args rp) ≡ true → ring_drift rp ≡ []
unfolding ring_args
ring_drift-no_args rp h = elim (Bool-cases (can_grow rp.cur_rx rp.max_rx)) [
  | inl e ↦ absurd (cc (rw e at h))
  | inr e ↦ elim (Bool-cases (can_grow rp.cur_tx rp.max_tx)) [
    | inl f ↦ absurd (cc (rw (e, f) at h))
    | inr f ↦ ring_drift-full rp e f
  ]
]

module _ (os : Os) (r : NicResource) where
  open os use {State, run}

  -- From `s`, where the query prints `out`, to `t`: the sizes that a request has set are what the next
  -- query prints, beside the same maximums.
  abbrev pub Sets : State → State → Text → Text → Type 0
  Sets s t out x =
      let rp = parse_ethtool_ring_params out in
      let rx = wish rp.cur_rx rp.max_rx in
      let tx = wish rp.cur_tx rp.max_tx in
      run (codes "ethtool") (codes "-G" ∷ r.interface_name ∷ request rx tx) s ≡ done x t
      → (new : Text) × ((query_rings os r t).0 ≡ some new)
        × (parse_ethtool_ring_params new ≡ record {
          max_rx = rp.max_rx;
          max_tx = rp.max_tx;
          cur_rx = or_kept rx rp.cur_rx;
          cur_tx = or_kept tx rp.cur_tx;
        })

  -- What the resource relies on in `ethtool`: a query changes nothing, and shows what was set.
  pub record HasRings : Type 0 where
    pub only_query : (s : State) → (query_rings os r s).1 ≡ s
    pub sets : (s t : State) (out x : Text) → (query_rings os r s).0 ≡ some out → Sets s t out x

  -- If the rings can be queried, none can grow.
  pub IsFull : State → Type 0
  IsFull t =
      (out : Text)
      → (query_rings os r t).0 ≡ some out
      → ring_drift (parse_ethtool_ring_params out) ≡ []

  pub IsFull-same :
      (s t : State) → (query_rings os r t).0 ≡ (query_rings os r s).0 → IsFull s → IsFull t
  unfolding IsFull
  IsFull-same s t e h out q = h out (sym e ∙ q)

  pub check_rings-state :
      ((s : State) → (query_rings os r s).1 ≡ s) → (s : State) → (check_rings os r s).1 ≡ s
  unfolding check_rings
  check_rings-state only s = elim (Bool-cases r.ring_buffer_max) [
    | inr b ↦ rw (check_rings, b)
    | inl b ↦ elim (Option-cases (query_rings os r s).0) [
      | inl e ↦ rw⁻¹ (only s) (ground arith)
      | inr (out, e) ↦ ground (arith, only s)
    ]
  ]

  module _ (driver : HasRings) where
    IsFull-request :
        (s t : State) (out x : Text)
        → (query_rings os r s).0 ≡ some out
        → run
            (codes "ethtool")
            (codes "-G" ∷ r.interface_name ∷ ring_args (parse_ethtool_ring_params out))
            s
          ≡ done x t
        → IsFull t
    unfolding IsFull
    IsFull-request s t out x q w =
        let rp = parse_ethtool_ring_params out in
        let (new, n, p) = driver.sets s t out x q (rw (ring_args-request rp) at w) in
        λ o e.
          ap (λ y. ring_drift (parse_ethtool_ring_params y)) (some-injective o new (sym e ∙ n))
          ∙ ap ring_drift p
          ∙ ring_drift-full _ (can_grow-wish rp.cur_rx rp.max_rx)
              (can_grow-wish rp.cur_tx rp.max_tx)

    pub apply_ring_buffer_max-IsFull :
        (s : State) → Post (λ _ t. IsFull t) Anything (apply_ring_buffer_max os r s)
    unfolding apply_ring_buffer_max IsFull
    apply_ring_buffer_max-IsFull s = elim (Option-cases (query_rings os r s).0) [
      | inl e ↦
          rw (Post, apply_ring_buffer_max, e)
            (λ o q. absurd (cc (rw (driver.only_query s, e) at q)))
      | inr (out, e) ↦
          let rp = parse_ethtool_ring_params out in
          elim (Bool-cases (is_nil (ring_args rp))) [
            | inl n ↦
                rw (Post, apply_ring_buffer_max, e, n)
                  (λ o q.
                    ap (λ y. ring_drift (parse_ethtool_ring_params y))
                      (some-injective o out (sym (rw (driver.only_query s) at q) ∙ e))
                    ∙ ring_drift-no_args rp n)
            | inr n ↦
                elim (Outcome-cases
                  (run (codes "ethtool") (codes "-G" ∷ r.interface_name ∷ ring_args rp) s)) [
                    | inl (x, t, w) ↦
                        rw (Post, apply_ring_buffer_max, e, n, driver.only_query s, w)
                          (IsFull-request s t out x e w)
                    | inr (x, t, w) ↦
                        rw (Post, apply_ring_buffer_max, e, n, driver.only_query s, w) tt
                  ]
          ]
    ]

    -- `Check` has nothing to say of rings that are full, and leaves the state alone.
    pub check_rings-IsFull :
        (t : State) → (r.ring_buffer_max ≡ true → IsFull t) → check_rings os r t ≡ ([], t)
    unfolding check_rings IsFull query_rings
    check_rings-IsFull t h = elim (Bool-cases r.ring_buffer_max) [
      | inr b ↦ rw (check_rings, b)
      | inl b ↦ elim (Option-cases (query_rings os r t).0) [
        | inl e ↦ rw (check_rings, b, e, driver.only_query t)
        | inr (out, e) ↦ rw (check_rings, b, e, h b out e, driver.only_query t)
      ]
    ]
