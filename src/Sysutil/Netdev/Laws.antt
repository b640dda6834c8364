-- ===== src/Sysutil/Netdev/Laws.antt =====
-- Which interface is picked.
use node_configurator.Prelude.{
  Bool, true, ◌&&◌, not, List, [], ◌∷◌, if◌then◌else◌, any, ◌≡◌, refl, arith, Bool-cases, inl, inr,
}
use node_configurator.Text.{Text, codes, is_nil, text_eq, contains}
use node_configurator.Text.Equality.{text_eq_refl}
use node_configurator.System.{Os}
use node_configurator.Sysutil.Paths.{Env}
use node_configurator.Sysutil.Netdev.{has_device, pick_interface}

module _ (os : Os) (env : Env) where
  open os use {State}

  -- A real network interface: not the loopback, and with a device.
  abbrev pub is_hardware : State → Text → Bool
  is_hardware s name = not (text_eq name (codes "lo")) && has_device os env s name

  -- If some interface is backed by a device, then such a one is picked, wherever the software
  -- interfaces stand in the listing.
  pub pick_interface_hardware :
      (s : State) (fallback : Text) (names : List Text)
      → any (is_hardware s) names ≡ true
      → (is_hardware s (pick_interface os env s fallback names) ≡ true)
        × (contains names (pick_interface os env s fallback names) ≡ true)
  unfolding pick_interface contains
  pick_interface_hardware s fallback [] h = absurd (cc h)
  pick_interface_hardware s fallback (name ∷ names) h =
      elim (Bool-cases (text_eq name (codes "lo"))) [
        | inl e ↦
            let (p, q) = pick_interface_hardware s fallback names (rw e at h) in
            rw (pick_interface, e) (p, ground (arith, q))
        | inr e ↦ elim (Bool-cases (has_device os env s name)) [
          | inl d ↦ rw (pick_interface, e, d) (rw (e, d) refl, rw (text_eq_refl name) refl)
          | inr d ↦
              let (p, q) =
                pick_interface_hardware s (if is_nil fallback then name else fallback) names
                  (rw (e, d) at h) in
              rw (pick_interface, e, d) (p, ground (arith, q))
        ]
      ]
