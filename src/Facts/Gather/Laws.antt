-- ===== src/Facts/Gather/Laws.antt =====
-- The host in the facts of `Gather`.
use node_configurator.Prelude.{◌≡◌}
use node_configurator.System.{Outcome, done, Os}
use node_configurator.Facts.{Facts}
use node_configurator.Facts.Host.{Host}
use node_configurator.Facts.Gather.{Gatherer}
use node_configurator.Facts.Gather.Origin.{IsCurrent}

module _ (os : Os) (host : Host os.State) (g : Gatherer) where
  open os use {State}

  -- What `Gather` returns, and that it holds of the host as it is.
  abbrev pub Returns : State → Outcome State Facts → Type 0
  Returns s o = (f : Facts) × (t : State) × (o ≡ done f t) × IsCurrent os host g s f
