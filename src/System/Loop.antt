-- ===== src/System/Loop.antt =====
-- The loops over a slice that do one step for each item and return the first error, as the `Apply`
-- methods of internal/resource have them.
pub mod Laws
use node_configurator.Prelude.{List, [], ◌∷◌}
use node_configurator.System.{Outcome, done, fail, ◌>>◌, return}

module _ {S X : Type 0} where
  -- `for _, x := range xs { if err := step(x); err != nil { return err } }`
  unfoldable pub for_each : (X → S → Outcome S (Unit {0})) → List X → S → Outcome S (Unit {0})
  for_each step [] = return tt
  for_each step (x ∷ xs) = step x >> for_each step xs
