-- ===== src/Engine/Run.antt =====
-- `Run` of internal/engine/engine.go, over resources behind their interface.
pub mod Laws
pub mod Converge
use node_configurator.Prelude.{
  ℕ, Bool, true, false, ◌&&◌, List, [], ◌∷◌, if◌then◌else◌, Option, none, some,
}
use node_configurator.System.{Error, Outcome, done, fail}
use node_configurator.Resource.{Status, changed, failed, is_would_change, Result, Checked, Resource}

pub data Mode : Type 0 where
  apply_mode check_mode : Mode

-- `mode == ModeApply`
unfoldable pub is_apply : Mode → Bool
is_apply apply_mode = true
is_apply check_mode = false

module _ {S : Type 0} where
  -- The end of `Apply`: the result that is reported for a resource that had drifted.
  unfoldable pub applied : Result → Outcome S (Unit {0}) → Result × S
  applied res (done _ s) = (record res { status = changed }, s)
  applied res (fail e s) = (record res { status = failed; detail = e.message }, s)

  -- One round of the loop.
  unfoldable pub run_one : Mode → Resource S → S → Result × S
  unfolding applied is_apply is_would_change
  run_one mode r s =
      let c = r.check s in
      elim c.error [
        | some _ ↦ (c.result, c.state)
        | none ↦
            if is_apply mode && is_would_change c.result.status
            then applied c.result (r.apply c.state)
            else (c.result, c.state)
      ]

  -- `Run`: the results in order, and the state that the run leaves.
  unfoldable pub run : Mode → List (Resource S) → S → List Result × S
  run mode [] s = ([], s)
  run mode (r ∷ rs) s =
      let (res, t) = run_one mode r s in let (results, u) = run mode rs t in (res ∷ results, u)
