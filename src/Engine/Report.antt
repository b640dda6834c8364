-- ===== src/Engine/Report.antt =====
-- `ExitCode` and `WriteTextReport` of internal/engine/report.go. Summary is `WriteFactsSummary`.
pub mod Summary
pub mod Laws
use node_configurator.Prelude.{
  ℕ, Bool, true, false, ◌&&◌, ◌||◌, List, [], ◌∷◌, ◌++◌, if◌then◌else◌, not,
}
use node_configurator.Text.{Text}
use node_configurator.Resource.{Status, is_changed, is_failed, Result, show_result}
use node_configurator.Engine.Run.{Mode, is_apply}

-- The loop of `ExitCode`, with its two flags.
scan_results : Bool → Bool → List Result → Bool × Bool
scan_results failed changed [] = (failed, changed)
scan_results failed changed (r ∷ rs) =
    scan_results (if is_failed r.status then true else failed)
      (if is_changed r.status then true else changed) rs

-- `ExitCode`
unfoldable pub exit_code : List Result → Mode → ℕ
unfolding scan_results is_apply
exit_code results mode =
    let (failed, changed) = scan_results false false results in
    if failed then 1 else if not (is_apply mode) && changed then 2 else 0

-- `WriteTextReport`: one line for each result
unfoldable pub text_report : List Result → Text
text_report [] = []
text_report (r ∷ rs) = show_result r ++ b'\n' ∷ text_report rs
