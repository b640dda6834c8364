-- ===== src/Engine/Report/Laws.antt =====
-- The exit code by what the results hold.
use node_configurator.Prelude.{
  Bool, true, false, ◌&&◌, ◌||◌, List, [], ◌∷◌, if◌then◌else◌, not, ◌≡◌, arith, any, ◌∙◌,
}
use node_configurator.Resource.{is_changed, is_failed, Result}
use node_configurator.Engine.Run.{Mode, is_apply}
use node_configurator.Engine.Report.{scan_results, exit_code}

scan_results-any :
    (f c : Bool) (rs : List Result)
    → scan_results f c rs
      ≡ (f || any (λ r. is_failed r.status) rs, c || any (λ r. is_changed r.status) rs)
unfolding scan_results
scan_results-any f c [] = ground arith
scan_results-any f c (r ∷ rs) =
    scan_results-any (if is_failed r.status then true else f)
      (if is_changed r.status then true else c) rs
    ∙ ground arith

-- 1 if some resource failed; if not, 2 if the run only checked and some resource has changed or
-- would; and 0 otherwise.
pub exit_code_lem :
    (rs : List Result) (mode : Mode)
    → exit_code rs mode ≡ (
        if any (λ r. is_failed r.status) rs
        then 1
        else if not (is_apply mode) && any (λ r. is_changed r.status) rs
        then 2
        else 0)
unfolding exit_code
exit_code_lem rs mode = ground (arith, scan_results-any false false rs)
