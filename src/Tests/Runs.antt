-- ===== src/Tests/Runs.antt =====
-- Tests of the engine.
use node_configurator.Prelude.{not, ◌&&◌, List, [], ◌∷◌, ◌≡◌, refl, if◌then◌else◌, any}
use node_configurator.Text.{
  codes, text_eq, split, join, fields, is_nil, contains, trim_space, is_space,
}
use node_configurator.Text.Dict.{lookup, keys}
use node_configurator.Text.Sort.{sort, insert_sorted, text_le}
use node_configurator.Text.Number.{itoa}
use node_configurator.Text.Quote.{quote}
use node_configurator.Sysutil.Paths.{
  new, path, filepath_join, elements, clean, clean_element, dir, base, show_path,
}
use node_configurator.Sysutil.Atomic.{
  write_file_if_changed, replace_file, fill_and_rename, then_remove, or_close, temp_prefix,
}
use node_configurator.Sysutil.Procsys.{
  sysctl_path, strip_parents, strip_slashes, sysctl_exists, read_sysctl, write_sysctl,
}
use node_configurator.Resource.{
  Resource, Result, changed, failed, is_changed, is_failed, is_would_change, result_of,
  join_details,
}
use node_configurator.Resource.Sysctl.{
  setting, sorted_keys, normalize_sysctl_value, render_sysctl_file, inspect, record_finding,
  diff_keys, diff_live, is_stale, check, write_key, apply_key, apply_keys, persist_to, apply,
}
use node_configurator.Engine.Run.{apply_mode, check_mode, is_apply, applied, run_one, run}
use node_configurator.Engine.Run.Converge.{run_twice}
use node_configurator.Engine.Filter.{Options, filter_resources}
use node_configurator.Engine.Filter.Laws.{IsWanted, Selects, filter_resources-Selects}
use node_configurator.Engine.Report.{exit_code}
use node_configurator.Engine.Report.Laws.{exit_code_lem}
use node_configurator.Tests.Memory.{
  Store, set, read, stat, overwrite, create, move, delete, drop_star, path_eq,
}
use node_configurator.Tests.Kernel.{is_kernel}
use node_configurator.Tests.Toy.{tuned, tuned-Converges, start}

abbrev resources : List (Resource Store)
resources = tuned ∷ []

first_run : exit_code (run apply_mode resources start).0 apply_mode ≡ 0
unfolding run run_one applied is_apply is_would_change is_changed is_failed exit_code check
    diff_live diff_keys inspect record_finding setting sorted_keys normalize_sysctl_value
    render_sysctl_file is_stale apply apply_keys apply_key write_key persist_to sysctl_exists
    read_sysctl write_sysctl sysctl_path strip_parents strip_slashes write_file_if_changed
    replace_file fill_and_rename then_remove or_close temp_prefix new path filepath_join elements
    clean clean_element dir base show_path text_eq split join fields is_nil contains trim_space
    lookup keys sort insert_sorted text_le itoa quote join_details set read stat overwrite create
    move delete drop_star path_eq is_kernel is_space
first_run = refl

run_twice_example :
    let t = (run apply_mode resources start).1 in
    ((run check_mode resources t).1 ≡ t) × (exit_code (run check_mode resources t).0 check_mode ≡ 0)
run_twice_example = run_twice check_mode resources start (tuned-Converges, tt) (tt, tt) first_run

abbrev only_sysctl : Options
only_sysctl = record { only = codes "sysctl" ∷ []; skip = codes "swap" ∷ [] }

filter_resources-Selects_example :
    Selects
      (λ (r : Resource Store). IsWanted (codes "nic" ∷ []) only_sysctl r.name)
      resources
      (filter_resources resources (codes "nic" ∷ []) only_sysctl)
filter_resources-Selects_example = filter_resources-Selects resources (codes "nic" ∷ []) only_sysctl

abbrev results : List Result
results = result_of (codes "a") changed [] ∷ result_of (codes "b") failed [] ∷ []

exit_code_lem_example : exit_code results check_mode ≡ (
    if any (λ r. is_failed r.status) results
    then 1
    else if not (is_apply check_mode) && any (λ r. is_changed r.status) results
    then 2
    else 0)
exit_code_lem_example = exit_code_lem results check_mode
