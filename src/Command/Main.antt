-- ===== src/Command/Main.antt =====
-- The subcommands of cmd/node-configurator/main.go.
use node_configurator.Prelude.{ℕ, ◌||◌, List, [], ◌∷◌, ◌++◌, if◌then◌else◌, none, some}
use node_configurator.Text.{Text, codes, text_eq}
use node_configurator.Text.Quote.{quote}
use node_configurator.System.{
  Error, Fallible, value, failure, Outcome, done, fail, ◌>>=◌, or_errorf, return,
}
use node_configurator.Sysutil.Paths.{new}
use node_configurator.Facts.{Facts}
use node_configurator.Facts.Gather.{gather}
use node_configurator.Config.{Config, load, to_profile_overrides}
use node_configurator.Profile.Merge.{build}
use node_configurator.Resource.{Result}
use node_configurator.Engine.Run.{Mode, apply_mode, check_mode, run}
use node_configurator.Engine.Report.{exit_code, text_report}
use node_configurator.Engine.Report.Summary.{facts_summary}
use node_configurator.Command.{resolve_log_format, effective_mode, engine_resources}
use node_configurator.Command.Flags.{CommonFlags, parse_common_flags, default_config_path}
use node_configurator.Command.World.{World}

-- The text that `printUsage` writes.
unfoldable pub usage : Text
usage =
    codes "node-configurator: idempotent EC2 Kubernetes node tuning\n\nUsage:\n"
    ++ (codes "  node-configurator apply   [flags]   converge the host to desired state\n"
        ++ (codes "  node-configurator check   [flags]   report drift without changing anything "
            ++ (codes "(exit 2 if changes are pending)\n"
                ++ (codes
                      "  node-configurator facts   [flags]   print gathered instance/host facts as JSON\n"
                    ++ (codes
                          "  node-configurator profile [flags]   print the resolved desired-state profile "
                        ++ (codes "as JSON\n"
                            ++ (codes
                                  "  node-configurator version           print the build version\n\n"
                                ++ (codes "Flags (apply/check/facts/profile):\n"
                                    ++ (codes
                                          "  -config string        path to YAML config (default \""
                                        ++ (default_config_path
                                            ++ (codes "\")\n"
                                                ++ (codes
                                                      "  -log-format string     \"text\" or \"json\" "
                                                    ++ (codes
                                                          "(default \"text\"; apply/check only)\n"
                                                        ++ (codes
                                                            "  -refresh-facts          bypass the facts cache and "
                                                            ++ (codes "re-query the EC2 API\n"
                                                            ++ (codes
                                                            "  -only string            comma-separated resource "
                                                            ++ (codes
                                                            "names to run exclusively (apply/check only)\n"
                                                            ++ (codes
                                                            "  -skip string            comma-separated resource "
                                                            ++ codes
                                                            "names to skip (apply/check only)\n"))))))))))))))))))

module _ (w : World) where
  open w use {os, host, console, formats, out_of_range, file_named, version}

  abbrev State : Type 0
  State = w.os.State

  -- `gatherAllAndBuild`, over the root directory
  unfoldable pub gather_all_and_build : CommonFlags → State → Outcome State (Facts × Config)
  gather_all_and_build cf s = elim (load os formats.unmarshal_config file_named cf.config_path s) [
    | failure e ↦ or_errorf (codes "loading config") (fail e) s
    | value cfg ↦
        (or_errorf (codes "gathering facts") (
              gather os host (record {
                env = some new;
                cache_path = [];
                cache_ttl = cfg.cache_ttl;
                refresh = cf.refresh_facts;
              }))
            >>= λ f. return (f, cfg))
          s
  ]

  -- `fmt.Fprintf(os.Stderr, "node-configurator: %v\n", err)` and exit code 1
  unfoldable pub give_up : Error → State → ℕ × State
  give_up e s = (1, console.stderr (codes "node-configurator: " ++ (e.message ++ codes "\n")) s)

  -- Writes to the standard output, and goes on if that succeeds.
  abbrev pub print_then : Text → (State → ℕ × State) → State → ℕ × State
  print_then text next s = elim (console.stdout text s) [
    | done _ t ↦ next t
    | fail e t ↦ give_up e t
  ]

  -- The loop over the warnings.
  unfoldable pub print_warnings : List Text → State → State
  print_warnings [] s = s
  print_warnings (warning ∷ warnings) s =
      print_warnings warnings
        (console.stderr (codes "node-configurator: warning: " ++ (warning ++ codes "\n")) s)

  -- `encodeJSON`, from what the encoder gives
  unfoldable pub encode_json : Fallible Text → State → ℕ × State
  encode_json (failure e) s = give_up e s
  encode_json (value text) s = print_then text (λ t. (0, t)) s

  -- The end of `runEngine`: the report and the exit code.
  unfoldable pub report_results : Text → Mode → Facts → List Result → State → ℕ × State
  report_results format mode f results s =
      if text_eq format (codes "json")
      then elim (formats.report_json f results) [
        | failure e ↦ give_up e s
        | value text ↦ print_then text (λ t. (exit_code results mode, t)) s
      ]
      else print_then (text_report results) (λ t. (exit_code results mode, t)) s

  -- The run over the resources, and its report.
  unfoldable pub run_resources : CommonFlags → Mode → Facts → Config → State → ℕ × State
  run_resources cf mode f cfg s =
      let actual = effective_mode cfg.dry_run mode in
      let (results, t) = run actual (engine_resources os out_of_range cf f cfg s) s in
      report_results (resolve_log_format cf cfg) actual f results t

  -- `runEngine`, once it has the facts and the configuration
  unfoldable pub run_with : CommonFlags → Mode → Facts → Config → State → ℕ × State
  run_with cf mode f cfg s =
      let warned = print_warnings f.warnings s in
      if text_eq (resolve_log_format cf cfg) (codes "json")
      then run_resources cf mode f cfg warned
      else print_then (facts_summary f) (run_resources cf mode f cfg) warned

  -- `runEngine`, once the flags are read
  unfoldable pub run_flags : CommonFlags → Mode → State → ℕ × State
  run_flags cf mode s = elim (gather_all_and_build cf s) [
    | fail e t ↦ give_up e t
    | done (f, cfg) t ↦ run_with cf mode f cfg t
  ]

  -- `runEngine`
  unfoldable pub run_engine : List Text → Mode → State → ℕ × State
  run_engine args mode s = elim (parse_common_flags args) [
    | none ↦ (2, s)
    | some cf ↦ run_flags cf mode s
  ]

  -- `runFacts`
  unfoldable pub run_facts : List Text → State → ℕ × State
  run_facts args s = elim (parse_common_flags args) [
    | none ↦ (2, s)
    | some cf ↦ elim (gather_all_and_build cf s) [
      | fail e t ↦ give_up e t
      | done (f, _) t ↦ encode_json (formats.facts_json f) t
    ]
  ]

  -- `runProfile`
  unfoldable pub run_profile : List Text → State → ℕ × State
  run_profile args s = elim (parse_common_flags args) [
    | none ↦ (2, s)
    | some cf ↦ elim (gather_all_and_build cf s) [
      | fail e t ↦ give_up e t
      | done (f, cfg) t ↦
          encode_json (formats.profile_json (build out_of_range f (to_profile_overrides cfg))) t
    ]
  ]

  -- `fmt.Println(version)`, whose error is dropped
  unfoldable pub print_version : State → ℕ × State
  print_version s = elim (console.stdout (version ++ codes "\n") s) [
    | done _ t ↦ (0, t)
    | fail _ t ↦ (0, t)
  ]

  -- `printUsage`, and an exit code
  unfoldable pub print_usage : ℕ → State → ℕ × State
  print_usage code s = (code, console.stderr usage s)

  -- `run`, the program from its arguments to its exit code
  unfoldable pub run_command : List Text → State → ℕ × State
  run_command [] s = print_usage 2 s
  run_command (command ∷ args) s =
      if text_eq command (codes "apply")
      then run_engine args apply_mode s
      else if text_eq command (codes "check")
      then run_engine args check_mode s
      else if text_eq command (codes "facts")
      then run_facts args s
      else if text_eq command (codes "profile")
      then run_profile args s
      else if text_eq command (codes "version")
      then print_version s
      else if text_eq command (codes "-h")
          || (text_eq command (codes "--help") || text_eq command (codes "help"))
      then print_usage 0 s
      else print_usage 2 (
          console.stderr
            (codes "node-configurator: unknown command " ++ (quote command ++ codes "\n\n")) s)
