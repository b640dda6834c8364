-- ===== src/Command/Exits.antt =====
-- What the exit code of `apply` and `check` means.
use node_configurator.Prelude.{
  ℕ, false, List, any, ◌≡◌, ◌≢◌, refl, true, some, inl, inr, arith, Bool-cases, Option-cases,
}
use node_configurator.Text.{Text, codes, text_eq}
use node_configurator.System.{Error, value, done}
use node_configurator.System.Post.{Outcome-cases, Fallible-cases}
use node_configurator.Facts.{Facts}
use node_configurator.Config.{Config}
use node_configurator.Resource.{Result, is_failed, is_changed}
use node_configurator.Engine.Run.{Mode, is_apply, run}
use node_configurator.Engine.Report.{exit_code, text_report}
use node_configurator.Engine.Report.Summary.{facts_summary}
use node_configurator.Engine.Report.Laws.{exit_code_lem}
use node_configurator.Command.{resolve_log_format, effective_mode, engine_resources}
use node_configurator.Command.Flags.{CommonFlags, parse_common_flags}
use node_configurator.Command.World.{World}
use node_configurator.Command.Main.{
  gather_all_and_build, give_up, print_then, print_warnings, report_results, run_resources,
  run_with, run_flags, run_engine,
}

module _ (w : World) where
  -- The run that starts in the state `u`.
  abbrev pub run_from : CommonFlags → Mode → Facts → Config → w.os.State → List Result × w.os.State
  run_from cf mode f cfg u =
      run (effective_mode cfg.dry_run mode) (engine_resources w.os w.out_of_range cf f cfg u) u

  -- No resource has failed, and a check has found nothing to change.
  pub record IsClean (mode : Mode) (results : List Result) : Type 0 where
    pub none_failed : any (λ (x : Result). is_failed x.status) results ≡ false
    pub none_pending :
        is_apply mode ≡ false → any (λ (x : Result). is_changed x.status) results ≡ false

  exit_code-IsClean :
      (results : List Result) (mode : Mode) → exit_code results mode ≡ 0 → IsClean mode results
  exit_code-IsClean results mode h = record {
    none_failed = ground (arith, exit_code_lem results mode);
    none_pending = λ m. ground (arith, exit_code_lem results mode);
  }

  give_up_nonzero : (e : Error) (s : w.os.State) → (give_up w e s).0 ≢ 0
  unfolding give_up
  give_up_nonzero e s h = omega (arith, h)

  -- What is printed, and what follows, if a command that prints and goes on exits with 0.
  print_then_zero :
      (text : Text) (next : w.os.State → ℕ × w.os.State) (s : w.os.State)
      → (print_then w text next s).0 ≡ 0
      → (t : w.os.State) × (w.console.stdout text s ≡ done tt t)
        × (print_then w text next s ≡ next t)
  print_then_zero text next s h = elim (Outcome-cases (w.console.stdout text s)) [
    | inl (a, t, e) ↦ (t, e, rw (print_then, e))
    | inr (x, t, e) ↦ absurd (give_up_nonzero x t (rw (print_then, e) at h))
  ]

  -- The report of the results in a format.
  pub data IsReport (format : Text) (f : Facts) (results : List Result) (text : Text) : Type 0 where
    as_json :
        text_eq format (codes "json") ≡ true
        → w.formats.report_json f results ≡ value text
        → IsReport format f results text
    as_text :
        text_eq format (codes "json") ≡ false
        → text ≡ text_report results
        → IsReport format f results text

  -- The report is written in `s`, which ends in `t`.
  pub record IsReported (format : Text) (f : Facts) (results : List Result) (s t : w.os.State)
      : Type 0 where
    pub text : Text
    pub is_report : IsReport format f results text
    pub written : w.console.stdout text s ≡ done tt t

  report_results_zero :
      (format : Text) (mode : Mode) (f : Facts) (results : List Result) (s : w.os.State)
      → (report_results w format mode f results s).0 ≡ 0
      → (exit_code results mode ≡ 0)
        × IsReported format f results s (report_results w format mode f results s).1
  unfolding report_results
  report_results_zero format mode f results s h =
      elim (Bool-cases (text_eq format (codes "json"))) [
        | inl j ↦ elim (Fallible-cases (w.formats.report_json f results)) [
          | inl (text, e) ↦
              let (t, o, k) = print_then_zero text _ s (rw (report_results, j, e) at h) in
              rw (report_results, j, e, k)
                (
                  rw k at (rw (report_results, j, e) at h),
                  record { text = text; is_report = as_json j e; written = o },
                )
          | inr (x, e) ↦ absurd (give_up_nonzero x s (rw (report_results, j, e) at h))
        ]
        | inr j ↦
            let (t, o, k) =
              print_then_zero (text_report results) _ s (rw (report_results, j) at h) in
            rw (report_results, j, k)
              (
                rw k at (rw (report_results, j) at h),
                record { text = text_report results; is_report = as_text j refl; written = o },
              )
      ]

  -- What is printed of the facts in `s` before the run, which starts in `t`.
  pub data IsAnnounced (format : Text) (f : Facts) (s t : w.os.State) : Type 0 where
    silent : text_eq format (codes "json") ≡ true → t ≡ s → IsAnnounced format f s t
    summary :
        text_eq format (codes "json") ≡ false
        → w.console.stdout (facts_summary f) s ≡ done tt t
        → IsAnnounced format f s t

  -- From `s` to `t` the program prints the warnings and the summary, runs the resources of the facts
  -- and the configuration once, with a clean result, and writes the report of just these results.
  pub record RunsClean (cf : CommonFlags) (mode : Mode) (f : Facts) (cfg : Config)
      (s t : w.os.State) : Type 0 where
    pub start : w.os.State
    pub announced : IsAnnounced (resolve_log_format cf cfg) f (print_warnings w f.warnings s) start
    pub clean : IsClean (effective_mode cfg.dry_run mode) (run_from cf mode f cfg start).0
    pub reported :
        IsReported
          (resolve_log_format cf cfg)
          f
          (run_from cf mode f cfg start).0
          (run_from cf mode f cfg start).1
          t

  run_resources_zero :
      (cf : CommonFlags) (mode : Mode) (f : Facts) (cfg : Config) (s u : w.os.State)
      → IsAnnounced (resolve_log_format cf cfg) f (print_warnings w f.warnings s) u
      → (run_resources w cf mode f cfg u).0 ≡ 0
      → RunsClean cf mode f cfg s (run_resources w cf mode f cfg u).1
  unfolding run_resources
  run_resources_zero cf mode f cfg s u a h =
      let ran = run_from cf mode f cfg u in
      let r = report_results_zero _ _ f ran.0 ran.1 h in
      record {
        start = u;
        announced = a;
        clean = exit_code-IsClean ran.0 (effective_mode cfg.dry_run mode) r.0;
        reported = r.1;
      }

  run_with_zero :
      (cf : CommonFlags) (mode : Mode) (f : Facts) (cfg : Config) (s : w.os.State)
      → (run_with w cf mode f cfg s).0 ≡ 0
      → RunsClean cf mode f cfg s (run_with w cf mode f cfg s).1
  unfolding run_with
  run_with_zero cf mode f cfg s h =
      let warned = print_warnings w f.warnings s in
      elim (Bool-cases (text_eq (resolve_log_format cf cfg) (codes "json"))) [
        | inl j ↦
            rw (run_with, j)
              (run_resources_zero cf mode f cfg s warned (silent j refl) (rw (run_with, j) at h))
        | inr j ↦
            let g = rw (run_with, j) at h in
            let (u, o, k) = print_then_zero (facts_summary f) _ warned g in
            rw (run_with, j, k) (run_resources_zero cf mode f cfg s u (summary j o) (rw k at g))
      ]

  -- If `apply` or `check` exits with 0, then the flags were read, the configuration was loaded and the
  -- facts were gathered; from there on the warnings and, for a text report, the summary were printed,
  -- every resource that the facts and the configuration give was run once, with no failure, and the
  -- report of just these results was written. A run that only checks, also by `dryRun`, found nothing
  -- to change.
  pub run_engine_zero :
      (args : List Text) (mode : Mode) (s : w.os.State)
      → (run_engine w args mode s).0 ≡ 0
      → (cf : CommonFlags) × (f : Facts) × (cfg : Config) × (u : w.os.State) × (parse_common_flags
            args
          ≡ some cf)
        × (gather_all_and_build w cf s ≡ done (f, cfg) u)
        × RunsClean cf mode f cfg u (run_engine w args mode s).1
  unfolding run_engine run_flags
  run_engine_zero args mode s h = elim (Option-cases (parse_common_flags args)) [
    | inl p ↦ absurd (omega (arith, rw (run_engine, p) at h))
    | inr (cf, p) ↦ elim (Outcome-cases (gather_all_and_build w cf s)) [
      | inl ((f, cfg), u, e) ↦ (
        cf,
        f,
        cfg,
        u,
        p,
        e,
        rw (run_engine, p, run_flags, e)
            (run_with_zero cf mode f cfg u (rw (run_engine, p, run_flags, e) at h)),
      )
      | inr (x, t, e) ↦ absurd (give_up_nonzero x t (rw (run_engine, p, run_flags, e) at h))
    ]
  ]
