-- ===== src/Command/Laws.antt =====
-- What the flags and the configuration do to a run.
use node_configurator.Prelude.{
  Bool, true, false, List, [], ◌∷◌, ◌≡◌, ◌≢◌, refl, some, inl, inr, All,
}
use mathlib.Core.Path.{fun_ext}
use node_configurator.Text.{Text, codes, is_nil, join, trim_space}
use node_configurator.Text.Lines.{Lacks, split-join}
use node_configurator.System.{value}
use node_configurator.System.Post.{Outcome-cases}
use node_configurator.Sysutil.Paths.{new}
use node_configurator.Facts.{Facts}
use node_configurator.Facts.Gather.{Gatherer, gather}
use node_configurator.Config.{Config, load}
use node_configurator.Engine.Run.{apply_mode, check_mode, is_apply}
use node_configurator.Command.{nonempty_parts, split_csv, effective_mode}
use node_configurator.Command.Flags.{CommonFlags, parse_common_flags}
use node_configurator.Command.World.{World}
use node_configurator.Command.Main.{
  gather_all_and_build, run_resources, run_with, run_flags, run_engine,
}

-- A name that `splitCSV` reads back: not empty, with no comma, and with no blanks around it.
pub record IsCsvName (name : Text) : Type 0 where
  pub not_empty : is_nil name ≡ false
  pub trimmed : trim_space name ≡ name
  pub no_comma : Lacks b',' name

nonempty_parts-IsCsvName : (names : List Text) → All IsCsvName names → nonempty_parts names ≡ names
unfolding nonempty_parts
nonempty_parts-IsCsvName [] h = refl
nonempty_parts-IsCsvName (n ∷ names) h =
    rw (h.0.trimmed, h.0.not_empty, nonempty_parts-IsCsvName names h.1)

IsCsvName-Lacks : (names : List Text) → All IsCsvName names → All (Lacks b',') names
IsCsvName-Lacks [] h = tt
IsCsvName-Lacks (n ∷ names) h = (h.0.no_comma, IsCsvName-Lacks names h.1)

first_not_empty :
    (n : Text) (names : List Text)
    → is_nil n ≡ false
    → is_nil (join (codes ",") (n ∷ names)) ≡ false
unfolding join
first_not_empty [] names h = absurd (cc h)
first_not_empty (c ∷ n) [] h = refl
first_not_empty (c ∷ n) (m ∷ names) h = refl

cons-ne-nil : {A : Type 0} (x : A) (l : List A) → x ∷ l ≢ []
cons-ne-nil x l e = cc e

-- Names that are joined by commas are read back from a flag.
pub split_csv-join :
    (names : List Text) → All IsCsvName names → split_csv (join (codes ",") names) ≡ names
unfolding split_csv
split_csv-join [] h = unfold join in refl
split_csv-join (n ∷ names) h = rw (
  split_csv,
  first_not_empty n names h.0.not_empty,
  split-join b',' (n ∷ names) (cons-ne-nil n names) (IsCsvName-Lacks (n ∷ names) h),
  nonempty_parts-IsCsvName (n ∷ names) h,
)

modes : (b : Bool) → b ≡ true → effective_mode b apply_mode ≡ effective_mode b check_mode
unfolding effective_mode is_apply
modes true e = refl
modes false e = absurd (cc e)

module _ (w : World) where
  run_resources_dry_run :
      (cf : CommonFlags) (f : Facts) (cfg : Config)
      → cfg.dry_run ≡ true
      → run_resources w cf apply_mode f cfg ≡ run_resources w cf check_mode f cfg
  unfolding run_resources
  run_resources_dry_run cf f cfg h = fun_ext (λ s. rw (modes cfg.dry_run h) refl)

  run_with_dry_run :
      (cf : CommonFlags) (f : Facts) (cfg : Config) (s : w.os.State)
      → cfg.dry_run ≡ true
      → run_with w cf apply_mode f cfg s ≡ run_with w cf check_mode f cfg s
  unfolding run_with
  run_with_dry_run cf f cfg s h = rw (run_resources_dry_run cf f cfg h) refl

  -- With `dryRun` in the configuration, `apply` does the same as `check`, with the same exit code.
  pub run_engine_dry_run :
      (args : List Text) (cf : CommonFlags) (cfg : Config) (s : w.os.State)
      → parse_common_flags args ≡ some cf
      → load w.os w.formats.unmarshal_config w.file_named cf.config_path s ≡ value cfg
      → cfg.dry_run ≡ true
      → run_engine w args apply_mode s ≡ run_engine w args check_mode s
  unfolding run_engine run_flags gather_all_and_build
  run_engine_dry_run args cf cfg s p l h =
      let g : Gatherer = record {
        env = some new;
        cache_path = [];
        cache_ttl = cfg.cache_ttl;
        refresh = cf.refresh_facts;
      } in
      elim (Outcome-cases (gather w.os w.host g s)) [
        | inl (f, t, e) ↦
            rw (run_engine, p, run_flags, gather_all_and_build, l, e)
              (run_with_dry_run cf f cfg t h)
        | inr (x, t, e) ↦ rw (run_engine, p, run_flags, gather_all_and_build, l, e) refl
      ]
