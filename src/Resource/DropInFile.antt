-- ===== src/Resource/DropInFile.antt =====
-- internal/resource/dropinfile.go
pub mod Laws
use node_configurator.Prelude.{ℕ, Bool, List, [], ◌∷◌, ◌++◌, ◌==◌, if◌then◌else◌}
use node_configurator.Text.{Text, codes, text_eq}
use node_configurator.System.{
  FilePath, Error, Fallible, value, failure, Outcome, done, fail, ◌>>=◌, or_errorf, errorf, return,
  Os,
}
use node_configurator.Sysutil.Paths.{show_path}
use node_configurator.Sysutil.Atomic.{write_file_if_changed}
use node_configurator.Resource.{
  unchanged, would_change, Result, Checked, Resource, result_of, checked,
}

-- Mode 0 stands for 0644.
pub record DropInFileResource : Type 0 where
  pub resource_name : Text
  pub path : FilePath
  pub content : Text
  pub mode : ℕ

module _ (os : Os) (r : DropInFileResource) where
  open os use {State, read_file}

  abbrev out_of_date : State → Checked State
  out_of_date s =
      checked (result_of r.resource_name would_change (show_path r.path ++ codes " out of date")) s

  -- `Check`
  unfoldable pub check : State → Checked State
  check s = elim (read_file s r.path) [
    | failure _ ↦ out_of_date s
    | value existing ↦
        if text_eq existing r.content
        then checked (result_of r.resource_name unchanged []) s
        else out_of_date s
  ]

  -- `Apply`
  unfoldable pub apply : State → Outcome State (Unit {0})
  apply =
      or_errorf (codes "writing " ++ show_path r.path)
        (write_file_if_changed os r.path r.content (if r.mode == 0 then 0o644 else r.mode))
      >>= λ _. return tt

  abbrev pub drop_in_file_resource : Resource State
  drop_in_file_resource = record { name = r.resource_name; check = check; apply = apply }
