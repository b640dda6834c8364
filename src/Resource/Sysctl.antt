-- ===== src/Resource/Sysctl.antt =====
-- internal/resource/sysctl.go
pub mod Values
pub mod Laws
pub mod Keys
pub mod Settles
use node_configurator.Prelude.{
  ℕ, Bool, true, false, not, ◌&&◌, ◌||◌, List, [], ◌∷◌, ◌++◌, if◌then◌else◌, Option, none, some,
  length,
}
use node_configurator.Text.{Text, codes, is_nil, text_eq, join, fields}
use node_configurator.Text.Sort.{sort}
use node_configurator.Text.Dict.{Dict, lookup, keys}
use node_configurator.Text.Number.{itoa}
use node_configurator.Text.Quote.{quote}
use node_configurator.System.{
  FilePath, Error, Fallible, value, failure, Outcome, done, fail, ◌>>=◌, ◌>>◌, or_errorf, errorf,
  return, Os,
}
use node_configurator.System.Loop.{for_each}
use node_configurator.Sysutil.Paths.{Env, show_path}
use node_configurator.Sysutil.Atomic.{write_file_if_changed}
use node_configurator.Sysutil.Procsys.{read_sysctl, sysctl_exists, write_sysctl}
use node_configurator.Resource.{
  Status, unchanged, would_change, Result, Checked, Resource, result_of, checked, check_failed,
  join_details,
}

pub record SysctlResource : Type 0 where
  pub env : Env
  pub settings : Dict Text
  -- `none` for the empty string, which disables persistence
  pub persist_file : Option FilePath

-- `SysctlResource.Name`
abbrev pub sysctl_name : Text
sysctl_name = codes "sysctl"

-- `r.Settings[key]`: a missing key reads as the empty string.
unfoldable pub setting : Dict Text → Text → Text
setting m k = elim (lookup k m) [ some v ↦ v | none ↦ [] ]

unfoldable pub sorted_keys : Dict Text → List Text
sorted_keys m = sort (keys m)

-- `normalizeSysctlValue`
unfoldable pub normalize_sysctl_value : Text → Text
normalize_sysctl_value s = join (codes " ") (fields s)

setting_lines : Dict Text → List Text → Text
setting_lines m [] = []
setting_lines m (k ∷ ks) = k ++ (codes " = " ++ (setting m k ++ b'\n' ∷ setting_lines m ks))

-- `renderSysctlFile`
unfoldable pub render_sysctl_file : Dict Text → Text
unfolding setting_lines
render_sysctl_file m =
    codes "# Managed by node-configurator. Local edits will be overwritten.\n"
    ++ setting_lines m (sorted_keys m)

-- What `diffLive` returns without an error.
pub record Diff : Type 0 where
  pub drift : List Text
  pub skipped : List Text

-- What one round of `diffLive` finds of a key.
pub data Finding : Type 0 where
  absent : Finding
  broken : Error → Finding
  differs : Text → Finding
  agrees : Finding

module _ (os : Os) (r : SysctlResource) where
  open os use {State, read_file}

  unfoldable pub inspect : State → Text → Finding
  inspect s key =
      if not (sysctl_exists os r.env s key) then absent else elim (read_sysctl os r.env s key) [
        | failure e ↦ broken (errorf (codes "reading sysctl " ++ key) e)
        | value cur ↦
            if text_eq (normalize_sysctl_value cur)
              (normalize_sysctl_value (setting r.settings key))
            then agrees
            else differs cur
      ]

  -- The rest of `diffLive` after a round, which the first error ends.
  unfoldable pub record_finding : Text → Finding → Fallible Diff → Fallible Diff
  record_finding key (broken e) rest = failure e
  record_finding key _ (failure e) = failure e
  record_finding key absent (value d) = value (record d { skipped = key ∷ d.skipped })
  record_finding key (differs cur) (value d) = value (record d {
    drift =
        (key ++ (codes ": " ++ (quote cur ++ (codes " -> " ++ quote (setting r.settings key)))))
        ∷ d.drift;
  })
  record_finding key agrees (value d) = value d

  -- The loop of `diffLive`.
  unfoldable pub diff_keys : State → List Text → Fallible Diff
  unfolding inspect record_finding
  diff_keys s [] = value (record { drift = []; skipped = [] })
  diff_keys s (key ∷ ks) = record_finding key (inspect s key) (diff_keys s ks)

  -- `diffLive`
  unfoldable pub diff_live : State → Fallible Diff
  diff_live s = diff_keys s (sorted_keys r.settings)

  -- `persistNeeded`, for a persist file
  unfoldable pub is_stale : Option FilePath → State → Bool
  is_stale none s = false
  is_stale (some file) s = elim (read_file s file) [
    | failure _ ↦ true
    | value existing ↦ not (text_eq existing (render_sysctl_file r.settings))
  ]

  -- `persistNeeded`
  abbrev pub persist_needed : State → Bool
  persist_needed = is_stale r.persist_file

  -- The detail of an unchanged result.
  abbrev pub skipped_detail : List Text → Text
  skipped_detail skipped =
      if is_nil skipped
      then []
      else itoa (length skipped)
        ++ (codes " key(s) not present on this kernel, skipped: " ++ join (codes ", ") skipped)

  -- `Check`
  unfoldable pub check : State → Checked State
  check s = elim (diff_live s) [
    | failure e ↦ check_failed sysctl_name e s
    | value d ↦
        if is_nil d.drift && not (persist_needed s)
        then checked (result_of sysctl_name unchanged (skipped_detail d.skipped)) s
        else checked
            (result_of sysctl_name would_change (
              if persist_needed s
              then join_details (join (codes ", ") d.drift ∷ codes "drop-in file out of date" ∷ [])
              else join (codes ", ") d.drift))
            s
  ]

  unfoldable pub write_key : Text → State → Outcome State (Unit {0})
  write_key key =
      or_errorf (codes "applying sysctl " ++ (key ++ b'=' ∷ setting r.settings key))
        (write_sysctl os r.env key (setting r.settings key))

  -- One round of the loop of `Apply`.
  unfoldable pub apply_key : Text → State → Outcome State (Unit {0})
  apply_key key s =
      if not (sysctl_exists os r.env s key) then done tt s else elim (read_sysctl os r.env s key) [
        | failure _ ↦ write_key key s
        | value cur ↦
            if text_eq (normalize_sysctl_value cur)
              (normalize_sysctl_value (setting r.settings key))
            then done tt s
            else write_key key s
      ]

  -- The loop of `Apply`, which the first error ends.
  unfoldable pub apply_keys : List Text → State → Outcome State (Unit {0})
  unfolding for_each
  apply_keys = for_each apply_key

  -- The end of `Apply`, for a persist file.
  unfoldable pub persist_to : Option FilePath → State → Outcome State (Unit {0})
  persist_to none = return tt
  persist_to (some file) =
      or_errorf (codes "persisting sysctl drop-in " ++ show_path file)
        (write_file_if_changed os file (render_sysctl_file r.settings) 0o644)
      >>= λ _. return tt

  -- `Apply`
  unfoldable pub apply : State → Outcome State (Unit {0})
  apply = do apply_keys (sorted_keys r.settings); persist_to r.persist_file

  abbrev pub sysctl_resource : Resource State
  sysctl_resource = record { name = sysctl_name; check = check; apply = apply }
