-- ===== src/Command.antt =====
-- cmd/node-configurator/main.go. Here are the helpers of `runEngine`; Flags reads the arguments, World
-- is what the program runs on, and Main has the subcommands.
pub mod Flags
pub mod World
pub mod Main
pub mod Laws
pub mod Exits
pub mod Arguments
use node_configurator.Prelude.{Bool, not, ◌&&◌, List, [], ◌∷◌, if◌then◌else◌, ℤ}
use node_configurator.Text.{Text, codes, is_nil, split, trim_space}
use node_configurator.System.{Os}
use node_configurator.Sysutil.Paths.{new}
use node_configurator.Float.{Float64}
use node_configurator.Facts.{Facts}
use node_configurator.Config.{Config, to_profile_overrides}
use node_configurator.Profile.Merge.{build}
use node_configurator.Resource.{Resource}
use node_configurator.Engine.Run.{Mode, check_mode, is_apply}
use node_configurator.Engine.Filter.{Options}
use node_configurator.Engine.Build.{build_resources}
use node_configurator.Command.Flags.{CommonFlags}

-- The loop of `splitCSV`.
unfoldable pub nonempty_parts : List Text → List Text
nonempty_parts [] = []
nonempty_parts (part ∷ parts) =
    let rest = nonempty_parts parts in
    if is_nil (trim_space part) then rest else trim_space part ∷ rest

-- `splitCSV`
unfoldable pub split_csv : Text → List Text
split_csv s = if is_nil s then [] else nonempty_parts (split b',' s)

-- `resolveLogFormat`
unfoldable pub resolve_log_format : CommonFlags → Config → Text
resolve_log_format cf cfg =
    if not (is_nil cf.log_format)
    then cf.log_format
    else if not (is_nil cfg.log_format)
    then cfg.log_format
    else codes "text"

-- The mode of a run: `dryRun` turns an apply run into a check.
unfoldable pub effective_mode : Bool → Mode → Mode
effective_mode dry_run mode = if dry_run && is_apply mode then check_mode else mode

-- The resources that `runEngine` builds, once it has the facts and the configuration.
unfoldable pub engine_resources :
    (os : Os) → (Float64 → ℤ) → CommonFlags → Facts → Config → os.State → List (Resource os.State)
engine_resources os out_of_range cf f cfg s =
    build_resources os new s f (build out_of_range f (to_profile_overrides cfg)) cfg.disable
      (record { only = split_csv cf.only; skip = split_csv cf.skip })
