-- ===== src/Command/World.antt =====
-- What cmd/node-configurator/main.go runs on: the system, the host, the standard streams, and the
-- formats that libraries read and write.
use node_configurator.Prelude.{List, ℤ}
use node_configurator.Text.{Text}
use node_configurator.System.{FilePath, Fallible, Outcome, Os}
use node_configurator.Float.{Float64}
use node_configurator.Facts.{Facts}
use node_configurator.Facts.Host.{Host}
use node_configurator.Profile.{Profile}
use node_configurator.Config.{Config}
use node_configurator.Resource.{Result}

-- A write to the standard output may fail. The result of one to the standard error is not read.
pub record Console (S : Type 0) : Type 0 where
  pub stdout : Text → S → Outcome S (Unit {0})
  pub stderr : Text → S → S

-- `yaml.Unmarshal` into a configuration, and what `Encode` of an indenting `json.Encoder` writes.
pub record Formats : Type 0 where
  pub unmarshal_config : Text → Config → Fallible Config
  pub facts_json : Facts → Fallible Text
  pub profile_json : Profile → Fallible Text
  pub report_json : Facts → List Result → Fallible Text

pub record World : Type 1 where
  pub os : Os
  pub host : Host os.State
  pub console : Console os.State
  pub formats : Formats
  -- `int64(x)` for a value that does not fit
  pub out_of_range : Float64 → ℤ
  -- The file that a name of the command line stands for, in the working directory.
  pub file_named : Text → FilePath
  -- `version`, which the linker sets
  pub version : Text
