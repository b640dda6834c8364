-- ===== src/Sysutil/Cmd.antt =====
-- internal/sysutil/cmd.go: the production `Runner`, on top of `os/exec`.
use node_configurator.Prelude.{ℕ, ◌*◌, ◌^◌, List, ◌++◌, Option, none, some, false}
use node_configurator.Text.{Text, codes, join}
use node_configurator.System.{Error, Outcome, done, fail}

-- `DefaultCmdTimeout`, in nanoseconds
abbrev pub default_cmd_timeout : ℕ
default_cmd_timeout = 15 * 10 ^ 9

-- What is left of a command that ran: its two outputs, and the error of `cmd.Run`.
pub record Execution : Type 0 where
  pub stdout : Text
  pub stderr : Text
  pub error : Option Error

-- The verb `%v` for a slice of strings.
unfoldable pub show_args : List Text → Text
show_args args = codes "[" ++ (join (codes " ") args ++ codes "]")

-- `fmt.Errorf("%s %v: %w (stderr: %s)", name, args, err, stderr)`
unfoldable pub command_error : Text → List Text → Error → Text → Error
unfolding show_args
command_error name args e stderr = record {
  message =
      name
      ++ (codes " "
          ++ (show_args args
              ++ (codes ": " ++ (e.message ++ (codes " (stderr: " ++ (stderr ++ codes ")"))))));
  not_exist = false;
}

-- `ExecRunner.Run`, without the output that it returns beside an error, which no caller reads. `exec`
-- starts a command, which it stops after the timeout, and waits for it.
unfoldable pub exec_run :
    {S : Type 0}
    → (ℕ → Text → List Text → S → Execution × S)
    → Text
    → List Text
    → S
    → Outcome S Text
unfolding command_error
exec_run exec name args s =
    let (ran, t) = exec default_cmd_timeout name args s in
    elim ran.error [
      | some e ↦ fail (command_error name args e ran.stderr) t
      | none ↦ done ran.stdout t
    ]
