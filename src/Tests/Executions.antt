-- ===== src/Tests/Executions.antt =====
-- A test of the runner of commands.
use node_configurator.Prelude.{[], ◌∷◌, some, ◌≡◌, refl, false}
use node_configurator.Text.{codes, join}
use node_configurator.System.{fail}
use node_configurator.Sysutil.Cmd.{exec_run, command_error, show_args}
use node_configurator.Tests.Toy.{broken}

failed_run_test :
    exec_run
      (λ timeout name args s.
        (record { stdout = []; stderr = codes "boom"; error = some broken }, s))
      (codes "ethtool")
      (codes "-g" ∷ codes "eth0" ∷ [])
      (tt {0})
    ≡ fail
        (record { message = codes "ethtool [-g eth0]: not here (stderr: boom)"; not_exist = false })
        tt
unfolding exec_run command_error show_args join
failed_run_test = refl
