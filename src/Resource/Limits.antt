-- ===== src/Resource/Limits.antt =====
-- internal/resource/limits.go
use node_configurator.Prelude.{ℕ, ltb, ◌++◌, if◌then◌else◌}
use node_configurator.Text.{Text, codes}
use node_configurator.Text.Number.{itoa}

-- `RenderLimitsConf`
unfoldable pub render_limits_conf : ℕ → ℕ → Text
render_limits_conf nofile nproc =
    let nproc_str = if ltb 0 nproc then itoa nproc else codes "infinity" in
    codes "# Managed by node-configurator. Local edits will be overwritten.\n* soft nofile "
    ++ (itoa nofile
        ++ (codes "\n* hard nofile "
            ++ (itoa nofile
                ++ (codes "\n* soft nproc "
                    ++ (nproc_str ++ (codes "\n* hard nproc " ++ (nproc_str ++ codes "\n")))))))

-- `RenderSystemdLimitDropIn`
unfoldable pub render_systemd_limit_drop_in : ℕ → Text
render_systemd_limit_drop_in nofile =
    codes
      "# Managed by node-configurator. Local edits will be overwritten.\n[Service]\nLimitNOFILE="
    ++ (itoa nofile ++ codes "\n")
