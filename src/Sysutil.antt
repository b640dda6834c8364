-- ===== src/Sysutil.antt =====
-- internal/sysutil: rooted paths, whole files, /proc/sys, the distribution.
pub mod Paths
pub mod Files
pub mod Atomic
pub mod Procsys
pub mod Cmd
pub mod Distro
pub mod Netdev
