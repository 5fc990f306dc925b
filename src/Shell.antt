-- ===== src/Shell.antt =====
-- internal/shellh: the builtin shell's line buffers, environment and exit codes.
pub mod LineBuffer
pub mod Env
pub mod HostEnv
pub mod Run
pub mod ExecWindows
pub mod ExecUnix
