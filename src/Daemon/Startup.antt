-- ===== src/Daemon/Startup.antt =====
-- The start of the daemon: `New` of internal/daemon/server.go, the ticker of `loop` of persist.go, and
-- DaemonCmd of cmd/ht/main.go. The lock, the pid file and the listener are left out.
pub mod Running
mod Examples
use hauntty.Prelude.{
  ℕ, suc, ◌+◌, ◌-◌, ◌*◌, ◌%◌, ◌^◌, ltb, Bool, true, false, not, ◌&&◌, ◌||◌, Option, none, some,
  Text, ℤ, pos, negsuc, if◌then◌else◌, Result, ok, err,
}
use hauntty.Config.{Config, DaemonConfig}
use hauntty.Client.Attach.{is_nil}

pub data StartError : Type 0 where
  interval_not_positive log_file_without_detach : StartError

-- The fields of a `Server` that its configuration sets; the paths of the lock and of the pid file,
-- which stand beside the socket, are left out.
pub record Settings : Type 0 where
  pub socket_path : Text
  pub default_scrollback : ℕ
  pub resize_policy : Text
  pub auto_exit : Bool
  -- The persister, by its interval in nanoseconds.
  pub persister : Option ℤ

abbrev pub not_positive : ℤ → Bool
not_positive (pos n) = not (ltb 0 n)
not_positive (negsuc n) = true

-- An int64 of its bits.
abbrev pub int64 : ℕ → ℤ
int64 u = if ltb u (2 ^ 63) then pos u else negsuc (2 ^ 64 - 1 - u)

-- time.Duration(n) * time.Second, which wraps.
abbrev pub seconds : ℤ → ℤ
seconds (pos n) = int64 (n * 10 ^ 9 % 2 ^ 64)
seconds (negsuc n) = int64 ((2 ^ 64 - suc n * 10 ^ 9 % 2 ^ 64) % 2 ^ 64)

-- `usual` is config.SocketPath().
abbrev pub settings : Text → DaemonConfig → Text → Settings
settings usual cfg resize_policy = record {
  socket_path = if is_nil cfg.socket_path then usual else cfg.socket_path;
  default_scrollback = cfg.default_scrollback;
  resize_policy = resize_policy;
  auto_exit = cfg.auto_exit;
  persister = if cfg.state_persistence then some (seconds cfg.state_persistence_interval) else none;
}

unfoldable pub new : Text → DaemonConfig → Text → Result StartError Settings
new usual cfg resize_policy =
    if cfg.state_persistence && not_positive cfg.state_persistence_interval
    then err interval_not_positive
    else ok (settings usual cfg resize_policy)

-- time.NewTicker, which panics on an interval that is not positive.
abbrev pub new_ticker : ℤ → Option ℤ
new_ticker interval = if not_positive interval then none else some interval

pub record DaemonCmd : Type 0 where
  pub auto_exit : Bool
  pub detach : Bool
  pub log_file : Text

pub data DaemonRun : Type 0 where
  -- ensureDaemonDetached with the socket, the flag and the log file.
  detached : Text → Bool → Text → DaemonRun
  listening : Settings → DaemonRun

-- The flag turns the exit on, and never off.
abbrev pub with_auto_exit : Bool → DaemonConfig → DaemonConfig
with_auto_exit flag cfg = record {
  socket_path = cfg.socket_path;
  auto_exit = flag || cfg.auto_exit;
  default_scrollback = cfg.default_scrollback;
  state_persistence = cfg.state_persistence;
  state_persistence_interval = cfg.state_persistence_interval;
}

abbrev pub run_listening : Result StartError Settings → Result StartError DaemonRun
run_listening (err e) = err e
run_listening (ok s) = ok (listening s)

unfoldable pub daemon_command : Text → DaemonCmd → Config → Result StartError DaemonRun
unfolding new
daemon_command usual cmd cfg =
    if not (is_nil cmd.log_file) && not cmd.detach
    then err log_file_without_detach
    else if cmd.detach
    then ok (detached cfg.daemon.socket_path cmd.auto_exit cmd.log_file)
    else run_listening
        (new usual (with_auto_exit cmd.auto_exit cfg.daemon) cfg.session.resize_policy)
