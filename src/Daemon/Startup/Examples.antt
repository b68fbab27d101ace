-- ===== src/Daemon/Startup/Examples.antt =====
-- A daemon with the state kept every minute, and one with an interval of 292 years.
use hauntty.Prelude.{◌≡◌, refl, arith, true, false, [], some, none, codes, text_eq, ℤ, pos, ok, err}
use hauntty.Daemon.Resize.{validate}
use hauntty.Config.{Config, DecodeFile, default, load_from}
use hauntty.Daemon.Startup.{
  DaemonCmd, interval_not_positive, seconds, new_ticker, new, daemon_command,
}
use hauntty.Daemon.Startup.Running.{Outcome, load_from-daemon_command}

abbrev every : ℤ → Config
every interval = record {
  daemon = record {
    socket_path = [];
    auto_exit = false;
    default_scrollback = 10000;
    state_persistence = true;
    state_persistence_interval = interval;
  };
  client = default.client;
  session = default.session;
}

abbrev minute : DecodeFile
minute path cfg = ok (every (pos 60))

abbrev foreground : DaemonCmd
foreground = record { auto_exit = true; detach = false; log_file = [] }

loaded : load_from minute (codes "config.toml") ≡ ok (every (pos 60))
unfolding load_from validate text_eq
loaded = refl

load_from-daemon_command_example :
    Outcome foreground
      (every (pos 60))
      (daemon_command (codes "/run/hauntty.sock") foreground (every (pos 60)))
load_from-daemon_command_example =
    load_from-daemon_command minute (codes "config.toml") (codes "/run/hauntty.sock") foreground
      (every (pos 60)) loaded (omega arith)

-- The product wraps, New lets it pass, and the ticker of the persister panics.
far_interval :
    (new [] (every (pos 9223372037)).daemon []
      ≡ ok (record {
        socket_path = [];
        default_scrollback = 10000;
        resize_policy = [];
        auto_exit = false;
        persister = some (seconds (pos 9223372037));
      }))
    × (new_ticker (seconds (pos 9223372037)) ≡ none)
unfolding new
far_interval = (refl, refl)

no_interval : new [] (every (pos 0)).daemon [] ≡ err interval_not_positive
unfolding new
no_interval = refl
