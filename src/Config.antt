-- ===== src/Config.antt =====
-- The configuration of internal/config/config.go, and the override of the socket in `main` of
-- cmd/ht/main.go. What toml.DecodeFile makes of a file over the defaults is a parameter, and so is
-- the path.
mod Examples
use hauntty.Prelude.{
  ℕ, Bool, true, false, List, [], ◌∷◌, Text, codes, ℤ, pos, if◌then◌else◌, Result, ok, err,
}
use hauntty.Daemon.Resize.{resize_policy_smallest, validate}
use hauntty.Client.Attach.{is_nil}

pub record DaemonConfig : Type 0 where
  pub socket_path : Text
  pub auto_exit : Bool
  pub default_scrollback : ℕ
  pub state_persistence : Bool
  -- In seconds, an `int` of 64 bits.
  pub state_persistence_interval : ℤ

pub record ClientConfig : Type 0 where
  pub detach_keybind : Text
  pub forward_env : List Text

pub record SessionConfig : Type 0 where
  pub default_command : Text
  pub resize_policy : Text

pub record Config : Type 0 where
  pub daemon : DaemonConfig
  pub client : ClientConfig
  pub session : SessionConfig

abbrev pub default : Config
default = record {
  daemon = record {
    socket_path = [];
    auto_exit = false;
    default_scrollback = 10000;
    state_persistence = true;
    state_persistence_interval = pos 30;
  };
  client = record {
    detach_keybind = codes "ctrl+;";
    forward_env = codes "COLORTERM" ∷ codes "GHOSTTY_RESOURCES_DIR" ∷ codes "GHOSTTY_BIN_DIR" ∷ [];
  };
  session = record { default_command = []; resize_policy = resize_policy_smallest };
}

-- os.ErrNotExist, or another error.
pub data DecodeError : Type 0 where
  not_exist : DecodeError
  malformed : Text → DecodeError

pub data ConfigError : Type 0 where
  parse_failed : Text → DecodeError → ConfigError
  invalid_resize_policy : Text → Text → ConfigError

abbrev pub DecodeFile : Type 0
DecodeFile = Text → Config → Result DecodeError Config

abbrev pub validated : Text → Config → Result ConfigError Config
validated path cfg =
    if validate cfg.session.resize_policy
    then ok cfg
    else err (invalid_resize_policy path cfg.session.resize_policy)

-- A file that is missing leaves the defaults.
abbrev pub decoded : Text → Result DecodeError Config → Result ConfigError Config
decoded path (err not_exist) = ok default
decoded path (err (malformed e)) = err (parse_failed path (malformed e))
decoded path (ok cfg) = validated path cfg

unfoldable pub load_from : DecodeFile → Text → Result ConfigError Config
load_from decode_file path = decoded path (decode_file path default)

-- `main`: the socket of the command line, or of HAUNTTY_SOCKET.
abbrev pub with_socket : Text → Config → Config
with_socket socket cfg = if is_nil socket then cfg else record {
  daemon = record {
    socket_path = socket;
    auto_exit = cfg.daemon.auto_exit;
    default_scrollback = cfg.daemon.default_scrollback;
    state_persistence = cfg.daemon.state_persistence;
    state_persistence_interval = cfg.daemon.state_persistence_interval;
  };
  client = cfg.client;
  session = cfg.session;
}
