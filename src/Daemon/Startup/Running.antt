-- ===== src/Daemon/Startup/Running.antt =====
-- What `ht daemon` comes to, with the configuration that was loaded.
use hauntty.Prelude.{
  ◌≡◌, ◌≤◌, refl, subst, Bool, true, false, not, ◌&&◌, Bool-cases, inl, inr, arith, Option, none,
  some, Text, text_eq, ℤ, pos, negsuc, Result, ok, err, if◌then◌else◌,
}
use hauntty.Daemon.Resize.{validate}
use hauntty.Client.Attach.{is_nil}
use hauntty.Config.{
  Config, DecodeError, not_exist, malformed, DecodeFile, default, decoded, load_from,
}
use hauntty.Daemon.Startup.{
  StartError, interval_not_positive, log_file_without_detach, not_positive, seconds, new,
  new_ticker, DaemonCmd, DaemonRun, detached, listening, daemon_command,
}

-- An interval whose nanoseconds are below 2 ^ 63.
abbrev pub IsDuration : ℤ → Type 0
IsDuration (pos n) = n ≤ 9223372036
IsDuration (negsuc n) = Unit {0}

seconds-positive :
    (interval : ℤ)
    → IsDuration interval
    → not_positive interval ≡ false
    → not_positive (seconds interval) ≡ false
seconds-positive (pos n) d p = ground arith
seconds-positive (negsuc n) d p = cc

-- The persister's loop gets its ticker, without a panic.
abbrev pub ticks : Option ℤ → Bool
ticks none = true
ticks (some interval) = elim (new_ticker interval) [ none ↦ false | some i ↦ true ]

abbrev pub Outcome : DaemonCmd → Config → Result StartError DaemonRun → Type 0
Outcome cmd cfg (ok (detached socket auto_exit log_file)) = cmd.detach ≡ true
Outcome cmd cfg (ok (listening s)) = (validate s.resize_policy ≡ true) × (ticks s.persister ≡ true)
Outcome cmd cfg (err log_file_without_detach) = (is_nil cmd.log_file ≡ false) × (cmd.detach ≡ false)
Outcome cmd cfg (err interval_not_positive) =
    (cfg.daemon.state_persistence ≡ true)
    × (not_positive cfg.daemon.state_persistence_interval ≡ true)

default-validate : validate default.session.resize_policy ≡ true
unfolding validate text_eq
default-validate = refl

decoded-validate :
    (path : Text) (got : Result DecodeError Config) (cfg : Config)
    → decoded path got ≡ ok cfg
    → validate cfg.session.resize_policy ≡ true
decoded-validate path (err not_exist) cfg e =
    let same : default ≡ cfg = cc in
    subst (λ c. validate c.session.resize_policy ≡ true) same default-validate
decoded-validate path (err (malformed m)) cfg e = cc
decoded-validate path (ok got) cfg e =
    let same : (validate got.session.resize_policy ≡ true) × (got ≡ cfg) = ground arith in
    subst (λ c. validate c.session.resize_policy ≡ true) same.1 same.0

ticks-persister :
    (persistence : Bool) (interval : ℤ)
    → IsDuration interval
    → (persistence && not_positive interval) ≡ false
    → ticks (if persistence then some (seconds interval) else none) ≡ true
ticks-persister true interval d p = rw (seconds-positive interval d p, ticks, new_ticker)
ticks-persister false interval d p = refl

-- If the interval is at most 9223372036 seconds, which a Duration can hold: a daemon that listens has
-- one of the four policies, and its persister, if it has one, gets its ticker without a panic; what else
-- can come is a start in the background that was asked for, a log file without it, or an interval that
-- is not positive while the state is to be kept.
pub load_from-daemon_command :
    (decode_file : DecodeFile) (path usual : Text) (cmd : DaemonCmd) (cfg : Config)
    → load_from decode_file path ≡ ok cfg
    → IsDuration cfg.daemon.state_persistence_interval
    → Outcome cmd cfg (daemon_command usual cmd cfg)
unfolding load_from daemon_command new
load_from-daemon_command decode_file path usual cmd cfg e d =
    elim (Bool-cases (not (is_nil cmd.log_file) && not cmd.detach)) [
      | inl l ↦ rw l (ground arith)
      | inr l ↦ elim (Bool-cases cmd.detach) [
        | inl b ↦ rw (l, b) refl
        | inr b ↦
            elim (Bool-cases (
              cfg.daemon.state_persistence && not_positive cfg.daemon.state_persistence_interval)) [
                | inl i ↦ rw (l, b, i) (ground arith)
                | inr i ↦
                    rw (l, b, i)
                      (
                        decoded-validate path (decode_file path default) cfg e,
                        ticks-persister cfg.daemon.state_persistence
                            cfg.daemon.state_persistence_interval d i,
                      )
              ]
      ]
    ]
