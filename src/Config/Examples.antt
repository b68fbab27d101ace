-- ===== src/Config/Examples.antt =====
-- A configuration that names no policy.
use hauntty.Prelude.{◌≡◌, refl, [], Text, codes, text_eq, ok, err}
use hauntty.Daemon.Resize.{validate}
use hauntty.Config.{not_exist, DecodeFile, default, invalid_resize_policy, load_from}

abbrev named : Text → DecodeFile
named policy path cfg = ok (record {
  daemon = cfg.daemon;
  client = cfg.client;
  session = record { default_command = []; resize_policy = policy };
})

abbrev missing : DecodeFile
missing path cfg = err not_exist

tight_policy :
    load_from (named (codes "tight")) (codes "config.toml")
    ≡ err (invalid_resize_policy (codes "config.toml") (codes "tight"))
unfolding load_from validate text_eq
tight_policy = refl

no_file : load_from missing (codes "config.toml") ≡ ok default
unfolding load_from
no_file = refl
