-- ===== src/Completion/Examples.antt =====
-- The data of a tree with one command, an alias, a flag of two values and a hidden command.
use hauntty.Prelude.{
  ◌≡◌, ◌∷◌, [], refl, true, false, none, some, Text, text_eq, codes, if◌then◌else◌,
}
use hauntty.Completion.{
  KongFlag, KongNode, KongRoot, Flag, build_spec, collect_commands, collect_flags,
  collect_positionals, non_empty_values,
}
use hauntty.Completion.Render.{join, unquoted, zsh_flag_spec, fish_flag_opts}

abbrev format_flag : KongFlag
format_flag = record {
  name = codes "format";
  short = codes "f";
  help = codes "The dump's format.";
  hidden = false;
  is_bool = false;
  enum_slice = codes "plain" ∷ codes " " ∷ codes "vt" ∷ [];
}

abbrev dump : KongNode
dump = record {
  name = codes "dump";
  aliases = codes "d" ∷ [];
  help = codes "Dump.";
  hidden = false;
  flags = some format_flag ∷ none ∷ [];
  positional = codes "NAME" ∷ [];
}

abbrev helper : KongNode
helper = record {
  name = codes "__complete";
  aliases = [];
  help = [];
  hidden = true;
  flags = [];
  positional = [];
}

abbrev root : KongRoot
root = record { flags = []; children = some dump ∷ some helper ∷ [] }

abbrev topics : Text → Text
topics name = if text_eq name (codes "dump") then codes "dumpable_sessions" else []

abbrev format : Flag
format = record {
  name = codes "format";
  short = codes "f";
  help = codes "The dump's format.";
  has_value = true;
  enum = codes "plain" ∷ codes "vt" ∷ [];
}

dump_command :
    (build_spec (some root) topics).commands
    ≡ record {
      name = codes "dump";
      aliases = codes "d" ∷ [];
      help = codes "Dump.";
      flags = format ∷ [];
      positionals = record { name = codes "name"; dynamic_topic = codes "dumpable_sessions" } ∷ [];
    }
      ∷ []
unfolding build_spec collect_commands collect_flags collect_positionals non_empty_values text_eq
dump_command = refl

format_in_zsh :
    zsh_flag_spec format ≡ codes "'(-f --format)'{-f,--format=}'[The dumps format.]:value:'"
unfolding zsh_flag_spec unquoted
format_in_zsh = refl

format_in_fish : fish_flag_opts format ≡ codes " -xa 'plain vt' -s f"
unfolding fish_flag_opts join
format_in_fish = refl
