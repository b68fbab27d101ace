-- ===== src/Completion.antt =====
-- internal/completion/completion.go: the tree of commands as a `Spec`, and the texts that the templates
-- of the scripts are filled with. A `rune` is the UTF-8 text of it, empty for 0. The trees, whose names
-- are in ASCII, are given. `quote` is the verb %q of fmt, a parameter.
pub mod Render
pub mod Offered
mod Examples
use hauntty.Prelude.{
  ℕ, ◌+◌, leb, Bool, true, false, not, ◌&&◌, ◌||◌, List, [], ◌∷◌, ◌++◌, map, Option, none, some,
  Text, text_eq, codes, ◌==◌, if◌then◌else◌,
}
use hauntty.Client.Attach.{is_nil}
use hauntty.Daemon.Session.Decimal.{decimal}
use hauntty.Daemon.Persister.{sort}

pub record Flag : Type 0 where
  pub name : Text
  pub short : Text
  pub help : Text
  pub has_value : Bool
  pub enum : List Text

pub record Positional : Type 0 where
  pub name : Text
  pub dynamic_topic : Text

pub record Command : Type 0 where
  pub name : Text
  pub aliases : List Text
  pub help : Text
  pub flags : List Flag
  pub positionals : List Positional

pub record Spec : Type 0 where
  pub global_flags : List Flag
  pub commands : List Command

-- What the code reads of kong's flags and nodes.
pub record KongFlag : Type 0 where
  pub name : Text
  pub short : Text
  pub help : Text
  pub hidden : Bool
  pub is_bool : Bool
  pub enum_slice : List Text

pub record KongNode : Type 0 where
  pub name : Text
  pub aliases : List Text
  pub help : Text
  pub hidden : Bool
  pub flags : List (Option KongFlag)
  pub positional : List Text

pub record KongRoot : Type 0 where
  pub flags : List (Option KongFlag)
  pub children : List (Option KongNode)

-- The white space of ASCII.
abbrev pub is_space : ℕ → Bool
is_space b = b == 32 || (leb 9 b && leb b 13)

abbrev pub is_blank : Text → Bool
is_blank [] = true
is_blank (b ∷ bs) = is_space b && is_blank bs

unfoldable pub non_empty_values : List Text → List Text
non_empty_values [] = []
non_empty_values (value ∷ values) =
    let rest = non_empty_values values in if is_blank value then rest else value ∷ rest

unfoldable pub collect_flags : List (Option KongFlag) → List Flag
unfolding non_empty_values
collect_flags [] = []
collect_flags (none ∷ flags) = collect_flags flags
collect_flags (some f ∷ flags) =
    let rest = collect_flags flags in
    if f.hidden
    then rest
    else record {
      name = f.name;
      short = f.short;
      help = f.help;
      has_value = not f.is_bool;
      enum = non_empty_values f.enum_slice;
    }
      ∷ rest

abbrev pub lower : ℕ → ℕ
lower b = if leb 65 b && leb b 90 then b + 32 else b

unfoldable pub collect_positionals : List Text → Text → List Positional
collect_positionals [] topic = []
collect_positionals (name ∷ names) topic =
    record { name = map lower name; dynamic_topic = topic } ∷ collect_positionals names []

abbrev pub command : (Text → Text) → KongNode → Command
command topics child = record {
  name = child.name;
  aliases = child.aliases;
  help = child.help;
  flags = collect_flags child.flags;
  positionals = collect_positionals child.positional (topics child.name);
}

-- The commands of the children that are not hidden; `topics` gives an empty text for a missing name.
unfoldable pub collect_commands : (Text → Text) → List (Option KongNode) → List Command
unfolding collect_flags collect_positionals
collect_commands topics [] = []
collect_commands topics (none ∷ children) = collect_commands topics children
collect_commands topics (some child ∷ children) =
    let rest = collect_commands topics children in
    if child.hidden then rest else command topics child ∷ rest

unfoldable pub build_spec : Option KongRoot → (Text → Text) → Spec
unfolding collect_commands
build_spec none topics = record { global_flags = []; commands = [] }
build_spec (some root) topics = record {
  global_flags = collect_flags root.flags;
  commands = collect_commands topics root.children;
}
