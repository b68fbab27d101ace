-- ===== src/Completion/Render.antt =====
-- The data of the templates: buildRenderData of completion.go, and the functions it uses.
use hauntty.Prelude.{ℕ, suc, not, List, [], ◌∷◌, ◌++◌, map, Text, codes, ◌==◌, if◌then◌else◌}
use hauntty.Client.Attach.{is_nil}
use hauntty.Daemon.Session.Decimal.{decimal}
use hauntty.Daemon.Persister.{sort}
use hauntty.Completion.{Flag, Positional, Command, Spec}

-- strings.Join.
unfoldable pub join : Text → List Text → Text
join separator [] = []
join separator (t ∷ []) = t
join separator (t ∷ u ∷ rest) = t ++ (separator ++ join separator (u ∷ rest))

-- Lines that each but the last end in a backslash (92).
unfoldable pub join_with_continuation : List Text → Text → Text
join_with_continuation [] indent = []
join_with_continuation (line ∷ []) indent = indent ++ (line ++ (10 ∷ []))
join_with_continuation (line ∷ next ∷ rest) indent =
    indent ++ (line ++ (32 ∷ 92 ∷ 10 ∷ join_with_continuation (next ∷ rest) indent))

-- strings.ReplaceAll of the apostrophe (39) by nothing.
unfoldable pub unquoted : Text → Text
unquoted [] = []
unquoted (b ∷ bs) = let rest = unquoted bs in if b == 39 then rest else b ∷ rest

abbrev pub no_values : List Text → Text → Text → Text
no_values [] some_values otherwise = otherwise
no_values (e ∷ es) some_values otherwise = some_values

unfoldable pub fish_flag_opts : Flag → Text
unfolding join
fish_flag_opts f =
    let value =
      if f.has_value
      then no_values f.enum (codes " -xa '" ++ (join (codes " ") f.enum ++ codes "'")) (codes " -x")
      else [] in
    value ++ (if is_nil f.short then [] else codes " -s " ++ f.short)

-- `'(-x --name)'{-x,--name…}'[help]…'`.
abbrev pub short_spec : Flag → Text → Text → Text → Text
short_spec f help equals value =
    codes "'(-"
    ++ (f.short
        ++ (codes " --"
            ++ (f.name
                ++ (codes ")'{-"
                    ++ (f.short
                        ++ (codes ",--"
                            ++ (f.name
                                ++ (equals
                                    ++ (codes "}'["
                                        ++ (help ++ (codes "]" ++ (value ++ codes "'"))))))))))))

-- `'--name…[help]…'`.
abbrev pub long_spec : Flag → Text → Text → Text → Text
long_spec f help equals value =
    codes "'--"
    ++ (f.name ++ (equals ++ (codes "[" ++ (help ++ (codes "]" ++ (value ++ codes "'"))))))

unfoldable pub zsh_flag_spec : Flag → Text
unfolding unquoted join
zsh_flag_spec f =
    let help = unquoted f.help in
    if not (is_nil f.short)
    then (if f.has_value
        then short_spec f help (codes "=") (codes ":value:")
        else short_spec f help [] [])
    else (if f.has_value
        then long_spec f help (codes "=") (
            no_values f.enum (codes ":(" ++ (join (codes " ") f.enum ++ codes ")"))
              (codes ":value:"))
        else long_spec f help [] [])

pub record CommandRender : Type 0 where
  pub name : Text
  pub help : Text
  pub all_names : List Text
  pub seen_names : Text
  pub case_pattern : Text
  pub flags : List Flag
  pub positionals : List Positional
  pub dynamic_name : Text
  pub dynamic_topic : Text
  pub bash_flags : Text
  pub zsh_args_block : Text

pub record RenderData : Type 0 where
  pub bin : Text
  pub helper : Text
  pub global_flags : List Flag
  pub commands : List CommandRender
  pub bash_commands : Text
  pub zsh_command_values : Text

abbrev pub all_names : Command → List Text
all_names cmd = cmd.name ∷ cmd.aliases

-- `'1:name:…'`, by the number of the positional.
abbrev pub plain_positional : ℕ → Text → Text → Text
plain_positional i name choice =
    codes "'" ++ (decimal i ++ (codes ":" ++ (name ++ (codes ":" ++ (choice ++ codes "'")))))

unfoldable pub later_positionals : ℕ → List Positional → List Text
later_positionals i [] = []
later_positionals i (p ∷ rest) = plain_positional i p.name [] ∷ later_positionals (suc i) rest

abbrev pub dynamic_choice : Text → Text → Text → Text
dynamic_choice bin helper topic =
    if is_nil topic
    then []
    else codes "($(" ++ (bin ++ (codes " " ++ (helper ++ (codes " " ++ (topic ++ codes "))")))))

unfoldable pub zsh_positionals : Text → Text → List Positional → List Text
unfolding later_positionals
zsh_positionals bin helper [] = []
zsh_positionals bin helper (p ∷ rest) =
    plain_positional 1 p.name (dynamic_choice bin helper p.dynamic_topic) ∷ later_positionals 2 rest

abbrev pub or_any : List Text → List Text
or_any [] = codes "'*:arg:'" ∷ []
or_any (arg ∷ args) = arg ∷ args

unfoldable pub bash_flags : List Flag → List Text
bash_flags [] = []
bash_flags (f ∷ rest) =
    (codes "--" ++ f.name) ∷ (if is_nil f.short then [] else (codes "-" ++ f.short) ∷ [])
    ++ bash_flags rest

-- The name and the topic of the first positional, if it has a topic.
abbrev pub dynamic : List Positional → Text × Text
dynamic [] = ([], [])
dynamic (p ∷ rest) = if is_nil p.dynamic_topic then ([], []) else (p.name, p.dynamic_topic)

unfoldable pub command_render : Text → Text → Command → CommandRender
unfolding join join_with_continuation zsh_flag_spec zsh_positionals bash_flags
command_render bin helper cmd = record {
  name = cmd.name;
  help = cmd.help;
  all_names = all_names cmd;
  seen_names = join (codes " ") (all_names cmd);
  case_pattern = join (codes "|") (all_names cmd);
  flags = cmd.flags;
  positionals = cmd.positionals;
  dynamic_name = (dynamic cmd.positionals).0;
  dynamic_topic = (dynamic cmd.positionals).1;
  bash_flags = join (codes " ") (bash_flags cmd.flags);
  zsh_args_block =
      join_with_continuation
        (or_any (map zsh_flag_spec cmd.flags ++ zsh_positionals bin helper cmd.positionals))
        (codes "    ");
}

-- The names and aliases of all commands.
unfoldable pub bash_commands : List Command → List Text
bash_commands [] = []
bash_commands (cmd ∷ cmds) = all_names cmd ++ bash_commands cmds

abbrev pub zsh_values : (Text → Text) → Command → List Text
zsh_values quote cmd =
    map (λ name. quote (name ++ (codes "[" ++ (cmd.help ++ codes "]")))) (all_names cmd)

unfoldable pub zsh_command_values : (Text → Text) → List Command → List Text
zsh_command_values quote [] = []
zsh_command_values quote (cmd ∷ cmds) = zsh_values quote cmd ++ zsh_command_values quote cmds

unfoldable pub build_render_data : (Text → Text) → Text → Text → Spec → RenderData
unfolding bash_commands zsh_command_values join join_with_continuation command_render
build_render_data quote bin helper spec = record {
  bin = bin;
  helper = helper;
  global_flags = spec.global_flags;
  commands = map (command_render bin helper) spec.commands;
  bash_commands = join (codes " ") (sort (bash_commands spec.commands));
  zsh_command_values =
      join_with_continuation (zsh_command_values quote spec.commands) (codes "        ");
}
