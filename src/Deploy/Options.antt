-- ===== src/Deploy/Options.antt =====
-- The options of a deployment target: `_parse_command_options`, and the keys that `execute` adds.
use Prim.Native.Char.{code}
use devops_cd.Prelude.{String, Option, none, some, ◌==◌, if◌then◌else◌}
use devops_cd.Text.{is_empty}
use devops_cd.State.{Params}

-- A dict with these keys, each where it is set.
pub record Options : Type 0 where
  pub commands : Option String
  pub inventory : Option String
  pub yaml_content : Option String
  pub namespace : Option String
  pub deployment : Option String
  pub container : Option String
  pub env_file : Option String

abbrev pub no_options : Options
no_options = record {
  commands = none;
  inventory = none;
  yaml_content = none;
  namespace = none;
  deployment = none;
  container = none;
  env_file = none;
}

-- What is behind a prefix.
unfoldable pub drop_prefix : String → String → Option String
drop_prefix String.[] s = some s
drop_prefix (String.◌∷◌ c m) String.[] = none
drop_prefix (String.◌∷◌ c m) (String.◌∷◌ d s) =
    let rest = drop_prefix m s in if code c == code d then rest else none

abbrev pub split_here : Option String → Option (String × String) → String → Option (String × String)
split_here (some v) later s = some ("", v)
split_here none none s = none
split_here none (some (before, v)) String.[] = none
split_here none (some (before, v)) (String.◌∷◌ c s) = some (String.◌∷◌ c before, v)

-- s.split(marker, 1), none where the marker is not in the text
unfoldable pub split_once : String → String → Option (String × String)
unfolding drop_prefix
split_once m String.[] = split_here (drop_prefix m String.[]) none String.[]
split_once m (String.◌∷◌ c s) =
    split_here (drop_prefix m (String.◌∷◌ c s)) (split_once m s) (String.◌∷◌ c s)

abbrev pub marker : String
marker = "|INV|"

abbrev pub with_commands : String → Option (String × String) → Options
with_commands s none = record no_options { commands = some s }
with_commands s (some (before, v)) = record no_options {
  commands = some before;
  inventory = some v;
}

unfoldable pub parse_command_options : String → Options
unfolding split_once
parse_command_options s = if is_empty s then no_options else with_commands s (split_once marker s)

-- if value: options[key] = value
abbrev pub set_if : String → Option String → Option String
set_if value old = if is_empty value then old else some value

unfoldable pub options_of : Params → Options
unfolding parse_command_options
options_of p =
    let o = parse_command_options p.commands in
    record o {
      yaml_content = set_if p.yaml_content o.yaml_content;
      namespace = set_if p.k8s_ns o.namespace;
      deployment = set_if p.k8s_deploy o.deployment;
      container = set_if p.k8s_container o.container;
      env_file = set_if p.env_file o.env_file;
    }
