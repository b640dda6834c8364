-- ===== src/Command/Flags.antt =====
-- `commonFlags` and `parseCommonFlags` of cmd/node-configurator/main.go, with `Parse` of the package
-- `flag` for the flags that it declares. What the package prints on an error is left out.
use node_configurator.Prelude.{
  Bool, true, false, ◌||◌, ◌==◌, List, [], ◌∷◌, if◌then◌else◌, Option, none, some,
}
use node_configurator.Text.{Text, codes, text_eq, contains, cut}

-- `commonFlags`
pub record CommonFlags : Type 0 where
  pub config_path : Text
  pub log_format : Text
  pub refresh_facts : Bool
  pub only : Text
  pub skip : Text

abbrev pub default_config_path : Text
default_config_path = codes "/etc/node-configurator/config.yaml"

-- The values before the arguments are read.
abbrev pub default_flags : CommonFlags
default_flags = record {
  config_path = default_config_path;
  log_format = [];
  refresh_facts = false;
  only = [];
  skip = [];
}

-- `strconv.ParseBool`
unfoldable pub parse_bool : Text → Option Bool
parse_bool s =
    if contains
      (codes "1" ∷ codes "t" ∷ codes "T" ∷ codes "true" ∷ codes "TRUE" ∷ codes "True" ∷ []) s
    then some true
    else if contains
        (codes "0" ∷ codes "f" ∷ codes "F" ∷ codes "false" ∷ codes "FALSE" ∷ codes "False" ∷ []) s
    then some false
    else none

-- What an argument is: no flag, the mark that ends the flags, a malformed flag, or a flag by its name
-- with the value that follows an equals sign.
pub data Argument : Type 0 where
  plain : Argument
  terminator : Argument
  malformed : Argument
  flag : Text → Option Text → Argument

-- What follows the dashes of a flag.
unfoldable pub named_argument : Text → Argument
named_argument [] = malformed
named_argument (c ∷ s) =
    if c == b'-' || c == b'='
    then malformed
    else elim (cut b'=' (c ∷ s)) [ none ↦ flag (c ∷ s) none | some (name, v) ↦ flag name (some v) ]

unfoldable pub after_dash : Text → Argument
unfolding named_argument
after_dash [] = plain
after_dash (c ∷ []) = if c == b'-' then terminator else named_argument (c ∷ [])
after_dash (c ∷ d ∷ s) = if c == b'-' then named_argument (d ∷ s) else named_argument (c ∷ d ∷ s)

unfoldable pub argument_of : Text → Argument
unfolding after_dash
argument_of [] = plain
argument_of (c ∷ s) = if c == b'-' then after_dash s else plain

-- What is to be done with an argument: nothing more, an error, the next argument with these flags, or
-- the next argument as the value of this flag.
pub data Action : Type 0 where
  stop : Action
  reject : Action
  proceed : CommonFlags → Action
  await : (Text → CommonFlags) → Action

-- `StringVar`: a flag that takes any text
abbrev string_flag : Option Text → (Text → CommonFlags) → Action
string_flag none assign = await assign
string_flag (some v) assign = proceed (assign v)

-- `BoolVar`: a flag that is true where it has no value
abbrev bool_flag : Option Text → (Bool → CommonFlags) → Action
bool_flag none assign = proceed (assign true)
bool_flag (some v) assign = elim (parse_bool v) [ some b ↦ proceed (assign b) | none ↦ reject ]

unfoldable pub flag_action : Text → Option Text → CommonFlags → Action
flag_action name v cf =
    if text_eq name (codes "config")
    then string_flag v (λ x. record cf { config_path = x })
    else if text_eq name (codes "log-format")
    then string_flag v (λ x. record cf { log_format = x })
    else if text_eq name (codes "refresh-facts")
    then bool_flag v (λ x. record cf { refresh_facts = x })
    else if text_eq name (codes "only")
    then string_flag v (λ x. record cf { only = x })
    else if text_eq name (codes "skip")
    then string_flag v (λ x. record cf { skip = x })
    else reject

unfoldable pub action : Text → CommonFlags → Action
unfolding argument_of flag_action
action s cf = elim (argument_of s) [
  | plain ↦ stop
  | terminator ↦ stop
  | malformed ↦ reject
  | flag name v ↦ flag_action name v cf
]

-- `FlagSet.Parse`, where an error is `none`. The arguments that are left are not read.
unfoldable pub parse_flags : List Text → CommonFlags → Option CommonFlags
parse_flags [] cf = some cf
parse_flags (s ∷ []) cf = elim (action s cf) [
  | stop ↦ some cf
  | reject ↦ none
  | proceed cf' ↦ some cf'
  | await assign ↦ none
]
parse_flags (s ∷ a ∷ args) cf = elim (action s cf) [
  | stop ↦ some cf
  | reject ↦ none
  | proceed cf' ↦ parse_flags (a ∷ args) cf'
  | await assign ↦ parse_flags args (assign a)
]

-- `parseCommonFlags`
unfoldable pub parse_common_flags : List Text → Option CommonFlags
parse_common_flags args = parse_flags args default_flags
