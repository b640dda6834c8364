-- ===== src/Command/Arguments.antt =====
-- The flags that are written out are read back.
use node_configurator.Prelude.{Bool, true, false, List, [], ◌∷◌, ◌++◌, ◌≡◌, refl}
use node_configurator.Text.{Text, codes, text_eq, contains, cut}
use node_configurator.Command.Flags.{CommonFlags, parse_bool, parse_flags, action}

abbrev refresh_argument : Bool → Text
refresh_argument true = codes "-refresh-facts=true"
refresh_argument false = codes "-refresh-facts=false"

-- The arguments that give each flag its value.
abbrev pub arguments_of : CommonFlags → List Text
arguments_of cf =
    codes "-config"
    ∷ cf.config_path
    ∷ codes "--log-format"
    ∷ cf.log_format
    ∷ refresh_argument cf.refresh_facts
    ∷ codes "-only"
    ∷ cf.only
    ∷ codes "--skip"
    ∷ cf.skip
    ∷ []

read_back :
    (b : Bool) (config_path log_format only skip : Text) (rest : List Text) (old : CommonFlags)
    → let cf : CommonFlags = record {
      config_path = config_path;
      log_format = log_format;
      refresh_facts = b;
      only = only;
      skip = skip;
    } in
      parse_flags (arguments_of cf ++ rest) old ≡ parse_flags rest cf
unfolding parse_flags action parse_bool contains cut text_eq
read_back true c l o k rest old = refl
read_back false c l o k rest old = refl

-- All flags that are written out are read back, whatever their values are, also where these are empty
-- or look like flags; they replace what stood before them, and what follows is read after them.
pub parse_flags-arguments_of :
    (cf old : CommonFlags) (rest : List Text)
    → parse_flags (arguments_of cf ++ rest) old ≡ parse_flags rest cf
parse_flags-arguments_of cf old rest =
    read_back cf.refresh_facts cf.config_path cf.log_format cf.only cf.skip rest old
