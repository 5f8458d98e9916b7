-- ===== src/Manager/Options.antt =====
-- c/manager.c: what `main` reads from the command line before `init_manager`. `getopt` gives the
-- options one by one, and leaves the other arguments behind them.
pub mod Bounds
pub mod Digits
use net_radio.Common.{
  ℕ, Bool, true, false, Option, none, some, List, [], ◌∷◌, Bytes, ◌>>=◌, ltb, ◌||◌, if◌then◌else◌,
}
use net_radio.Utils.{set_uint_from_string}

abbrev pub nb_seconds_one_day : ℕ
nb_seconds_one_day = 86400

-- What `getopt` returns: an option with its `optarg`, or '?'.
pub data Opt : Type 0 where
  opt_v : Opt
  opt_d : (optarg : Bytes) → Opt
  opt_h : Opt
  opt_unknown : Opt

pub record Settings : Type 0 where
  pub verbose : Bool
  pub check_delay : ℕ

pub record Configuration : Type 0 where
  pub settings : Settings
  pub port : ℕ
  pub nb_diff : ℕ

-- `usage` ends the program.
pub data Outcome {ℓ} (A : Type ℓ) : Type ℓ where
  usage : (success : Bool) → Outcome A
  continue : A → Outcome A

abbrev pub default_settings : Settings
default_settings = record { verbose = false; check_delay = 30 }

-- The loop over the options.
unfoldable pub decode_options : Settings → List Opt → Option (Outcome Settings)
decode_options s [] = some (continue s)
decode_options s (opt_v ∷ opts) = decode_options (record s { verbose = true }) opts
decode_options s (opt_d optarg ∷ opts) = set_uint_from_string optarg >>= λ number. elim number [
  | none ↦ some (usage false)
  | some delay ↦
      let rest = decode_options (record s { check_delay = delay }) opts in
      if ltb nb_seconds_one_day delay then some (usage false) else rest
]
decode_options s (opt_h ∷ opts) = some (usage true)
decode_options s (opt_unknown ∷ opts) = some (usage false)

-- The port and the number of broadcasters, the two arguments behind the options.
unfoldable pub read_arguments : Settings → List Bytes → Option (Outcome Configuration)
read_arguments s (port_arg ∷ nb_arg ∷ []) = set_uint_from_string port_arg >>= λ number.
    elim number [
      | none ↦ some (usage false)
      | some port ↦ set_uint_from_string nb_arg >>= λ number1. elim number1 [
        | none ↦ some (usage false)
        | some nb_diff ↦ some (
            if ltb 99 nb_diff || ltb nb_diff 1
            then usage false
            else continue (record { settings = s; port = port; nb_diff = nb_diff }))
      ]
    ]
read_arguments s _ = some (usage false)

unfoldable pub configure : List Opt → List Bytes → Option (Outcome Configuration)
unfolding decode_options read_arguments
configure opts args = decode_options default_settings opts >>= λ decoded. elim decoded [
  | usage success ↦ some (usage success)
  | continue s ↦ read_arguments s args
]
