-- ===== src/Manager/Options/Bounds.antt =====
-- The numbers with which the manager runs.
use net_radio.Common.{
  ℕ, ◌≤◌, ◌≡◌, sym, true, false, none, some, List, [], ◌∷◌, Bytes, length, ltb, ◌||◌, if◌then◌else◌,
  Bool-cases, Option-cases, inl, inr, arith,
}
use net_radio.Utils.{set_uint_from_string}
use net_radio.Manager.Monitor.{bufsize}
use net_radio.Manager.Handlers.{handle_list}
use net_radio.Manager.Handlers.Lists.{announcement}
use net_radio.Manager.System.{System, Reach}
use net_radio.Manager.System.Listing.{Reach-handle_list}
use net_radio.Manager.Options.{
  nb_seconds_one_day, Opt, opt_v, opt_d, opt_h, opt_unknown, Settings, Configuration, usage,
  continue, default_settings, decode_options, read_arguments, configure,
}

decode_options-le :
    (s : Settings) (opts : List Opt) {s1 : Settings}
    → s.check_delay ≤ nb_seconds_one_day
    → decode_options s opts ≡ some (continue s1)
    → s1.check_delay ≤ nb_seconds_one_day
unfolding decode_options
decode_options-le s [] {s1} h run = let same : s ≡ s1 = cc in rw same at h
decode_options-le s (opt_v ∷ opts) h run =
    decode_options-le (record s { verbose = true }) opts h run
decode_options-le s (opt_d optarg ∷ opts) {s1} h run =
    elim (Option-cases (set_uint_from_string optarg)) [
      | inl e ↦ let bad = rw e at run in cc
      | inr (none, e) ↦ let bad = rw e at run in cc
      | inr (some delay, e) ↦
          let next = rw e at run in
          elim (Bool-cases (ltb nb_seconds_one_day delay)) [
            | inl big ↦ let bad = rw big at next in cc
            | inr small ↦
                let rest = rw small at next in
                decode_options-le (record s { check_delay = delay }) opts (ground (arith, small))
                  rest
          ]
    ]
decode_options-le s (opt_h ∷ opts) h run = cc
decode_options-le s (opt_unknown ∷ opts) h run = cc

-- The numbers of a configuration with which `main` goes on.
abbrev pub InBounds : Configuration → Type 0
InBounds c = (c.settings.check_delay ≤ nb_seconds_one_day) × (1 ≤ c.nb_diff) × (c.nb_diff ≤ 99)

nb_diff-InBounds :
    (s : Settings) (port nb_diff : ℕ) {c : Configuration}
    → s.check_delay ≤ nb_seconds_one_day
    → some (
        if ltb 99 nb_diff || ltb nb_diff 1
        then usage false
        else continue (record { settings = s; port = port; nb_diff = nb_diff }))
      ≡ some (continue c)
    → InBounds c
nb_diff-InBounds s port nb_diff {c} h run = elim (Bool-cases (ltb 99 nb_diff || ltb nb_diff 1)) [
  | inl bad_number ↦ let bad = rw bad_number at run in cc
  | inr good ↦
      let last = rw good at run in
      let same : record { settings = s; port = port; nb_diff = nb_diff } ≡ c = cc in
      rw (sym same) (h, ground (arith, good), ground (arith, good))
]

read_arguments-InBounds :
    (s : Settings) (args : List Bytes) {c : Configuration}
    → s.check_delay ≤ nb_seconds_one_day
    → read_arguments s args ≡ some (continue c)
    → InBounds c
unfolding read_arguments
read_arguments-InBounds s [] h run = cc
read_arguments-InBounds s (a ∷ []) h run = cc
read_arguments-InBounds s (a ∷ b ∷ d ∷ args) h run = cc
read_arguments-InBounds s (port_arg ∷ nb_arg ∷ []) {c} h run =
    elim (Option-cases (set_uint_from_string port_arg)) [
      | inl e ↦ let bad = rw e at run in cc
      | inr (none, e) ↦ let bad = rw e at run in cc
      | inr (some port, e) ↦
          let next = rw e at run in
          elim (Option-cases (set_uint_from_string nb_arg)) [
            | inl e1 ↦ let bad = rw e1 at next in cc
            | inr (none, e1) ↦ let bad = rw e1 at next in cc
            | inr (some nb_diff, e1) ↦
                let last = rw e1 at next in nb_diff-InBounds s port nb_diff h last
          ]
    ]

-- A manager that goes on behind its command line watches at intervals of at most a day, and takes from
-- 1 to 99 broadcasters, whatever the arguments are.
pub configure-InBounds :
    (opts : List Opt) (args : List Bytes) (c : Configuration)
    → configure opts args ≡ some (continue c)
    → InBounds c
unfolding configure
configure-InBounds opts args c run = elim (Option-cases (decode_options default_settings opts)) [
  | inl e ↦ let bad = rw e at run in cc
  | inr (usage success, e) ↦ let bad = rw e at run in cc
  | inr (continue s, e) ↦
      let rest = rw e at run in
      read_arguments-InBounds s args (decode_options-le default_settings opts (omega arith) e) rest
]

-- In every state that the threads of a manager with these arguments reach, from an array of 100 free
-- rows, the answer to LIST announces as many broadcasters as there are threads that watch one, and as
-- many ITEMs follow. The buffer has its 512 bytes.
pub configure-handle_list :
    (opts : List Opt) (args : List Bytes) (c : Configuration) (s : System) (msg_buf : Bytes)
    → configure opts args ≡ some (continue c)
    → Reach c.nb_diff 100 s
    → length msg_buf ≡ bufsize
    → (entries : List Bytes) × (handle_list c.nb_diff s.rows msg_buf
        ≡ some (announcement (length s.watchers) ∷ entries))
      × (length entries ≡ length s.watchers)
configure-handle_list opts args c s msg_buf run reach size =
    let (delay, least, most) = configure-InBounds opts args c run in
    Reach-handle_list c.nb_diff 100 msg_buf (omega (arith, most)) (omega (arith, most)) reach size
