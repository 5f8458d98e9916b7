-- ===== src/Manager/Start/Accepting.antt =====
-- From the command line to the threads.
use net_radio.Common.{
  Option, ap, ◌∙◌, sym, append-nil, ◌%◌, ◌^◌, ◌≤◌, ◌≡◌, refl, Bool, true, false, Bool-cases, inl,
  inr, ltb, ◌||◌, none, some, List, [], ◌∷◌, ◌++◌, Bytes, ℤ, if◌then◌else◌, length, drop, replicate,
  arith,
}
use net_radio.Libc.Number.{spelled}
use net_radio.Manager.Register.{Register, init_register}
use net_radio.Manager.Register.Slots.{Slots, Refines}
use net_radio.Manager.Register.Refines.{init_register-Refines}
use net_radio.Manager.Options.{Opt, opt_v, opt_d, Configuration, continue, configure}
use net_radio.Manager.Options.Digits.{IsNumber, configure-digits}
use net_radio.Manager.Start.{
  Status, exited, killed, sigpipe, htons, Opened, Round, State, init_manager, start_manager, banner,
  run_configured, run_manager,
}

-- `malloc` gives a block in each round, and no thread raises SIGPIPE.
abbrev pub AllPass : List Round → Type 0
AllPass [] = Unit
AllPass (a ∷ rounds) = (a.block ≡ true) × (a.broken_pipe ≡ false) × AllPass rounds

-- The descriptors of the rounds with a thread, and of those without one.
abbrev pub descriptors : (created : Bool) → List Round → List ℤ
descriptors created [] = []
descriptors true (a ∷ rounds) =
    let rest = descriptors true rounds in if a.created then a.descriptor ∷ rest else rest
descriptors false (a ∷ rounds) =
    let rest = descriptors false rounds in if a.created then rest else a.descriptor ∷ rest

descriptors-append :
    (created : Bool) (before : List Round) (a : Round)
    → descriptors created (before ++ a ∷ [])
      ≡ descriptors created before ++ descriptors created (a ∷ [])
descriptors-append true [] a = refl
descriptors-append false [] a = refl
descriptors-append true (b ∷ before) a =
    let ih = descriptors-append true before a in
    elim (Bool-cases b.created) [ inl e ↦ rw (e, ih) refl | inr e ↦ rw (e, ih) refl ]
descriptors-append false (b ∷ before) a =
    let ih = descriptors-append false before a in
    elim (Bool-cases b.created) [ inl e ↦ rw (e, ih) refl | inr e ↦ rw (e, ih) refl ]

-- The rounds that pass, and what follows them.
start_manager-append :
    (verbose : Bool) (before rounds : List Round)
    → AllPass before
    → let s = start_manager verbose (before ++ rounds) in
      let rest = start_manager verbose rounds in
      (s.handled ≡ descriptors true before ++ rest.handled)
      × (s.closed ≡ descriptors false before ++ rest.closed)
      × (s.status ≡ rest.status)
unfolding start_manager
start_manager-append verbose [] rounds h = (refl, refl, refl)
start_manager-append verbose (a ∷ before) rounds (given, whole, h) =
    let (handled, closed, on) = start_manager-append verbose before rounds h in
    elim (Bool-cases a.created) [
      | inl e ↦ (
        rw (given, whole, e, handled) refl,
        rw (given, whole, e, closed) refl,
        rw (given, whole, e, on) refl,
      )
      | inr e ↦ (
        rw (given, whole, e, handled) refl,
        rw (given, whole, e, closed) refl,
        rw (given, whole, e, on) refl,
      )
    ]

-- The state for the rounds `served`, with this status.
abbrev pub Stands : State → (served : List Round) → Option Status → Type 0
Stands s served status =
    (s.handled ≡ descriptors true served)
    × (s.closed ≡ descriptors false served)
    × (s.status ≡ status)

module _ (verbose : Bool) (before after : List Round) (pass : AllPass before) where
  start_manager-on : Stands (start_manager verbose (before ++ [])) before none
  unfolding start_manager
  start_manager-on =
      let (handled, closed, on) = start_manager-append verbose before [] pass in
      (
        handled ∙ append-nil (descriptors true before),
        closed ∙ append-nil (descriptors false before),
        on,
      )

  start_manager-exit :
      (a : Round)
      → a.block ≡ false
      → Stands (start_manager verbose (before ++ a ∷ after)) before (some (exited 1))
  unfolding start_manager
  start_manager-exit a refused =
      let (handled, closed, on) = start_manager-append verbose before (a ∷ after) pass in
      (
        handled ∙ rw refused (append-nil (descriptors true before)),
        closed ∙ rw refused (append-nil (descriptors false before)),
        on ∙ rw refused refl,
      )

  start_manager-killed :
      (a : Round)
      → a.block ≡ true
      → a.broken_pipe ≡ true
      → Stands
          (start_manager verbose (before ++ a ∷ after))
          (before ++ a ∷ [])
          (some (killed sigpipe))
  unfolding start_manager
  start_manager-killed a given broken =
      let (handled, closed, on) = start_manager-append verbose before (a ∷ after) pass in
      elim (Bool-cases a.created) [
        | inl e ↦ (
          handled ∙ rw (descriptors-append true before a) (rw (given, broken, e) refl),
          closed ∙ rw (descriptors-append false before a) (rw (given, broken, e) refl),
          on ∙ rw (given, broken, e) refl,
        )
        | inr e ↦ (
          handled ∙ rw (descriptors-append true before a) (rw (given, broken, e) refl),
          closed ∙ rw (descriptors-append false before a) (rw (given, broken, e) refl),
          on ∙ rw (given, broken, e) refl,
        )
      ]

-- The banner in front of what the rounds print.
abbrev shown_first : Configuration → State → State
shown_first c s = record s { stdout = banner c ++ s.stdout }

started :
    (c : Configuration) (opts : List Opt) (args : List Bytes) (rows rows1 : Register) (o : Opened)
    (rounds : List Round)
    → configure opts args ≡ some (continue c)
    → init_register c.nb_diff rows ≡ some rows1
    → o.socket ≡ true
    → o.bound ≡ true
    → o.listening ≡ true
    → run_manager opts args rows o rounds
      ≡ some (rows1, some (htons c.port), shown_first c (start_manager c.settings.verbose rounds))
unfolding run_manager run_configured init_manager
started c opts args rows rows1 o rounds configured freed socket bound listening =
    rw configured (rw freed (rw (socket, bound, listening) refl))

-- A manager that is started by `-v -d DELAY PORT NB_DIFF` with accepted numbers in digits, and whose
-- socket gives no error, frees the NB_DIFF rows that it uses and listens on PORT modulo 2 ^ 16. As long
-- as `malloc` gives a block and no thread raises SIGPIPE it has not ended, and every descriptor that
-- `accept` gave has its thread, in the order of the calls, or is shut down if the thread was not
-- created; the -1 of a call that failed is treated as they are. The first round without a block ends it
-- with the status 1, and the first SIGPIPE kills it, whatever would follow; then the descriptors of the
-- rounds until there have been treated in this way. DELAY is at most a day, NB_DIFF is from 1 to 99 and
-- at most the number of rows, and the register stands for `slots` before.
pub run_manager-serves :
    (delay port nb : Bytes) (rows : Register) (slots : Slots) (o : Opened)
    (before after : List Round) (a b : Round)
    → IsNumber delay
    → IsNumber port
    → IsNumber nb
    → spelled 0 delay ≤ 86400
    → 1 ≤ spelled 0 nb
    → spelled 0 nb ≤ 99
    → spelled 0 nb ≤ length rows
    → Refines rows slots
    → o.socket ≡ true
    → o.bound ≡ true
    → o.listening ≡ true
    → AllPass before
    → a.block ≡ false
    → b.block ≡ true
    → b.broken_pipe ≡ true
    → let run =
        run_manager
          (opt_v ∷ opt_d (delay ++ 0 ∷ []) ∷ [])
          ((port ++ 0 ∷ []) ∷ (nb ++ 0 ∷ []) ∷ [])
          rows
          o in
      let listening = some (spelled 0 port % 2 ^ 16) in
      (rows1 : Register) × (on exit broken : State) × Refines rows1
        (replicate (spelled 0 nb) none ++ drop (spelled 0 nb) slots)
      × (run before ≡ some (rows1, listening, on))
      × Stands on before none
      × (run (before ++ a ∷ after) ≡ some (rows1, listening, exit))
      × Stands exit before (some (exited 1))
      × (run (before ++ b ∷ after) ≡ some (rows1, listening, broken))
      × Stands broken (before ++ b ∷ []) (some (killed sigpipe))
run_manager-serves delay port nb rows slots o before after a b hd hp hn short some_diff few room r
      socket bound listening pass refused given broken_pipe =
    let c : Configuration = record {
      settings = record { verbose = true; check_delay = spelled 0 delay };
      port = spelled 0 port;
      nb_diff = spelled 0 nb;
    } in
    let small : (ltb 86400 (spelled 0 delay) || (ltb 99 (spelled 0 nb) || ltb (spelled 0 nb) 1))
        ≡ false =
      ground arith in
    let configured : configure (opt_v ∷ opt_d (delay ++ 0 ∷ []) ∷ [])
          ((port ++ 0 ∷ []) ∷ (nb ++ 0 ∷ []) ∷ [])
        ≡ some (continue c) =
      rw (configure-digits delay port nb hd hp hn) (rw small refl) in
    let (rows1, freed, r1) = init_register-Refines (spelled 0 nb) rows slots room r in
    let state = λ (rounds : List Round). shown_first c (start_manager true rounds) in
    let run = λ (rounds : List Round).
      started c (opt_v ∷ opt_d (delay ++ 0 ∷ []) ∷ []) ((port ++ 0 ∷ []) ∷ (nb ++ 0 ∷ []) ∷ []) rows
        rows1 o rounds configured freed socket bound listening in
    let whole = ap (λ rounds. state rounds) (sym (append-nil before)) in
    (
      rows1,
      state (before ++ []),
      state (before ++ a ∷ after),
      state (before ++ b ∷ after),
      r1,
      run before ∙ ap (λ s. some (rows1, some (htons (spelled 0 port)), s)) whole,
      start_manager-on true before after pass,
      run (before ++ a ∷ after),
      start_manager-exit true before after pass a refused,
      run (before ++ b ∷ after),
      start_manager-killed true before after pass b given broken_pipe,
    )
