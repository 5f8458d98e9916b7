-- ===== src/Manager/Start.antt =====
-- c/manager.c: `main` with `init_manager`, `start_manager` and `usage`. What the calls of `socket`,
-- `bind`, `listen`, `accept`, `malloc` and `pthread_create` give is an argument. What goes to the
-- standard error is left out.
pub mod Accepting
use net_radio.Common.{
  ℕ, zero, suc, ◌%◌, ◌^◌, Bool, true, false, ◌&&◌, Option, none, some, List, [], ◌∷◌, ◌++◌, Bytes,
  ℤ, pos, ◌>>=◌, if◌then◌else◌, codes, utf8,
}
use net_radio.Libc.Decimal.{format_int}
use net_radio.Utils.{print_sockaddr_in_info}
use net_radio.Manager.Register.{Register, init_register}
use net_radio.Manager.Options.{Opt, Settings, Configuration, Outcome, usage, continue, configure}

-- The steps of `init_manager` on its socket: are they without error?
pub record Opened : Type 0 where
  pub socket : Bool
  pub bound : Bool
  pub listening : Bool

-- `htons` keeps the low 16 bits of the port.
abbrev pub htons : ℕ → ℕ
htons port = port % 2 ^ 16

-- The register, and the port that the socket listens on; none for -1.
unfoldable pub init_manager : ℕ → Register → (port : ℕ) → Opened → Option (Register × Option ℕ)
init_manager max rows port o = do
  rows1 ← init_register max rows
  some (rows1, if o.socket && o.bound && o.listening then some (htons port) else none)

-- A round of `start_manager`: does `malloc` give a block, which descriptor does `accept` give (-1
-- for an error), which port and address does `client_addr` hold then, is the thread created, and
-- does SIGPIPE end the program before the next round? A thread raises it by a `send` with the flags
-- 0 on a connection that the other side has closed, and nothing ignores it.
pub record Round : Type 0 where
  pub block : Bool
  pub descriptor : ℤ
  pub client_port : ℕ
  pub client_addr : ℕ
  pub created : Bool
  pub broken_pipe : Bool

-- The end of a process: by `exit`, or by a signal.
pub data Status : Type 0 where
  exited : ℕ → Status
  killed : (signal : ℕ) → Status

abbrev pub sigpipe : ℕ
sigpipe = 13

-- What the program has printed, the descriptors for which `handle_tcp` runs in a thread, those that are
-- shut down without one, and the status that it has ended with, if it has.
pub record State : Type 0 where
  pub stdout : Bytes
  pub handled : List ℤ
  pub closed : List ℤ
  pub status : Option Status

-- What `accept` gives is printed when `verbose` is set.
abbrev accepted : Bool → Round → Bytes
accepted verbose a =
    if verbose
    then utf8 "Nouvelle connexion établie\n" ++ print_sockaddr_in_info a.client_port a.client_addr
    else []

-- What follows a round: the end by the signal, or the further rounds.
abbrev after_round : (broken_pipe : Bool) → State → State
after_round broken_pipe rest =
    if broken_pipe
    then record { stdout = []; handled = []; closed = []; status = some (killed sigpipe) }
    else rest

-- `exit (EXIT_FAILURE)`, the end by a signal, or a further round. The test behind `accept` compares
-- the pointer with 0, and is never true.
unfoldable pub start_manager : (verbose : Bool) → List Round → State
start_manager verbose [] = record { stdout = []; handled = []; closed = []; status = none }
start_manager verbose (a ∷ rounds) =
    let rest = after_round a.broken_pipe (start_manager verbose rounds) in
    if a.block
    then (if a.created
        then record rest {
          stdout = accepted verbose a ++ rest.stdout;
          handled = a.descriptor ∷ rest.handled;
        }
        else record rest {
          stdout = accepted verbose a ++ rest.stdout;
          closed = a.descriptor ∷ rest.closed;
        })
    else record { stdout = []; handled = []; closed = []; status = some (exited 1) }

-- What `usage` prints on the standard output.
abbrev pub help : Bytes
help =
    codes "Usage: manager [OPTION]... PORT NB_DIFF_MAX\n"
    ++ (utf8 "Lance le gestionnaire écoutant sur PORT\n\n"
        ++ (codes "  -h                 affiche cette aide.\n"
            ++ (codes "  -v                 active le mode verbeux.\n"
                ++ (utf8
                      "  -d TEMPS           fais attendre le gestionnaire TEMPS secondes entre chaque envoi de RUOK;\n"
                    ++ (utf8
                          "\t             la valeur par défaut est 30 secondes. Il faut que 0 <= TEMPS <= 86400 (=1 jour)\n"
                        ++ codes "  0 < NB_DIFF_MAX < 100\n\n")))))

-- `usage` ends the program.
unfoldable pub run_usage : (success : Bool) → State
run_usage true = record { stdout = help; handled = []; closed = []; status = some (exited 0) }
run_usage false = record { stdout = []; handled = []; closed = []; status = some (exited 1) }

-- What `main` prints before it starts.
unfoldable pub banner : Configuration → Bytes
banner c =
    if c.settings.verbose
    then codes "Lancement du gestionnaire\n"
      ++ (codes "- Port gestionnaire        : "
          ++ (format_int 1 (pos c.port)
              ++ (utf8 "\n- Délai d'attente          : "
                  ++ (format_int 1 (pos c.settings.check_delay)
                      ++ (codes "s\n- Nombre de diffuseurs max : "
                          ++ (format_int 1 (pos c.nb_diff) ++ codes "\n"))))))
    else []

-- `main` behind the command line.
unfoldable pub run_configured :
    Configuration → Register → Opened → List Round → Option (Register × Option ℕ × State)
unfolding init_manager start_manager banner
run_configured c rows o rounds = init_manager c.nb_diff rows c.port o >>= λ (rows1, listening).
    some (elim listening [
      | none ↦
          (rows1, none, record { stdout = []; handled = []; closed = []; status = some (exited 1) })
      | some port ↦
          let s = start_manager c.settings.verbose rounds in
          (rows1, some port, record s { stdout = banner c ++ s.stdout })
    ])

-- `main`: the register, the port that it listens on, and the state.
unfoldable pub run_manager :
    List Opt → List Bytes → Register → Opened → List Round → Option (Register × Option ℕ × State)
unfolding run_usage run_configured
run_manager opts args rows o rounds = configure opts args >>= λ outcome. elim outcome [
  | usage success ↦ some (rows, none, run_usage success)
  | continue c ↦ run_configured c rows o rounds
]
