-- ===== src/Keyboard/Main.antt =====
-- c/client_keyboard.c: `main`. The thread of the multicast runs beside it, on sockets of its own; the
-- thread of the broadcaster is joined at once. Fuel bounds the rounds of a loop, and `out_of_fuel` says
-- that there were more.
use net_radio.Common.{
  ℕ, zero, suc, Bool, true, false, Option, none, some, List, [], ◌∷◌, ◌++◌, Bytes, ℤ, get_elem?,
  if◌then◌else◌, ◌==◌, codes, utf8, pos, negsuc,
}
use net_radio.Common as Common
use net_radio.Memory.{text, poke, strcpy}
use net_radio.Libc.Atoi.{atoi}
use net_radio.Keyboard.Run.{Run, pure, ◌>>=◌, ◌>>◌, lift, print, fgets, fgets_line}
use net_radio.Keyboard.Manager.{exit_failure, interact_with_manager}
use net_radio.Keyboard.Streamer.{Arrays, newline_below, interact_with_diff}

pub data Fueled (A : Type 0) : Type 0 where
  done : A → Fueled A
  out_of_fuel : Fueled A

-- `while (*(fgets (pseudo_id, BUFSIZE, stdin)) == '\n') {}`
unfoldable pub read_pseudo : (fuel : ℕ) → (pseudo_id : Bytes) → Run (Fueled Bytes)
read_pseudo zero pseudo_id = pure out_of_fuel
read_pseudo (suc fuel) pseudo_id = fgets_line pseudo_id 512 >>= λ line.
    lift (get_elem? line 0) >>= λ first. elim (first == b'\n') [
      | true ↦ read_pseudo fuel line
      | false ↦ pure (done line)
    ]

-- The name is cut at its newline, or behind 9 characters.
unfoldable pub cut_pseudo : Bytes → Run Bytes
unfolding newline_below
cut_pseudo line = do i ← lift (newline_below 9 line); lift (poke i 0 line)

abbrev pub question : Bytes
question =
    utf8 "Voulez vous continuer à envoyer des messages ou à en lire ?\n"
    ++ utf8
        "\tEntrez 'q'+ENTER pour arrêter ou sur n'importe quelle autre lettre pour rester puis ENTER.\n"

-- `do { … } while (next[0] != 'q')`. At the end of the input `fgets` leaves `next` as it was.
unfoldable pub dialogue : (fuel : ℕ) → (pseudo_id next : Bytes) → Arrays → Run (Fueled (Unit {0}))
unfolding interact_with_diff
dialogue zero pseudo_id next a = pure out_of_fuel
dialogue (suc fuel) pseudo_id next a = do
  interact_with_diff pseudo_id a
  print question
  line ← fgets next 512
  next1 ← lift (poke 2 0 (elim line [ none ↦ next | some m ↦ m ]))
  first ← lift (get_elem? next1 0)
  elim (first == b'q') [ true ↦ pure (done tt) | false ↦ dialogue fuel pseudo_id next1 a ]

-- The arrays and the numbers that the program has outside its functions.
pub record Globals : Type 0 where
  pub adresse_diff : Bytes
  pub port_diff : ℤ
  pub adresse_multicast : Bytes
  pub port_multicast : ℤ
  pub terminal : Bytes
  pub adresse_manager : Bytes
  pub port_manager : ℤ

-- An argument is copied into an array, whose byte `n` is then '\0'.
unfoldable pub copy_argument : (n : ℕ) → (argument array : Bytes) → Option Bytes
copy_argument n argument array = Common.◌>>=◌ (strcpy 0 argument array) (poke n 0)

-- `atoi` of an argument.
unfoldable pub port_of : Bytes → Option ℤ
port_of argument = Common.◌>>=◌ (text argument) (λ t. some (atoi t))

unfoldable pub set_streamer : Globals → (diff port multi port_multi term : Bytes) → Run Globals
unfolding copy_argument port_of
set_streamer g diff port multi port_multi term = do
  adresse_diff ← lift (copy_argument 15 diff g.adresse_diff)
  port_diff ← lift (port_of port)
  adresse_multicast ← lift (copy_argument 15 multi g.adresse_multicast)
  port_multicast ← lift (port_of port_multi)
  terminal ← lift (copy_argument 10 term g.terminal)
  pure (record g {
    adresse_diff = adresse_diff;
    port_diff = port_diff;
    adresse_multicast = adresse_multicast;
    port_multicast = port_multicast;
    terminal = terminal;
  })

unfoldable pub set_manager : Globals → (address port : Bytes) → Run Globals
unfolding copy_argument port_of
set_manager g address port = do
  adresse_manager ← lift (copy_argument 15 address g.adresse_manager)
  port_manager ← lift (port_of port)
  pure (record g { adresse_manager = adresse_manager; port_manager = port_manager })

abbrev usage : Bytes
usage =
    codes "Rappel des formats clients :\n\t./client adresse_gestionnaire port_gestionnaire\n"
    ++ (codes "\t./client adresse_diffuseur port_diffuseur adresse_multicast port_multicast "
        ++ codes "endroit_ou_afficher_multicast\n")

-- The arrays of all functions that the main thread runs, and of the thread that it joins.
pub record Buffers : Type 0 where
  pub pseudo_id : Bytes
  pub next : Bytes
  pub streamer : Arrays
  pub mess : Bytes
  pub buf : Bytes
  pub buf_diff : Bytes

-- The client of a broadcaster.
unfoldable pub run_streamer : (fuel : ℕ) → Buffers → Run (Fueled ℤ)
unfolding read_pseudo cut_pseudo dialogue
run_streamer fuel b =
    print (utf8 "Pouvez entrer votre pseudo de 8 caractères svp ?\n")
    >> read_pseudo fuel b.pseudo_id
    >>= λ got. elim got [
      | out_of_fuel ↦ pure out_of_fuel
      | done line ↦ cut_pseudo line >>= λ pseudo_id.
          dialogue fuel pseudo_id b.next b.streamer >>= λ ended. elim ended [
            | out_of_fuel ↦ pure out_of_fuel
            | done u ↦ pure (done (pos 0))
          ]
    ]

-- The client of the manager. A result of -1 would be an error.
unfoldable pub run_manager : Buffers → Run ℤ
unfolding interact_with_manager
run_manager b = interact_with_manager b.mess b.buf b.buf_diff >>= λ r. elim r [
  | pos n ↦ pure (pos 0)
  | negsuc zero ↦
      print
        (codes "Il y a des erreurs dans la communications entre le client et le gestionnaire...\n")
      >> pure exit_failure
  | negsuc (suc n) ↦ pure (pos 0)
]

-- `main` on the arguments behind the program's name.
unfoldable pub keyboard_main : (fuel : ℕ) → Globals → Buffers → List Bytes → Run (Fueled ℤ)
unfolding set_streamer set_manager run_streamer run_manager
keyboard_main fuel g b (diff ∷ port ∷ multi ∷ port_multi ∷ term ∷ []) =
    set_streamer g diff port multi port_multi term >>= λ g1. run_streamer fuel b
keyboard_main fuel g b (address ∷ port ∷ []) =
    set_manager g address port >>= λ g1. run_manager b >>= λ r. pure (done r)
keyboard_main fuel g b _ = do
  print (codes "Erreur : Il n'y a pas le bon nombre d'arguments...\n")
  print usage
  pure (done exit_failure)
