-- ===== src/Keyboard/Streamer.antt =====
-- c/client_keyboard.c: `interact_with_diff` and what it calls. The arrays on the stack are arguments,
-- with whatever they hold.
use net_radio.Common.{
  ℕ, zero, suc, Bool, not, ◌||◌, Option, none, some, [], ◌∷◌, ◌++◌, Bytes, ℤ, pos, negsuc,
  get_elem?, if◌then◌else◌, ◌==◌, codes, utf8,
}
use mathlib.Core.Option as Option
use net_radio.Memory.{text, poke, str_eq}
use net_radio.Libc.Atoi.{atoi}
use net_radio.Libc.Decimal.{format_int}
use net_radio.Message.Types.{last, mess, number, get_msg_type}
use net_radio.Message.Build.{int, str}
use net_radio.Client.Last.{ended, another, wrong, answer_of}
use net_radio.Keyboard.Run.{
  Run, pure, ◌>>=◌, ◌>>◌, lift, print, print_text, create, set_up, send_text, recv_text, fgets_line,
}
use net_radio.Keyboard.Manager.{exit_failure, fail, returned, is_zero}

abbrev pub empty_line : Bytes
empty_line = codes "Chaine vide avec le diff... Deconnexion du client\n"

-- `while (m[i] != '\n' && i < limit) i++`
unfoldable pub newline_below : (limit : ℕ) → Bytes → Option ℕ
newline_below limit [] = none
newline_below zero (c ∷ m) = some 0
newline_below (suc limit) (c ∷ m) =
    let rest = newline_below limit m in if c == b'\n' then some 0 else Option.map suc rest

-- `while (m[i] != '\n') i++`
unfoldable pub newline : Bytes → Option ℕ
newline [] = none
newline (c ∷ m) = let rest = newline m in if c == b'\n' then some 0 else Option.map suc rest

-- The arrays of `mess_diff`: two of BUFSIZE, and one of 10.
pub record MessArrays : Type 0 where
  pub mes_buf : Bytes
  pub mess_buf : Bytes
  pub buf : Bytes

-- From `recv` on.
unfoldable pub recv_answer : Bytes → Run ℤ
recv_answer buf = recv_text buf >>= λ received. elim received [
  | none ↦ pure exit_failure
  | some m ↦ do
    print_text m
    print (codes "\n")
    type ← lift (get_msg_type m)
    if is_zero (number type)
        then pure (pos 1)
        else fail (codes "Erreur message retour du diff en post_mess\n")
]

-- What follows a line that is not empty.
unfoldable pub send_mess : (pseudo_id line : Bytes) → MessArrays → Run ℤ
unfolding newline_below recv_answer
send_mess pseudo_id line a = do
  i ← lift (newline_below 140 line)
  mes ← lift (poke i 0 line)
  m ← create a.mess_buf mess (str pseudo_id ∷ str mes ∷ [])
  ok ← send_text m
  if ok then recv_answer a.buf else pure exit_failure

unfoldable pub mess_diff : (pseudo_id : Bytes) → MessArrays → Run ℤ
unfolding send_mess
mess_diff pseudo_id a = do
  line ← fgets_line a.mes_buf 512
  first ← lift (get_elem? line 0)
  if first == b'\n' then fail empty_line else send_mess pseudo_id line a

-- The arrays of `last_diff`, of BUFSIZE.
pub record LastArrays : Type 0 where
  pub nb_mess_char : Bytes
  pub mess_buf : Bytes
  pub buf : Bytes

-- The rounds of `last_diff`. The '\0' after an error of `recv` is stored before the array.
unfoldable pub recv_olds : ℕ → Bytes → Run ℤ
unfolding answer_of
recv_olds zero buf = pure (pos 1)
recv_olds (suc n) buf =
    let next = recv_olds n buf in
    recv_text buf >>= λ received. elim received [
      | none ↦ lift none
      | some m ↦
          print_text m
          >> print (codes "\n")
          >> (lift (get_msg_type m) >>= λ type. elim (answer_of type) [
            | ended ↦ pure (pos 1)
            | another ↦ next
            | wrong ↦ fail (codes "Erreur de type\n")
          ])
    ]

abbrev last_rounds : ℤ → ℕ
last_rounds (pos n) = suc n
last_rounds (negsuc n) = 0

-- What follows a line that is not empty.
unfoldable pub send_last : (line : Bytes) → LastArrays → Run ℤ
unfolding newline recv_olds
send_last line a = do
  i ← lift (newline line)
  digits ← lift (poke i 0 line)
  t ← lift (text digits)
  print (codes "Voici les " ++ (format_int 1 (atoi t) ++ codes " derniers messages :\n"))
  m ← create a.mess_buf last (int (atoi t) ∷ [])
  ok ← send_text m
  if ok then recv_olds (last_rounds (atoi t)) a.buf else pure exit_failure

unfoldable pub last_diff : LastArrays → Run ℤ
unfolding send_last
last_diff a = do
  line ← fgets_line a.nb_mess_char 512
  first ← lift (get_elem? line 0)
  if first == b'\n'
      then fail (codes "Pas un nombre... Deconnexion du client\n")
      else send_last line a

pub record Arrays : Type 0 where
  pub mes_type : Bytes
  pub for_mess : MessArrays
  pub for_last : LastArrays

-- `strcmp` of a command with its two spellings.
abbrev is_command : Bytes → Bytes → Bytes → Bool
is_command upper lower t = str_eq t upper || str_eq t lower

-- What follows a line that is not empty.
unfoldable pub run_command : (pseudo_id command : Bytes) → Arrays → Run ℤ
unfolding mess_diff last_diff
run_command pseudo_id command a =
    if is_command (codes "MESS") (codes "mess") command
    then (print (codes "Entrez votre message :\n") >> mess_diff pseudo_id a.for_mess >>= λ r.
        pure (returned r))
    else if is_command (codes "LAST") (codes "last") command
    then (print (codes "Entrez le nombre de messages que vous souhaitez :\n")
        >> last_diff a.for_last
        >>= λ r. pure (returned r))
    else fail (codes "Mauvaise commande avec le diffuseur... Deconnexion du client\n")

unfoldable pub communication_diff : (pseudo_id : Bytes) → Arrays → Run ℤ
unfolding run_command
communication_diff pseudo_id a = do
  print (codes "Vous pouvez faire ces actions : MESS ou LAST\n")
  line ← fgets_line a.mes_type 512
  first ← lift (get_elem? line 0)
  if first == b'\n'
      then fail empty_line
      else (lift (poke 4 0 line) >>= λ cut.
          lift (text cut) >>= λ command. run_command pseudo_id command a)

-- The thread: its result is a null pointer on every path.
unfoldable pub interact_with_diff : (pseudo_id : Bytes) → Arrays → Run (Unit {0})
unfolding communication_diff
interact_with_diff pseudo_id a = do
  up ← set_up
  if not up.address
      then print (codes "Adress unvalid...\n")
      else if not up.socket
      then print (utf8 "Erreur lors de la création de la socket...\n")
      else if not up.connected
      then print (codes "Erreur connect\n")
      else (communication_diff pseudo_id a >>= λ r. pure tt)
