-- ===== src/Keyboard/Manager.antt =====
-- c/client_keyboard.c: `interact_with_manager` and what it calls. The arrays on the stack are
-- arguments, with whatever they hold.
use net_radio.Common.{
  ℕ, zero, suc, Bool, true, false, not, none, some, [], ◌∷◌, Bytes, ℤ, pos, negsuc, get_elem?,
  if◌then◌else◌, codes, utf8,
}
use net_radio.Memory.{text}
use net_radio.Libc.Atoi.{atoi}
use net_radio.Message.Types.{list, get_msg_type}
use net_radio.Client.{is_item, is_linb}
use net_radio.Keyboard.Run.{
  Run, pure, ◌>>=◌, ◌>>◌, lift, print, print_text, create, set_up, send_text, recv_text,
}

abbrev pub exit_failure : ℤ
exit_failure = pos 1

abbrev pub is_zero : ℤ → Bool
is_zero (pos zero) = true
is_zero _ = false

abbrev pub wrong_type : Bytes
wrong_type = codes "ERREUR TYPE MESSAGE\n"

-- A message on the standard output, and the return of EXIT_FAILURE.
abbrev pub fail : Bytes → Run ℤ
fail message = print message >> pure exit_failure

-- `if (!r) return EXIT_FAILURE; return 1`
abbrev pub returned : ℤ → ℤ
returned r = if is_zero r then exit_failure else pos 1

-- The rounds of `recv_message_gest`.
unfoldable pub recv_message_gest : ℕ → Bytes → Run ℤ
recv_message_gest zero buf_diff = pure (pos 1)
recv_message_gest (suc n) buf_diff =
    let next = recv_message_gest n buf_diff in
    recv_text buf_diff >>= λ received. elim received [
      | none ↦ pure exit_failure
      | some m ↦ lift (get_msg_type m) >>= λ type.
          print (codes "Manager : ")
          >> print_text m
          >> print (codes "\n")
          >> (if is_item type then next else fail wrong_type)
    ]

abbrev pub rounds : ℤ → ℕ
rounds (pos n) = n
rounds (negsuc n) = 0

-- The number of a LINB.
unfoldable pub number_of : Bytes → Run ℤ
number_of m = do
  tens ← lift (get_elem? m 5)
  units ← lift (get_elem? m 6)
  numdi ← lift (text (tens ∷ units ∷ 0 ∷ []))
  pure (atoi numdi)

-- What follows a LINB.
unfoldable pub recv_items : (buf buf_diff : Bytes) → Run ℤ
unfolding recv_message_gest number_of
recv_items buf buf_diff = do
  num_diff ← number_of buf
  print (codes "Manager : ")
  print_text buf
  print (codes "\n")
  r ← recv_message_gest (rounds num_diff) buf_diff
  pure (returned r)

-- From the first `recv` on.
unfoldable pub recv_list : (buf buf_diff : Bytes) → Run ℤ
unfolding recv_items
recv_list buf buf_diff = recv_text buf >>= λ received. elim received [
  | none ↦ pure exit_failure
  | some m ↦ lift (get_msg_type m) >>= λ type.
      if is_linb type then recv_items m buf_diff else fail wrong_type
]

-- `mess` has 10 bytes, `buf` and `buf_diff` have BUFSIZE.
unfoldable pub communication_gest : (mess buf buf_diff : Bytes) → Run ℤ
unfolding recv_list
communication_gest mess buf buf_diff = do
  m ← create mess list []
  ok ← send_text m
  if ok then recv_list buf buf_diff else pure exit_failure

-- What `inet_aton` makes of the address is not looked at.
unfoldable pub interact_with_manager : (mess buf buf_diff : Bytes) → Run ℤ
unfolding communication_gest
interact_with_manager mess buf buf_diff = do
  up ← set_up
  if not up.socket
      then fail (utf8 "Erreur création socket\n")
      else if not up.connected
      then fail (codes "Erreur connect\n")
      else (communication_gest mess buf buf_diff >>= λ r. pure (returned r))
