-- ===== src/Keyboard/Served.antt =====
-- `interact_with_manager` against `handle_list`: the client shows what the manager has registered.
use net_radio.Common.{
  ℕ, suc, ◌+◌, ◌%◌, ◌/◌, ◌≤◌, ◌≡◌, refl, sym, ap, ◌∙◌, true, Option, some, List, [], ◌∷◌, ◌++◌,
  append_assoc, append-nil, Bytes, ℤ, pos, get_elem?, length, drop, codes, arith,
}
use net_radio.Memory.{text}
use net_radio.Memory.Strings.{IsText, text-append}
use net_radio.Libc.Decimal.{fixed}
use net_radio.Message.Types.{kind_of}
use net_radio.Message.Verify.Reads.{get_msg_type-append}
use net_radio.Message.Wire
use net_radio.Message.Wire.{wire}
use net_radio.Message.Build.Layout.{wire-IsText}
use net_radio.Manager.Monitor.{bytes, bufsize}
use net_radio.Manager.Register.{Register}
use net_radio.Manager.Register.Slots.{Slots, items, Refines}
use net_radio.Manager.Handlers.{handle_list}
use net_radio.Manager.Handlers.Lists.{
  AllItems, announcement, linb-announcement, handle_list-items, items-AllItems, length-items-le,
}
use net_radio.Client.{is_item, is_linb}
use net_radio.Libc.Atoi.{atoi}
use net_radio.Client.Recv.{no_error}
use net_radio.Client.Listed.{atoi-digits}
use net_radio.Keyboard.Run.{World, ◌>>=◌}
use net_radio.Keyboard.Manager.{
  recv_message_gest, number_of, recv_items, recv_list, communication_gest, interact_with_manager,
}
use net_radio.Keyboard.Steps.{
  after_recv, after_send, printed, print_text-append, send_text-append, recv_text-text,
}
use net_radio.Keyboard.Listing.{shown, recv_message_gest-text}
use net_radio.Keyboard.Listing.Request.{create_list}

-- The line in which a message of the manager is shown, and the lines of several.
abbrev pub line : Bytes → Bytes
line t = codes "Manager : " ++ (t ++ codes "\n")

abbrev pub lines : List Bytes → Bytes
lines [] = []
lines (t ∷ ts) = line t ++ lines ts

-- A run that gives 1, and what it adds to the standard output; it sends nothing.
pub record Shows (run : Option (ℤ × World)) (t : Bytes) (w : World) : Type 0 where
  pub after : World
  pub ends : run ≡ some (pos 1, after)
  pub output : after.stdout ≡ w.stdout ++ t
  pub silent : after.sent ≡ w.sent
  pub input : after.stdin ≡ w.stdin

stdout-shown : (t : Bytes) (w : World) → (shown t w).stdout ≡ w.stdout ++ line t
stdout-shown t w = append_assoc _ t _ ∙ append_assoc w.stdout _ _

recv_message_gest-items :
    (ts : List Bytes) (buf_diff : Bytes) (w : World)
    → AllItems ts
    → length buf_diff ≡ bufsize
    → ((k : ℕ) (t : Bytes) → get_elem? ts k ≡ some t → w.recvs k ≡ bytes t)
    → Shows (recv_message_gest (length ts) buf_diff w) (lines ts) w
unfolding recv_message_gest is_item
recv_message_gest-items [] buf_diff w h size come = record {
  after = w;
  ends = refl;
  output = sym (append-nil w.stdout);
  silent = refl;
  input = refl;
}
recv_message_gest-items (t ∷ ts) buf_diff w (ht, hs) size come =
    let len = ht.size in
    let type = ht.type in
    let got = recv_text-text t buf_diff w (come 0 t refl) (omega arith) in
    let round = recv_message_gest-text (length ts) buf_diff t _ w got ht.plain in
    let rest =
      recv_message_gest-items ts buf_diff (shown t (after_recv w)) hs size
        (λ k u at_k. come (suc k) u at_k) in
    record {
      after = rest.after;
      ends = round ∙ rw type rest.ends;
      output =
          rest.output
          ∙ ap (λ s. s ++ lines ts) (stdout-shown t (after_recv w))
          ∙ append_assoc w.stdout _ _;
      silent = rest.silent;
      input = rest.input;
    }

number_of-announcement :
    (n : ℕ) (rest : Bytes) (w : World)
    → n ≤ 99
    → number_of (announcement n ++ rest) w ≡ some (pos n, w)
unfolding number_of announcement fixed
number_of-announcement n rest w few =
    let a = n / 10 % 10 in
    let b = n % 10 in
    let both : IsText ((b'0' + a) ∷ (b'0' + b) ∷ []) =
      ((λ e. omega (arith, e)), ((λ e. omega (arith, e)), tt)) in
    let digits : text ((b'0' + a) ∷ (b'0' + b) ∷ 0 ∷ []) ≡ some ((b'0' + a) ∷ (b'0' + b) ∷ []) =
      text-append ((b'0' + a) ∷ (b'0' + b) ∷ []) [] both in
    let value : atoi ((b'0' + a) ∷ (b'0' + b) ∷ []) ≡ pos n =
      atoi-digits a b (omega arith) (omega arith) ∙ ap pos (omega arith) in
    rw (digits, ◌>>=◌) (rw value refl)

-- What follows the LINB.
recv_items-announcement :
    (ts : List Bytes) (buf_diff rest : Bytes) (w : World)
    → AllItems ts
    → length ts ≤ 99
    → IsText (announcement (length ts))
    → length buf_diff ≡ bufsize
    → ((k : ℕ) (t : Bytes) → get_elem? ts k ≡ some t → w.recvs k ≡ bytes t)
    → Shows
        (recv_items (announcement (length ts) ++ 0 ∷ rest) buf_diff w)
        (line (announcement (length ts)) ++ lines ts)
        w
unfolding recv_items
recv_items-announcement ts buf_diff rest w h few plain size come =
    let said = announcement (length ts) in
    let more = recv_message_gest-items ts buf_diff (shown said w) h size come in
    record {
      after = more.after;
      ends =
          rw (number_of-announcement (length ts) (0 ∷ rest) w few, ◌>>=◌)
            (rw (print_text-append said rest (printed (codes "Manager : ") w) plain, ◌>>=◌)
              (rw (more.ends, ◌>>=◌) refl));
      output =
          more.output ∙ ap (λ s. s ++ lines ts) (stdout-shown said w) ∙ append_assoc w.stdout _ _;
      silent = more.silent;
      input = more.input;
    }

recv_list-announcement :
    (ts : List Bytes) (buf buf_diff : Bytes) (w : World)
    → AllItems ts
    → length ts ≤ 99
    → length buf ≡ bufsize
    → length buf_diff ≡ bufsize
    → w.recvs 0 ≡ bytes (announcement (length ts))
    → ((k : ℕ) (t : Bytes) → get_elem? ts k ≡ some t → w.recvs (suc k) ≡ bytes t)
    → Shows (recv_list buf buf_diff w) (line (announcement (length ts)) ++ lines ts) w
unfolding recv_list announcement fixed kind_of is_linb
recv_list-announcement ts buf buf_diff w h few size size1 first come =
    let said = announcement (length ts) in
    let plain : IsText said =
      let written = wire-IsText (Wire.linb (pos (length ts))) tt in
      rw (linb-announcement (length ts) few) at written in
    let got = recv_text-text said buf w first (omega arith) in
    let behind = drop (length said + 1) buf in
    let more = recv_items-announcement ts buf_diff behind (after_recv w) h few plain size1 come in
    record {
      after = more.after;
      ends = rw (got, ◌>>=◌) (rw (get_msg_type-append said behind plain, ◌>>=◌) more.ends);
      output = more.output;
      silent = more.silent;
      input = more.input;
    }

-- The client of a manager, with no error and each message received by one call of `recv`, sends LIST,
-- shows the LINB with the number of registered broadcasters, and then the ITEM of each of them in the
-- order of the register, every one in a line of its own, and returns 1. Here `handle_list` gives the
-- messages that are received, at most 99 broadcasters can be registered, the register stands for
-- `slots`, and the arrays have the sizes of the code.
pub interact_with_manager-handle_list :
    (max : ℕ) (rows : Register) (slots : Slots) (msg_buf mess buf buf_diff first : Bytes)
    (ms : List Bytes) (w : World)
    → max ≤ 99
    → max ≤ length rows
    → Refines rows slots
    → length msg_buf ≡ bufsize
    → length mess ≡ 10
    → length buf ≡ bufsize
    → length buf_diff ≡ bufsize
    → handle_list max rows msg_buf ≡ some (first ∷ ms)
    → w.setups 0 ≡ no_error
    → w.sends 0 ≡ true
    → w.recvs 0 ≡ bytes first
    → ((k : ℕ) (m : Bytes) → get_elem? ms k ≡ some m → w.recvs (suc k) ≡ bytes m)
    → (w1 : World) × (interact_with_manager mess buf buf_diff w ≡ some (pos 1, w1))
      × (w1.stdout
          ≡ w.stdout ++ (line (announcement (length (items max slots))) ++ lines (items max slots)))
      × (w1.sent ≡ w.sent ++ codes "LIST\r\n" ∷ [])
unfolding interact_with_manager communication_gest wire Wire.name Wire.fields
interact_with_manager-handle_list max rows slots msg_buf mess buf buf_diff first ms w few room r
      size ten size1 size2 listed up ok first_one come =
    let ts = items max slots in
    let answered = handle_list-items max rows slots msg_buf few room r size in
    let head : first ≡ announcement (length ts) = cc in
    let tail : ms ≡ ts = cc in
    let come1 = rw tail at come in
    let request = wire Wire.list in
    let w0 = record w { setups = λ k. w.setups (suc k) } in
    let built = create_list mess w0 (omega arith) in
    let given =
      send_text-append request (drop (length request + 1) mess) w0 (wire-IsText Wire.list tt) ok in
    let more =
      recv_list-announcement ts buf buf_diff (after_send request w0)
        (items-AllItems max rows slots r) (omega (arith, length-items-le max slots, few)) size1
        size2 (first_one ∙ ap bytes head) come1 in
    (
      more.after,
      rw up (rw (built, ◌>>=◌) (rw (given, ◌>>=◌) (rw (more.ends, ◌>>=◌) refl))),
      more.output,
      more.silent,
    )
