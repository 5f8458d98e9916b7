-- ===== src/Tests/Registrations.antt =====
-- Instances of the theorems on c/manager.c and on `set_uint_from_string`. The register has two rows,
-- the second of which is free.
use net_radio.Common.{
  ◌≡◌, refl, Bool, true, false, none, some, [], ◌∷◌, ◌++◌, Bytes, replicate, codes, arith, All, leb,
  ◌&&◌, and-eq_true,
}
use net_radio.Memory.{str_eq}
use net_radio.Libc.Decimal.{IsDigit, fixed}
use net_radio.Libc.Number.{spelled}
use net_radio.Message.Types.{kind_of, msglen}
use net_radio.Message.Verify.Grammar.{conforms, matches, head_is, starts_digits}
use net_radio.Tests.Messages.{romain_regi, buffer}
use net_radio.Memory.Strings.{plain, plain-IsText}
use net_radio.Utils.{set_uint_from_string}
use net_radio.Utils.Numbers.{set_uint_from_string-digits}
use net_radio.Manager.Register.{
  Register, register_broadcaster, copy_broadcaster_register, clear_canary,
}
use net_radio.Manager.Register.Slots.{
  Slots, IsRegi, IsItem, item_of, register, items, clear, Refines,
}
use net_radio.Manager.Register.Refines.{
  row_of, register_broadcaster-Refines, copy_broadcaster_register-Refines, clear_canary-Refines,
}
use net_radio.Manager.Monitor.{bytes, Round, Watch, watching, monitor_round, monitor_broadcaster}
use net_radio.Manager.Monitor.Printed.{is_safe, has_end}
use net_radio.Manager.Monitor.Answers.{passes, over_ruok, monitor_round-answer}
use net_radio.Manager.Monitor.Watching.{
  survives, is_watching, watched, monitor_broadcaster-survives,
}
use net_radio.Manager.Handlers.{left, Connection, handle_regi, handle_list}
use net_radio.Manager.Handlers.Lists.{announcement, handle_list-items}
use net_radio.Manager.Handlers.Regi.{admit, handle_regi-Refines}

pub romain_IsRegi : IsRegi romain_regi
unfolding plain conforms kind_of msglen matches head_is starts_digits
romain_IsRegi = record { plain = plain-IsText romain_regi refl; type = refl; accepted = refl }

abbrev pub romain_item : Bytes
romain_item = item_of romain_regi

romain_IsItem : IsItem romain_item
unfolding item_of plain conforms kind_of msglen matches head_is starts_digits
romain_IsItem = record {
  plain = plain-IsText romain_item refl;
  type = refl;
  accepted = refl;
  size = refl;
}

abbrev pub rows : Register
rows = row_of romain_item ∷ (0 ∷ replicate 57 7) ∷ []

abbrev pub slots : Slots
slots = some romain_item ∷ none ∷ []

pub rows-Refines : Refines rows slots
rows-Refines = ((refl, romain_IsItem), ((refl, refl), tt))

register_broadcaster-Refines_example :
    (rows1 : Register) × (register_broadcaster 2 rows (romain_regi ++ 0 ∷ [])
      ≡ some (rows1, some 1))
    × Refines rows1 (some romain_item ∷ some romain_item ∷ [])
unfolding register
register_broadcaster-Refines_example =
    register_broadcaster-Refines 2 rows slots romain_regi [] romain_IsRegi (omega arith)
      rows-Refines

copy_broadcaster_register-Refines_example :
    copy_broadcaster_register 2 rows ≡ some (row_of romain_item ∷ [])
unfolding items
copy_broadcaster_register-Refines_example =
    copy_broadcaster_register-Refines 2 rows slots (omega arith) rows-Refines

clear_canary-Refines_example :
    (rows1 : Register) × (clear_canary 0 rows ≡ some rows1) × Refines rows1 (none ∷ none ∷ [])
unfolding clear
clear_canary-Refines_example = clear_canary-Refines 0 rows slots (omega arith) rows-Refines

handle_list-items_example :
    handle_list 2 rows buffer ≡ some (codes "LINB 01\r\n" ∷ romain_item ∷ [])
unfolding items announcement fixed
handle_list-items_example =
    handle_list-items 2 rows slots buffer (omega arith) (omega arith) rows-Refines refl

unfoldable pub all_digits : Bytes → Bool
all_digits [] = true
all_digits (c ∷ s) = (leb b'0' c && leb c b'9') && all_digits s

pub all_digits-IsDigit : (s : Bytes) → all_digits s ≡ true → All IsDigit s
unfolding all_digits
all_digits-IsDigit [] h = tt
all_digits-IsDigit (c ∷ s) h =
    let (first, rest) = and-eq_true (leb b'0' c && leb c b'9') (all_digits s) h in
    (ground arith, all_digits-IsDigit s rest)

set_uint_from_string-digits_example :
    set_uint_from_string (codes "4294967297" ++ 0 ∷ []) ≡ some (some 1)
unfolding spelled all_digits
set_uint_from_string-digits_example =
    set_uint_from_string-digits (codes "4294967297") [] (λ h. cc)
      (all_digits-IsDigit (codes "4294967297") refl)

abbrev im : Round
im = record { sent = true; answer = bytes (codes "IM") }

abbrev hangs_up : Round
hangs_up = record { sent = true; answer = bytes [] }

monitor_round-answer_example :
    monitor_round true buffer im ≡ some (watching (over_ruok (codes "IM") buffer))
unfolding passes str_eq is_safe has_end
monitor_round-answer_example = monitor_round-answer true buffer b'I' (b'M' ∷ []) refl (omega arith)

abbrev pub broken_off : Connection
broken_off = record { timeout_set = true; rounds = im ∷ hangs_up ∷ [] }

monitor_broadcaster-survives_example :
    (rows1 : Register) × (w : Watch) × (monitor_broadcaster true rows 0 buffer true
        (im ∷ hangs_up ∷ [])
      ≡ some (rows1, w))
    × (is_watching w ≡ false)
    × Refines rows1 (none ∷ none ∷ [])
unfolding survives passes str_eq watched clear is_safe has_end
monitor_broadcaster-survives_example =
    monitor_broadcaster-survives true rows slots 0 buffer true (im ∷ hangs_up ∷ []) (omega arith)
      rows-Refines refl ((omega arith, refl), ((omega arith, refl), tt))

handle_regi-Refines_example :
    (rows1 : Register) × (handle_regi true 2 rows buffer buffer (romain_regi ++ 0 ∷ []) broken_off
      ≡ some (rows1, left 1, codes "REOK\r\n"))
    × Refines rows1 slots
unfolding register survives passes admit str_eq is_safe has_end
handle_regi-Refines_example =
    handle_regi-Refines true 2 rows slots romain_regi [] buffer buffer broken_off romain_IsRegi
      (omega arith) rows-Refines refl refl ((omega arith, refl), ((omega arith, refl), tt))
