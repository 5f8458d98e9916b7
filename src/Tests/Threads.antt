-- ===== src/Tests/Threads.antt =====
-- A run of the threads: two broadcasters enter, of which both have the same REGI.
use net_radio.Common.{◌≡◌, refl, some, List, [], ◌∷◌, Bytes, length, get_elem?, replicate, arith}
use net_radio.Memory.{poke, text, text_prefix, strcpy, strncpy}
use net_radio.Message.Types.{msg_type_to_str}
use net_radio.Manager.Register.{Register, init_register, register_broadcaster, fill_row}
use net_radio.Manager.Register.Refines.{row_of}
use net_radio.Manager.Register.Slots.{item_of}
use net_radio.Manager.Monitor.{gone, end_watch}
use net_radio.Manager.Handlers.{handle_list}
use net_radio.Manager.Handlers.Lists.{announcement}
use net_radio.Manager.System.{Watcher, System, enter, Reach, start, later}
use net_radio.Manager.System.Safety.{Owned, Reach-Owned, Reach-row_of}
use net_radio.Manager.System.Listing.{Reach-handle_list}
use net_radio.Tests.Messages.{romain_regi, buffer}
use net_radio.Tests.Registrations.{romain_item, romain_IsRegi}

abbrev free_rows : Register
free_rows = replicate 2 (replicate 58 0)

abbrev first : Watcher
first = record { place = 0; entry = romain_item }

abbrev second : Watcher
second = record { place = 1; entry = romain_item }

abbrev at_start : System
at_start = record { rows = free_rows; watchers = [] }

abbrev with_first : System
with_first = record { rows = row_of romain_item ∷ replicate 58 0 ∷ []; watchers = first ∷ [] }

abbrev with_both : System
with_both = record {
  rows = row_of romain_item ∷ row_of romain_item ∷ [];
  watchers = second ∷ first ∷ [];
}

at_start-Reach : Reach 2 2 at_start
unfolding init_register poke
at_start-Reach = start free_rows ((refl, refl), ((refl, refl), tt)) refl

with_first-Reach : Reach 2 2 with_first
unfolding register_broadcaster fill_row strcpy strncpy poke text text_prefix msg_type_to_str item_of
with_first-Reach = later at_start-Reach (enter romain_regi [] romain_IsRegi refl)

with_both-Reach : Reach 2 2 with_both
unfolding register_broadcaster fill_row strcpy strncpy poke text text_prefix msg_type_to_str item_of
with_both-Reach = later with_first-Reach (enter romain_regi [] romain_IsRegi refl)

Reach-Owned_example : Owned 2 with_both
Reach-Owned_example = Reach-Owned 2 2 (omega arith) with_both-Reach

Reach-row_of_example :
    (get_elem? with_both.rows 0 ≡ some (row_of romain_item))
    × ((rows1 : Register) × (end_watch with_both.rows 0 gone ≡ some (rows1, gone)))
Reach-row_of_example = Reach-row_of 2 2 (omega arith) (second ∷ []) first [] with_both-Reach refl

Reach-handle_list_example :
    (entries : List Bytes) × (handle_list 2 with_both.rows buffer ≡ some (announcement 2 ∷ entries))
    × (length entries ≡ 2)
Reach-handle_list_example =
    Reach-handle_list 2 2 buffer (omega arith) (omega arith) with_both-Reach refl
