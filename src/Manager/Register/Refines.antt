-- ===== src/Manager/Register/Refines.antt =====
-- The critical sections implement the operations on slots, and write only inside their rows.
use net_radio.Common.{
  ℕ, zero, suc, ◌+◌, ◌≤◌, ◌<◌, map, ◌≡◌, refl, ap, ◌∙◌, true, false, Option, none, some, [], ◌∷◌,
  ◌++◌, Bytes, ◌==◌, get_elem?, length, length-append, length-drop, replicate, drop, codes,
  All-drop, and-eq_true, drop-eq_nil, drop-append_of_le, arith, ==-eq_true,
}
use net_radio.Memory.{str_eq, poke, strncpy, text_prefix}
use net_radio.Memory.Strings.{strcpy-append, memmove-append}
use net_radio.Message.Types.{
  regi_len, kind_of, regi, msg_type_size, msg_type_to_str, has_len, msglen,
}
use net_radio.Message.Verify.Grammar.{conforms, matches, checked}
use net_radio.Manager.Register.{
  Register, read_bytes, fill_row, register_broadcaster, copy_broadcaster_register, clear_canary,
  init_register,
}
use net_radio.Manager.Register.Slots.{
  Slots, IsRegi, IsItem, item_of, register, items, clear, Row, Refines,
}

module _ {s : Bytes} (h : IsRegi s) where
  -- The two halves of the verdict.
  parts : (has_len (length s) regi ≡ true) × (matches (checked regi) (drop msg_type_size s) ≡ true)
  unfolding conforms
  parts = and-eq_true _ _ (rw h.type at h.accepted)

  -- An accepted REGI is as long as its type asks.
  pub length-IsRegi : length s ≡ regi_len
  unfolding msglen
  length-IsRegi = ==-eq_true (length s) regi_len parts.0

  length-item_of : length (item_of s) ≡ regi_len
  unfolding item_of
  length-item_of = omega (arith, length-drop msg_type_size s, length-IsRegi)

  pub item_of-IsItem : IsItem (item_of s)
  unfolding item_of conforms kind_of str_eq msglen
  item_of-IsItem = record {
    plain = (
      omega arith,
      (omega arith, (omega arith, (omega arith, All-drop _ msg_type_size s h.plain))),
    );
    type = refl;
    accepted = rw length-item_of parts.1;
    size = length-item_of;
  }

  -- The copy of an accepted REGI stays inside a row, and leaves its ITEM there.
  pub fill_row-item_of :
      (row rest : Bytes)
      → length row ≡ regi_len + 1
      → fill_row row (s ++ 0 ∷ rest) ≡ some (item_of s ++ 0 ∷ [])
  unfolding fill_row item_of msg_type_to_str strncpy text_prefix
  fill_row-item_of row rest size =
      let n = length-IsRegi in
      rw (
        strcpy-append s [] row rest h.plain (omega arith),
        drop-eq_nil (length s + 1) row (omega arith),
        memmove-append (codes "ITEM") [] (s ++ 0 ∷ []) (omega (arith, length-append s (0 ∷ []))),
        drop-append_of_le msg_type_size s (0 ∷ []) (omega arith),
      )

-- A held row does not begin with '\0'.
first-IsItem :
    (t : Bytes) → IsItem t → (c : ℕ) × (get_elem? (t ++ 0 ∷ []) 0 ≡ some c) × ((c == 0) ≡ false)
first-IsItem [] h = absurd (omega (arith, h.size))
first-IsItem (c ∷ t) h = let nonzero = h.plain.0 in (c, refl, ground arith)

-- `register_broadcaster` is the registration of the slots: the first free row among the first `max`
-- gets the ITEM, every other row stays as it was, and the index returned is that of the row. No
-- access is outside a row. The message is an accepted REGI, and the array has `max` rows.
pub register_broadcaster-Refines :
    (max : ℕ) (rows : Register) (slots : Slots) (s rest : Bytes)
    → IsRegi s
    → max ≤ length rows
    → Refines rows slots
    → (rows1 : Register) × (register_broadcaster max rows (s ++ 0 ∷ rest)
        ≡ some (rows1, (register max slots (item_of s)).1))
      × Refines rows1 (register max slots (item_of s)).0
unfolding register_broadcaster register
register_broadcaster-Refines zero rows slots s rest h room r = (rows, refl, r)
register_broadcaster-Refines (suc max) [] slots s rest h room r = elim room [ ]
register_broadcaster-Refines (suc max) (row ∷ rows) [] s rest h room r = absurd r
register_broadcaster-Refines (suc max) (row ∷ rows) (none ∷ slots) s rest h room ((size, free), r) =
    (
      (item_of s ++ 0 ∷ []) ∷ rows,
      rw (free, fill_row-item_of h row rest size),
      ((refl, item_of-IsItem h), r),
    )
register_broadcaster-Refines (suc max) (row ∷ rows) (some u ∷ slots) s rest h room
      ((held, u_item), r) =
    let (c, first, busy) = first-IsItem u u_item in
    let (rows1, run, r1) = register_broadcaster-Refines max rows slots s rest h (omega arith) r in
    (row ∷ rows1, rw held (rw (first, busy, run)), ((held, u_item), r1))

read_bytes-length : (n : ℕ) (m : Bytes) → length m ≡ n → read_bytes n m ≡ some m
unfolding read_bytes
read_bytes-length zero [] h = refl
read_bytes-length zero (x ∷ m) h = cc
read_bytes-length (suc n) [] h = cc
read_bytes-length (suc n) (x ∷ m) h = rw (read_bytes-length n m (omega arith))

abbrev pub row_of : Bytes → Bytes
row_of t = t ++ 0 ∷ []

-- `copy_broadcaster_register` gives the ITEMs of the first `max` slots, in their order.
pub copy_broadcaster_register-Refines :
    (max : ℕ) (rows : Register) (slots : Slots)
    → max ≤ length rows
    → Refines rows slots
    → copy_broadcaster_register max rows ≡ some (map row_of (items max slots))
unfolding copy_broadcaster_register items
copy_broadcaster_register-Refines zero rows slots room r = refl
copy_broadcaster_register-Refines (suc max) [] slots room r = elim room [ ]
copy_broadcaster_register-Refines (suc max) (row ∷ rows) [] room r = absurd r
copy_broadcaster_register-Refines (suc max) (row ∷ rows) (none ∷ slots) room ((size, free), r) =
    rw free (copy_broadcaster_register-Refines max rows slots (omega arith) r)
copy_broadcaster_register-Refines (suc max) (row ∷ rows) (some u ∷ slots) room ((held, u_item), r) =
    let (c, first, busy) = first-IsItem u u_item in
    let whole : length (row_of u) ≡ regi_len + 1 =
      omega (arith, length-append u (0 ∷ []), u_item.size) in
    rw held (
      rw (
        first,
        busy,
        read_bytes-length (regi_len + 1) (row_of u) whole,
        copy_broadcaster_register-Refines max rows slots (omega arith) r,
      ))

poke_front :
    (n : ℕ) (row : Bytes)
    → length row ≡ suc n
    → (row1 : Bytes) × (poke 0 0 row ≡ some row1)
      × (length row1 ≡ suc n)
      × (get_elem? row1 0 ≡ some 0)
unfolding poke
poke_front n [] h = cc
poke_front n (x ∷ m) h = (0 ∷ m, refl, h, refl)

clear-Row :
    (row : Bytes) (s : Option Bytes)
    → Row row s
    → (row1 : Bytes) × (poke 0 0 row ≡ some row1) × Row row1 none
clear-Row row none (size, free) =
    let (row1, run, size1, free1) = poke_front regi_len row (omega arith) in
    (row1, run, (omega arith, free1))
clear-Row row (some t) (held, t_item) =
    let (row1, run, size1, free1) =
      poke_front regi_len row
        (ap length held ∙ omega (arith, length-append t (0 ∷ []), t_item.size)) in
    (row1, run, (omega arith, free1))

-- Clearing the canary frees the slot of the row, and no other.
pub clear_canary-Refines :
    (i : ℕ) (rows : Register) (slots : Slots)
    → i < length rows
    → Refines rows slots
    → (rows1 : Register) × (clear_canary i rows ≡ some rows1) × Refines rows1 (clear i slots)
unfolding clear_canary clear
clear_canary-Refines i [] slots room r = elim room [ ]
clear_canary-Refines i (row ∷ rows) [] room r = absurd r
clear_canary-Refines zero (row ∷ rows) (s ∷ slots) room (h, r) =
    let (row1, run, h1) = clear-Row row s h in (row1 ∷ rows, rw run, (h1, r))
clear_canary-Refines (suc i) (row ∷ rows) (s ∷ slots) room (h, r) =
    let (rows1, run, r1) = clear_canary-Refines i rows slots (omega arith) r in
    (row ∷ rows1, rw run, (h, r1))

-- The loop of `init_manager` frees the first `max` slots and no other, whatever they held. The array
-- has `max` rows.
pub init_register-Refines :
    (max : ℕ) (rows : Register) (slots : Slots)
    → max ≤ length rows
    → Refines rows slots
    → (rows1 : Register) × (init_register max rows ≡ some rows1)
      × Refines rows1 (replicate max none ++ drop max slots)
unfolding init_register
init_register-Refines zero rows slots room r = (rows, refl, r)
init_register-Refines (suc max) [] slots room r = elim room [ ]
init_register-Refines (suc max) (row ∷ rows) [] room r = absurd r
init_register-Refines (suc max) (row ∷ rows) (s ∷ slots) room (h, r) =
    let (row1, run, h1) = clear-Row row s h in
    let (rows1, run1, r1) = init_register-Refines max rows slots (omega arith) r in
    (row1 ∷ rows1, rw (run, run1), (h1, r1))
