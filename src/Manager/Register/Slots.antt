-- ===== src/Manager/Register/Slots.antt =====
-- What the register promises: a row of slots, each free or held by the ITEM of one broadcaster.
use mathlib.Core.Option as Option
use net_radio.Common.{
  ℕ, zero, suc, ◌+◌, ◌≡◌, true, Option, none, some, List, [], ◌∷◌, ◌++◌, Bytes, get_elem?, length,
  take, drop, codes,
}
use net_radio.Memory.Strings.{IsText}
use net_radio.Message.Types.{regi_len, kind_of, item, regi, msg_type_size}
use net_radio.Message.Verify.Grammar.{conforms}

abbrev pub Slots : Type 0
Slots = List (Option Bytes)

-- A text that `verify_msg` accepts, with the type REGI or ITEM.
pub record IsRegi (s : Bytes) : Type 0 where
  pub plain : IsText s
  pub type : kind_of (take msg_type_size s) ≡ regi
  pub accepted : conforms s ≡ true

pub record IsItem (s : Bytes) : Type 0 where
  pub plain : IsText s
  pub type : kind_of (take msg_type_size s) ≡ item
  pub accepted : conforms s ≡ true
  pub size : length s ≡ regi_len

-- The ITEM that announces the broadcaster of a REGI.
unfoldable pub item_of : Bytes → Bytes
item_of s = codes "ITEM" ++ drop msg_type_size s

-- The first free slot among the first `max` takes the ITEM.
unfoldable pub register : ℕ → Slots → Bytes → Slots × Option ℕ
register zero slots t = (slots, none)
register (suc max) [] t = ([], none)
register (suc max) (none ∷ slots) t = (some t ∷ slots, some 0)
register (suc max) (some u ∷ slots) t =
    let (slots1, place) = register max slots t in (some u ∷ slots1, Option.map suc place)

-- The ITEMs of the first `max` slots, in their order.
unfoldable pub items : ℕ → Slots → List Bytes
items zero slots = []
items (suc max) [] = []
items (suc max) (none ∷ slots) = items max slots
items (suc max) (some u ∷ slots) = u ∷ items max slots

unfoldable pub clear : ℕ → Slots → Slots
clear i [] = []
clear zero (s ∷ slots) = none ∷ slots
clear (suc i) (s ∷ slots) = s ∷ clear i slots

-- A row of the array stands for a slot. Behind the '\0' of a free row anything may stand.
abbrev pub Row : Bytes → Option Bytes → Type 0
Row row none = (length row ≡ regi_len + 1) × (get_elem? row 0 ≡ some 0)
Row row (some t) = (row ≡ t ++ 0 ∷ []) × IsItem t

abbrev pub Refines : List Bytes → Slots → Type 0
Refines [] [] = Unit
Refines [] (s ∷ slots) = ⊥
Refines (row ∷ rows) [] = ⊥
Refines (row ∷ rows) (s ∷ slots) = Row row s × Refines rows slots
