-- ===== src/Manager/System/Owners.antt =====
-- Which thread holds which slot.
use net_radio.Common.{
  ℕ, zero, suc, ◌≡◌, ◌≢◌, refl, sym, ap, none, some, List, [], ◌∷◌, ◌++◌, Bytes, length, get_elem?,
  replicate, arith,
}
use net_radio.Manager.Register.Slots.{Slots, register, clear}
use net_radio.Manager.Register.Laws.{map-suc, map-none}
use net_radio.Manager.System.{Watcher}

abbrev pub IsHeld : Slots → Watcher → Type 0
IsHeld slots w = get_elem? slots w.place ≡ some (some w.entry)

-- Each thread holds the slot of its row, no two the same one, and without them every slot is free.
abbrev pub Holds : List Watcher → Slots → Type 0
Holds [] slots = slots ≡ replicate (length slots) none
Holds (w ∷ ws) slots = IsHeld slots w × Holds ws (clear w.place slots)

clear_commute : (i j : ℕ) (slots : Slots) → clear i (clear j slots) ≡ clear j (clear i slots)
unfolding clear
clear_commute i j [] = refl
clear_commute zero zero (s ∷ slots) = refl
clear_commute zero (suc j) (s ∷ slots) = refl
clear_commute (suc i) zero (s ∷ slots) = refl
clear_commute (suc i) (suc j) (s ∷ slots) = ap (λ t. s ∷ t) (clear_commute i j slots)

-- A slot that is held after another was cleared was held before, and is another one.
held_before :
    (i j : ℕ) (slots : Slots) (t : Bytes)
    → get_elem? (clear j slots) i ≡ some (some t)
    → (get_elem? slots i ≡ some (some t)) × (i ≢ j)
unfolding clear
held_before i j [] t h = cc
held_before zero zero (s ∷ slots) t h = cc
held_before zero (suc j) (s ∷ slots) t h = (h, λ e. cc)
held_before (suc i) zero (s ∷ slots) t h = (h, λ e. cc)
held_before (suc i) (suc j) (s ∷ slots) t h =
    let (held, other) = held_before i j slots t h in (held, λ e. other (omega (arith, e)))

held_after :
    (i j : ℕ) (slots : Slots) (t : Bytes)
    → get_elem? slots i ≡ some (some t)
    → i ≢ j
    → get_elem? (clear j slots) i ≡ some (some t)
unfolding clear
held_after i j [] t h other = cc
held_after zero zero (s ∷ slots) t h other = absurd (other refl)
held_after zero (suc j) (s ∷ slots) t h other = h
held_after (suc i) zero (s ∷ slots) t h other = h
held_after (suc i) (suc j) (s ∷ slots) t h other = held_after i j slots t h (λ e. other (ap suc e))

-- Every thread of the list holds its slot.
pub Holds-IsHeld :
    (before : List Watcher) (w : Watcher) (after : List Watcher) (slots : Slots)
    → Holds (before ++ w ∷ after) slots
    → IsHeld slots w
Holds-IsHeld [] w after slots (h, hs) = h
Holds-IsHeld (v ∷ before) w after slots (h, hs) =
    (held_before w.place v.place slots w.entry
      (Holds-IsHeld before w after (clear v.place slots) hs)).0

-- A thread that leaves frees its slot, and the others keep theirs.
pub Holds-leave :
    (before : List Watcher) (w : Watcher) (after : List Watcher) (slots : Slots)
    → Holds (before ++ w ∷ after) slots
    → Holds (before ++ after) (clear w.place slots)
Holds-leave [] w after slots (h, hs) = hs
Holds-leave (v ∷ before) w after slots (h, hs) =
    let (held, other) =
      held_before w.place v.place slots w.entry
        (Holds-IsHeld before w after (clear v.place slots) hs) in
    let rest = Holds-leave before w after (clear v.place slots) hs in
    (
      held_after v.place w.place slots v.entry h (λ e. other (sym e)),
      rw (clear_commute v.place w.place slots) rest,
    )

pub register-held :
    (max : ℕ) (slots : Slots) (t : Bytes) (i : ℕ)
    → (register max slots t).1 ≡ some i
    → get_elem? (register max slots t).0 i ≡ some (some t)
unfolding register
register-held zero slots t i h = cc
register-held (suc max) [] t i h = cc
register-held (suc max) (none ∷ slots) t zero h = refl
register-held (suc max) (none ∷ slots) t (suc i) h = cc
register-held (suc max) (some u ∷ slots) t i h =
    let (j, found, next) = map-suc (register max slots t).1 i h in
    rw next (register-held max slots t j found)

pub register-refused :
    (max : ℕ) (slots : Slots) (t : Bytes)
    → (register max slots t).1 ≡ none
    → (register max slots t).0 ≡ slots
unfolding register
register-refused zero slots t h = refl
register-refused (suc max) [] t h = refl
register-refused (suc max) (none ∷ slots) t h = cc
register-refused (suc max) (some u ∷ slots) t h =
    ap (λ r. some u ∷ r) (register-refused max slots t (map-none (register max slots t).1 h))
