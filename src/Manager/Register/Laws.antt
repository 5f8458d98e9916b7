-- ===== src/Manager/Register/Laws.antt =====
-- Registration and clearing, on slots.
use mathlib.Core.Option as Option
use net_radio.Common.{
  ℕ, zero, suc, ◌<◌, ◌≡◌, refl, ap, Option, none, some, List, [], ◌∷◌, Bytes, length, arith,
}
use net_radio.Manager.Register.Slots.{Slots, register, clear, Refines}

pub length-Refines :
    (rows : List Bytes) (slots : Slots) → Refines rows slots → length rows ≡ length slots
length-Refines [] [] r = refl
length-Refines [] (s ∷ slots) r = absurd r
length-Refines (row ∷ rows) [] r = absurd r
length-Refines (row ∷ rows) (s ∷ slots) (h, r) = ap suc (length-Refines rows slots r)

-- A place behind the first slot.
pub map-suc :
    (place : Option ℕ) (i : ℕ)
    → Option.map suc place ≡ some i
    → (j : ℕ) × (place ≡ some j) × (i ≡ suc j)
map-suc none i h = cc
map-suc (some j) i h = (j, refl, cc)

pub map-none : (place : Option ℕ) → Option.map suc place ≡ none → place ≡ none
map-none none h = refl
map-none (some j) h = cc

-- The place of a registration is one of the first `max` slots.
pub register-lt :
    (max : ℕ) (slots : Slots) (t : Bytes) (i : ℕ)
    → (register max slots t).1 ≡ some i
    → (i < max) × (i < length (register max slots t).0)
unfolding register
register-lt zero slots t i h = cc
register-lt (suc max) [] t i h = cc
register-lt (suc max) (none ∷ slots) t i h =
    let first : 0 ≡ i = cc in (omega (arith, first), omega (arith, first))
register-lt (suc max) (some u ∷ slots) t i h =
    let (j, found, next) = map-suc (register max slots t).1 i h in
    let (in_max, in_slots) = register-lt max slots t j found in
    (omega (arith, next, in_max), omega (arith, next, in_slots))

-- A broadcaster that is cleared leaves the slots as they were before its registration.
pub clear-register :
    (max : ℕ) (slots : Slots) (t : Bytes) (i : ℕ)
    → (register max slots t).1 ≡ some i
    → clear i (register max slots t).0 ≡ slots
unfolding register clear
clear-register zero slots t i h = cc
clear-register (suc max) [] t i h = cc
clear-register (suc max) (none ∷ slots) t zero h = refl
clear-register (suc max) (none ∷ slots) t (suc i) h = cc
clear-register (suc max) (some u ∷ slots) t i h =
    let (j, found, next) = map-suc (register max slots t).1 i h in
    rw next (rw (clear-register max slots t j found))

pub length-register :
    (max : ℕ) (slots : Slots) (t : Bytes) → length (register max slots t).0 ≡ length slots
unfolding register
length-register zero slots t = refl
length-register (suc max) [] t = refl
length-register (suc max) (none ∷ slots) t = refl
length-register (suc max) (some u ∷ slots) t = ap suc (length-register max slots t)

pub length-clear : (i : ℕ) (slots : Slots) → length (clear i slots) ≡ length slots
unfolding clear
length-clear i [] = refl
length-clear zero (s ∷ slots) = refl
length-clear (suc i) (s ∷ slots) = ap suc (length-clear i slots)
