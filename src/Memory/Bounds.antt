-- ===== src/Memory/Bounds.antt =====
-- Accesses inside an array, and past its end.
use net_radio.Common.{
  ℕ, zero, suc, ◌+◌, ◌≤◌, ◌<◌, ◌≡◌, refl, ap, inl, inr, Bool-cases, ltb, >>=-eq-some, none, some,
  [], ◌∷◌, ◌++◌, Bytes, length, arith,
}
use net_radio.Memory.{poke, memmove}

pub length-poke : (i v : ℕ) (m : Bytes) {m1 : Bytes} → poke i v m ≡ some m1 → length m1 ≡ length m
unfolding poke
length-poke i v [] h = cc
length-poke zero v (x ∷ m) {m1} h = let same : m1 ≡ v ∷ m = ground arith in rw same refl
length-poke (suc i) v (x ∷ m) {m1} h =
    let (m2, found, e) = >>=-eq-some (poke i v m) _ h in
    let same : m1 ≡ x ∷ m2 = ground arith in rw same (ap suc (length-poke i v m found))

pub poke-overflow : (i v : ℕ) (m : Bytes) → length m ≤ i → poke i v m ≡ none
unfolding poke
poke-overflow i v [] h = refl
poke-overflow zero v (x ∷ m) h = absurd (omega arith)
poke-overflow (suc i) v (x ∷ m) h = rw (poke-overflow i v m (omega arith)) refl

pub poke-total : (i v : ℕ) (m : Bytes) → i < length m → (m1 : Bytes) × (poke i v m ≡ some m1)
unfolding poke
poke-total i v [] h = absurd (omega arith)
poke-total zero v (x ∷ m) h = (v ∷ m, refl)
poke-total (suc i) v (x ∷ m) h = let (m1, e) = poke-total i v m (omega arith) in (x ∷ m1, rw e refl)

-- A run of bytes that goes past the end of the array.
pub memmove-fault :
    (i : ℕ) (a m : Bytes) → i ≤ length m → length m < i + length a → memmove i a m ≡ none
unfolding memmove
memmove-fault i [] m inside over = absurd (omega arith)
memmove-fault i (b ∷ a) m inside over = elim (Bool-cases (ltb i (length m))) [
  | inr e ↦ rw (poke-overflow i b m (ground arith)) refl
  | inl e ↦
      let within : i < length m = ground arith in
      let (m1, stored) = poke-total i b m within in
      let same = length-poke i b m stored in
      rw stored (memmove-fault (suc i) a m1 (omega arith) (omega arith))
]

-- A '\0' behind the text leaves the text.
pub poke-behind :
    (s r : Bytes) (i : ℕ)
    → length s ≤ i
    → i < length (s ++ 0 ∷ r)
    → (r1 : Bytes) × (poke i 0 (s ++ 0 ∷ r) ≡ some (s ++ 0 ∷ r1))
unfolding poke
poke-behind [] r zero behind inside = (r, refl)
poke-behind [] r (suc i) behind inside =
    let (r1, e) = poke-total i 0 r (omega arith) in (r1, rw e refl)
poke-behind (c ∷ s) r zero behind inside = absurd (omega arith)
poke-behind (c ∷ s) r (suc i) behind inside =
    let (r1, e) = poke-behind s r i (omega arith) (omega arith) in (r1, rw e refl)
