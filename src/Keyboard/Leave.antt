-- ===== src/Keyboard/Leave.antt =====
-- The loop of `main` over the dialogues: how the user leaves it, and what it does at the end of the input.
use net_radio.Common.{
  ℕ, zero, suc, ◌+◌, ◌≤◌, ◌<◌, ◌≡◌, ◌≢◌, refl, ap, ◌∙◌, inl, inr, true, false, Bool-cases, ◌&&◌,
  >>=-eq-some, ◌==◌, none, some, List, [], ◌∷◌, ◌++◌, Bytes, get_elem?, length, length-append,
  length-drop, drop, codes, utf8, arith,
}
use net_radio.Memory.{poke}
use net_radio.Client.{Setup}
use net_radio.Memory.Bounds.{poke-total, length-poke}
use net_radio.Keyboard.Run.{World, Run, pure, ◌>>=◌, fgets}
use net_radio.Keyboard.Streamer.{Arrays, interact_with_diff}
use net_radio.Keyboard.Main.{Fueled, done, out_of_fuel, dialogue, question}
use net_radio.Keyboard.Steps.{printed}
use net_radio.Keyboard.Prompt.{fgets_line-end}
use net_radio.Keyboard.Streamer.{communication_diff}
use net_radio.Keyboard.Typed.{IsLine, after_line, fgets-line, fgets-end}
use net_radio.Keyboard.Posted.{connected}

-- No connection comes about.
abbrev pub IsRefused : Setup → Type 0
IsRefused s = (s.address && s.socket && s.connected) ≡ false

abbrev pub AllRefused : World → Type 0
AllRefused w = (k : ℕ) → IsRefused (w.setups k)

interact_with_diff-refused :
    (p : Bytes) (a : Arrays) (w : World)
    → IsRefused (w.setups 0)
    → (t : Bytes) × (interact_with_diff p a w ≡ some (tt, printed t (connected w)))
unfolding interact_with_diff
interact_with_diff-refused p a w h =
    let up = w.setups 0 in
    elim (Bool-cases up.address) [
      | inr e ↦ (codes "Adress unvalid...\n", rw e refl)
      | inl e ↦ elim (Bool-cases up.socket) [
        | inr e1 ↦ (utf8 "Erreur lors de la création de la socket...\n", rw (e, e1) refl)
        | inl e1 ↦
            let e2 : up.connected ≡ false = rw (e, e1) at h in
            (codes "Erreur connect\n", rw (e, e1, e2) refl)
      ]
    ]

-- The first character of what is typed.
abbrev pub initial : Bytes → ℕ
initial [] = b'\n'
initial (c ∷ l) = c

first-poke : (i v : ℕ) (m m1 : Bytes) → poke (suc i) v m ≡ some m1 → get_elem? m1 0 ≡ get_elem? m 0
unfolding poke
first-poke i v [] m1 h = cc
first-poke i v (x ∷ m) m1 h =
    let (m2, found, e) = >>=-eq-some (poke i v m) _ h in
    let same : m1 ≡ x ∷ m2 = ground arith in rw same refl

-- The line in `next`, with a '\0' at its third byte.
next_line :
    (l next : Bytes)
    → length l + 2 ≤ 512
    → length next ≡ 512
    → (m : Bytes) × (poke 2 0 (l ++ b'\n' ∷ 0 ∷ drop (length l + 2) next) ≡ some m)
      × (get_elem? m 0 ≡ some (initial l))
      × (length m ≡ 512)
next_line l next fits size =
    let line = l ++ b'\n' ∷ 0 ∷ drop (length l + 2) next in
    let len : length line ≡ 512 = omega (
      arith,
      length-append l (b'\n' ∷ 0 ∷ drop (length l + 2) next),
      length-drop (length l + 2) next,
    ) in
    let (m, cut) = poke-total 2 0 line (omega arith) in
    (m, cut, first-poke 1 0 line m cut ∙ first_of l _, length-poke 2 0 line cut ∙ len)
  where
    first_of : (l1 r : Bytes) → get_elem? (l1 ++ b'\n' ∷ r) 0 ≡ some (initial l1)
    first_of [] r = refl
    first_of (c ∷ l1) r = refl

-- A round in which a line is typed.
pub round :
    (fuel : ℕ) (p next l rest : Bytes) (a : Arrays) (w w1 : World)
    → interact_with_diff p a w ≡ some (tt, w1)
    → w1.stdin ≡ l ++ b'\n' ∷ rest
    → IsLine l
    → length l + 2 ≤ 512
    → length next ≡ 512
    → (m : Bytes) × (length m ≡ 512)
      × (dialogue (suc fuel) p next a w
          ≡ (elim (initial l == b'q') as (λ x. Run (Fueled (Unit {0}))) [
            | true ↦ pure (done tt)
            | false ↦ dialogue fuel p m a
          ])
              (after_line rest (printed question w1)))
unfolding dialogue
round fuel p next l rest a w w1 e typed h fits size =
    let (m, cut, first, size1) = next_line l next fits size in
    let got = fgets-line next l rest 512 (printed question w1) typed h fits (omega arith) in
    (m, size1, rw (e, ◌>>=◌) (rw (got, ◌>>=◌) (rw (cut, ◌>>=◌) (rw (first, ◌>>=◌) refl))))

pub differ : (c : ℕ) → c ≢ b'q' → (c == b'q') ≡ false
differ c h = ground arith

-- The lines that are typed, and what stands behind them.
abbrev pub lines_before : List Bytes → Bytes → Bytes
lines_before [] rest = rest
lines_before (l ∷ ls) rest = l ++ b'\n' ∷ lines_before ls rest

-- A line that fits in its array and does not begin with 'q'.
pub record Stays (l : Bytes) : Type 0 where
  pub other : initial l ≢ b'q'
  pub is_line : IsLine l
  pub fits : length l + 2 ≤ 512

abbrev pub AllStay : List Bytes → Type 0
AllStay [] = Unit
AllStay (l ∷ ls) = Stays l × AllStay ls

quits-IsLine : (l : Bytes) → IsLine l → IsLine (b'q' ∷ l)
quits-IsLine l h = ((λ e. omega (arith, e)), h)

-- The user can always leave: with a broadcaster that refuses every connection, the loop of `main` ends
-- at the first line that begins with 'q', after one round for each line, and leaves what is typed
-- behind it unread. Any fuel of more rounds than there are lines before it is enough. The lines fit in
-- the array, which has its 512 bytes.
pub dialogue-leaves :
    (fuel : ℕ) (p next l rest : Bytes) (ls : List Bytes) (a : Arrays) (w : World)
    → length ls < fuel
    → AllRefused w
    → length next ≡ 512
    → AllStay ls
    → IsLine l
    → length l + 3 ≤ 512
    → w.stdin ≡ lines_before ls (b'q' ∷ l ++ b'\n' ∷ rest)
    → (w1 : World) × (dialogue fuel p next a w ≡ some (done tt, w1)) × (w1.stdin ≡ rest)
dialogue-leaves zero p next l rest ls a w more refused size stay h fits typed = absurd (omega arith)
dialogue-leaves (suc fuel) p next l rest [] a w more refused size stay h fits typed =
    let (t, run) = interact_with_diff-refused p a w (refused 0) in
    let w1 = printed t (connected w) in
    let (m, size1, ended) =
      round fuel p next (b'q' ∷ l) rest a w w1 run typed (quits-IsLine l h) (omega arith) size in
    (after_line rest (printed question w1), ended, refl)
dialogue-leaves (suc fuel) p next l rest (x ∷ ls) a w more refused size (hx, stay) h fits typed =
    let (t, run) = interact_with_diff-refused p a w (refused 0) in
    let w1 = printed t (connected w) in
    let behind = lines_before ls (b'q' ∷ l ++ b'\n' ∷ rest) in
    let (m, size1, on) = round fuel p next x behind a w w1 run typed hx.is_line hx.fits size in
    let other : (initial x == b'q') ≡ false = differ (initial x) hx.other in
    let (w2, ended, left) =
      dialogue-leaves fuel p m l rest ls a (after_line behind (printed question w1)) (omega arith)
        (λ k. refused (suc k)) size1 stay h fits refl in
    (w2, on ∙ rw other ended, left)

-- A round at the end of the input, in which the connection is refused.
round_at_end :
    (fuel x y z : ℕ) (p n : Bytes) (a : Arrays) (w : World)
    → x ≢ b'q'
    → w.stdin ≡ []
    → IsRefused (w.setups 0)
    → (t : Bytes) × (dialogue (suc fuel) p (x ∷ y ∷ z ∷ n) a w
        ≡ dialogue fuel p (x ∷ y ∷ 0 ∷ n) a (printed question (printed t (connected w))))
unfolding dialogue poke
round_at_end fuel x y z p n a w other ended refused =
    let (t, run) = interact_with_diff-refused p a w refused in
    let w1 = printed t (connected w) in
    let none_left : fgets (x ∷ y ∷ z ∷ n) 512 (printed question w1)
        ≡ some (none, printed question w1) =
      fgets-end (x ∷ y ∷ z ∷ n) 512 (printed question w1) ended in
    (
      t,
      rw (run, ◌>>=◌)
          (rw (none_left, ◌>>=◌)
            (ap
              (λ b.
                (elim b as (λ x. Run (Fueled (Unit {0}))) [
                  | true ↦ pure (done tt)
                  | false ↦ dialogue fuel p (x ∷ y ∷ 0 ∷ n) a
                ])
                  (printed question w1))
              (differ x other))),
    )

-- At the end of the input, with a broadcaster that refuses every connection, the loop of `main` never
-- ends, unless the array that is not read into begins with 'q': for every number of rounds there is
-- one more.
pub dialogue-endless :
    (fuel x y z : ℕ) (p n : Bytes) (a : Arrays) (w : World)
    → x ≢ b'q'
    → w.stdin ≡ []
    → AllRefused w
    → (w1 : World) × (dialogue fuel p (x ∷ y ∷ z ∷ n) a w ≡ some (out_of_fuel, w1))
unfolding dialogue
dialogue-endless zero x y z p n a w other ended refused = (w, refl)
dialogue-endless (suc fuel) x y z p n a w other ended refused =
    let (t, on) = round_at_end fuel x y z p n a w other ended (refused 0) in
    let (w2, more) =
      dialogue-endless fuel x y 0 p n a (printed question (printed t (connected w))) other ended
        (λ k. refused (suc k)) in
    (w2, on ∙ more)

-- The connection comes about.
abbrev pub IsAccepted : Setup → Type 0
IsAccepted s = (s.address ≡ true) × (s.socket ≡ true) × (s.connected ≡ true)

interact_with_diff-at_end :
    (p : Bytes) (a : Arrays) (w : World)
    → w.stdin ≡ []
    → IsAccepted (w.setups 0)
    → interact_with_diff p a w ≡ none
unfolding interact_with_diff communication_diff
interact_with_diff-at_end p a w ended (address, socket, accepted) =
    let w1 = printed (codes "Vous pouvez faire ces actions : MESS ou LAST\n") (connected w) in
    rw (address, socket, accepted)
      (rw (fgets_line-end a.mes_type w1 ended, communication_diff, ◌>>=◌) refl)

-- At the end of the input the first connection that comes about is a fault, by reading through the null
-- pointer that `fgets` gives: the `k` connections before it are refused, and there is fuel for more
-- than `k` rounds. The array that is not read into does not begin with 'q'.
pub dialogue-fault :
    (k fuel x y z : ℕ) (p n : Bytes) (a : Arrays) (w : World)
    → k < fuel
    → x ≢ b'q'
    → w.stdin ≡ []
    → ((j : ℕ) → j < k → IsRefused (w.setups j))
    → IsAccepted (w.setups k)
    → dialogue fuel p (x ∷ y ∷ z ∷ n) a w ≡ none
unfolding dialogue
dialogue-fault k zero x y z p n a w more other ended refused accepted = absurd (omega arith)
dialogue-fault zero (suc fuel) x y z p n a w more other ended refused accepted =
    rw (interact_with_diff-at_end p a w ended accepted, ◌>>=◌) refl
dialogue-fault (suc k) (suc fuel) x y z p n a w more other ended refused accepted =
    let (t, on) = round_at_end fuel x y z p n a w other ended (refused 0 (omega arith)) in
    on
    ∙ dialogue-fault k fuel x y 0 p n a (printed question (printed t (connected w))) (omega arith)
        other ended (λ j less. refused (suc j) (omega arith)) accepted
