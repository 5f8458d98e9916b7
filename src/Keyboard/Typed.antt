-- ===== src/Keyboard/Typed.antt =====
-- Lines that are typed, as the client reads and cuts them.
use net_radio.Common.{
  ℕ, zero, suc, ◌+◌, ◌-◌, ◌≤◌, ◌<◌, ◌≡◌, ◌≢◌, refl, ap, ◌∙◌, false, ◌==◌, Option, none, some, [],
  ◌∷◌, ◌++◌, append_assoc, Bytes, All, length, length-append, take, drop, arith,
}
use net_radio.Memory.{poke, memmove}
use net_radio.Memory.Strings.{poke-append, memmove-append}
use net_radio.Keyboard.Run.{World, ◌>>=◌, read_line, fgets, fgets_line}
use net_radio.Keyboard.Streamer.{newline_below, newline}

-- No newline among the bytes.
abbrev pub IsLine : Bytes → Type 0
IsLine = All (λ b. b ≢ b'\n')

read_line-append :
    (n : ℕ) (l rest : Bytes)
    → IsLine l
    → length l < n
    → read_line n (l ++ b'\n' ∷ rest) ≡ (l ++ b'\n' ∷ [], rest)
unfolding read_line
read_line-append zero l rest h room = absurd (omega arith)
read_line-append (suc n) [] rest h room = refl
read_line-append (suc n) (c ∷ l) rest (hc, hl) room =
    ground (arith, read_line-append n l rest hl (omega arith))

-- The world behind a line that is read.
abbrev pub after_line : Bytes → World → World
after_line rest w = record w { stdin = rest }

-- The line and its '\0' at the front of the array.
memmove-line :
    (l m : Bytes)
    → length l + 2 ≤ length m
    → memmove 0 ((l ++ b'\n' ∷ []) ++ 0 ∷ []) m ≡ some (l ++ b'\n' ∷ 0 ∷ drop (length l + 2) m)
memmove-line l m room =
    let t = l ++ b'\n' ∷ 0 ∷ [] in
    let len : length t ≡ length l + 2 = length-append l (b'\n' ∷ 0 ∷ []) in
    ap (λ s. memmove 0 s m) (append_assoc l _ _)
    ∙ memmove-append t [] m (omega arith)
    ∙ ap some (append_assoc l _ _ ∙ ap (λ n. l ++ b'\n' ∷ 0 ∷ drop n m) len)

-- The end of the input.
pub fgets-end : (m : Bytes) (size : ℕ) (w : World) → w.stdin ≡ [] → fgets m size w ≡ some (none, w)
unfolding fgets
fgets-end m size w ended =
    ap
      (λ s. elim s as (λ x. Option (Option Bytes × World)) [
        | [] ↦ some (none, w)
        | c ∷ s1 ↦
            let line = read_line (size - 1) (c ∷ s1) in
            elim (memmove 0 (line.0 ++ 0 ∷ []) m) [
              | none ↦ none
              | some m1 ↦ some (some m1, record w { stdin = line.1 })
            ]
      ])
      ended

-- A line in the array, with its newline and '\0'.
pub fgets-line :
    (m l rest : Bytes) (size : ℕ) (w : World)
    → w.stdin ≡ l ++ b'\n' ∷ rest
    → IsLine l
    → length l + 2 ≤ size
    → size ≤ length m
    → fgets m size w ≡ some (some (l ++ b'\n' ∷ 0 ∷ drop (length l + 2) m), after_line rest w)
unfolding fgets
fgets-line m [] rest size w typed h fits room =
    let got = read_line-append (size - 1) [] rest tt (omega arith) in
    rw (typed, fgets)
      (rw (got, memmove-line [] m (omega arith))
        (ap (λ r. some (some ([] ++ b'\n' ∷ 0 ∷ drop 2 m), record w { stdin = r }))
          (ap (λ p. p.1) got)))
fgets-line m (c ∷ l) rest size w typed h fits room =
    let got = read_line-append (size - 1) (c ∷ l) rest h (omega arith) in
    rw (typed, fgets)
      (rw (got, memmove-line (c ∷ l) m (omega arith))
        (ap
          (λ r.
            some
              (some ((c ∷ l) ++ b'\n' ∷ 0 ∷ drop (length (c ∷ l) + 2) m), record w { stdin = r }))
          (ap (λ p. p.1) got)))

pub newline_below-append :
    (limit : ℕ) (l r : Bytes)
    → IsLine l
    → newline_below limit (l ++ b'\n' ∷ r) ≡ some (length (take limit l))
unfolding newline_below
newline_below-append zero [] r h = refl
newline_below-append zero (c ∷ l) r h = refl
newline_below-append (suc limit) [] r h = refl
newline_below-append (suc limit) (c ∷ l) r (hc, hl) =
    ground (arith, newline_below-append limit l r hl)

pub newline-append : (l r : Bytes) → IsLine l → newline (l ++ b'\n' ∷ r) ≡ some (length l)
unfolding newline
newline-append [] r h = refl
newline-append (c ∷ l) r (hc, hl) = ground (arith, newline-append l r hl)

-- The byte behind the first `n` ones is overwritten.
pub poke-take :
    (n v x : ℕ) (l r : Bytes)
    → poke (length (take n l)) v (l ++ x ∷ r)
      ≡ some (take n l ++ v ∷ (drop (suc (length (take n l))) (l ++ x ∷ r)))
unfolding poke
poke-take zero v x [] r = refl
poke-take zero v x (c ∷ l) r = refl
poke-take (suc n) v x [] r = refl
poke-take (suc n) v x (c ∷ l) r = rw (poke-take n v x l r) refl

pub fgets_line-line :
    (m l rest : Bytes) (size : ℕ) (w : World)
    → w.stdin ≡ l ++ b'\n' ∷ rest
    → IsLine l
    → length l + 2 ≤ size
    → size ≤ length m
    → fgets_line m size w ≡ some (l ++ b'\n' ∷ 0 ∷ drop (length l + 2) m, after_line rest w)
unfolding fgets_line
fgets_line-line m l rest size w typed h fits room =
    rw (fgets-line m l rest size w typed h fits room, ◌>>=◌) refl

pub no_newline : (c : ℕ) → c ≢ b'\n' → (c == b'\n') ≡ false
no_newline c h = ground arith

-- A line is cut behind its first characters.
pub poke-end :
    (s more r : Bytes)
    → (rest : Bytes) × (poke (length s) 0 (s ++ (more ++ b'\n' ∷ r)) ≡ some (s ++ 0 ∷ rest))
poke-end s [] r = (r, poke-append s b'\n' 0 r)
poke-end s (c ∷ more) r = (more ++ b'\n' ∷ r, poke-append s c 0 (more ++ b'\n' ∷ r))
