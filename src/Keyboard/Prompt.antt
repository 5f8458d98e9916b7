-- ===== src/Keyboard/Prompt.antt =====
-- The loops of `main`: the pseudonym, and the dialogues until the user leaves.
use net_radio.Common.{
  ◌≢◌, length-append, ==-eq_true, ◌∙◌, ℕ, zero, suc, ◌+◌, ◌≤◌, ◌<◌, ◌≡◌, refl, ap, inl, inr, ◌⊎◌,
  true, false, Bool-cases, ◌==◌, none, some, [], ◌∷◌, ◌++◌, Bytes, replicate, length, length-drop,
  take, drop, arith,
}
use net_radio.Memory.{memmove}
use net_radio.Keyboard.Run.{World, Run, pure, ◌>>=◌, read_line, fgets, fgets_line}
use net_radio.Keyboard.Main.{Fueled, done, read_pseudo, cut_pseudo}
use net_radio.Memory.Strings.{memmove-append}
use net_radio.Keyboard.Typed.{
  fgets-end, IsLine, after_line, fgets_line-line, newline_below-append, poke-take, no_newline,
}

-- Empty lines, and then one that is not.
pub read_pseudo-line :
    (k fuel : ℕ) (p l rest : Bytes) (w : World)
    → k < fuel
    → length p ≡ 512
    → 0 < length l
    → length l + 2 ≤ 512
    → IsLine l
    → w.stdin ≡ replicate k b'\n' ++ (l ++ b'\n' ∷ rest)
    → (q : Bytes) × (read_pseudo fuel p w ≡ some (done (l ++ b'\n' ∷ q), after_line rest w))
unfolding read_pseudo
read_pseudo-line k zero p l rest w more size some_char fits h typed = absurd (omega arith)
read_pseudo-line zero (suc fuel) p [] rest w more size some_char fits h typed = absurd (omega arith)
read_pseudo-line zero (suc fuel) p (c ∷ l) rest w more size some_char fits h typed =
    let (other, _) = h in
    let q = 0 ∷ drop (length (c ∷ l) + 2) p in
    let line = c ∷ l ++ b'\n' ∷ q in
    (
      q,
      rw (fgets_line-line p (c ∷ l) rest 512 w typed h fits (omega arith), ◌>>=◌)
          (ap
            (λ b.
              (elim b as (λ x. Run (Fueled Bytes)) [
                | true ↦ read_pseudo fuel line
                | false ↦ pure (done line)
              ])
                (after_line rest w))
            (no_newline c other)),
    )
read_pseudo-line (suc k) (suc fuel) p l rest w more size some_char fits h typed =
    let behind = replicate k b'\n' ++ (l ++ b'\n' ∷ rest) in
    let p1 = b'\n' ∷ 0 ∷ drop 2 p in
    let (q, run) =
      read_pseudo-line k fuel p1 l rest (after_line behind w) (omega arith)
        (omega (arith, length-drop 2 p)) some_char fits h refl in
    (q, rw (fgets_line-line p [] behind 512 w typed tt (omega arith) (omega arith), ◌>>=◌) run)

-- The name is cut behind 9 characters.
pub cut_pseudo-take :
    (l q : Bytes) (w : World)
    → IsLine l
    → (r : Bytes) × (cut_pseudo (l ++ b'\n' ∷ q) w ≡ some (take 9 l ++ 0 ∷ r, w))
unfolding cut_pseudo
cut_pseudo-take l q w h = (
  drop (suc (length (take 9 l))) (l ++ b'\n' ∷ q),
  rw (newline_below-append 9 l q h, ◌>>=◌) (rw (poke-take 9 0 b'\n' l q, ◌>>=◌) refl),
)

-- The pseudonym that the program takes: after any number `k` of empty lines, the loop reads the first
-- line with a character, for every fuel of more than `k` rounds, and keeps its first 9 characters. That
-- line fits in the array, which has its 512 bytes.
pub read_pseudo-cut_pseudo :
    (k fuel : ℕ) (p l rest : Bytes) (w : World)
    → k < fuel
    → length p ≡ 512
    → 0 < length l
    → length l + 2 ≤ 512
    → IsLine l
    → w.stdin ≡ replicate k b'\n' ++ (l ++ b'\n' ∷ rest)
    → (line : Bytes) × (r : Bytes) × (read_pseudo fuel p w ≡ some (done line, after_line rest w))
      × (cut_pseudo line (after_line rest w) ≡ some (take 9 l ++ 0 ∷ r, after_line rest w))
read_pseudo-cut_pseudo k fuel p l rest w more size some_char fits h typed =
    let (q, run) = read_pseudo-line k fuel p l rest w more size some_char fits h typed in
    let (r, cut) = cut_pseudo-take l q (after_line rest w) h in (l ++ b'\n' ∷ q, r, run, cut)

pub fgets_line-end : (p : Bytes) (w : World) → w.stdin ≡ [] → fgets_line p 512 w ≡ none
unfolding fgets_line
fgets_line-end p w ended = rw (fgets-end p 512 w ended, ◌>>=◌) refl

length-read_line_text : (n : ℕ) (s : Bytes) → length (read_line n s).0 ≤ n
unfolding read_line
length-read_line_text zero s = omega arith
length-read_line_text (suc n) [] = omega arith
length-read_line_text (suc n) (c ∷ s) = elim (Bool-cases (c == b'\n')) [
  | inl e ↦ rw e (omega arith)
  | inr e ↦ rw e (let less = length-read_line_text n s in omega arith)
]

read_line-cons :
    (n c : ℕ) (s : Bytes)
    → c ≢ b'\n'
    → read_line (suc n) (c ∷ s) ≡ (c ∷ (read_line n s).0, (read_line n s).1)
unfolding read_line
read_line-cons n c s other = rw (no_newline c other) refl

-- A line that begins with another character is read into the front of the array, as far as it fits.
fgets_line-cons :
    (p : Bytes) (c : ℕ) (s : Bytes) (w : World)
    → length p ≡ 512
    → w.stdin ≡ c ∷ s
    → c ≢ b'\n'
    → (line : Bytes) × (fgets_line p 512 w
        ≡ some (c ∷ line, after_line (read_line 511 (c ∷ s)).1 w))
unfolding fgets_line fgets
fgets_line-cons p c s w size typed other =
    let t = (read_line 510 s).0 ++ 0 ∷ [] in
    let fits : length (c ∷ t) ≤ length p =
      omega (arith, length-append (read_line 510 s).0 (0 ∷ []), length-read_line_text 510 s) in
    let read = read_line-cons 510 c s other in
    let written : memmove 0 ((read_line 511 (c ∷ s)).0 ++ 0 ∷ []) p
        ≡ some (c ∷ t ++ drop (length (c ∷ t)) p) =
      ap (λ l. memmove 0 (l.0 ++ 0 ∷ []) p) read ∙ memmove-append (c ∷ t) [] p fits in
    (t ++ drop (length (c ∷ t)) p, rw (typed, fgets_line, ◌>>=◌, fgets) (rw written refl))

-- How the loop ends.
abbrev Taken : (fuel : ℕ) → Bytes → World → Type 0
Taken fuel p w =
    ((k : ℕ) × (w.stdin ≡ replicate k b'\n') × (read_pseudo fuel p w ≡ none))
    ⊎ ((k c : ℕ) × (rest line : Bytes) × (w.stdin ≡ replicate k b'\n' ++ c ∷ rest)
        × (c ≢ b'\n')
        × (read_pseudo fuel p w
            ≡ some (done (c ∷ line), after_line (read_line 511 (c ∷ rest)).1 w)))

pseudo_of :
    (fuel : ℕ) (p : Bytes) (w : World)
    → ((q : Bytes) (w1 : World) → length q ≡ 512 → length w1.stdin < fuel → Taken fuel q w1)
    → (s : Bytes) → length p ≡ 512
    → length w.stdin < suc fuel
    → w.stdin ≡ s
    → Taken (suc fuel) p w
unfolding read_pseudo
pseudo_of fuel p w ih [] size more ended = inl (0, ended, rw (fgets_line-end p w ended, ◌>>=◌) refl)
pseudo_of fuel p w ih (c ∷ s) size more typed = elim (Bool-cases (c == b'\n')) [
  | inl e ↦
      let newline : c ≡ b'\n' = ==-eq_true c b'\n' e in
      let line = b'\n' ∷ 0 ∷ drop 2 p in
      let empty = typed ∙ ap (λ d. d ∷ s) newline in
      let less : length s < fuel = omega (arith, ap length typed) in
      let read = fgets_line-line p [] s 512 w empty tt (omega arith) (omega arith) in
      elim (ih line (after_line s w) (omega (arith, length-drop 2 p)) less) [
        | inl (k, only, fault) ↦
            inl (suc k, empty ∙ ap (λ r. b'\n' ∷ r) only, rw (read, ◌>>=◌) fault)
        | inr (k, d, rest, text, there, other, run) ↦
            inr
              (suc k, d, rest, text, empty ∙ ap (λ r. b'\n' ∷ r) there, other, rw (read, ◌>>=◌) run)
      ]
  | inr e ↦
      let other : c ≢ b'\n' = λ same. ground arith in
      let (line, read) = fgets_line-cons p c s w size typed other in
      inr (
        0,
        c,
        s,
        line,
        typed,
        other,
        rw (read, ◌>>=◌)
            (ap
              (λ b.
                (elim b as (λ x. Run (Fueled Bytes)) [
                  | true ↦ read_pseudo fuel (c ∷ line)
                  | false ↦ pure (done (c ∷ line))
                ])
                  (after_line (read_line 511 (c ∷ s)).1 w))
              (no_newline c other)),
      )
]

-- The loop that asks for the pseudonym comes to an end on every input, with fuel of more rounds than
-- the input has characters. If there are only empty lines it ends in a fault, at the end of the
-- input, by reading through the null pointer that `fgets` gives. Otherwise it takes a line that
-- begins with the first character that is no newline, and leaves what `fgets` leaves behind it. The
-- array has its 512 bytes.
pub read_pseudo-terminates :
    (fuel : ℕ) (p : Bytes) (w : World)
    → length p ≡ 512
    → length w.stdin < fuel
    → ((k : ℕ) × (w.stdin ≡ replicate k b'\n') × (read_pseudo fuel p w ≡ none))
      ⊎ ((k c : ℕ) × (rest line : Bytes) × (w.stdin ≡ replicate k b'\n' ++ c ∷ rest)
          × (c ≢ b'\n')
          × (read_pseudo fuel p w
              ≡ some (done (c ∷ line), after_line (read_line 511 (c ∷ rest)).1 w)))
read_pseudo-terminates zero p w size more = absurd (omega arith)
read_pseudo-terminates (suc fuel) p w size more =
    pseudo_of fuel p w (λ q w1 size1 more1. read_pseudo-terminates fuel q w1 size1 more1) w.stdin
      size more refl
