-- ===== src/Manager/Monitor/Watching.antt =====
-- How long `monitor_rounds` watches.
use net_radio.Common.{
  Option, ◌||◌, ltb, ◌>>=◌, utf8, append_assoc, drop-append_of_le, Bool-cases, inl, inr, ℕ, ◌≤◌,
  ◌<◌, ◌≡◌, refl, sym, Bool, true, false, ◌&&◌, some, List, [], ◌∷◌, ◌++◌, Bytes, if◌then◌else◌,
  length, length-append, length-drop, drop, codes, arith,
}
use net_radio.Manager.Register.{Register}
use net_radio.Manager.Register.Slots.{Slots, clear, Refines}
use net_radio.Manager.Register.Refines.{clear_canary-Refines}
use net_radio.Manager.Monitor.{
  verbose_print_message, end_watch, monitor_broadcaster, bufsize, Received, failed, bytes, Round,
  Watch, watching, gone, receive, monitor_round, monitor_rounds,
}
use net_radio.Manager.Monitor.Printed.{
  has_end, is_safe, has_end-append, has_end-append_left, verbose_print_message-end,
}
use net_radio.Manager.Monitor.Answers.{passes, over_ruok, ruok-buf, monitor_round-answer}

-- `recv` gives at most as many bytes as the buffer holds. In the verbose mode they are to hold a
-- '\0', or to leave the one behind the RUOK, at index 6.
abbrev pub Fits : (verbose : Bool) → Received → Type 0
Fits verbose failed = Unit
Fits verbose (bytes bs) = (length bs ≤ bufsize) × ((is_safe verbose bs || ltb (length bs) 7) ≡ true)

abbrev pub AllFit : (verbose : Bool) → List Round → Type 0
AllFit verbose [] = Unit
AllFit verbose (r ∷ rounds) = Fits verbose r.answer × AllFit verbose rounds

unfoldable pub answer_passes : Received → Bool
answer_passes failed = false
answer_passes (bytes []) = false
answer_passes (bytes (b ∷ bs)) = passes (b ∷ bs)

-- Every RUOK was sent, and every answer passes.
unfoldable pub survives : List Round → Bool
unfolding answer_passes
survives [] = true
survives (r ∷ rounds) = (r.sent && answer_passes r.answer) && survives rounds

abbrev pub is_watching : Watch → Bool
is_watching (watching buf) = true
is_watching gone = false

-- What a round leaves.
abbrev Stands : Watch → Bool → Type 0
Stands (watching buf) ok = (length buf ≡ bufsize) × (ok ≡ true)
Stands gone ok = ok ≡ false

length-over_ruok :
    (a msg_buf : Bytes)
    → length msg_buf ≡ bufsize
    → length a ≤ bufsize
    → length (over_ruok a msg_buf) ≡ bufsize
length-over_ruok a msg_buf size fits =
    let sent = codes "RUOK\r\n" ++ 0 ∷ drop 7 msg_buf in
    omega (
      arith,
      length-append a (drop (length a) sent),
      length-drop (length a) sent,
      length-drop 7 msg_buf,
    )

over_ruok-is_safe :
    (verbose : Bool) (a msg_buf : Bytes)
    → (is_safe verbose a || ltb (length a) 7) ≡ true
    → is_safe verbose (over_ruok a msg_buf) ≡ true
unfolding is_safe
over_ruok-is_safe false a msg_buf h = refl
over_ruok-is_safe true a msg_buf h = elim (Bool-cases (has_end a)) [
  | inl e ↦ has_end-append_left a _ e
  | inr e ↦
      let short = rw e at h in
      let sent = codes "RUOK\r\n" in
      let behind = 0 ∷ drop 7 msg_buf in
      rw (drop-append_of_le (length a) sent behind (ground arith)) (
        rw (← append_assoc a (drop (length a) sent) behind)
          (has_end-append (a ++ drop (length a) sent) (drop 7 msg_buf)))
]

receive-Stands :
    (msg_buf : Bytes) (ok : Bool) (a : Bytes)
    → length a ≡ bufsize
    → Stands (if ok then watching a else gone) ok
receive-Stands msg_buf true a size = (size, refl)
receive-Stands msg_buf false a size = refl

ruok-printed {ℓ} :
    {A : Type ℓ} (verbose : Bool) (msg_buf : Bytes) (next : Option A)
    → (verbose_print_message verbose
          (utf8 "Message envoyé : ")
          (codes "RUOK\r\n" ++ 0 ∷ drop 7 msg_buf)
        >>= λ printed. next)
      ≡ next
ruok-printed verbose msg_buf next =
    verbose_print_message-end verbose (utf8 "Message envoyé : ")
      (codes "RUOK\r\n" ++ 0 ∷ drop 7 msg_buf) next
      (has_end-append (codes "RUOK\r\n") (drop 7 msg_buf))

monitor_round-Stands :
    (verbose : Bool) (msg_buf : Bytes) (sent : Bool) (answer : Received)
    → length msg_buf ≡ bufsize
    → Fits verbose answer
    → (w : Watch) × (monitor_round verbose msg_buf (record { sent = sent; answer = answer })
        ≡ some w)
      × Stands w (sent && answer_passes answer)
unfolding monitor_round receive answer_passes
monitor_round-Stands verbose msg_buf false answer size fits =
    (gone, rw (ruok-buf msg_buf size) (ruok-printed verbose msg_buf _), refl)
monitor_round-Stands verbose msg_buf true failed size fits =
    (gone, rw (ruok-buf msg_buf size) (ruok-printed verbose msg_buf _), refl)
monitor_round-Stands verbose msg_buf true (bytes []) size fits =
    (gone, rw (ruok-buf msg_buf size) (ruok-printed verbose msg_buf _), refl)
monitor_round-Stands verbose msg_buf true (bytes (b ∷ bs)) size (fits, safe) =
    let after = over_ruok (b ∷ bs) msg_buf in
    (
      _,
      rw (monitor_round-answer verbose msg_buf b bs size fits)
          (rw (over_ruok-is_safe verbose (b ∷ bs) msg_buf safe) refl),
      receive-Stands msg_buf (passes (b ∷ bs)) after (length-over_ruok (b ∷ bs) msg_buf size fits),
    )

after_round :
    (verbose : Bool) (msg_buf : Bytes) (r : Round) (rounds : List Round) (w : Watch)
    → monitor_round verbose msg_buf r ≡ some w
    → Stands w (r.sent && answer_passes r.answer)
    → ((buf : Bytes)
        → length buf ≡ bufsize
        → (w1 : Watch) × (monitor_rounds verbose buf rounds ≡ some w1)
          × (is_watching w1 ≡ survives rounds))
    → (w1 : Watch) × (monitor_rounds verbose msg_buf (r ∷ rounds) ≡ some w1)
      × (is_watching w1 ≡ survives (r ∷ rounds))
unfolding monitor_rounds survives
after_round verbose msg_buf r rounds (watching buf) run (size, ok) ih =
    let (w1, run1, same) = ih buf size in (w1, rw run run1, rw ok same)
after_round verbose msg_buf r rounds gone run lost ih = (gone, rw run, rw lost)

-- The loop never leaves its buffer, and goes on exactly if the rounds are survived.
monitor_rounds-survives :
    (verbose : Bool) (msg_buf : Bytes) (rounds : List Round)
    → length msg_buf ≡ bufsize
    → AllFit verbose rounds
    → (w : Watch) × (monitor_rounds verbose msg_buf rounds ≡ some w)
      × (is_watching w ≡ survives rounds)
unfolding monitor_rounds survives
monitor_rounds-survives verbose msg_buf [] size fit = (watching msg_buf, refl, refl)
monitor_rounds-survives verbose msg_buf (r ∷ rounds) size (fits, fit) =
    let (w, run, stands) = monitor_round-Stands verbose msg_buf r.sent r.answer size fits in
    after_round verbose msg_buf r rounds w run stands
      (λ buf size1. monitor_rounds-survives verbose buf rounds size1 fit)

-- The slots behind a watch of slot `place`.
unfoldable pub watched : ℕ → Slots → Bool → Slots
watched place slots true = slots
watched place slots false = clear place slots

end_watch-watched :
    (rows : Register) (slots : Slots) (place : ℕ) (w : Watch)
    → place < length rows
    → Refines rows slots
    → (rows1 : Register) × (end_watch rows place w ≡ some (rows1, w))
      × Refines rows1 (watched place slots (is_watching w))
unfolding end_watch watched
end_watch-watched rows slots place (watching buf) inside r = (rows, refl, r)
end_watch-watched rows slots place gone inside r =
    let (rows1, run, r1) = clear_canary-Refines place rows slots inside r in (rows1, rw run, r1)

-- `monitor_broadcaster` still watches after the given rounds exactly if the timeout was set, every
-- RUOK was sent and every answer passes. As long as it watches, the register stands for the same
-- slots; otherwise the slot of its row is free, and no other slot has changed. No access is outside an
-- array. The row is one of the register, the buffer has its 512 bytes, no answer has more, and in the
-- verbose mode every answer has at most 6 bytes or holds a '\0'.
pub monitor_broadcaster-survives :
    (verbose : Bool) (rows : Register) (slots : Slots) (place : ℕ) (msg_buf : Bytes)
    (timeout_set : Bool) (rounds : List Round)
    → place < length rows
    → Refines rows slots
    → length msg_buf ≡ bufsize
    → AllFit verbose rounds
    → (rows1 : Register) × (w : Watch) × (monitor_broadcaster verbose rows place msg_buf timeout_set
          rounds
        ≡ some (rows1, w))
      × (is_watching w ≡ (timeout_set && survives rounds))
      × Refines rows1 (watched place slots (timeout_set && survives rounds))
unfolding monitor_broadcaster
monitor_broadcaster-survives verbose rows slots place msg_buf true rounds inside r size fit =
    let (w, run, same) = monitor_rounds-survives verbose msg_buf rounds size fit in
    let (rows1, end, r1) = end_watch-watched rows slots place w inside r in
    (rows1, w, rw (run, end), same, rw (sym same) r1)
monitor_broadcaster-survives verbose rows slots place msg_buf false rounds inside r size fit =
    let (rows1, end, r1) = end_watch-watched rows slots place gone inside r in
    (rows1, gone, end, refl, r1)
