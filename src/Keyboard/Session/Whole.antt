-- ===== src/Keyboard/Session/Whole.antt =====
-- The session as a whole.
use net_radio.Common.{
  ℕ, zero, suc, ◌+◌, ◌≤◌, ◌<◌, ◌≡◌, ◌≢◌, refl, ◌∙◌, All-take, some, List, [], ◌∷◌, ◌++◌,
  append_assoc, Bytes, map, pos, length, replicate, take, arith, utf8,
}
use net_radio.Memory.Strings.{IsText}
use net_radio.Keyboard.Run.{World, ◌>>=◌}
use net_radio.Keyboard.Main.{
  Globals, Buffers, done, question, dialogue, run_streamer, keyboard_main,
}
use net_radio.Keyboard.Steps.{printed}
use net_radio.Keyboard.Typed.{IsLine, after_line}
use net_radio.Keyboard.Posted.Dialogue.{posted, answered}
use net_radio.Keyboard.Prompt.{read_pseudo-cut_pseudo}
use net_radio.Keyboard.Arguments.{set_streamer-stores}
use net_radio.Keyboard.Leave.{initial, differ, round}
use net_radio.Keyboard.Session.{IsSized, IsAllocated}
use net_radio.Keyboard.Session.Posting.{
  Post, typed_post, typed_posts, IsPost, AllPosts, Answers, message_of, post, later,
}

-- The loop over posts, of which the last one is answered by a line that begins with 'q'.
dialogue-posts :
    (fuel : ℕ) (p r next rest : Bytes) (xs : List Post) (x : Post) (b : Buffers) (w : World)
    → length xs < fuel
    → IsText p
    → AllPosts xs
    → IsPost x
    → initial x.reply ≡ b'q'
    → IsSized b
    → length next ≡ 512
    → Answers w
    → w.stdin ≡ typed_posts xs (typed_post x rest)
    → (w1 : World) × (dialogue fuel (p ++ 0 ∷ r) next b.streamer w ≡ some (done tt, w1))
      × (w1.stdin ≡ rest)
      × (w1.sent ≡ w.sent ++ map (message_of p) (xs ++ x ∷ []))
dialogue-posts zero p r next rest xs x b w more hp h hx leaves sized size calls typed =
    absurd (omega arith)
dialogue-posts (suc fuel) p r next rest [] x b w more hp h hx leaves sized size calls typed =
    let (t, run) = post p r rest x b w hp hx sized calls typed in
    let w1 = answered t (posted p x.message (x.reply ++ b'\n' ∷ rest) w) in
    let (m, size1, ended) =
      round fuel (p ++ 0 ∷ r) next x.reply rest b.streamer w w1 run refl hx.reply_line hx.reply_fits
        size in
    (after_line rest (printed question w1), ended ∙ rw leaves refl, refl, refl)
dialogue-posts (suc fuel) p r next rest (y ∷ xs) x b w more hp (hy, on, h) hx leaves sized size
      calls typed =
    let behind = typed_posts xs (typed_post x rest) in
    let (t, run) = post p r behind y b w hp hy sized calls typed in
    let w1 = answered t (posted p y.message (y.reply ++ b'\n' ∷ behind) w) in
    let (m, size1, went) =
      round fuel (p ++ 0 ∷ r) next y.reply behind b.streamer w w1 run refl hy.reply_line
        hy.reply_fits size in
    let w2 = after_line behind (printed question w1) in
    let (w3, ended, left, sent) =
      dialogue-posts fuel p r m rest xs x b w2 (omega arith) hp h hx leaves sized size1
        (later t p y.message (y.reply ++ b'\n' ∷ behind) behind w calls) refl in
    (w3, went ∙ rw (differ (initial y.reply) on) ended, left, sent ∙ append_assoc w.sent _ _)

-- `main` with the arguments of the client of a broadcaster, for a user who types any number `k` of
-- empty lines, a name, and then the posts `xs` and `x`, each with a line that answers the question,
-- of which that of `x` is the first one that begins with 'q'. With no error, it sends the MESS of
-- every post, in their order, with the first 9 characters of the name, which the message cuts to 8,
-- and the first 140 of the text; then it ends with the status 0, and what is typed behind is not
-- read. Any fuel of more rounds than there are empty lines, and than there are posts before the last
-- one, is enough. The lines and the arguments fit in their arrays, which have the sizes of the code,
-- there is no '\0' in them, and each answer has at most 9 bytes and no '\0'.
pub keyboard_main-posts :
    (fuel k : ℕ) (g : Globals) (b : Buffers) (d p1 m p2 t name rest : Bytes) (xs : List Post)
    (x : Post) (w : World)
    → k < fuel
    → length xs < fuel
    → IsAllocated g
    → IsSized b
    → IsText d
    → IsText p1
    → IsText m
    → IsText p2
    → IsText t
    → length d ≤ 15
    → length m ≤ 15
    → length t ≤ 10
    → IsText name
    → IsLine name
    → 0 < length name
    → length name + 2 ≤ 512
    → AllPosts xs
    → IsPost x
    → initial x.reply ≡ b'q'
    → Answers w
    → w.stdin ≡ replicate k b'\n' ++ (name ++ b'\n' ∷ typed_posts xs (typed_post x rest))
    → (w1 : World) × (keyboard_main fuel g b
          ((d ++ 0 ∷ []) ∷ (p1 ++ 0 ∷ []) ∷ (m ++ 0 ∷ []) ∷ (p2 ++ 0 ∷ []) ∷ (t ++ 0 ∷ []) ∷ [])
          w
        ≡ some (done (pos 0), w1))
      × (w1.stdin ≡ rest)
      × (w1.sent ≡ w.sent ++ map (message_of (take 9 name)) (xs ++ x ∷ []))
unfolding keyboard_main run_streamer
keyboard_main-posts fuel k g b d p1 m p2 t name rest xs x w more more1 allocated sized hd h1 hm h2
      ht fits fits1 short plain h some_char fits2 posts last leaves calls typed =
    let (g1, set, _, _, _, _, _) =
      set_streamer-stores g d p1 m p2 t w hd h1 hm h2 ht fits fits1 allocated.adresse_diff
        allocated.adresse_multicast allocated.terminal short in
    let w0 = printed (utf8 "Pouvez entrer votre pseudo de 8 caractères svp ?\n") w in
    let behind = typed_posts xs (typed_post x rest) in
    let (line, r, read, cut) =
      read_pseudo-cut_pseudo k fuel b.pseudo_id name behind w0 more sized.pseudo_id some_char fits2
        h typed in
    let (w1, ended, left, sent) =
      dialogue-posts fuel (take 9 name) r b.next rest xs x b (after_line behind w0) more1
        (All-take (λ c. c ≢ 0) 9 name plain) posts last leaves sized sized.next
        (record { setups = calls.setups; sends = calls.sends; recvs = calls.recvs }) refl in
    (w1, rw (set, ◌>>=◌) (rw (read, ◌>>=◌) (rw (cut, ◌>>=◌) (rw (ended, ◌>>=◌) refl))), left, sent)
