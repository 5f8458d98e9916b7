-- ===== src/Keyboard/Session/Posting.antt =====
-- A session in which messages are posted, from the start of the program to its end.
use net_radio.Common.{
  ℕ, suc, ◌+◌, ◌≤◌, ◌<◌, ◌≡◌, ◌≢◌, Bool, true, some, List, [], ◌∷◌, ◌++◌, Bytes, length, take,
}
use net_radio.Memory.Strings.{IsText}
use net_radio.Message.Wire
use net_radio.Message.Wire.{wire}
use net_radio.Manager.Monitor.{Received, bytes}
use net_radio.Client.Recv.{no_error}
use net_radio.Keyboard.Run.{World}
use net_radio.Keyboard.Streamer.{interact_with_diff}
use net_radio.Keyboard.Main.{Buffers, question}
use net_radio.Keyboard.Steps.{printed}
use net_radio.Keyboard.Typed.{IsLine, after_line}
use net_radio.Keyboard.Posted.{mess_command}
use net_radio.Keyboard.Posted.Dialogue.{posted, answered, interact_with_diff-posted}
use net_radio.Keyboard.Leave.{initial}
use net_radio.Keyboard.Session.{IsSized}

-- What the user types in one round: MESS or mess with anything behind it, the text, and the line that
-- answers the question.
pub record Post : Type 0 where
  pub capitals : Bool
  pub more : Bytes
  pub message : Bytes
  pub reply : Bytes

abbrev pub typed_post : Post → Bytes → Bytes
typed_post x rest =
    mess_command x.capitals ++ (x.more ++ b'\n' ∷ (x.message ++ b'\n' ∷ (x.reply ++ b'\n' ∷ rest)))

abbrev pub typed_posts : List Post → Bytes → Bytes
typed_posts [] rest = rest
typed_posts (x ∷ xs) rest = typed_post x (typed_posts xs rest)

-- Lines that fit in their arrays, and a message of at least one character.
pub record IsPost (x : Post) : Type 0 where
  pub more_line : IsLine x.more
  pub more_fits : length x.more + 6 ≤ 512
  pub message_text : IsText x.message
  pub message_line : IsLine x.message
  pub some_char : 0 < length x.message
  pub message_fits : length x.message + 2 ≤ 512
  pub reply_line : IsLine x.reply
  pub reply_fits : length x.reply + 2 ≤ 512

-- Posts that go on with the dialogue.
abbrev pub AllPosts : List Post → Type 0
AllPosts [] = Unit
AllPosts (x ∷ xs) = IsPost x × (initial x.reply ≢ b'q') × AllPosts xs

-- An answer that fits in its array.
pub record IsAnswer (r : Received) : Type 0 where
  pub answer : Bytes
  pub given : r ≡ bytes answer
  pub plain : IsText answer
  pub short : length answer ≤ 9

-- No call has an error, now and later.
pub record Answers (w : World) : Type 0 where
  pub setups : (k : ℕ) → w.setups k ≡ no_error
  pub sends : (k : ℕ) → w.sends k ≡ true
  pub recvs : (k : ℕ) → IsAnswer (w.recvs k)

-- The bytes of the MESS of a post.
abbrev pub message_of : Bytes → Post → Bytes
message_of p x = wire (Wire.mess p (take 140 x.message))

-- The dialogue of one post.
pub post :
    (p r rest : Bytes) (x : Post) (b : Buffers) (w : World)
    → IsText p
    → IsPost x
    → IsSized b
    → Answers w
    → w.stdin ≡ typed_post x rest
    → (t : Bytes) × (interact_with_diff (p ++ 0 ∷ r) b.streamer w
        ≡ some (tt, answered t (posted p x.message (x.reply ++ b'\n' ∷ rest) w)))
post p r rest x b w hp h sized calls typed =
    let a = calls.recvs 0 in
    (
      a.answer,
      interact_with_diff-posted p r x.message x.more (x.reply ++ b'\n' ∷ rest) x.capitals b.streamer
          w a.answer hp h.message_text h.message_line h.more_line h.some_char h.message_fits
          h.more_fits sized.mes_type sized.mes_buf sized.mess_buf sized.answer typed
          (calls.setups 0) (calls.sends 0) a.given a.plain a.short,
    )

pub later :
    (t p l rest behind : Bytes) (w : World)
    → Answers w
    → Answers (after_line behind (printed question (answered t (posted p l rest w))))
later t p l rest behind w calls = record {
  setups = λ k. calls.setups (suc k);
  sends = λ k. calls.sends (suc k);
  recvs = λ k. calls.recvs (suc k);
}
