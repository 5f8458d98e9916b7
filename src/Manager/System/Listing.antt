-- ===== src/Manager/System/Listing.antt =====
-- What a LIST tells in a state that the threads can reach.
use net_radio.Common.{
  ℕ, zero, suc, ◌≤◌, ◌<◌, ◌≡◌, refl, sym, ap, ◌∙◌, none, some, List, [], ◌∷◌, ◌++◌, Bytes, length,
  get_elem?, replicate, arith,
}
use net_radio.Manager.Register.{register_broadcaster}
use net_radio.Manager.Register.Slots.{Slots, IsRegi, item_of, register, clear, items}
use net_radio.Manager.Register.Refines.{register_broadcaster-Refines}
use net_radio.Manager.Register.Laws.{register-lt}
use net_radio.Manager.Monitor.{bufsize}
use net_radio.Manager.Handlers.{handle_list}
use net_radio.Manager.Handlers.Lists.{announcement, handle_list-items}
use net_radio.Manager.System.{Watcher, System, enter, refuse, leave, Reach, start, later}
use net_radio.Manager.System.Owners.{Holds}
use net_radio.Manager.System.Safety.{Owned, Reach-Owned}

abbrev InUse : ℕ → List Watcher → Type 0
InUse max [] = Unit
InUse max (w ∷ ws) = (w.place < max) × InUse max ws

InUse-without :
    (max : ℕ) (before : List Watcher) (w : Watcher) (after : List Watcher)
    → InUse max (before ++ w ∷ after)
    → InUse max (before ++ after)
InUse-without max [] w after (h, hs) = hs
InUse-without max (v ∷ before) w after (h, hs) = (h, InUse-without max before w after hs)

enter-lt :
    (max : ℕ) (s : System) (msg rest : Bytes) {rows1 : List Bytes} {place : ℕ}
    → IsRegi msg
    → register_broadcaster max s.rows (msg ++ 0 ∷ rest) ≡ some (rows1, some place)
    → Owned max s
    → place < max
enter-lt max s msg rest {rows1} {place} h run (slots, r, holds, room) =
    let (rows2, run2, r2) = register_broadcaster-Refines max s.rows slots msg rest h room r in
    let found : (register max slots (item_of msg)).1 ≡ some place = cc in
    (register-lt max slots (item_of msg) place found).0

Reach-InUse : {max n : ℕ} (room : max ≤ n) {s : System} → Reach max n s → InUse max s.watchers
Reach-InUse room (start rows r run) = tt
Reach-InUse {max} {n} room (later {s} reach (enter msg rest h run)) =
    (enter-lt max s msg rest h run (Reach-Owned max n room reach), Reach-InUse room reach)
Reach-InUse room (later reach (refuse msg rest h run)) = Reach-InUse room reach
Reach-InUse {max} {n} room (later reach (leave before w after threads run)) =
    let used = Reach-InUse room reach in InUse-without max before w after (rw threads at used)

-- A held slot counts once.
length-items-clear :
    (max : ℕ) (slots : Slots) (i : ℕ) (t : Bytes)
    → i < max
    → get_elem? slots i ≡ some (some t)
    → length (items max slots) ≡ suc (length (items max (clear i slots)))
unfolding items clear
length-items-clear zero slots i t h held = elim h [ ]
length-items-clear (suc max) [] i t h held = cc
length-items-clear (suc max) (none ∷ slots) zero t h held = cc
length-items-clear (suc max) (some u ∷ slots) zero t h held = refl
length-items-clear (suc max) (none ∷ slots) (suc i) t h held =
    length-items-clear max slots i t (omega arith) held
length-items-clear (suc max) (some u ∷ slots) (suc i) t h held =
    ap suc (length-items-clear max slots i t (omega arith) held)

items-free : (max n : ℕ) → items max (replicate n none) ≡ []
unfolding items
items-free zero n = refl
items-free (suc max) zero = refl
items-free (suc max) (suc n) = items-free max n

length-items-Holds :
    (max : ℕ) (ws : List Watcher) (slots : Slots)
    → InUse max ws
    → Holds ws slots
    → length (items max slots) ≡ length ws
length-items-Holds max [] slots used free =
    ap (λ s. length (items max s)) free ∙ ap length (items-free max (length slots))
length-items-Holds max (w ∷ ws) slots (h, used) (held, holds) =
    length-items-clear max slots w.place w.entry h held
    ∙ ap suc (length-items-Holds max ws (clear w.place slots) used holds)

-- In a state that the threads reach, the answer to LIST announces as many broadcasters as there are
-- threads that watch one, and as many ITEMs follow. At most 99 broadcasters can be registered, at
-- first the `n` rows are free, and the buffer has its 512 bytes.
pub Reach-handle_list :
    (max n : ℕ) {s : System} (msg_buf : Bytes)
    → max ≤ n
    → max ≤ 99
    → Reach max n s
    → length msg_buf ≡ bufsize
    → (entries : List Bytes) × (handle_list max s.rows msg_buf
        ≡ some (announcement (length s.watchers) ∷ entries))
      × (length entries ≡ length s.watchers)
Reach-handle_list max n {s} msg_buf room few reach size =
    let (slots, r, holds, rows_room) = Reach-Owned max n room reach in
    let count = length-items-Holds max s.watchers slots (Reach-InUse room reach) holds in
    (
      items max slots,
      rw (sym count) (handle_list-items max s.rows slots msg_buf few rows_room r size),
      count,
    )
