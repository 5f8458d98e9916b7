-- ===== src/Manager/System/Safety.antt =====
-- What holds in every state that the threads can reach.
use net_radio.Common.{
  ℕ, zero, suc, ◌≤◌, ◌<◌, ◌≡◌, refl, sym, ap, ◌∙◌, Option, none, some, List, [], ◌∷◌, ◌++◌, Bytes,
  >>=-eq-some, length, length-replicate, get_elem?, drop, replicate, arith,
}
use net_radio.Manager.Register.{Register, register_broadcaster, clear_canary, init_register}
use net_radio.Manager.Register.Slots.{Slots, IsRegi, item_of, register, clear, Refines}
use net_radio.Manager.Register.Refines.{
  row_of, register_broadcaster-Refines, clear_canary-Refines, init_register-Refines,
}
use net_radio.Manager.Register.Laws.{length-Refines, length-register, length-clear, clear-register}
use net_radio.Manager.Monitor.{gone, end_watch}
use net_radio.Manager.System.{Watcher, System, Step, enter, refuse, leave, Reach, start, later}
use net_radio.Manager.System.Owners.{
  Holds, Holds-IsHeld, Holds-leave, register-held, register-refused,
}

-- The register stands for slots, each of which is held by the thread that watches over it or free.
abbrev pub Owned : ℕ → System → Type 0
Owned max s =
    (slots : Slots) × Refines s.rows slots × Holds s.watchers slots × (max ≤ length s.rows)

enter-Owned :
    (max : ℕ) (s : System) (msg rest : Bytes) (rows1 : Register) (place : ℕ)
    → IsRegi msg
    → register_broadcaster max s.rows (msg ++ 0 ∷ rest) ≡ some (rows1, some place)
    → Owned max s
    → Owned max (record {
      rows = rows1;
      watchers = record { place = place; entry = item_of msg } ∷ s.watchers;
    })
enter-Owned max s msg rest rows1 place h run (slots, r, holds, room) =
    let (rows2, run2, r2) = register_broadcaster-Refines max s.rows slots msg rest h room r in
    let slots1 = (register max slots (item_of msg)).0 in
    let same : rows2 ≡ rows1 = cc in
    let found : (register max slots (item_of msg)).1 ≡ some place = cc in
    let size = length-register max slots (item_of msg) in
    (
      slots1,
      rw same at r2,
      (
        register-held max slots (item_of msg) place found,
        rw (clear-register max slots (item_of msg) place found) holds,
      ),
      omega (
        arith,
        size,
        length-Refines rows2 slots1 r2,
        length-Refines s.rows slots r,
        ap length same,
      ),
    )

refuse-Owned :
    (max : ℕ) (s : System) (msg rest : Bytes) (rows1 : Register)
    → IsRegi msg
    → register_broadcaster max s.rows (msg ++ 0 ∷ rest) ≡ some (rows1, none)
    → Owned max s
    → Owned max (record { rows = rows1; watchers = s.watchers })
refuse-Owned max s msg rest rows1 h run (slots, r, holds, room) =
    let (rows2, run2, r2) = register_broadcaster-Refines max s.rows slots msg rest h room r in
    let same : rows2 ≡ rows1 = cc in
    let full : (register max slots (item_of msg)).1 ≡ none = cc in
    let unchanged = register-refused max slots (item_of msg) full in
    let r3 : Refines rows1 slots = rw (same, unchanged) at r2 in
    (slots, r3, holds, omega (arith, length-Refines rows1 slots r3, length-Refines s.rows slots r))

get_elem?-lt :
    (slots : Slots) (i : ℕ) {t : Option Bytes} → get_elem? slots i ≡ some t → i < length slots
get_elem?-lt [] i h = cc
get_elem?-lt (s ∷ slots) zero h = omega arith
get_elem?-lt (s ∷ slots) (suc i) h = omega (arith, get_elem?-lt slots i h)

clear_canary-end_watch :
    (rows : Register) (place : ℕ) (rows1 : Register)
    → end_watch rows place gone ≡ some (rows1, gone)
    → clear_canary place rows ≡ some rows1
unfolding end_watch
clear_canary-end_watch rows place rows1 run =
    let (rows2, cleared, end) =
      >>=-eq-some (clear_canary place rows) (λ rows2. some (rows2, gone)) run in
    let same : rows2 ≡ rows1 = cc in cleared ∙ ap some same

leave-Owned :
    (max : ℕ) (s : System) (before : List Watcher) (w : Watcher) (after : List Watcher)
    (rows1 : Register)
    → s.watchers ≡ before ++ w ∷ after
    → end_watch s.rows w.place gone ≡ some (rows1, gone)
    → Owned max s
    → Owned max (record { rows = rows1; watchers = before ++ after })
leave-Owned max s before w after rows1 threads run (slots, r, holds, room) =
    let holds1 : Holds (before ++ w ∷ after) slots = rw threads at holds in
    let inside = get_elem?-lt slots w.place (Holds-IsHeld before w after slots holds1) in
    let size = length-Refines s.rows slots r in
    let (rows2, run2, r2) = clear_canary-Refines w.place s.rows slots (omega arith) r in
    let cleared = clear_canary-end_watch s.rows w.place rows1 run in
    let same : rows2 ≡ rows1 = cc in
    let r3 : Refines rows1 (clear w.place slots) = rw same at r2 in
    (
      clear w.place slots,
      r3,
      Holds-leave before w after slots holds1,
      omega
          (arith, length-Refines rows1 (clear w.place slots) r3, length-clear w.place slots, size),
    )

Step-Owned : (max : ℕ) {s t : System} → Step max s t → Owned max s → Owned max t
Step-Owned max {s} {t} (enter msg rest h run) owned = enter-Owned max s msg rest _ _ h run owned
Step-Owned max {s} {t} (refuse msg rest h run) owned = refuse-Owned max s msg rest _ h run owned
Step-Owned max {s} {t} (leave before w after threads run) owned =
    leave-Owned max s before w after _ threads run owned

free_again :
    (max n : ℕ)
    → max ≤ n
    → replicate max none ++ drop max (replicate n none) ≡ replicate {A = Option Bytes} n none
free_again zero n h = refl
free_again (suc max) zero h = elim h [ ]
free_again (suc max) (suc n) h = ap (λ slots. none ∷ slots) (free_again max n (omega arith))

start-Owned :
    (max n : ℕ) (rows rows1 : Register)
    → max ≤ n
    → Refines rows (replicate n none)
    → init_register max rows ≡ some rows1
    → Owned max (record { rows = rows1; watchers = [] })
start-Owned max n rows rows1 room r run =
    let slots : Slots = replicate n none in
    let size : length slots ≡ n = length-replicate n none in
    let (rows2, run2, r2) =
      init_register-Refines max rows slots (omega (arith, size, length-Refines rows slots r)) r in
    let same : rows2 ≡ rows1 = cc in
    let r3 : Refines rows1 slots = rw (same, free_again max n room) at r2 in
    (
      slots,
      r3,
      ap (λ k. replicate k none) (sym size),
      omega (arith, size, length-Refines rows1 slots r3),
    )

row_held :
    (rows : Register) (slots : Slots) (i : ℕ) (t : Bytes)
    → Refines rows slots
    → get_elem? slots i ≡ some (some t)
    → get_elem? rows i ≡ some (row_of t)
row_held rows [] i t r h = cc
row_held [] (s ∷ slots) i t r h = absurd r
row_held (row ∷ rows) (none ∷ slots) zero t r h = cc
row_held (row ∷ rows) (some u ∷ slots) zero t ((held, u_item), r) h =
    let same : u ≡ t = cc in ap some (held ∙ ap row_of same)
row_held (row ∷ rows) (s ∷ slots) (suc i) t (hs, r) h = row_held rows slots i t r h

module _ (max n : ℕ) (room : max ≤ n) where
  -- In every state that the threads reach, whatever their order, the register stands for slots of
  -- which each watching thread holds one with its ITEM, no two of them the same one, and every other
  -- slot is free. At first the `n` rows are free, and at most `n` are used.
  pub Reach-Owned : {s : System} → Reach max n s → Owned max s
  Reach-Owned (start rows r run) = start-Owned max n rows _ room r run
  Reach-Owned (later reach step) = Step-Owned max step (Reach-Owned reach)

  -- As long as a thread watches, its row holds the ITEM that it has registered, whatever the other
  -- threads do, and the end of its watch stays in the register.
  pub Reach-row_of :
      {s : System} (before : List Watcher) (w : Watcher) (after : List Watcher)
      → Reach max n s
      → s.watchers ≡ before ++ w ∷ after
      → (get_elem? s.rows w.place ≡ some (row_of w.entry))
        × ((rows1 : Register) × (end_watch s.rows w.place gone ≡ some (rows1, gone)))
  Reach-row_of {s} before w after reach threads =
      let (slots, r, holds, few) = Reach-Owned reach in
      let held = Holds-IsHeld before w after slots (rw threads at holds) in
      let inside = get_elem?-lt slots w.place held in
      let (rows1, run, r1) =
        clear_canary-Refines w.place s.rows slots
          (omega (arith, inside, length-Refines s.rows slots r)) r in
      (row_held s.rows slots w.place w.entry r held, (rows1, unfold end_watch in rw run))
