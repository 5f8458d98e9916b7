-- ===== src/Manager/System.antt =====
-- c/manager.c: the threads that share BROADCASTER_REGISTER. A step is one critical section of one
-- thread, in any order: `register_broadcaster` of a thread that has received a REGI, or the end of
-- `monitor_broadcaster` in a thread that watches. Reading the register changes nothing and is left out.
pub mod Owners
pub mod Safety
pub mod Listing
use net_radio.Common.{
  ℕ, ◌≤◌, ◌≡◌, Option, none, some, List, [], ◌∷◌, ◌++◌, Bytes, length, replicate,
}
use net_radio.Manager.Register.{Register, register_broadcaster, init_register}
use net_radio.Manager.Register.Slots.{IsRegi, item_of, Refines}
use net_radio.Manager.Monitor.{gone, end_watch}

-- A thread in `monitor_broadcaster`: the row of its canary, and the ITEM that it wrote there.
pub record Watcher : Type 0 where
  pub place : ℕ
  pub entry : Bytes

pub record System : Type 0 where
  pub rows : Register
  pub watchers : List Watcher

pub data Step (max : ℕ) (s : System) : System → Type 0 where
  enter :
      (msg rest : Bytes) {rows1 : Register} {place : ℕ}
      → IsRegi msg
      → register_broadcaster max s.rows (msg ++ 0 ∷ rest) ≡ some (rows1, some place)
      → Step max s (record {
        rows = rows1;
        watchers = record { place = place; entry = item_of msg } ∷ s.watchers;
      })
  refuse :
      (msg rest : Bytes) {rows1 : Register}
      → IsRegi msg
      → register_broadcaster max s.rows (msg ++ 0 ∷ rest) ≡ some (rows1, none)
      → Step max s (record { rows = rows1; watchers = s.watchers })
  leave :
      (before : List Watcher) (w : Watcher) (after : List Watcher) {rows1 : Register}
      → s.watchers ≡ before ++ w ∷ after
      → end_watch s.rows w.place gone ≡ some (rows1, gone)
      → Step max s (record { rows = rows1; watchers = before ++ after })

-- The register that `init_manager` leaves, of an array of `n` free rows, and no thread.
pub data Reach (max n : ℕ) : System → Type 0 where
  start :
      (rows : Register) {rows1 : Register}
      → Refines rows (replicate n none)
      → init_register max rows ≡ some rows1
      → Reach max n (record { rows = rows1; watchers = [] })
  later : {s t : System} → Reach max n s → Step max s t → Reach max n t
