-- ===== src/Keyboard/Arguments.antt =====
-- The arguments of the program in the arrays that it has for them.
use net_radio.Common.{
  ℕ, ◌+◌, ◌≤◌, ◌<◌, ◌≡◌, refl, none, some, [], ◌∷◌, ◌++◌, Bytes, length, length-append, length-drop,
  drop, arith,
}
use net_radio.Memory.{strcpy, text}
use net_radio.Memory.Strings.{IsText, text-append, strcpy-append}
use net_radio.Libc.Atoi.{atoi}
use net_radio.Memory.Bounds.{memmove-fault, poke-behind}
use net_radio.Keyboard.Run.{World, ◌>>=◌}
use net_radio.Keyboard.Main.{Globals, copy_argument, port_of, set_streamer}

-- An argument that fits.
pub copy_argument-text :
    (n : ℕ) (s array : Bytes)
    → IsText s
    → length s ≤ n
    → length array ≡ n + 1
    → (r : Bytes) × (copy_argument n (s ++ 0 ∷ []) array ≡ some (s ++ 0 ∷ r))
unfolding copy_argument
copy_argument-text n s array h fits size =
    let kept = drop (length s + 1) array in
    let copied = strcpy-append s [] array [] h (omega arith) in
    let (r, ended) =
      poke-behind s kept n fits
        (omega (arith, length-append s (0 ∷ kept), length-drop (length s + 1) array)) in
    (r, rw copied (rw ended refl))

copy_argument-overflow :
    (n : ℕ) (s array : Bytes)
    → IsText s
    → n < length s
    → length array ≡ n + 1
    → copy_argument n (s ++ 0 ∷ []) array ≡ none
unfolding copy_argument strcpy
copy_argument-overflow n s array h long size =
    let over =
      memmove-fault 0 (s ++ 0 ∷ []) array (omega arith) (omega (arith, length-append s (0 ∷ []))) in
    rw (text-append s [] h) (rw over refl)

-- The port of an argument that is a text.
pub port_of-text : (s : Bytes) → IsText s → port_of (s ++ 0 ∷ []) ≡ some (atoi s)
unfolding port_of
port_of-text s h = rw (text-append s [] h) refl

-- Arguments that fit.
module _ (g : Globals) (d p1 m p2 t : Bytes) (w : World) where
  pub set_streamer-stores :
      IsText d
      → IsText p1
      → IsText m
      → IsText p2
      → IsText t
      → length d ≤ 15
      → length m ≤ 15
      → length g.adresse_diff ≡ 16
      → length g.adresse_multicast ≡ 16
      → length g.terminal ≡ 11
      → length t ≤ 10
      → (g1 : Globals) × (set_streamer g
            (d ++ 0 ∷ [])
            (p1 ++ 0 ∷ [])
            (m ++ 0 ∷ [])
            (p2 ++ 0 ∷ [])
            (t ++ 0 ∷ [])
            w
          ≡ some (g1, w))
        × (text g1.adresse_diff ≡ some d)
        × (g1.port_diff ≡ atoi p1)
        × (text g1.adresse_multicast ≡ some m)
        × (g1.port_multicast ≡ atoi p2)
        × (text g1.terminal ≡ some t)
  unfolding set_streamer
  set_streamer-stores hd h1 hm h2 ht fits fits1 size size1 size2 short =
      let (rd, stored) = copy_argument-text 15 d g.adresse_diff hd fits size in
      let (rm, stored1) = copy_argument-text 15 m g.adresse_multicast hm fits1 size1 in
      let (rt, stored2) = copy_argument-text 10 t g.terminal ht short size2 in
      let port = port_of-text p1 h1 in
      let port1 = port_of-text p2 h2 in
      let g1 = record g {
        adresse_diff = d ++ 0 ∷ rd;
        port_diff = atoi p1;
        adresse_multicast = m ++ 0 ∷ rm;
        port_multicast = atoi p2;
        terminal = t ++ 0 ∷ rt;
      } in
      (
        g1,
        rw (stored, ◌>>=◌)
            (rw (port, ◌>>=◌) (rw (stored1, ◌>>=◌) (rw (port1, ◌>>=◌) (rw (stored2, ◌>>=◌) refl)))),
        text-append d rd hd,
        refl,
        text-append m rm hm,
        refl,
        text-append t rt ht,
      )

-- The five arguments of the client of a broadcaster, when the two addresses have at most 15
-- characters and the terminal at most 10: each string is stored whole with its '\0' and each port as
-- the number that `atoi` makes of it, and nothing else of the world is used. A terminal `long` of
-- more characters, as `/dev/pts/10` has, is stored past the end of its array. The arguments hold no
-- '\0', and the arrays have the sizes of the code.
pub set_streamer-bounds :
    (g : Globals) (d p1 m p2 t long : Bytes) (w : World)
    → IsText d
    → IsText p1
    → IsText m
    → IsText p2
    → IsText t
    → IsText long
    → length d ≤ 15
    → length m ≤ 15
    → length g.adresse_diff ≡ 16
    → length g.adresse_multicast ≡ 16
    → length g.terminal ≡ 11
    → length t ≤ 10
    → 10 < length long
    → ((g1 : Globals) × (set_streamer g
            (d ++ 0 ∷ [])
            (p1 ++ 0 ∷ [])
            (m ++ 0 ∷ [])
            (p2 ++ 0 ∷ [])
            (t ++ 0 ∷ [])
            w
          ≡ some (g1, w))
        × (text g1.adresse_diff ≡ some d)
        × (g1.port_diff ≡ atoi p1)
        × (text g1.adresse_multicast ≡ some m)
        × (g1.port_multicast ≡ atoi p2)
        × (text g1.terminal ≡ some t))
      × (set_streamer g (d ++ 0 ∷ []) (p1 ++ 0 ∷ []) (m ++ 0 ∷ []) (p2 ++ 0 ∷ []) (long ++ 0 ∷ []) w
          ≡ none)
unfolding set_streamer
set_streamer-bounds g d p1 m p2 t long w hd h1 hm h2 ht hl fits fits1 size size1 size2 short over =
    let (rd, stored) = copy_argument-text 15 d g.adresse_diff hd fits size in
    let (rm, stored1) = copy_argument-text 15 m g.adresse_multicast hm fits1 size1 in
    let port = port_of-text p1 h1 in
    let port1 = port_of-text p2 h2 in
    let fault = copy_argument-overflow 10 long g.terminal hl over size2 in
    (
      set_streamer-stores g d p1 m p2 t w hd h1 hm h2 ht fits fits1 size size1 size2 short,
      rw (stored, ◌>>=◌)
          (rw (port, ◌>>=◌) (rw (stored1, ◌>>=◌) (rw (port1, ◌>>=◌) (rw (fault, ◌>>=◌) refl)))),
    )
