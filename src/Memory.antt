-- ===== src/Memory.antt =====
-- `char` arrays and the functions of <string.h> that the C sources call on them. An access outside
-- the array is a fault.
pub mod Strings
pub mod Bounds
use Prim.Native.String.{String}
use net_radio.Common.{
  ℕ, zero, suc, ◌+◌, ◌-◌, ◌≡◌, Option, none, some, List, [], ◌∷◌, ◌++◌, Bytes, ◌==◌, if◌then◌else◌,
  ◌>>=◌, take, drop, replicate, length, codes, refl, Bool, true, false,
}

-- `m[i] = v`
unfoldable pub poke : ℕ → ℕ → Bytes → Option Bytes
poke i v [] = none
poke zero v (x ∷ m) = some (v ∷ m)
poke (suc i) v (x ∷ m) = poke i v m >>= λ m'. some (x ∷ m')

-- Bytes are stored one by one from `m + i` on: `memmove`, and `memset` with a run of one byte.
unfoldable pub memmove : ℕ → Bytes → Bytes → Option Bytes
memmove i [] m = some m
memmove i (b ∷ bs) m = poke i b m >>= λ m'. memmove (suc i) bs m'

unfoldable pub strlen : Bytes → Option ℕ
strlen [] = none
strlen (x ∷ m) = let rest = strlen m in if x == 0 then some 0 else rest >>= λ n. some (suc n)

-- The text that a pointer leads to: what lies before the first '\0', which must be in the array.
unfoldable pub text : Bytes → Option Bytes
text [] = none
text (x ∷ m) = let rest = text m in if x == 0 then some [] else rest >>= λ t. some (x ∷ t)

-- The first `w` bytes of the text, or all of it: what `strncpy` and `stpncpy` copy from it.
unfoldable pub text_prefix : ℕ → Bytes → Option Bytes
text_prefix zero m = some []
text_prefix (suc w) [] = none
text_prefix (suc w) (x ∷ m) =
    let rest = text_prefix w m in if x == 0 then some [] else rest >>= λ t. some (x ∷ t)

-- `strcpy (m + i, s)`
unfoldable pub strcpy : ℕ → Bytes → Bytes → Option Bytes
unfolding memmove text
strcpy i s m = do t ← text s; memmove i (t ++ 0 ∷ []) m

-- `strcat (m, s)`
unfoldable pub strcat : Bytes → Bytes → Option Bytes
unfolding strlen strcpy
strcat s m = do n ← strlen m; strcpy n s m

-- The `w` bytes that `strncpy` and `stpncpy` store for a prefix `t`: '\0' up to `w` bytes.
abbrev pub ncpy_bytes : ℕ → Bytes → Bytes
ncpy_bytes w t = t ++ replicate (w - length t) 0

-- `strncpy (m + i, s, w)`
unfoldable pub strncpy : ℕ → Bytes → ℕ → Bytes → Option Bytes
unfolding memmove text_prefix
strncpy i s w m = do t ← text_prefix w s; memmove i (ncpy_bytes w t) m

-- `strcmp (s, t) == 0` for two texts
unfoldable pub str_eq : Bytes → Bytes → Bool
str_eq [] [] = true
str_eq [] (b ∷ t) = false
str_eq (a ∷ s) [] = false
str_eq (a ∷ s) (b ∷ t) = let rest = str_eq s t in if a == b then rest else false

-- The array of a string literal.
abbrev pub literal : String → Bytes
literal s = codes s ++ 0 ∷ []

strcat_room :
    strcat (literal "cd") (literal "ab" ++ 7 ∷ 7 ∷ 7 ∷ []) ≡ some (literal "abcd" ++ 7 ∷ [])
unfolding strcat poke
strcat_room = refl

strcat_overflow : strcat (literal "cd") (literal "ab" ++ 7 ∷ []) ≡ none
unfolding strcat poke
strcat_overflow = refl
