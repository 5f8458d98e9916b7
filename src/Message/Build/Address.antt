-- ===== src/Message/Build/Address.antt =====
-- `add_ip_addr` appends the address in 15 characters: the tokens of `inet_ntop`'s print are copied
-- into a field of '0', and the dots overwrite the '\0' that each copy leaves behind.
use native.Mathlib.Numerals.{add-one}
use net_radio.Common.{
  zero, ℕ, suc, ◌+◌, ◌-◌, ◌*◌, ◌≤◌, ◌<◌, ◌≡◌, ◌≢◌, refl, sym, ap, ◌∙◌, some, [], ◌∷◌, ◌++◌,
  append_assoc, Bytes, ◌>>=◌, length, drop, replicate, length-append, length-replicate, drop-cons,
  All, All-append, arith,
}
use net_radio.Memory.{poke, strcpy}
use net_radio.Memory.Strings.{IsText, strlen-append, strcpy-append, memmove-append, poke-append}
use net_radio.Libc.Decimal.{
  IsDigit, decimal, inet_ntop, octet, fixed, length-fixed, pad-decimal, length-decimal,
  decimal-ne-nil, decimal-IsDigit, fixed-IsDigit, IsDigit-IsText,
}
use net_radio.Libc.Token.{strtok, strtok-append, strtok-last}
use net_radio.Message.Types.{default_int}
use net_radio.Message.Build.{place_tokens, add_ip_addr}
use net_radio.Message.Build.Fields.{Appends}
use net_radio.Message.Wire.{ip_field}

octet_lt : (k a : ℕ) → octet k a < 256
octet_lt k a = omega arith

IsDigit-lacks_dot : (t : Bytes) → All IsDigit t → All (λ c. c ≢ b'.') t
IsDigit-lacks_dot [] h = tt
IsDigit-lacks_dot (c ∷ t) (hc, ht) = (omega arith, IsDigit-lacks_dot t ht)

lacks_dot : (n : ℕ) → All (λ c. c ≢ b'.') (decimal n)
lacks_dot n = IsDigit-lacks_dot (decimal n) (decimal-IsDigit n)

-- `strtok` finds the four octets.
strtok-inet_ntop :
    (a : ℕ)
    → strtok b'.' (inet_ntop a)
      ≡ decimal (octet 0 a) ∷ decimal (octet 1 a) ∷ decimal (octet 2 a) ∷ decimal (octet 3 a) ∷ []
unfolding inet_ntop
strtok-inet_ntop a =
    strtok-append b'.' (decimal (octet 0 a)) _ (lacks_dot (octet 0 a)) (decimal-ne-nil (octet 0 a))
    ∙ ap (λ ts. decimal (octet 0 a) ∷ ts)
        (strtok-append b'.' (decimal (octet 1 a)) _ (lacks_dot (octet 1 a))
            (decimal-ne-nil (octet 1 a))
          ∙ ap (λ ts. decimal (octet 1 a) ∷ ts)
              (strtok-append b'.' (decimal (octet 2 a)) _ (lacks_dot (octet 2 a))
                  (decimal-ne-nil (octet 2 a))
                ∙ ap (λ ts. decimal (octet 2 a) ∷ ts)
                    (strtok-last b'.' (decimal (octet 3 a)) (lacks_dot (octet 3 a))
                      (decimal-ne-nil (octet 3 a)))))

abbrev fill : ℕ → Bytes
fill l = replicate l default_int

fill-split : (l : ℕ) → l ≤ 3 → fill (3 - l) ++ fill l ≡ fill 3
fill-split zero h = refl
fill-split (suc zero) h = refl
fill-split (suc (suc zero)) h = refl
fill-split (suc (suc (suc zero))) h = refl
fill-split (suc (suc (suc (suc l)))) h = absurd (omega arith)

drop-fill : (l x : ℕ) (q : Bytes) → drop (suc l) (fill l ++ x ∷ q) ≡ q
drop-fill zero x q = refl
drop-fill (suc l) x q = drop-fill l x q

-- One token is copied to the right end of its field, and leaves '\0' on the byte behind it.
copy_token :
    (p : Bytes) (o x : ℕ) (q : Bytes) (end : ℕ)
    → o < 256
    → end ≡ length p + 3
    → strcpy (end - length (decimal o)) (decimal o ++ 0 ∷ []) (p ++ (fill 3 ++ x ∷ q))
      ≡ some ((p ++ (fixed 3 o ++ 0 ∷ [])) ++ q)
copy_token p o x q end small at =
    let t = decimal o in
    let l = length t in
    let lead = fill (3 - l) in
    let short : l ≤ 3 = length-decimal 2 o (omega arith) in
    let start : end - l ≡ length (p ++ lead) =
      omega (arith, length-append p lead, length-replicate {A = ℕ} (3 - l) default_int) in
    let room : l + 1 ≤ length (fill l ++ x ∷ q) =
      omega (arith, length-append (fill l) (x ∷ q), length-replicate {A = ℕ} l default_int) in
    let field : p ++ (fill 3 ++ x ∷ q) ≡ (p ++ lead) ++ (fill l ++ x ∷ q) =
      ap (λ z. p ++ (z ++ x ∷ q)) (sym (fill-split l short)) ∙ (simp append_assoc) in
    rw
      (
        start,
        field,
        strcpy-append t (p ++ lead) _ [] (IsDigit-IsText t (decimal-IsDigit o)) room,
        add-one,
        drop-fill,
        ← pad-decimal 2 o (omega arith),
      )
      (simp append_assoc)

-- A dot overwrites the '\0' behind a field.
put_dot :
    (p f q : Bytes) (at : ℕ)
    → at ≡ length p + length f
    → poke at b'.' (p ++ (f ++ 0 ∷ q)) ≡ some ((p ++ (f ++ b'.' ∷ [])) ++ q)
put_dot p f q at e =
    rw (e, ← length-append p f, ← append_assoc p f (0 ∷ q), poke-append (p ++ f) 0 b'.' q)
      (simp append_assoc)

-- A field of three digits with the byte behind it.
abbrev cell : ℕ → ℕ → Bytes
cell o x = fixed 3 o ++ x ∷ []

length-cell : (p : Bytes) (o x : ℕ) → length (p ++ cell o x) ≡ length p + 4
length-cell p o x =
    omega (arith, length-append p (cell o x), length-append (fixed 3 o) (x ∷ []), length-fixed 3 o)

-- The four copies and the three dots, for any octets.
module _ (s : Bytes) (a b c d y : ℕ) (q : Bytes) where
  p1 : Bytes
  p1 = s ++ cell a 0

  p2 : Bytes
  p2 = p1 ++ cell b 0

  p3 : Bytes
  p3 = p2 ++ cell c 0

  place_tokens_lem :
      a < 256
      → b < 256
      → c < 256
      → d < 256
      → place_tokens
          (length s)
          0
          (decimal a ∷ decimal b ∷ decimal c ∷ decimal d ∷ [])
          (s ++ (fill 15 ++ y ∷ q))
        ≡ some ((p3 ++ cell d 0) ++ q)
  unfolding place_tokens p1 p2 p3
  place_tokens_lem ha hb hc hd =
      let l1 = length-cell s a 0 in
      let l2 = length-cell p1 b 0 in
      let l3 = length-cell p2 c 0 in
      rw (
        copy_token s a b'0' (fill 11 ++ y ∷ q) (0 + length s + 3) ha (omega arith),
        copy_token p1 b b'0' (fill 7 ++ y ∷ q) (4 * 1 + length s + 3) hb (omega (arith, l1)),
        copy_token p2 c b'0' (fill 3 ++ y ∷ q) (4 * 2 + length s + 3) hc (omega (arith, l1, l2)),
        copy_token p3 d y q (4 * 3 + length s + 3) hd (omega (arith, l1, l2, l3)),
      )

  regroup :
      (p3 ++ cell d 0) ++ q
      ≡ s ++ (fixed 3 a ++ 0 ∷ (fixed 3 b ++ 0 ∷ (fixed 3 c ++ 0 ∷ (fixed 3 d ++ 0 ∷ q))))
  unfolding p1 p2 p3
  regroup = simp append_assoc

  -- The text between the fields does not matter for the dots.
  dots :
      (t : Bytes)
      → (do
        buf3 ←
            poke
              (length s + 3)
              b'.'
              (s ++ (fixed 3 a ++ 0 ∷ (fixed 3 b ++ 0 ∷ (fixed 3 c ++ 0 ∷ t))))
        buf4 ← poke (length s + 7) b'.' buf3
        poke (length s + 11) b'.' buf4)
        ≡ some (((s ++ cell a b'.') ++ cell b b'.') ++ cell c b'.' ++ t)
  dots t =
      let l1 = length-cell s a b'.' in
      let l2 = length-cell (s ++ cell a b'.') b b'.' in
      rw (
        put_dot s (fixed 3 a) _ (length s + 3) (omega (arith, length-fixed 3 a)),
        put_dot (s ++ cell a b'.') (fixed 3 b) _ (length s + 7)
            (omega (arith, length-fixed 3 b, l1)),
        put_dot ((s ++ cell a b'.') ++ cell b b'.') (fixed 3 c) t (length s + 11)
            (omega (arith, length-fixed 3 c, l1, l2)),
      )

pub length-ip_field : (a : ℕ) → length (ip_field a) ≡ 15
unfolding ip_field
length-ip_field a =
    let f = λ (k : ℕ). length-fixed 3 (octet k a) in
    let tail2 = fixed 3 (octet 2 a) ++ b'.' ∷ fixed 3 (octet 3 a) in
    let tail1 = fixed 3 (octet 1 a) ++ b'.' ∷ tail2 in
    omega (
      arith,
      f 0,
      f 1,
      f 2,
      f 3,
      length-append (fixed 3 (octet 0 a)) (b'.' ∷ tail1),
      length-append (fixed 3 (octet 1 a)) (b'.' ∷ tail2),
      length-append (fixed 3 (octet 2 a)) (b'.' ∷ fixed 3 (octet 3 a)),
    )

pub ip_field-IsText : (a : ℕ) → IsText (ip_field a)
unfolding ip_field
ip_field-IsText a =
    let f = λ (k : ℕ). IsDigit-IsText _ (fixed-IsDigit 3 (octet k a)) in
    All-append _ _ _ (f 0)
      (omega arith, All-append _ _ _ (f 1) (omega arith, All-append _ _ _ (f 2) (omega arith, f 3)))

pub address-Appends : (a : ℕ) → Appends (λ b. add_ip_addr b a) (ip_field a) (λ b. b)
unfolding add_ip_addr p1 p2 p3 ip_field
address-Appends a s r hs h =
    let room : 15 ≤ length r = omega (arith, length-ip_field a) in
    let (y, e) = drop-cons 15 0 r room in
    let o = λ (k : ℕ). octet k a in
    let small = λ (k : ℕ). octet_lt k a in
    rw
      (
        strlen-append s r hs,
        memmove-append (fill 15) s (0 ∷ r) (omega arith),
        e,
        strtok-inet_ntop a,
        place_tokens_lem s (o 0) (o 1) (o 2) (o 3) y (drop 15 r) (small 0) (small 1) (small 2)
            (small 3),
      )
      (rw
        (
          regroup s (o 0) (o 1) (o 2) (o 3) y (drop 15 r),
          dots s (o 0) (o 1) (o 2) (o 3) y (drop 15 r) (fixed 3 (o 3) ++ 0 ∷ drop 15 r),
          length-ip_field a,
        )
        (simp append_assoc))
