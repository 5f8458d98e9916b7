-- ===== src/Libc/Token.antt =====
-- `strtok` with one delimiter: the calls until the null pointer give the runs between delimiters
-- that are not empty.
use net_radio.Common.{
  ℕ, ◌≡◌, ◌≢◌, refl, ◌∙◌, List, [], ◌∷◌, ◌++◌, append_assoc, append-nil, Bytes, ◌==◌, if◌then◌else◌,
  All, codes, arith,
}

keep : Bytes → List Bytes → List Bytes
keep [] rest = rest
keep (c ∷ t) rest = (c ∷ t) ∷ rest

scan : ℕ → Bytes → Bytes → List Bytes
scan d cur [] = keep cur []
scan d cur (c ∷ s) =
    let cut = keep cur (scan d [] s) in
    let copy = scan d (cur ++ c ∷ []) s in if c == d then cut else copy

unfoldable pub strtok : ℕ → Bytes → List Bytes
unfolding scan keep
strtok d s = scan d [] s

runs_between_delimiters : strtok b'.' (codes "10..7.") ≡ codes "10" ∷ codes "7" ∷ []
unfolding strtok
runs_between_delimiters = refl

scan-append :
    (d : ℕ) (t cur rest : Bytes)
    → All (λ c. c ≢ d) t
    → scan d cur (t ++ rest) ≡ scan d (cur ++ t) rest
unfolding scan
scan-append d [] cur rest h = rw append-nil
scan-append d (c ∷ t) cur rest (hc, ht) =
    ground (arith, scan-append d t (cur ++ c ∷ []) rest ht, append_assoc cur (c ∷ []) t)

keep_ne : (t : Bytes) (rest : List Bytes) → t ≢ [] → keep t rest ≡ t ∷ rest
unfolding keep
keep_ne [] rest h = absurd (h refl)
keep_ne (c ∷ t) rest h = refl

scan_at_delimiter : (d : ℕ) (cur rest : Bytes) → scan d cur (d ∷ rest) ≡ keep cur (scan d [] rest)
unfolding scan
scan_at_delimiter d cur rest = ground arith

-- The first token ends at the first delimiter.
pub strtok-append :
    (d : ℕ) (t rest : Bytes)
    → All (λ c. c ≢ d) t
    → t ≢ []
    → strtok d (t ++ d ∷ rest) ≡ t ∷ strtok d rest
unfolding strtok
strtok-append d t rest lacks ne =
    rw (scan-append d t [] (d ∷ rest) lacks)
      (scan_at_delimiter d t rest ∙ keep_ne t (scan d [] rest) ne)

pub strtok-last : (d : ℕ) (t : Bytes) → All (λ c. c ≢ d) t → t ≢ [] → strtok d t ≡ t ∷ []
unfolding strtok scan
strtok-last d t lacks ne =
    rw (← append-nil t, scan-append d t [] [] lacks, append-nil) (keep_ne t [] ne)
