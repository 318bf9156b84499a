-- ===== src/Frame/Sums.antt =====
-- socket_server/replayer.py, lines 309 to 315: the sums of `checksum`.
use socket_server.Prelude.{
  length, ◌≤◌, ◌*◌, All, ℕ, ◌+◌, ◌-◌, ◌%◌, ◌<◌, ◌≡◌, refl, [], ◌∷◌, ◌++◌, arith,
}
use socket_server.Prelude.Bytes.{IsByte, Bytes, pack_be16}
use socket_server.Frame.{sum_words, fold_carries, checksum}

-- An even number of bytes, so that what follows stays word by word.
abbrev pub IsEven : Bytes → Type 0
IsEven [] = Unit
IsEven (p ∷ []) = ⊥
IsEven (p ∷ q ∷ s) = IsEven s

sum_words-append : (s t : Bytes) → IsEven s → sum_words (s ++ t) ≡ sum_words s + sum_words t
unfolding sum_words
sum_words-append [] t h = omega arith
sum_words-append (p ∷ []) t h = absurd h
sum_words-append (p ∷ q ∷ s) t h = omega (arith, sum_words-append s t h)

sum_words_pack : (n : ℕ) (t : Bytes) → n < 65536 → sum_words (pack_be16 n ++ t) ≡ n + sum_words t
unfolding sum_words
sum_words_pack n t h = omega arith

fold_complement :
    (s : ℕ) → s < 4294967296 → fold_carries (s + (65535 - fold_carries s % 65536)) % 65536 ≡ 65535
unfolding fold_carries
fold_complement s h = omega arith

-- A header whose checksum field is zero gets its checksum written into the field. The checksum of the
-- result is zero, which is the test that a receiver makes; the field stands at an even place, and the
-- sum of the words stays below 2^32, as it does up to 65537 words.
pub checksum_verifies :
    (before after : Bytes)
    → IsEven before
    → sum_words (before ++ (0 ∷ 0 ∷ after)) < 4294967296
    → checksum (before ++ (pack_be16 (checksum (before ++ (0 ∷ 0 ∷ after))) ++ after)) ≡ 0
unfolding checksum
checksum_verifies before after even small =
    let s = sum_words before + sum_words after in
    let zero_field : sum_words (before ++ (0 ∷ 0 ∷ after)) ≡ s =
      omega (
        arith,
        sum_words-append before (0 ∷ 0 ∷ after) even,
        sum_words_pack 0 after (omega arith),
      ) in
    let c = 65535 - fold_carries s % 65536 in
    let total : sum_words (before ++ (pack_be16 c ++ after)) ≡ s + c = omega (
      arith,
      sum_words-append before (pack_be16 c ++ after) even,
      sum_words_pack c after (omega arith),
    ) in
    rw (zero_field, total, fold_complement s (omega (arith, zero_field))) refl

-- Each pair of bytes adds less than 2^16.
pub sum_words-bound : (s : Bytes) → All IsByte s → sum_words s ≤ 65535 * length s
unfolding sum_words
sum_words-bound [] h = omega arith
sum_words-bound (p ∷ []) h = omega arith
sum_words-bound (p ∷ q ∷ s) h = omega (arith, h.0, h.1.0, sum_words-bound s h.1.1)
