-- ===== src/HttpFile/Reader/Split.antt =====
-- socket_server/http_file.py, lines 69 to 98: a body cut at its first delimiter, the reference for the
-- streaming reader, and what a buffer shows of it.
use socket_server.Prelude.{
  ℕ, zero, suc, ◌+◌, ◌-◌, ◌≤◌, ◌<◌, ◌≡◌, refl, sym, ap, ◌∙◌, subst, Bool, true, false, ◌&&◌, Option,
  none, some, [], ◌∷◌, ◌++◌, append-nil, append_assoc, arith, if◌then◌else◌, length, take, drop,
  length-append, length-drop,
}
use socket_server.Prelude.Bytes.{Bytes, starts_with}
use native.Mathlib.Decide.{dec_lt}
use socket_server.HttpFile.Reader.{find, is_tail}
use socket_server.HttpFile.Reader.Find.{
  starts_with-fits, starts_with-extend, starts_with_short, drop-append_le, take-append_le,
  drop-drop, find-some, find-none, IsDelimiter, overlap, is_tail-append, is_tail_more,
}

-- The reference: a value ends before the first delimiter with a right text behind it.
pub ends_value : Bytes → Bytes → Bool
ends_value d s = starts_with d s && is_tail (drop (length d) s)

abbrev pub prepend : Bytes → Option (Bytes × Bytes) → Option (Bytes × Bytes)
prepend p none = none
prepend p (some (v, after)) = some (p ++ v, after)

-- The value, and what stands behind its delimiter.
pub split_value : Bytes → Bytes → Option (Bytes × Bytes)
split_value d [] = none
split_value d (x ∷ xs) =
    if ends_value d (x ∷ xs)
    then some ([], drop (length d) (x ∷ xs))
    else prepend (x ∷ []) (split_value d xs)

prepend_nil : (o : Option (Bytes × Bytes)) → prepend [] o ≡ o
prepend_nil none = refl
prepend_nil (some (v, after)) = refl

prepend-prepend :
    (p q : Bytes) (o : Option (Bytes × Bytes)) → prepend p (prepend q o) ≡ prepend (p ++ q) o
prepend-prepend p q none = refl
prepend-prepend p q (some (v, after)) = rw (append_assoc p q v)

-- No value ends at the first `k` positions.
abbrev IsQuiet : Bytes → Bytes → ℕ → Type 0
IsQuiet d s k = (j : ℕ) → j < k → ends_value d (drop j s) ≡ false

pub skip_quiet :
    (k : ℕ) (d s : Bytes)
    → IsQuiet d s k
    → k ≤ length s
    → split_value d s ≡ prepend (take k s) (split_value d (drop k s))
unfolding split_value
skip_quiet zero d s q h = sym (prepend_nil (split_value d s))
skip_quiet (suc k) d [] q h = absurd (omega arith)
skip_quiet (suc k) d (x ∷ xs) q h = rw (q 0 (omega arith)) (
    ap (prepend (x ∷ [])) (skip_quiet k d xs (λ j lt. q (suc j) (omega arith)) (omega arith))
    ∙ prepend-prepend (x ∷ []) (take k xs) (split_value d (drop k xs)))

quiet_end : (d s : Bytes) → ((j : ℕ) → ends_value d (drop j s) ≡ false) → split_value d s ≡ none
unfolding split_value
quiet_end d [] q = refl
quiet_end d (x ∷ xs) q = rw (q 0, quiet_end d xs (λ j. q (suc j)))

ends_here :
    (d s : Bytes)
    → IsDelimiter d
    → ends_value d s ≡ true
    → split_value d s ≡ some ([], drop (length d) s)
unfolding split_value ends_value starts_with
ends_here [] s v e = absurd v
ends_here (c ∷ ds) [] v e = cc
ends_here (c ∷ ds) (x ∷ xs) v e = rw e

pub IsDelimiter-long : (d : Bytes) → IsDelimiter d → 4 ≤ length d
IsDelimiter-long [] v = absurd v
IsDelimiter-long (c ∷ ds) v = omega (arith, v.1)

-- Where no delimiter begins, no value ends.
no_start : (d s : Bytes) → starts_with d s ≡ false → ends_value d s ≡ false
unfolding ends_value
no_start d s h = rw h

module _ (d buf more : Bytes) (v : IsDelimiter d) where
  -- A position whose delimiter would lie inside the buffer.
  quiet_inside :
      (j : ℕ)
      → j + length d ≤ length buf
      → starts_with d (drop j buf) ≡ false
      → ends_value d (drop j (buf ++ more)) ≡ false
  quiet_inside j fits e = no_start d (drop j (buf ++ more)) (
      ap (starts_with d) (drop-append_le j buf more (omega arith))
      ∙ starts_with-extend d (drop j buf) more (omega (arith, length-drop j buf))
      ∙ e)

  module _ (i : ℕ) (found : find d buf ≡ some i) where
    end : ℕ
    end = i + length d

    starts_at : starts_with d (drop i buf) ≡ true
    starts_at = (find-some d buf i found).0

    fits_at : i + length d ≤ length buf
    fits_at =
        omega (
          arith,
          starts_with-fits d (drop i buf) starts_at,
          length-drop i buf,
          IsDelimiter-long d v,
        )

    starts_total : starts_with d (drop i (buf ++ more)) ≡ true
    starts_total =
        ap (starts_with d) (drop-append_le i buf more (omega (arith, fits_at)))
        ∙ starts_with-extend d (drop i buf) more (omega (arith, fits_at, length-drop i buf))
        ∙ starts_at

    tail_total : drop (length d) (drop i (buf ++ more)) ≡ drop (i + length d) buf ++ more
    tail_total =
        drop-drop i (length d) (buf ++ more) ∙ drop-append_le (i + length d) buf more fits_at

    IsQuiet-before : IsQuiet d (buf ++ more) i
    IsQuiet-before j lt = quiet_inside j (omega (arith, fits_at)) ((find-some d buf i found).1 j lt)

    -- A delimiter begins inside another nowhere.
    quiet_overlap : (j : ℕ) → i < j → j < i + length d → ends_value d (drop j (buf ++ more)) ≡ false
    quiet_overlap j gt lt =
        let e : i + (j - i) ≡ j = omega arith in
        no_start d (drop j (buf ++ more)) (
          ap (λ n. starts_with d (drop n (buf ++ more))) (sym e)
          ∙ ap (starts_with d) (sym (drop-drop i (j - i) (buf ++ more)))
          ∙ overlap d (drop i (buf ++ more)) (j - i) v starts_total (omega arith) (omega arith))

    quiet_at :
        is_tail (drop (i + length d) buf ++ more) ≡ false
        → ends_value d (drop i (buf ++ more)) ≡ false
    unfolding ends_value
    quiet_at no_tail = rw (starts_total, tail_total) no_tail

    -- No value ends up to the last byte of a delimiter with a wrong text behind it.
    IsQuiet-through :
        is_tail (drop (i + length d) buf ++ more) ≡ false → IsQuiet d (buf ++ more) (i + length d)
    IsQuiet-through bad j lt = elim (dec_lt j i) [
      | yes before ↦ IsQuiet-before j before
      | no not_before ↦ elim (dec_lt i j) [
        | yes after ↦ quiet_overlap j after lt
        | no not_after ↦
            let e : i ≡ j = omega arith in
            subst (λ n. ends_value d (drop n (buf ++ more)) ≡ false) e (quiet_at bad)
      ]
    ]

    -- A true delimiter ends the value.
    pub genuine :
        is_tail (drop (i + length d) buf) ≡ true
        → split_value d (buf ++ more) ≡ some (take i buf, drop (i + length d) buf ++ more)
    genuine good =
        let e =
          skip_quiet i d (buf ++ more) IsQuiet-before
            (omega (arith, fits_at, length-append buf more)) in
        e
        ∙ ap (prepend (take i (buf ++ more)))
            (ends_here d (drop i (buf ++ more)) v ends_total ∙ ap (λ s. some ([], s)) tail_total)
        ∙ (ap (λ s. some (s, drop (i + length d) buf ++ more))
            (append-nil (take i (buf ++ more))
              ∙ take-append_le i buf more (omega (arith, fits_at))))
      where
        ends_total : ends_value d (drop i (buf ++ more)) ≡ true
        ends_total =
            unfold ends_value in
            rw (starts_total, tail_total) (is_tail_more (drop (i + length d) buf) more good)

    -- Text that only looks like a delimiter belongs to the value.
    pub pretended :
        is_tail (drop (i + length d) buf) ≡ false
        → i + length d + 2 ≤ length buf
        → split_value d (buf ++ more)
          ≡ prepend (take (i + length d) buf) (split_value d (drop (i + length d) buf ++ more))
    pretended bad visible =
        skip_quiet (i + length d) d (buf ++ more) quiet (omega (arith, length-append buf more))
        ∙ ap (λ s. prepend s (split_value d (drop (i + length d) (buf ++ more))))
            (take-append_le (i + length d) buf more fits_at)
        ∙ ap (λ s. prepend (take (i + length d) buf) (split_value d s))
            (drop-append_le (i + length d) buf more fits_at)
      where
        bad_total : is_tail (drop (i + length d) buf ++ more) ≡ false
        bad_total =
            is_tail-append (drop (i + length d) buf) more
              (omega (arith, length-drop (i + length d) buf))
            ∙ bad

        quiet : IsQuiet d (buf ++ more) (i + length d)
        quiet = IsQuiet-through bad_total

-- The buffer does not tell yet: no delimiter begins in it, or the text behind the first is cut off.
pub data IsWaiting (d buf : Bytes) : Type 0 where
  not_found : find d buf ≡ none → IsWaiting d buf
  cut_off :
      (i : ℕ)
      → find d buf ≡ some i
      → is_tail (drop (i + length d) buf) ≡ false
      → length buf ≤ i + length d + 2
      → IsWaiting d buf

-- All but the last bytes of such a buffer belong to the value, whatever follows.
pub IsWaiting-IsQuiet :
    (d buf more : Bytes)
    → IsDelimiter d
    → IsWaiting d buf
    → IsQuiet d (buf ++ more) (length buf - (length d + 1))
IsWaiting-IsQuiet d buf more v (not_found f) j lt =
    quiet_inside d buf more v j (omega arith) (find-none d buf f j)
IsWaiting-IsQuiet d buf more v (cut_off i f bad short) j lt = elim (dec_lt j i) [
  | yes before ↦ IsQuiet-before d buf more v i f j before
  | no not_before ↦
      let e : i ≡ j = omega arith in
      subst (λ n. ends_value d (drop n (buf ++ more)) ≡ false) e
        (quiet_at d buf more v i f (
          is_tail-append (drop (i + length d) buf) more
            (omega (arith, length-drop (i + length d) buf))
          ∙ bad))
]

-- If nothing follows, the value has no end.
pub waiting_end : (d buf : Bytes) → IsDelimiter d → IsWaiting d buf → split_value d buf ≡ none
waiting_end d buf v (not_found f) =
    quiet_end d buf (λ j. no_start d (drop j buf) (find-none d buf f j))
waiting_end d buf v (cut_off i f bad short) = quiet_end d buf quiet
  where
    quiet : (j : ℕ) → ends_value d (drop j buf) ≡ false
    quiet j = elim (dec_lt j (i + length d)) [
      | yes inside ↦
          subst (λ s. ends_value d (drop j s) ≡ false) (append-nil buf)
            (IsQuiet-through d buf [] v i f (rw (append-nil (drop (i + length d) buf)) bad) j
              inside)
      | no outside ↦ no_start d (drop j buf) (
          starts_with_short d (drop j buf) (omega (arith, length-drop j buf, IsDelimiter-long d v)))
    ]
