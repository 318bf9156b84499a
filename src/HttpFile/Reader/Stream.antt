-- ===== src/HttpFile/Reader/Stream.antt =====
-- socket_server/http_file.py, lines 69 to 98: `_BodyReader.stream_value` against the reference.
use socket_server.Prelude.{
  ℕ, zero, suc, ◌+◌, ◌-◌, ◌≤◌, ◌<◌, ◌≡◌, refl, sym, ap, ◌∙◌, subst, ◌≢◌, ◌⊎◌, inl, inr, false,
  Option, none, some, [], ◌∷◌, ◌++◌, append-nil, arith, ltb, ◌==◌, ltb→lt, Bool-cases, Option-cases,
  length, take, drop, length-append, length-drop,
}
use socket_server.Prelude.Bytes.{Bytes}
use socket_server.HttpFile.Reader.{
  BodyReader, Result, ok, err, chunk_size, truncated_value, fill, find, is_tail, flush, refill,
  read_on, at_delim, stream_value,
}
use socket_server.HttpFile.Reader.Fill.{unread, pending, fill-IsFilled, chunk_pos}
use socket_server.HttpFile.Reader.Find.{IsDelimiter, take-append_le, drop-append_le, is_tail-take}
use socket_server.HttpFile.Reader.Split.{
  IsDelimiter-long, prepend, split_value, skip_quiet, genuine, pretended, IsWaiting, not_found,
  cut_off, IsWaiting-IsQuiet, waiting_end,
}

-- A sink that takes everything: `write` is what it does to its state, piece by piece or at once.
pub record Accepts {S : Type 0} (sink : Bytes → S → Result S S) (write : Bytes → S → S)
    : Type 0 where
  pub accepts : (b : Bytes) (st : S) → sink b st ≡ ok (write b st)
  pub joins : (a b : Bytes) (st : S) → write b (write a st) ≡ write (a ++ b) st

module _ {S : Type 0} (write : Bytes → S → S) where
  -- What the split of the body asks of a call that began with the sink at `st`.
  abbrev pub Delivers : Option (Bytes × Bytes) → S → Result S (BodyReader × S) → Type 0
  Delivers none st r = (st' : S) × (r ≡ err truncated_value st')
  Delivers (some (v, after)) st r =
      (br : BodyReader) × (r ≡ ok (br, write v st)) × (pending br ≡ after)

no_bytes : (xs : Bytes) → length xs ≡ 0 → xs ≡ []
no_bytes [] h = refl
no_bytes (x ∷ xs) h = absurd (omega arith)

grown_more : {m n : ℕ} → (m == n) ≡ false → m ≢ n
grown_more e = ground arith

-- A `fill` for one more chunk that adds nothing shows that nothing is left.
nothing_unread :
    (br filled : BodyReader)
    → length filled.buf + length (unread filled) ≡ length br.buf + length (unread br)
    → length filled.buf ≡ length br.buf
    → (length br.buf + chunk_size ≤ length filled.buf) ⊎ (unread filled ≡ [])
    → unread br ≡ []
nothing_unread br filled total same (inl enough) = absurd (omega (arith, chunk_pos))
nothing_unread br filled total same (inr e) = no_bytes (unread br) (omega (arith, ap length e))

prepend-none : (p : Bytes) (o : Option (Bytes × Bytes)) → prepend p o ≡ none → o ≡ none
prepend-none p none h = refl
prepend-none p (some (v, after)) h = cc

module _ {S : Type 0} (d : Bytes) (sink : Bytes → S → Result S S) (write : Bytes → S → S)
    (v : IsDelimiter d) (a : Accepts sink write) where
  Delivers-prepend :
      (p : Bytes) (o : Option (Bytes × Bytes)) (st : S) (r : Result S (BodyReader × S))
      → Delivers write o (write p st) r
      → Delivers write (prepend p o) st r
  Delivers-prepend p none st r h = h
  Delivers-prepend p (some (value, after)) st r (br, e, left) =
      (br, e ∙ ap (λ s. ok (br, s)) (a.joins p value st), left)

  split_flushed :
      (br : BodyReader)
      → IsWaiting d br.buf
      → split_value d (pending br)
        ≡ prepend
            (take (length br.buf - (length d + 1)) br.buf)
            (split_value d (drop (length br.buf - (length d + 1)) br.buf ++ unread br))
  split_flushed br waiting =
      let k = length br.buf - (length d + 1) in
      skip_quiet k d (pending br) (IsWaiting-IsQuiet d br.buf (unread br) v waiting)
        (omega (arith, length-append br.buf (unread br)))
      ∙ rw (
        take-append_le k br.buf (unread br) (omega arith),
        drop-append_le k br.buf (unread br) (omega arith),
      )

  nothing_left :
      (br : BodyReader) → IsWaiting d br.buf → unread br ≡ [] → split_value d (pending br) ≡ none
  nothing_left br waiting e = rw (e, append-nil br.buf) (waiting_end d br.buf v waiting)

  -- The rest of the loop, given what the next round does.
  abbrev Next : ℕ → (BodyReader → S → Result S (BodyReader × S)) → Type 0
  Next fuel next =
      (br : BodyReader) (st : S)
      → length (pending br) + length (unread br) < fuel
      → Delivers write (split_value d (pending br)) st (next br st)

  module _ (fuel : ℕ) (next : BodyReader → S → Result S (BodyReader × S))
      (ih : Next fuel next) where
    refill-Delivers :
        (br : BodyReader) (st : S)
        → length (pending br) + length (unread br) ≤ fuel
        → (unread br ≡ [] → split_value d (pending br) ≡ none)
        → Delivers write (split_value d (pending br)) st (refill d sink next br st)
    unfolding refill
    refill-Delivers br st h dead =
        let need = length br.buf + chunk_size in
        let filled = fill need br in
        let f = fill-IsFilled need br in
        let total : length filled.buf + length (unread filled)
            ≡ length br.buf + length (unread br) =
          sym (length-append filled.buf (unread filled))
          ∙ ap length f.same
          ∙ length-append br.buf (unread br) in
        elim (Bool-cases (length filled.buf == length br.buf)) [
          | inl stuck ↦
              let same : length filled.buf ≡ length br.buf = ground arith in
              rw (stuck, refill)
                (rw (dead (nothing_unread br filled total same f.enough)) (st, refl))
          | inr more ↦
              rw (more, refill)
                (subst (λ s. Delivers write (split_value d s) st (next filled st)) f.same
                  (ih filled st (omega (arith, ap length f.same, f.grown, grown_more more, total))))
        ]

    read_on-Delivers :
        (br : BodyReader) (st : S)
        → length (pending br) + length (unread br) ≤ fuel
        → IsWaiting d br.buf
        → Delivers write (split_value d (pending br)) st (read_on d sink next br st)
    unfolding read_on flush
    read_on-Delivers br st h waiting = elim (Bool-cases (ltb (length d + 1) (length br.buf))) [
      | inl long ↦
          let k = length br.buf - (length d + 1) in
          let out = take k br.buf in
          let kept = record br { buf = drop k br.buf } in
          rw (long, a.accepts out st, split_flushed br waiting)
            (Delivers-prepend out (split_value d (pending kept)) st _ (
              refill-Delivers kept (write out st)
                (omega (
                  arith,
                  length-append br.buf (unread br),
                  length-append kept.buf (unread br),
                  length-drop k br.buf,
                ))
                (λ e.
                  prepend-none out _ (sym (split_flushed br waiting) ∙ nothing_left br waiting e))))
      | inr short ↦ rw short (refill-Delivers br st h (nothing_left br waiting))
    ]

    at_delim-Delivers :
        (i : ℕ) (br : BodyReader) (st : S)
        → length (pending br) + length (unread br) ≤ fuel
        → find d br.buf ≡ some i
        → Delivers write (split_value d (pending br)) st (at_delim d sink next i br st)
    unfolding at_delim
    at_delim-Delivers i br st h found =
        let end = i + length d in
        let more = unread br in
        let left = record br { buf = drop end br.buf } in
        elim (Bool-cases (is_tail (drop end br.buf))) [
          | inl good ↦
              rw
                (
                  is_tail-take (drop end br.buf),
                  good,
                  a.accepts (take i br.buf) st,
                  genuine d br.buf more v i found good,
                )
                (left, refl, refl)
          | inr bad ↦
              rw (is_tail-take (drop end br.buf), bad)
                (elim (Bool-cases (ltb (end + 2) (length br.buf))) [
                  | inl visible ↦
                      rw
                        (
                          visible,
                          a.accepts (take end br.buf) st,
                          pretended d br.buf more v i found bad (ground arith),
                        )
                        (Delivers-prepend (take end br.buf) (split_value d (pending left)) st _ (
                          ih left (write (take end br.buf) st) (
                            omega (
                              arith,
                              ltb→lt _ _ visible,
                              length-append br.buf more,
                              length-append left.buf more,
                              length-drop end br.buf,
                              IsDelimiter-long d v,
                            ))))
                  | inr hidden ↦
                      rw hidden (read_on-Delivers br st h (cut_off i found bad (ground arith)))
                ])
        ]

  -- For a delimiter that begins with CR, has no other CR and at least four bytes, and a sink that
  -- takes all bytes: with fuel for every byte of the body, `stream_value` ends. If the body has a
  -- delimiter with a right text behind it (two dashes, CR LF, or a LF without a CR, of which the comment
  -- in the source does not speak), the sink has exactly the bytes before the first such delimiter, and
  -- the reader stands behind it; if not, the body is reported as truncated. How the bytes came in
  -- makes no difference.
  pub stream_value-Delivers :
      (fuel : ℕ) (br : BodyReader) (st : S)
      → length (pending br) + length (unread br) < fuel
      → Delivers write (split_value d (pending br)) st (stream_value d sink fuel br st)
  unfolding stream_value
  stream_value-Delivers zero br st h = absurd (omega arith)
  stream_value-Delivers (suc fuel) br st h = elim (Option-cases (find d br.buf)) [
    | inl nowhere ↦
        rw (nowhere, stream_value)
          (read_on-Delivers fuel (stream_value d sink fuel) (stream_value-Delivers fuel) br st
            (omega arith) (not_found nowhere))
    | inr (i, found) ↦
        rw (found, stream_value)
          (at_delim-Delivers fuel (stream_value d sink fuel) (stream_value-Delivers fuel) i br st
            (omega arith) found)
  ]
