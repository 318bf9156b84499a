-- ===== src/Listen/Settled.antt =====
-- socket_server/socket_listen.py, lines 133 to 152: the thread `cachedata` catches up.
use socket_server.Prelude.{
  Bool, true, false, ◌<◌, if◌then◌else◌, ℕ, ◌+◌, ◌-◌, ◌*◌, ◌≤◌, ◌≡◌, refl, sym, ap, ◌∙◌, List, [],
  ◌∷◌, ◌++◌, append-nil, append_assoc, arith, length, concat,
}
use socket_server.Prelude.Bytes.{Bytes}
use socket_server.Listen.{Hand, free, got, noted, Stream, write_bin, get_next, add_hand, cachedata}
use socket_server.Listen.Gathered.{hand_bytes, waiting, concat-append}

-- The moves that are left: four for a chunk in the queue, three for one that was got, one for one that is
-- to be added to `data`, and one for a file.
abbrev some_left : Bytes → ℕ
some_left [] = 0
some_left (b ∷ bs) = 1

abbrev hand_left : Hand → ℕ
hand_left free = 0
hand_left (got chunk) = 3
hand_left (noted chunk) = 1

abbrev moves_left : Stream → ℕ
moves_left s = 4 * length s.q + (hand_left s.hand + some_left s.datawrite)

-- Moves of the thread, each with whether its `get` raises.
pub moves : List Bool → Stream → Stream
moves [] s = s
moves (fails ∷ fs) s = moves fs (cachedata fails s)

abbrev pub failures : List Bool → ℕ
failures [] = 0
failures (f ∷ fs) = if f then failures fs + 1 else failures fs

failures-le : (fs : List Bool) → failures fs ≤ length fs
failures-le [] = omega arith
failures-le (f ∷ fs) = ground (arith, failures-le fs)

-- What ends up in the data, and in the files.
abbrev pub all_data : Stream → Bytes
all_data s = s.cached ++ waiting s

abbrev pub unwritten : Hand → Bytes
unwritten free = []
unwritten (got chunk) = chunk
unwritten (noted chunk) = []

abbrev pub all_files : Stream → Bytes
all_files s = concat s.bins ++ (s.datawrite ++ (unwritten s.hand ++ concat s.q))

-- A move that is left is made, unless its `get` raises, and changes neither.
record IsMove (fails : Bool) (s t : Stream) : Type 0 where
  fewer : moves_left t ≤ moves_left s - (if fails then 0 else 1)
  same_data : all_data t ≡ all_data s
  same_files : all_files t ≡ all_files s

some_left-le : (b : Bytes) → some_left b ≤ 1
some_left-le [] = omega arith
some_left-le (b ∷ bs) = omega arith

one_less : (fails : Bool) (n m : ℕ) → n < m → n ≤ m - (if fails then 0 else 1)
one_less true n m h = omega arith
one_less false n m h = omega arith

idle_move : (fails : Bool) (n : ℕ) → n ≡ 0 → n ≤ n - (if fails then 0 else 1)
idle_move true n e = omega arith
idle_move false n e = omega arith

write_bin-IsMove :
    (fails : Bool) (datawrite : Bytes) (s : Stream)
    → s.datawrite ≡ datawrite
    → s.q ≡ []
    → s.hand ≡ free
    → IsMove fails s (write_bin datawrite s)
unfolding write_bin
write_bin-IsMove fails [] s e q n = record {
  fewer = idle_move fails (moves_left s) (rw (e, q, n) refl);
  same_data = refl;
  same_files = refl;
}
write_bin-IsMove fails (b ∷ bs) s e q n = record {
  fewer = one_less fails _ _ (rw (e, q, n) (omega arith));
  same_data = refl;
  same_files =
      let later = unwritten s.hand ++ concat s.q in
      ap (λ (d : Bytes). d ++ later) (concat-append s.bins (b ∷ bs))
      ∙ append_assoc (concat s.bins) (b ∷ bs) later
      ∙ ap (λ (d : Bytes). concat s.bins ++ (d ++ later)) (sym e);
}

get_next-IsMove :
    (fails : Bool) (q : List Bytes) (s : Stream)
    → s.q ≡ q
    → s.hand ≡ free
    → IsMove fails s (get_next fails q s)
unfolding get_next
get_next-IsMove fails [] s e n = write_bin-IsMove fails s.datawrite s refl e n
get_next-IsMove true (chunk ∷ rest) s e n = record {
  fewer = omega arith;
  same_data = refl;
  same_files = refl;
}
get_next-IsMove false (chunk ∷ rest) s e n =
    let data_same : waiting s ≡ chunk ++ concat rest =
      ap (λ (o : Hand). hand_bytes o ++ concat s.q) n ∙ ap (λ (q : List Bytes). concat q) e in
    let files_same : unwritten s.hand ++ concat s.q ≡ chunk ++ concat rest =
      ap (λ (o : Hand). unwritten o ++ concat s.q) n ∙ ap (λ (q : List Bytes). concat q) e in
    record {
      fewer = rw (e, n) (omega arith);
      same_data = ap (λ (d : Bytes). s.cached ++ d) (sym data_same);
      same_files = ap (λ (d : Bytes). concat s.bins ++ (s.datawrite ++ d)) (sym files_same);
    }

add_hand-IsMove :
    (fails : Bool) (hand : Hand) (s : Stream)
    → s.hand ≡ hand
    → IsMove fails s (add_hand fails hand s)
unfolding add_hand
add_hand-IsMove fails free s e = get_next-IsMove fails s.q s refl e
add_hand-IsMove fails (got chunk) s e = record {
  fewer = one_less fails _ _ (rw e (omega (arith, some_left-le (s.datawrite ++ chunk))));
  same_data = ap (λ (o : Hand). s.cached ++ (hand_bytes o ++ concat s.q)) (sym e);
  same_files =
      ap (λ (d : Bytes). concat s.bins ++ d) (append_assoc s.datawrite chunk (concat s.q))
      ∙ ap (λ (o : Hand). concat s.bins ++ (s.datawrite ++ (unwritten o ++ concat s.q))) (sym e);
}
add_hand-IsMove fails (noted chunk) s e = record {
  fewer = one_less fails _ _ (rw e (omega arith));
  same_data =
      append_assoc s.cached chunk (concat s.q)
      ∙ ap (λ (o : Hand). s.cached ++ (hand_bytes o ++ concat s.q)) (sym e);
  same_files =
      ap (λ (o : Hand). concat s.bins ++ (s.datawrite ++ (unwritten o ++ concat s.q))) (sym e);
}

abbrev pub IsSettled : Stream → Type 0
IsSettled s = (s.q ≡ []) × (s.hand ≡ free) × (s.datawrite ≡ [])

none_left :
    (q : List Bytes) (hand : Hand) (datawrite : Bytes)
    → 4 * length q + (hand_left hand + some_left datawrite) ≤ 0
    → (q ≡ []) × (hand ≡ free) × (datawrite ≡ [])
none_left [] free [] h = (refl, refl, refl)
none_left (chunk ∷ q) hand datawrite h = absurd (omega arith)
none_left [] (got chunk) datawrite h = absurd (omega arith)
none_left [] (noted chunk) datawrite h = absurd (omega arith)
none_left [] free (b ∷ bs) h = absurd (omega arith)

moves_on :
    (fails : Bool) (n m : ℕ) (fs : List Bool)
    → m ≤ n - (if fails then 0 else 1)
    → n + failures (fails ∷ fs) ≤ length (fails ∷ fs)
    → m + failures fs ≤ length fs
moves_on true n m fs le h = omega arith
moves_on false n m fs le h = omega (arith, failures-le fs)

-- Once nothing more is received, the thread has caught up after as many moves as are left (four for a chunk
-- in the queue, three for one that was got, one for one that is only in `datawrite`, one for a file) and one
-- more for each `get` that raised: the queue is empty, the data has grown by all that waited, in its order,
-- and so have the files, with what was to be written before it. No cleaning comes in between.
pub moves-IsSettled :
    (fs : List Bool) (s : Stream)
    → moves_left s + failures fs ≤ length fs
    → IsSettled (moves fs s)
      × ((moves fs s).cached ≡ all_data s)
      × (concat (moves fs s).bins ≡ all_files s)
unfolding moves cachedata
moves-IsSettled [] s h =
    let (q, hand, written) = none_left s.q s.hand s.datawrite (omega arith) in
    let quiet : waiting s ≡ [] =
      ap (λ (o : Hand). hand_bytes o ++ concat s.q) hand ∙ ap (λ (q : List Bytes). concat q) q in
    let filed : unwritten s.hand ++ concat s.q ≡ [] =
      ap (λ (o : Hand). unwritten o ++ concat s.q) hand ∙ ap (λ (q : List Bytes). concat q) q in
    (
      (q, hand, written),
      sym (ap (λ (d : Bytes). s.cached ++ d) quiet ∙ append-nil s.cached),
      sym (
          ap (λ (d : Bytes). concat s.bins ++ (d ++ (unwritten s.hand ++ concat s.q))) written
          ∙ ap (λ (d : Bytes). concat s.bins ++ d) filed
          ∙ append-nil (concat s.bins)),
    )
moves-IsSettled (fails ∷ fs) s h =
    let move = add_hand-IsMove fails s.hand s refl in
    let (settled, kept, filed) =
      moves-IsSettled fs (add_hand fails s.hand s)
        (moves_on fails (moves_left s) (moves_left (add_hand fails s.hand s)) fs move.fewer h) in
    (settled, kept ∙ move.same_data, filed ∙ move.same_files)
