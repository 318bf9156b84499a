-- ===== src/Listen/Gathered.antt =====
-- socket_server/socket_listen.py, lines 33 to 60 and 126 to 152: what a listener has gathered after any
-- interleaving of its connections, its thread and its cleanings.
use socket_server.Prelude.{
  Bool, true, false, ℕ, ◌≡◌, refl, sym, ap, ◌∙◌, Option, some, List, [], ◌∷◌, ◌++◌, append-nil,
  append_assoc, length, concat,
}
use socket_server.Prelude.Bytes.{Bytes, Text, pack_le64}
use socket_server.Listen.{
  Hand, free, got, noted, Stream, handle_conn, write_bin, get_next, add_hand, cachedata, clean_data,
  remove_bins, content, transfer,
}

-- The stream with what is to be remembered of the past: the bytes received since `data` was emptied.
pub record Gathering : Type 0 where
  pub stream : Stream
  pub since : Bytes

abbrev pub hand_bytes : Hand → Bytes
hand_bytes free = []
hand_bytes (got chunk) = chunk
hand_bytes (noted chunk) = chunk

-- What is received and not yet added to `data`.
abbrev pub waiting : Stream → Bytes
waiting s = hand_bytes s.hand ++ concat s.q

-- A connection receives a chunk, the thread makes a move (with a `get` that raises or not), `data` is
-- emptied, after which what waits counts as received, or files are removed. The two parts of a cleaning
-- are steps of their own, between which the others go on.
pub data Step : Gathering → Gathering → Type 0 where
  receives :
      (b : ℕ) (bs : Bytes) (g : Gathering)
      → Step g (record g {
        stream = handle_conn (some (b ∷ bs) ∷ []) g.stream;
        since = g.since ++ (b ∷ bs);
      })
  caches : (fails : Bool) (g : Gathering) → Step g (record g { stream = cachedata fails g.stream })
  cleans :
      (g : Gathering) → Step g (record { stream = clean_data g.stream; since = waiting g.stream })
  removes :
      (left : List Bytes) (g : Gathering) → Step g (record g { stream = remove_bins left g.stream })

pub data Steps : Gathering → Gathering → Type 0 where
  stop : (g : Gathering) → Steps g g
  step : (f g h : Gathering) → Step f g → Steps g h → Steps f h

-- Nothing is lost, doubled or out of order in `data`.
abbrev pub IsKept : Gathering → Type 0
IsKept g = g.since ≡ g.stream.cached ++ waiting g.stream

pub concat-append : (xs : List Bytes) (ys : Bytes) → concat (xs ++ (ys ∷ [])) ≡ concat xs ++ ys
concat-append [] ys = append-nil ys
concat-append (x ∷ xs) ys = rw (concat-append xs ys) (sym (append_assoc x (concat xs) ys))

write_bin-IsKept :
    (datawrite : Bytes) (g : Gathering)
    → IsKept g
    → IsKept (record g { stream = write_bin datawrite g.stream })
unfolding write_bin
write_bin-IsKept [] g h = h
write_bin-IsKept (b ∷ bs) g h = h

get_next-IsKept :
    (fails : Bool) (q : List Bytes) (g : Gathering)
    → g.stream.q ≡ q
    → g.stream.hand ≡ free
    → IsKept g
    → IsKept (record g { stream = get_next fails q g.stream })
unfolding get_next
get_next-IsKept fails [] g e n h = write_bin-IsKept g.stream.datawrite g h
get_next-IsKept true (chunk ∷ rest) g e n h = h
get_next-IsKept false (chunk ∷ rest) g e n h =
    h
    ∙ ap (λ (o : Hand). g.stream.cached ++ (hand_bytes o ++ concat g.stream.q)) n
    ∙ ap (λ (q : List Bytes). g.stream.cached ++ concat q) e

add_hand-IsKept :
    (fails : Bool) (hand : Hand) (g : Gathering)
    → g.stream.hand ≡ hand
    → IsKept g
    → IsKept (record g { stream = add_hand fails hand g.stream })
unfolding add_hand
add_hand-IsKept fails free g e h = get_next-IsKept fails g.stream.q g refl e h
add_hand-IsKept fails (got chunk) g e h =
    h ∙ ap (λ (o : Hand). g.stream.cached ++ (hand_bytes o ++ concat g.stream.q)) e
add_hand-IsKept fails (noted chunk) g e h =
    h
    ∙ ap (λ (o : Hand). g.stream.cached ++ (hand_bytes o ++ concat g.stream.q)) e
    ∙ sym (append_assoc g.stream.cached chunk (concat g.stream.q))

Step-IsKept : (g h : Gathering) → Step g h → IsKept g → IsKept h
unfolding handle_conn cachedata clean_data remove_bins
Step-IsKept _ _ (receives b bs g) k =
    ap (λ (d : Bytes). d ++ (b ∷ bs)) k
    ∙ append_assoc g.stream.cached (waiting g.stream) (b ∷ bs)
    ∙ ap (λ (d : Bytes). g.stream.cached ++ d)
        (append_assoc (hand_bytes g.stream.hand) (concat g.stream.q) (b ∷ bs)
          ∙ ap (λ (d : Bytes). hand_bytes g.stream.hand ++ d)
              (sym (concat-append g.stream.q (b ∷ bs))))
Step-IsKept _ _ (caches fails g) k = add_hand-IsKept fails g.stream.hand g refl k
Step-IsKept _ _ (cleans g) k = refl
Step-IsKept _ _ (removes left g) k = k

Steps-IsKept : (g h : Gathering) → Steps g h → IsKept g → IsKept h
Steps-IsKept g _ (stop _) k = k
Steps-IsKept f h (step _ g _ one more) k = Steps-IsKept g h more (Step-IsKept f g one k)

-- From a state in which nothing is lost, whatever chunks are received, moves of the thread made (one
-- statement each, with calls of `get` that raise), and statements of cleanings done in between, in whatever
-- order: the data that command 174 sends, behind its length, and what still waits are the bytes received
-- since `data` was last emptied, with what waited then, in their order.
pub Steps-transfer :
    {W : Type 0} (g h : Gathering)
    → Steps g h
    → IsKept g
    → (gzip : Bytes → Bytes) (host : Option Text) (port : ℕ) (processes : List ℕ) (w : W)
    → (d : Bytes) × (transfer gzip (record {
      ss = some (record { host = host; port = port; processes = processes; stream = h.stream });
      world = w;
    })
        ≡ content (pack_le64 (length (gzip d)) ++ gzip d))
      × (d ++ waiting h.stream ≡ h.since)
unfolding transfer
Steps-transfer g h path k gzip host port processes w =
    (h.stream.cached, refl, sym (Steps-IsKept g h path k))
