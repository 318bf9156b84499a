-- ===== src/Capture/Sort/File.antt =====
-- socket_server/capture.py, `_sort_pcap_by_timestamp` on whole files.
use socket_server.Prelude.{
  All-drop, ℕ, zero, suc, ◌+◌, ◌≤◌, ◌<◌, ◌≡◌, refl, sym, ap, ◌∙◌, inl, inr, Bool, true, false, none,
  some, List, [], ◌∷◌, ◌++◌, arith, ltb, if◌then◌else◌, Bool-cases, Option-cases, length, take,
  drop, All, length-append, take-append-drop, length-take, take-append, drop-append,
}
use socket_server.Prelude.Bytes.{Bytes, IsByte, le32, le32-append}
use socket_server.Capture.Sort.{
  Packet, Endian, little, big, unpack_word, endian_of, read_records, key_leb, insert, sort,
  write_record, write_records, sort_records, sort_pcap,
}
use socket_server.Capture.Sort.Order.{KeyLe, IsSorted, sort-IsSorted, All-sort, sort-sorted}
use socket_server.Capture.Sort.Format.{Fits, renumber, read-write}

-- The bytes of a file.
abbrev AreBytes : Bytes → Type 0
AreBytes = All IsByte

word-lt : (e : Endian) (s : Bytes) → AreBytes s → unpack_word e s < 4294967296
word-lt little [] a = omega arith
word-lt little (p ∷ []) a = omega arith
word-lt little (p ∷ q ∷ []) a = omega arith
word-lt little (p ∷ q ∷ r ∷ []) a = omega arith
word-lt little (p ∷ q ∷ r ∷ t ∷ s) a = omega arith
word-lt big [] a = omega arith
word-lt big (p ∷ []) a = omega arith
word-lt big (p ∷ q ∷ []) a = omega arith
word-lt big (p ∷ q ∷ r ∷ []) a = omega arith
word-lt big (p ∷ q ∷ r ∷ t ∷ s) a = omega arith

All-unless :
    (P : Packet → Type 0) (b : Bool) (ps : List Packet) → All P ps → All P (if b then [] else ps)
All-unless P true ps a = tt
All-unless P false ps a = a

not_short : (f : Bytes) → ltb (length f) 24 ≡ false → 24 ≤ length f
not_short f h = ground arith

not_ltb : (m n : ℕ) → n ≤ m → ltb m n ≡ false
not_ltb m n h = ground arith

-- Every record that is read fits its header.
read_records-Fits :
    (fuel : ℕ) (e : Endian) (i : ℕ) (s : Bytes) → AreBytes s → All Fits (read_records fuel e i s)
unfolding read_records
read_records-Fits zero e i s a = tt
read_records-Fits (suc fuel) e i s a =
    let incl_len = unpack_word e (drop 8 s) in
    let body = drop 16 s in
    let rest = drop incl_len body in
    All-unless Fits (ltb (length s) 16) _ (
      All-unless Fits (ltb (length body) incl_len) _ (
        record {
          sec = word-lt e s a;
          frac = word-lt e (drop 4 s) (All-drop IsByte 4 s a);
          size =
              omega
                (arith, length-take incl_len body, word-lt e (drop 8 s) (All-drop IsByte 8 s a));
        },
        read_records-Fits fuel e (i + 1) rest
            (All-drop IsByte incl_len body (All-drop IsByte 16 s a)),
      ))

length-unless :
    (b : Bool) (ps : List Packet) (n : ℕ) → length ps ≤ n → length (if b then [] else ps) ≤ n
length-unless true ps n h = omega arith
length-unless false ps n h = h

length-insert : (p : Packet) (ps : List Packet) → length (insert p ps) ≡ length ps + 1
unfolding insert
length-insert p [] = omega arith
length-insert p (q ∷ qs) = ground (arith, length-insert p qs)

-- A record takes 16 bytes of the file at least.
pub length-write_records : (e : Endian) (ps : List Packet) → length ps ≤ length (write_records e ps)
unfolding write_records
length-write_records little [] = omega arith
length-write_records little (p ∷ ps) =
    omega
      (arith, length-append p.captured (write_records little ps), length-write_records little ps)
length-write_records big [] = omega arith
length-write_records big (p ∷ ps) =
    omega (arith, length-append p.captured (write_records big ps), length-write_records big ps)

-- The records of a file in byte order `e`, behind its global header.
abbrev pub records_of : Endian → Bytes → List Packet
records_of e f = read_records (length (drop 24 f)) e 0 (drop 24 f)

length-header : (f s : Bytes) → ltb (length f) 24 ≡ false → length (take 24 f) ≡ 24
length-header f s h = omega (arith, length-take 24 f, not_short f h)

module _ (e : Endian) (f : Bytes) (a : AreBytes f) (long : ltb (length f) 24 ≡ false) where
  All-Fits : All Fits (sort (records_of e f))
  All-Fits =
      All-sort Fits (records_of e f)
        (read_records-Fits (length (drop 24 f)) e 0 (drop 24 f) (All-drop IsByte 24 f a))

  records_behind : drop 24 (sort_records e f) ≡ write_records e (sort (records_of e f))
  unfolding sort_records
  records_behind = drop-append 24 (take 24 f) _ (length-header f [] long)

  -- The file that is written, read again, has exactly the sorted records.
  pub records_of-sort_records : records_of e (sort_records e f) ≡ renumber 0 (sort (records_of e f))
  records_of-sort_records =
      ap (λ s. read_records (length s) e 0 s) records_behind
      ∙ read-write (sort (records_of e f)) _ e 0 All-Fits (length-write_records e _)

  same_header : take 24 (sort_records e f) ≡ take 24 f
  unfolding sort_records
  same_header = take-append 24 (take 24 f) _ (length-header f [] long)

  same_magic : le32 (sort_records e f) ≡ le32 f
  unfolding sort_records
  same_magic =
      le32-append (take 24 f) _ (omega (arith, length-header f [] long))
      ∙ sym (le32-append (take 24 f) (drop 24 f) (omega (arith, length-header f [] long)))
      ∙ ap (λ s. le32 s) (take-append-drop 24 f)

  still_long : ltb (length (sort_records e f)) 24 ≡ false
  unfolding sort_records
  still_long = not_ltb _ _ (
      omega (
        arith,
        length-append (take 24 f)
            (write_records e (sort (read_records (length (drop 24 f)) e 0 (drop 24 f)))),
        length-header f [] long,
      ))

renumber-KeyLe :
    (p q : Packet) (i j : ℕ)
    → KeyLe p q
    → i ≤ j
    → KeyLe (record p { idx = i }) (record q { idx = j })
unfolding key_leb
renumber-KeyLe p q i j h le = ground arith

renumber-All :
    (p : Packet) (ps : List Packet) (i j : ℕ)
    → All (KeyLe p) ps
    → i ≤ j
    → All (KeyLe (record p { idx = i })) (renumber j ps)
unfolding renumber
renumber-All p [] i j a h = tt
renumber-All p (q ∷ qs) i j a h =
    (renumber-KeyLe p q i j a.0 h, renumber-All p qs i (j + 1) a.1 (omega arith))

renumber-IsSorted : (ps : List Packet) (i : ℕ) → IsSorted ps → IsSorted (renumber i ps)
unfolding renumber
renumber-IsSorted [] i s = tt
renumber-IsSorted (p ∷ ps) i s =
    (renumber-All p ps i (i + 1) s.0 (omega arith), renumber-IsSorted ps (i + 1) s.1)

write_records-renumber :
    (e : Endian) (ps : List Packet) (i : ℕ) → write_records e (renumber i ps) ≡ write_records e ps
unfolding write_records renumber
write_records-renumber e [] i = refl
write_records-renumber e (p ∷ ps) i =
    ap (λ s. write_record e p ++ s) (write_records-renumber e ps (i + 1))

sort_records_twice :
    (e : Endian) (f : Bytes)
    → AreBytes f
    → ltb (length f) 24 ≡ false
    → sort_records e (sort_records e f) ≡ sort_records e f
unfolding sort_records
sort_records_twice e f a long =
    ap (λ s. s ++ write_records e (sort (records_of e (sort_records e f)))) (same_header e f a long)
    ∙ ap (λ ps. take 24 f ++ write_records e ps)
        (ap sort (records_of-sort_records e f a long)
          ∙ sort-sorted _ (renumber-IsSorted _ 0 (sort-IsSorted (records_of e f))))
    ∙ ap (λ s. take 24 f ++ s) (write_records-renumber e (sort (records_of e f)) 0)

-- A file that is too short or no capture is left alone.
sort_pcap_short : (f : Bytes) → ltb (length f) 24 ≡ true → sort_pcap f ≡ f
unfolding sort_pcap
sort_pcap_short f h = rw h

sort_pcap_unknown :
    (f : Bytes) → ltb (length f) 24 ≡ false → endian_of (le32 f) ≡ none → sort_pcap f ≡ f
unfolding sort_pcap
sort_pcap_unknown f h u = rw (h, u)

pub sort_pcap_known :
    (e : Endian) (f : Bytes)
    → ltb (length f) 24 ≡ false
    → endian_of (le32 f) ≡ some e
    → sort_pcap f ≡ sort_records e f
unfolding sort_pcap
sort_pcap_known e f h k = rw (h, k)

-- Of a capture file (bytes, its header whole, its magic number known) the rewritten file, read
-- again, has exactly the records of the old one, sorted by time and counted anew.
pub records_of-sort_pcap :
    (e : Endian) (f : Bytes)
    → AreBytes f
    → 24 ≤ length f
    → endian_of (le32 f) ≡ some e
    → records_of e (sort_pcap f) ≡ renumber 0 (sort (records_of e f))
records_of-sort_pcap e f a long known =
    ap (records_of e) (sort_pcap_known e f (not_ltb _ _ long) known)
    ∙ records_of-sort_records e f a (not_ltb _ _ long)

-- Sorting any file of bytes again changes no byte of it.
pub sort_pcap-sort_pcap : (f : Bytes) → AreBytes f → sort_pcap (sort_pcap f) ≡ sort_pcap f
sort_pcap-sort_pcap f a = elim (Bool-cases (ltb (length f) 24)) [
  | inl short ↦ ap sort_pcap (sort_pcap_short f short)
  | inr long ↦ elim (Option-cases (endian_of (le32 f))) [
    | inl unknown ↦ ap sort_pcap (sort_pcap_unknown f long unknown)
    | inr (e, known) ↦
        let first = sort_pcap_known e f long known in
        ap sort_pcap first
        ∙ sort_pcap_known e (sort_records e f) (still_long e f a long)
            (ap endian_of (same_magic e f a long) ∙ known)
        ∙ sort_records_twice e f a long
        ∙ sym first
  ]
]
