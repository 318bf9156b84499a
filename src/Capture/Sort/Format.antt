-- ===== src/Capture/Sort/Format.antt =====
-- socket_server/capture.py, lines 656 to 678: the records of a capture file, read and written.
use socket_server.Prelude.{
  ℕ, zero, suc, ◌+◌, ◌≤◌, ◌<◌, ◌≡◌, refl, ap, ◌∙◌, false, List, [], ◌∷◌, ◌++◌, arith, ltb, length,
  drop, All, length-append, take-append, drop-append,
}
use socket_server.Prelude.Bytes.{Bytes, le32, be32, pack_le32, pack_be32}
use socket_server.Capture.Sort.{
  Packet, Endian, little, big, unpack_word, pack_word, read_records, write_record, write_records,
}

-- A record whose numbers fit their 32 bits, as everything that was read does.
pub record Fits (p : Packet) : Type 0 where
  pub sec : p.ts_sec < 4294967296
  pub frac : p.ts_frac < 4294967296
  pub size : length p.captured < 4294967296

-- The same records, with their places counted anew.
unfoldable pub renumber : ℕ → List Packet → List Packet
renumber i [] = []
renumber i (p ∷ ps) = record p { idx = i } ∷ renumber (i + 1) ps

unpack-pack :
    (e : Endian) (n : ℕ) (s : Bytes) → n < 4294967296 → unpack_word e (pack_word e n ++ s) ≡ n
unpack-pack little n s h = omega arith
unpack-pack big n s h = omega arith

length-pack_word : (e : Endian) (n : ℕ) → length (pack_word e n) ≡ 4
length-pack_word little n = refl
length-pack_word big n = refl

drop_word :
    (e : Endian) (n k : ℕ) (s : Bytes)
    → drop (suc (suc (suc (suc k)))) (pack_word e n ++ s) ≡ drop k s
drop_word little n k s = refl
drop_word big n k s = refl

-- One round of the loop on a record that was written.
read_one :
    (fuel : ℕ) (e : Endian) (i : ℕ) (p : Packet) (s : Bytes)
    → Fits p
    → read_records (suc fuel) e i (write_record e p ++ s)
      ≡ record p { idx = i } ∷ read_records fuel e (i + 1) s
unfolding read_records
read_one fuel little i p s h =
    let n = length p.captured in
    let sec : le32 (pack_le32 p.ts_sec) ≡ p.ts_sec = omega (arith, h.sec) in
    let frac : le32 (pack_le32 p.ts_frac) ≡ p.ts_frac = omega (arith, h.frac) in
    let size : le32 (pack_le32 n) ≡ n = omega (arith, h.size) in
    let long : ltb (length (write_record little p ++ s)) 16 ≡ false = ground arith in
    let whole : ltb (length (p.captured ++ s)) n ≡ false =
      ground (arith, length-append p.captured s) in
    rw (
      long,
      size,
      whole,
      sec,
      frac,
      take-append n p.captured s refl,
      drop-append n p.captured s refl,
    )
read_one fuel big i p s h =
    let n = length p.captured in
    let sec : be32 (pack_be32 p.ts_sec) ≡ p.ts_sec = omega (arith, h.sec) in
    let frac : be32 (pack_be32 p.ts_frac) ≡ p.ts_frac = omega (arith, h.frac) in
    let size : be32 (pack_be32 n) ≡ n = omega (arith, h.size) in
    let long : ltb (length (write_record big p ++ s)) 16 ≡ false = ground arith in
    let whole : ltb (length (p.captured ++ s)) n ≡ false =
      ground (arith, length-append p.captured s) in
    rw (
      long,
      size,
      whole,
      sec,
      frac,
      take-append n p.captured s refl,
      drop-append n p.captured s refl,
    )

-- Reading what was written gives the records, counted anew, with fuel for each.
pub read-write :
    (ps : List Packet) (fuel : ℕ) (e : Endian) (i : ℕ)
    → All Fits ps
    → length ps ≤ fuel
    → read_records fuel e i (write_records e ps) ≡ renumber i ps
unfolding write_records renumber
read-write [] zero e i a h = unfold read_records in refl
read-write [] (suc fuel) e i a h = unfold read_records in refl
read-write (p ∷ ps) zero e i a h = absurd (omega arith)
read-write (p ∷ ps) (suc fuel) e i a h =
    read_one fuel e i p (write_records e ps) a.0
    ∙ ap (λ r. record p { idx = i } ∷ r) (read-write ps fuel e (i + 1) a.1 (omega arith))
