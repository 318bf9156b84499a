-- ===== src/Capture/Sort/Built.antt =====
-- socket_server/capture.py, lines 624 to 684: what the sort makes of a file that was written as a
-- global header and records.
use socket_server.Prelude.{
  ℕ, ◌+◌, ◌≡◌, refl, sym, ap, ◌∙◌, false, some, List, [], ◌∷◌, ◌++◌, append_assoc, arith, ltb,
  length, drop, All, length-append, take-append, drop-append,
}
use socket_server.Prelude.Bytes.{Bytes, le32, le32-append}
use socket_server.Capture.Sort.{
  Packet, Endian, endian_of, sort, write_records, sort_records, sort_pcap,
}
use socket_server.Capture.Sort.Order.{All-sort}
use socket_server.Capture.Sort.Format.{Fits, renumber, read-write}
use socket_server.Capture.Sort.File.{records_of, sort_pcap_known, length-write_records}

pub write_records-append :
    (e : Endian) (ps qs : List Packet)
    → write_records e (ps ++ qs) ≡ write_records e ps ++ write_records e qs
unfolding write_records
write_records-append e [] qs = refl
write_records-append e (p ∷ ps) qs =
    rw (write_records-append e ps qs)
      (sym (append_assoc _ (write_records e ps) (write_records e qs)))

renumber-Fits : (i : ℕ) (ps : List Packet) → All Fits ps → All Fits (renumber i ps)
unfolding renumber
renumber-Fits i [] a = tt
renumber-Fits i (p ∷ ps) a =
    (record { sec = a.0.sec; frac = a.0.frac; size = a.0.size }, renumber-Fits (i + 1) ps a.1)

module _ (e : Endian) (header : Bytes) (ps : List Packet) (whole : length header ≡ 24)
    (a : All Fits ps) where
  behind : drop 24 (header ++ write_records e ps) ≡ write_records e ps
  behind = drop-append 24 header (write_records e ps) whole

  -- The records that were written are read back.
  pub records_of-built : records_of e (header ++ write_records e ps) ≡ renumber 0 ps
  records_of-built =
      rw behind (read-write ps (length (write_records e ps)) e 0 a (length-write_records e ps))

  -- The sorted file has the same header.
  pub sort_pcap-built :
      endian_of (le32 header) ≡ some e
      → sort_pcap (header ++ write_records e ps) ≡ header ++ write_records e (sort (renumber 0 ps))
  unfolding sort_records
  sort_pcap-built known =
      let long : ltb (length (header ++ write_records e ps)) 24 ≡ false =
        ground (arith, length-append header (write_records e ps)) in
      let magic : le32 (header ++ write_records e ps) ≡ le32 header =
        le32-append header (write_records e ps) (omega arith) in
      sort_pcap_known e (header ++ write_records e ps) long (ap endian_of magic ∙ known)
      ∙ ap
          (λ (h : Bytes). h ++ write_records e (sort (records_of e (header ++ write_records e ps))))
          (take-append 24 header (write_records e ps) whole)
      ∙ ap (λ (rs : List Packet). header ++ write_records e (sort rs)) records_of-built

pub sorted-Fits : (ps : List Packet) → All Fits ps → All Fits (sort (renumber 0 ps))
sorted-Fits ps a = All-sort Fits (renumber 0 ps) (renumber-Fits 0 ps a)
