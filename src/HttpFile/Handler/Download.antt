-- ===== src/HttpFile/Handler/Download.antt =====
-- socket_server/http_file.py, lines 244 to 288: the bytes of a download.
use socket_server.Prelude.{
  ℕ, zero, suc, ◌-◌, ◌≤◌, ◌<◌, min, ◌≡◌, refl, sym, ap, ◌∙◌, true, false, some, List, [], ◌∷◌, ◌++◌,
  append-nil, append_assoc, arith, ◌==◌, length, take, All, concat, length-take,
}
use socket_server.Prelude.Bytes.{Bytes, Text}
use socket_server.HttpFile.Handler.{send_file, served, do_get}

-- The reads of a file that gives at most what was asked for, and something each time.
abbrev AreReads : List Bytes → Type 0
AreReads = All (λ r. (0 < length r) × (length r ≤ 1048576))

take_nil : (n : ℕ) → take {A = ℕ} n [] ≡ []
take_nil zero = refl
take_nil (suc n) = refl

positive : (n : ℕ) → (suc n == 0) ≡ false
positive n = ground arith

take_short : (m n : ℕ) (xs : Bytes) → length xs ≤ m → take (min m n) xs ≡ take n xs
take_short m zero xs h = let e : min m 0 ≡ 0 = omega arith in ap (λ k. take k xs) e
take_short zero (suc n) [] h = take_nil (min 0 (suc n))
take_short zero (suc n) (x ∷ xs) h = absurd (omega arith)
take_short (suc m) (suc n) [] h =
    let e : min (suc m) (suc n) ≡ suc (min m n) = omega arith in ap (λ k. take k []) e
take_short (suc m) (suc n) (x ∷ xs) h =
    let e : min (suc m) (suc n) ≡ suc (min m n) = omega arith in
    ap (λ k. take k (x ∷ xs)) e ∙ ap (λ s. x ∷ s) (take_short m n xs (omega arith))

take-append_rest :
    (n : ℕ) (xs ys : Bytes) → take n (xs ++ ys) ≡ take n xs ++ take (n - length (take n xs)) ys
take-append_rest zero xs ys = refl
take-append_rest (suc n) [] ys =
    let e : suc n - 0 ≡ suc n = omega arith in ap (λ k. take k ys) (sym e)
take-append_rest (suc n) (x ∷ xs) ys =
    let e : suc n - suc (length (take n xs)) ≡ n - length (take n xs) = omega arith in
    ap (λ s. x ∷ s) (take-append_rest n xs ys ∙ ap (λ k. take n xs ++ take k ys) (sym e))

-- The bytes sent are those of the file in their order, up to the size that was announced.
send_file_lem :
    (fuel left : ℕ) (reads : List Bytes) (writable : ℕ) (wfile : Bytes)
    → AreReads reads
    → left ≤ fuel
    → length reads ≤ writable
    → (send_file fuel left (record { reads = reads; writable = writable; wfile = wfile })).wfile
      ≡ wfile ++ take left (concat reads)
unfolding send_file
send_file_lem zero zero reads writable wfile h fits room = sym (append-nil wfile)
send_file_lem zero (suc left) reads writable wfile h fits room = absurd (omega arith)
send_file_lem (suc fuel) zero reads writable wfile h fits room = sym (append-nil wfile)
send_file_lem (suc fuel) (suc left) [] writable wfile h fits room =
    rw (positive left, send_file) (sym (append-nil wfile))
send_file_lem (suc fuel) (suc left) (r ∷ rs) zero wfile h fits room = absurd (omega arith)
send_file_lem (suc fuel) (suc left) (r ∷ rs) (suc w) wfile h fits room =
    let n = suc left in
    let same : take (min 1048576 n) r ≡ take n r = take_short 1048576 n r h.0.1 in
    let some_bytes : (length (take n r) == 0) ≡ false = ground (arith, length-take n r) in
    rw (positive left, send_file, same, some_bytes, send_file)
      (send_file_lem fuel (n - length (take n r)) rs w (wfile ++ take n r) h.1
          (omega (arith, length-take n r)) (omega arith)
        ∙ append_assoc wfile (take n r) _
        ∙ ap (λ s. wfile ++ s) (sym (take-append_rest n r (concat rs))))

-- A file that is there and can be read is answered with its size. To a client that takes all
-- writes exactly that many of its bytes are sent, in order, or all that the reads still give,
-- however the reads cut them, if none of them is empty or longer than a megabyte.
pub do_get-sends :
    (c : ℕ) (cs : Text) (size : ℕ) (reads : List Bytes) (writable : ℕ)
    → AreReads reads
    → length reads ≤ writable
    → do_get (c ∷ cs) true (some size) reads writable ≡ served size (take size (concat reads))
unfolding do_get
do_get-sends c cs size reads writable h room =
    ap (served size) (send_file_lem size size reads writable [] h (omega arith) room)
