-- ===== src/Prelude/Bytes.antt =====
-- Byte strings, and the fixed-width integers that `struct` packs into them.
use Prim.Native.Char.{code}
use Prim.Native.Nat.{ℕ, ◌+◌, ◌*◌, ◌/◌, ◌%◌, ◌<◌, ◌≤◌}
use Prim.Native.String.{String}
use mathlib.Core.Path.{◌≡◌, refl}
use mathlib.Core.Bool.{Bool, true, false, ◌&&◌}
use mathlib.Core.List.{List, [], ◌∷◌, ◌++◌}
use native.Mathlib.Omega.{arith}
use socket_server.Prelude.Tests.{◌==◌}
use socket_server.Prelude.Lists.{length, get_or, drop}

abbrev pub Bytes : Type 0
Bytes = List ℕ

-- A text is the list of its code points.
abbrev pub Text : Type 0
Text = List ℕ

abbrev pub codes : String → List ℕ
codes String.[] = []
codes (String.◌∷◌ c s) = code c ∷ codes s

abbrev pub IsByte : ℕ → Type 0
IsByte b = b < 256

-- `==` of byte strings.
unfoldable pub eqb : Bytes → Bytes → Bool
eqb [] [] = true
eqb [] (y ∷ ys) = false
eqb (x ∷ xs) [] = false
eqb (x ∷ xs) (y ∷ ys) = (x == y) && eqb xs ys

-- `s.startswith(p)`, the prefix first.
unfoldable pub starts_with : Bytes → Bytes → Bool
starts_with [] s = true
starts_with (p ∷ ps) [] = false
starts_with (p ∷ ps) (x ∷ xs) = (p == x) && starts_with ps xs

-- Little and big endian words; a read past the end gives zeros, so its users test the length.
abbrev pub le16 : Bytes → ℕ
le16 b = get_or b 0 0 + 256 * get_or b 1 0

abbrev pub be16 : Bytes → ℕ
be16 b = get_or b 1 0 + 256 * get_or b 0 0

abbrev pub le32 : Bytes → ℕ
le32 b = get_or b 0 0 + 256 * get_or b 1 0 + 65536 * get_or b 2 0 + 16777216 * get_or b 3 0

abbrev pub be32 : Bytes → ℕ
be32 b = get_or b 3 0 + 256 * get_or b 2 0 + 65536 * get_or b 1 0 + 16777216 * get_or b 0 0

abbrev pub le64 : Bytes → ℕ
le64 b = le32 b + 4294967296 * le32 (drop 4 b)

abbrev pub pack_le16 : ℕ → Bytes
pack_le16 n = n % 256 ∷ n / 256 % 256 ∷ []

abbrev pub pack_be16 : ℕ → Bytes
pack_be16 n = n / 256 % 256 ∷ n % 256 ∷ []

abbrev pub pack_le32 : ℕ → Bytes
pack_le32 n = n % 256 ∷ n / 256 % 256 ∷ n / 65536 % 256 ∷ n / 16777216 % 256 ∷ []

abbrev pub pack_be32 : ℕ → Bytes
pack_be32 n = n / 16777216 % 256 ∷ n / 65536 % 256 ∷ n / 256 % 256 ∷ n % 256 ∷ []

abbrev pub pack_le64 : ℕ → Bytes
pack_le64 n = pack_le32 n ++ pack_le32 (n / 4294967296)

pub le32-pack_le32 : (n : ℕ) (s : Bytes) → n < 4294967296 → le32 (pack_le32 n ++ s) ≡ n
le32-pack_le32 n s h = omega arith

be32-pack_be32 : (n : ℕ) (s : Bytes) → n < 4294967296 → be32 (pack_be32 n ++ s) ≡ n
be32-pack_be32 n s h = omega arith

pub eqb_refl : (xs : Bytes) → eqb xs xs ≡ true
unfolding eqb
eqb_refl [] = refl
eqb_refl (x ∷ xs) = ground (arith, eqb_refl xs)

pub eqb→eq : (xs ys : Bytes) → eqb xs ys ≡ true → xs ≡ ys
unfolding eqb
eqb→eq [] [] h = refl
eqb→eq [] (y ∷ ys) h = cc
eqb→eq (x ∷ xs) [] h = cc
eqb→eq (x ∷ xs) (y ∷ ys) h = ground (arith, eqb→eq xs ys)

pub starts_with-append : (p s : Bytes) → starts_with p (p ++ s) ≡ true
unfolding starts_with
starts_with-append [] s = refl
starts_with-append (p ∷ ps) s = ground (arith, starts_with-append ps s)

-- A string that starts with `p` is `p` and the rest.
pub starts_with-drop : (p s : Bytes) → starts_with p s ≡ true → p ++ drop (length p) s ≡ s
unfolding starts_with
starts_with-drop [] s h = refl
starts_with-drop (p ∷ ps) [] h = cc
starts_with-drop (p ∷ ps) (x ∷ xs) h = ground (arith, starts_with-drop ps xs)

-- A read of four bytes sees only those.
pub le32-append : (b s : Bytes) → 4 ≤ length b → le32 (b ++ s) ≡ le32 b
le32-append (p ∷ q ∷ r ∷ t ∷ b) s h = refl
le32-append _ s h = absurd (omega arith)

pub drop_four-append : (b s : Bytes) → 4 ≤ length b → drop 4 (b ++ s) ≡ drop 4 b ++ s
drop_four-append (p ∷ q ∷ r ∷ t ∷ b) s h = refl
drop_four-append _ s h = absurd (omega arith)
