-- ===== src/Prelude/Strip.antt =====
-- `str.strip` and its kin, with the test of the characters that go.
use socket_server.Prelude.{ℕ, Bool, ◌&&◌, ◌||◌, [], ◌∷◌, leb, ◌==◌, if◌then◌else◌}
use socket_server.Prelude.Bytes.{Text}

-- The white space of `str.strip` in texts of Latin-1.
abbrev pub is_space : ℕ → Bool
is_space c = (leb 9 c && leb c 13) || ((leb 28 c && leb c 32) || ((c == 133) || (c == 160)))

unfoldable pub lstrip : (ℕ → Bool) → Text → Text
lstrip f [] = []
lstrip f (c ∷ cs) = if f c then lstrip f cs else c ∷ cs

-- The text `c ∷ r`, where `r` has no end to be stripped.
abbrev pub keep_end : (ℕ → Bool) → ℕ → Text → Text
keep_end f c [] = if f c then [] else c ∷ []
keep_end f c (d ∷ ds) = c ∷ d ∷ ds

unfoldable pub rstrip : (ℕ → Bool) → Text → Text
rstrip f [] = []
rstrip f (c ∷ cs) = keep_end f c (rstrip f cs)

unfoldable pub strip : (ℕ → Bool) → Text → Text
strip f s = rstrip f (lstrip f s)
