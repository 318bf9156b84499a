-- ===== src/HttpFile/Port/Started.antt =====
-- socket_server/http_file.py, lines 394 to 431: which servers are started.
use socket_server.Prelude.{◌≡◌, refl, inl, inr, List, [], ◌∷◌, if◌then◌else◌, Bool-cases}
use socket_server.Prelude.Int.{ℤ, eq_ℕ}
use socket_server.HttpFile.Port.{
  Created, listens, os_error, other_error, Family, v4, v6, start_http_file_server, add_v4, add_v6,
}

-- The families that are listened on, where the two servers are created as told.
abbrev pub started : Created → Created → List Family
started listens listens = v4 ∷ v6 ∷ []
started listens _ = v4 ∷ []
started _ _ = []

add_v4-started : (a b : Created) → (add_v4 a b []).1 ≡ started a b
unfolding add_v4 add_v6
add_v4-started listens listens = refl
add_v4-started listens os_error = refl
add_v4-started listens other_error = refl
add_v4-started os_error listens = refl
add_v4-started os_error os_error = refl
add_v4-started os_error other_error = refl
add_v4-started other_error listens = refl
add_v4-started other_error os_error = refl
add_v4-started other_error other_error = refl

pub start_http_file_server-started :
    (port : ℤ) (first second : Created)
    → (start_http_file_server port first second []).1
      ≡ (if eq_ℕ port 0 then [] else started first second)
unfolding start_http_file_server
start_http_file_server-started port first second = elim (Bool-cases (eq_ℕ port 0)) [
  | inl off ↦ rw off refl
  | inr on ↦ rw on (add_v4-started first second)
]
