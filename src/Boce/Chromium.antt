-- ===== src/Boce/Chromium.antt =====
-- socket_server/boce.py, lines 84 to 187: the download of the browser. What the registry and the disk answer
-- is an input.
pub mod Ready
use socket_server.Prelude.{
  ℕ, ◌+◌, ◌*◌, ◌-◌, Bool, true, false, ◌&&◌, Option, none, some, List, [], ◌∷◌, ltb, leb, ◌==◌,
  if◌then◌else◌, drop,
}
use socket_server.Prelude.Bytes.{Text, codes, starts_with}
use socket_server.Prelude.Strip.{is_space, strip, rstrip}

abbrev pub or_nothing : Text → Option Text
or_nothing [] = none
or_nothing (c ∷ cs) = some (c ∷ cs)

-- The first line that begins with `proxy=` decides.
proxy_of_lines : List Text → Option Text
proxy_of_lines [] = none
proxy_of_lines (l ∷ ls) =
    let line = strip is_space l in
    let rest = proxy_of_lines ls in
    if starts_with (codes "proxy=") line then or_nothing (strip is_space (drop 6 line)) else rest

-- `_read_config_proxy`: none is a file that cannot be read.
read_config_proxy : Option (List Text) → Option Text
read_config_proxy none = none
read_config_proxy (some lines) = proxy_of_lines lines

abbrev is_digit : ℕ → Bool
is_digit c = leb 48 c && leb c 57

abbrev all_digits : Text → Bool
all_digits [] = true
all_digits (c ∷ cs) = is_digit c && all_digits cs

-- `str.isdigit` on ASCII.
abbrev pub isdigit : Text → Bool
isdigit [] = false
isdigit (c ∷ cs) = all_digits (c ∷ cs)

-- `int` of a text of digits.
pub value_from : ℕ → Text → ℕ
value_from n [] = n
value_from n (c ∷ cs) = value_from (10 * n + (c - 48)) cs

abbrev pub value : Text → ℕ
value = value_from 0

-- `e["name"].rstrip("/")`
abbrev pub entry_name : Text → Text
entry_name = rstrip (λ (c : ℕ). c == 47)

pub revisions : List Text → List Text
revisions [] = []
revisions (e ∷ es) =
    let rest = revisions es in if isdigit (entry_name e) then entry_name e ∷ rest else rest

-- `max(revs, key=int)`: the first of the greatest.
pub max_from : Text → List Text → Text
max_from best [] = best
max_from best (r ∷ rs) = max_from (if ltb (value best) (value r) then r else best) rs

pub newest : List Text → Option Text
newest [] = none
newest (r ∷ rs) = some (max_from r rs)

-- `_fetch_latest_chromium_revision`: the names that the registry lists, none for a request or an answer
-- that raises; the result is none for an exception.
pub fetch_latest_chromium_revision : Option (List Text) → Option Text
fetch_latest_chromium_revision none = none
fetch_latest_chromium_revision (some entries) = newest (revisions entries)

-- Is the browser an executable file, how many directories of downloads are left, is the lock held, and
-- the revisions for which a hint was printed.
pub record BrowserHost : Type 0 where
  pub executable : Bool
  pub stagings : ℕ
  pub browser_lock : Bool
  pub hints : List Text

-- How the download goes: which call raises (that of the archive, or its unpacking or `chmod`, which may
-- leave an executable file), or whether there is an executable file in the end.
pub data Download : Type 0 where
  download_fails : Download
  unpacking_fails : Bool → Download
  unpacks : Bool → Download

-- What another thread did before the lock was ours, the answer of the registry, whether the directory for
-- the download can be made and can be removed, and the download.
pub record Events : Type 0 where
  pub while_waiting : Bool
  pub entries : Option (List Text)
  pub made : Bool
  pub removed : Bool
  pub download : Text → Download

abbrev pub hint : Text → BrowserHost → BrowserHost
hint revision h = record h { hints = revision ∷ h.hints }

-- The body of the second `try`, with its `except`.
pub install_browser : Text → Download → BrowserHost → Bool × BrowserHost
install_browser revision download_fails h = (false, hint revision h)
install_browser revision (unpacking_fails there) h =
    (false, hint revision (record h { executable = there }))
install_browser revision (unpacks there) h =
    let h' = record h { executable = there } in
    if there then (true, h') else (false, hint revision h')

-- The directory of the download is made, and removed whatever happens, if it can be. That it cannot be
-- made is an exception that nothing catches: none. That it cannot be removed is ignored.
pub in_staging :
    Bool → Bool → (BrowserHost → Bool × BrowserHost) → BrowserHost → Option Bool × BrowserHost
in_staging false removed body h = (none, h)
in_staging true removed body h =
    let (r, h') = body (record h { stagings = h.stagings + 1 }) in
    (some r, if removed then record h' { stagings = h'.stagings - 1 } else h')

pub fetch : Events → BrowserHost → Option Bool × BrowserHost
fetch e h = elim (fetch_latest_chromium_revision e.entries) [
  | none ↦ (some false, hint (codes "latest") h)
  | some revision ↦ in_staging e.made e.removed (install_browser revision (e.download revision)) h
]

pub locked : Events → BrowserHost → Option Bool × BrowserHost
locked e h = if h.executable then (some true, h) else fetch e h

-- `with _browser_lock`; while the lock is waited for, another thread may install_browser the browser.
pub with_browser_lock : Events → BrowserHost → Option Bool × BrowserHost
with_browser_lock e h =
    let (r, h') = locked e (record h { executable = e.while_waiting; browser_lock = true }) in
    (r, record h' { browser_lock = false })

-- `ensure_chromium`; none is the exception.
pub ensure_chromium : Events → BrowserHost → Option Bool × BrowserHost
ensure_chromium e h = if h.executable then (some true, h) else with_browser_lock e h
