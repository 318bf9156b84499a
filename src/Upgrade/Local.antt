-- ===== src/Upgrade/Local.antt =====
-- socket_server/upgrader.py, lines 85 to 138: the versions that are there, and the switch from the command
-- line to one of them.
use socket_server.Prelude.{
  ℕ, zero, suc, ◌+◌, ◌≡◌, refl, sym, subst, inl, inr, Bool, true, false, ◌||◌, Option, none, some,
  List, [], ◌∷◌, map, arith, if◌then◌else◌, Bool-cases, Option-cases, get_elem?,
}
use socket_server.Prelude.Bytes.{Text, codes, eqb, eqb_refl}
use socket_server.Prelude.Int.{ℤ, pos, negsuc}
use socket_server.Prelude.Dict.{Dict}
use socket_server.PcapFlow.{text_leb}
use socket_server.Upgrade.{Version, Versions, plain_version, is_version_downloaded, switch_to}

insert_name : Text → List Text → List Text
insert_name n [] = n ∷ []
insert_name n (m ∷ ms) = if text_leb n m then n ∷ m ∷ ms else m ∷ insert_name n ms

abbrev has_binary : Version → Bool
has_binary v = elim v.binary [ none ↦ false | some b ↦ true ]

-- The names of `list_local_versions`, in their order; the link `current` is not one of them.
local_names : Dict Version → List Text
local_names [] = []
local_names ((n, v) ∷ d) =
    let rest = local_names d in
    if eqb n (codes "current") then rest else if has_binary v then insert_name n rest else rest

abbrev is_current : Option Text → Text → Bool
is_current none n = false
is_current (some target) n = eqb n target

-- `list_local_versions`
pub list_local_versions : Versions → List (Text × Bool)
list_local_versions s = map (λ n. (n, is_current s.current n)) (local_names s.versions)

unfoldable pub is_listed : Text → List Text → Bool
is_listed n [] = false
is_listed n (m ∷ ms) = eqb n m || is_listed n ms

-- The version of the number that is typed in; `none` is a ValueError or an EOFError.
pub chosen : Option ℤ → List Text → Option Text
chosen none local = none
chosen (some (negsuc n)) local = none
chosen (some (pos zero)) local = none
chosen (some (pos (suc idx))) local = get_elem? local idx

-- The version that is to be switched to, if there is one.
requested : Option Text → Option ℤ → List Text → Option Text
requested none choice local = chosen choice local
requested (some version) choice local =
    if is_listed (plain_version version) local then some (plain_version version) else none

-- `switch_version`; nothing is asked where there is nothing to choose from.
switch_version : Option Text → Option ℤ → Versions → Versions
switch_version version choice s =
    elim (requested version choice (map (λ (p : Text × Bool). p.0) (list_local_versions s))) [
      | none ↦ s
      | some v ↦ (switch_to v s).1
    ]

-- Nothing is switched, or the link leads to a version that was listed (without a leading v) and is
-- executable, and the service is restarted.
pub data Switches (s s' : Versions) : Type 0 where
  stays : s' ≡ s → Switches s s'
  switches :
      (v : Text)
      → is_listed v (map (λ (p : Text × Bool). p.0) (list_local_versions s)) ≡ true
      → is_version_downloaded (plain_version v) s ≡ true
      → s' ≡ record s { current = some (plain_version v); restarts = s.restarts + 1 }
      → Switches s s'

is_listed-get_elem? :
    (ns : List Text) (i : ℕ) (v : Text) → get_elem? ns i ≡ some v → is_listed v ns ≡ true
unfolding is_listed
is_listed-get_elem? [] i v h = absurd (cc)
is_listed-get_elem? (n ∷ ns) zero v h =
    let same : n ≡ v = ground (arith, h) in
    let equal : eqb v n ≡ true = subst (λ x. eqb v x ≡ true) (sym same) (eqb_refl v) in rw equal
is_listed-get_elem? (n ∷ ns) (suc i) v h = ground (arith, is_listed-get_elem? ns i v h)

requested-listed :
    (version : Option Text) (choice : Option ℤ) (local : List Text) (v : Text)
    → requested version choice local ≡ some v
    → is_listed v local ≡ true
unfolding requested chosen
requested-listed none none local v h = absurd (cc)
requested-listed none (some (negsuc n)) local v h = absurd (cc)
requested-listed none (some (pos zero)) local v h = absurd (cc)
requested-listed none (some (pos (suc idx))) local v h = is_listed-get_elem? local idx v h
requested-listed (some version) choice local v h =
    elim (Bool-cases (is_listed (plain_version version) local)) [
      | inl there ↦
          let same : plain_version version ≡ v = ground (arith, h, there) in
          subst (λ x. is_listed x local ≡ true) same there
      | inr absent ↦ absurd (ground (arith, h, absent))
    ]

switch_to-Switches :
    (v : Text) (s : Versions)
    → is_listed v (map (λ (p : Text × Bool). p.0) (list_local_versions s)) ≡ true
    → Switches s (switch_to v s).1
unfolding switch_to
switch_to-Switches v s listed = elim (Bool-cases (is_version_downloaded (plain_version v) s)) [
  | inl there ↦ rw there (switches v listed there refl)
  | inr absent ↦ rw absent (stays refl)
]

-- Whatever is asked for or typed in, `switch_version` does what `Switches` says.
switch_version-Switches :
    (version : Option Text) (choice : Option ℤ) (s : Versions)
    → Switches s (switch_version version choice s)
unfolding switch_version
switch_version-Switches version choice s =
    let local = map (λ (p : Text × Bool). p.0) (list_local_versions s) in
    elim (Option-cases (requested version choice local)) [
      | inl nothing ↦ rw (nothing, switch_version) (stays refl)
      | inr (v, found) ↦
          rw (found, switch_version)
            (switch_to-Switches v s (requested-listed version choice local v found))
    ]
