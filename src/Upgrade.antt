-- ===== src/Upgrade.antt =====
-- socket_server/upgrader.py, lines 20 to 138, socket_server/handlers.py, lines 36 to 97, and
-- socket_server/autoupgrade.py: a pushed upgrade, the switch of the version, and the switch that refuses
-- upgrades. The versions directory is the record of what it holds; the calls on it are taken to go well.
pub mod Pushed
pub mod Switched
pub mod Setting
pub mod Local
use socket_server.Prelude.{
  ℕ, zero, suc, ◌+◌, ◌-◌, Bool, true, false, not, ◌&&◌, ◌||◌, Option, none, some, [], ◌∷◌, ltb, leb,
  ◌==◌, if◌then◌else◌, length,
}
use socket_server.Prelude.Bytes.{Bytes, Text, codes, eqb}
use mathlib.Core.Option
use socket_server.Prelude.Dict.{Dict, lookup, insert}
use socket_server.Prelude.Strip.{is_space, lstrip, strip}

-- `hashlib.sha256(…).hexdigest()` and `str.lower`.
pub record Hashes : Type 0 where
  pub sha256 : Bytes → Text
  pub lower : Text → Text

-- One version's directory: the pushed pushed in `.staging`, and the binary with its x bit.
pub record Version : Type 0 where
  pub staging_binary : Option Bytes
  pub binary : Option (Bytes × Bool)

-- The directory: the versions and the target of the link `current`; `restarts` counts the restarts.
pub record Versions : Type 0 where
  pub versions : Dict Version
  pub current : Option Text
  pub restarts : ℕ

abbrev is_digit : ℕ → Bool
is_digit c = leb 48 c && leb c 57

-- `\d+(\.\d+){n}` for n from `least` to `most`: the digits up to here are `some_digit`.
dotted : ℕ → ℕ → Bool → Text → Bool
dotted least most some_digit [] = some_digit && (least == 0)
dotted least zero some_digit (c ∷ cs) = is_digit c && dotted least zero true cs
dotted least (suc most) some_digit (c ∷ cs) =
    let more = dotted least (suc most) true cs in
    let next = dotted (least - 1) most false cs in
    if is_digit c then more else (c == 46) && (some_digit && next)

-- `_VERSION_RE`, with the digits of ASCII.
pub is_version : Text → Bool
is_version s = dotted 1 3 false s

-- `str(version).strip().lstrip("v")`
pub plain_version : Text → Text
plain_version version = lstrip (λ c. c == 118) (strip is_space version)

abbrev no_version : Version
no_version = record { staging_binary = none; binary = none }

abbrev pub or_no_version : Option Version → Version
or_no_version none = no_version
or_no_version (some d) = d

pub version_dir : Text → Versions → Version
version_dir v s = or_no_version (lookup v s.versions)

abbrev pub put_version : Text → Version → Versions → Versions
put_version v d s = record s { versions = insert v d s.versions }

module _ (h : Hashes) where
  -- The package is there: it becomes the binary if its checksum is the expected one, and is cleared
  -- away if not.
  pub check_package : Text → Text → Bytes → Versions → Bool × Versions
  check_package v expected pushed s =
      let d = version_dir v s in
      if eqb (h.sha256 pushed) (h.lower (strip is_space expected))
      then (true, put_version v (record { staging_binary = none; binary = some (pushed, true) }) s)
      else (false, put_version v (record d { staging_binary = none }) s)

  -- `finalize_pushed_version` on the plain version.
  pub finalize_version : Text → Text → Versions → Bool × Versions
  finalize_version v expected s =
      if is_version v
      then elim (version_dir v s).staging_binary [
        | none ↦ (false, s)
        | some pushed ↦ check_package v expected pushed s
      ]
      else (false, s)

  pub finalize_pushed_version : Text → Text → Versions → Bool × Versions
  finalize_pushed_version version expected s = finalize_version (plain_version version) expected s

-- The directory that a name of `versions/` leads to.
pub resolve : Text → Versions → Option Text
resolve v s = if eqb v (codes "current") then s.current else some v

-- A binary with its x bit.
pub is_executable : Option (Bytes × Bool) → Bool
is_executable none = false
is_executable (some (b, x)) = x

pub is_version_downloaded : Text → Versions → Bool
is_version_downloaded version s = elim (resolve (plain_version version) s) [
  | none ↦ false
  | some v ↦ is_executable (version_dir v s).binary
]

-- `switch_to`: the link is replaced in one rename, and the service restarts.
pub switch_to : Text → Versions → Bool × Versions
switch_to version s =
    if is_version_downloaded (plain_version version) s
    then (true, record s { current = some (plain_version version); restarts = s.restarts + 1 })
    else (false, s)

-- The lock, and the connections that are counted, this one with them.
pub record Host : Type 0 where
  pub upgrade_lock : Bool
  pub active_clients : ℕ
  pub autoupgrade : Bool
  pub disk : Versions

abbrev is_hex : ℕ → Bool
is_hex c = is_digit c || (leb 97 c && leb c 102)

pub all_hex : Text → Bool
all_hex [] = true
all_hex (c ∷ cs) = is_hex c && all_hex cs

-- How command 20 is answered: the reason of a refusal, or the version that is to be started.
pub data Applied : Type 0 where
  bad_version bad_sha256 switched_off in_progress other_clients not_finalized : Applied
  accepted : Text → Applied

module _ (h : Hashes) where
  pub finalized : Text → Host → Bool × Versions → Applied × Host
  finalized version host (true, d) = (accepted version, record host { disk = d })
  finalized version host (false, d) = (not_finalized, record host { disk = d })

  -- What is done under the lock, which is free again at the end of each branch.
  pub under_lock : Text → Text → Bool → Host → Applied × Host
  under_lock version expected_sha force host =
      if ltb 1 host.active_clients && not force
      then (other_clients, record host { upgrade_lock = false })
      else finalized version (record host { upgrade_lock = false })
          (finalize_pushed_version h version expected_sha host.disk)

  -- `_apply_pushed_upgrade`, with the two texts of the request (empty if missing) and `force`.
  pub apply_pushed_upgrade : Text → Text → Bool → Host → Applied × Host
  apply_pushed_upgrade given_version given_sha256 force host =
      let version = plain_version given_version in
      let expected_sha = h.lower (strip is_space given_sha256) in
      if not (is_version version)
      then (bad_version, host)
      else if not (length expected_sha == 64) || not (all_hex expected_sha)
      then (bad_sha256, host)
      else if not host.autoupgrade
      then (switched_off, host)
      else if host.upgrade_lock
      then (in_progress, host)
      else under_lock version expected_sha force (record host { upgrade_lock = true })

-- `_restart_after_upgrade`
pub restart_after_upgrade : Text → Host → Host
restart_after_upgrade version host = record host { disk = (switch_to version host.disk).1 }

started : Applied × Host → Applied × Host
started (accepted v, host) = (accepted v, restart_after_upgrade v host)
started (refusal, host) = (refusal, host)

-- Command 20: the answer, and the background thread for an upgrade that was accepted.
pub upgrade : Hashes → Text → Text → Bool → Host → Applied × Host
upgrade h version sha force host = started (apply_pushed_upgrade h version sha force host)
