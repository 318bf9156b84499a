-- ===== src/Upgrade/Switched.antt =====
-- socket_server/handlers.py, lines 36 to 97, with the configuration that socket_server/autoupgrade.py writes and
-- the connections that socket_server/server.py counts: the upgrades that are refused.
use socket_server.Prelude.{
  subst, some, ◌⊎◌, either_by, either, ◌<◌, lt→ltb, ◌≡◌, refl, sym, ap, ◌∙◌, inl, inr, Bool, true,
  false, not, ◌||◌, Option, List, ltb, ◌==◌, length, arith,
}
use socket_server.Prelude.Bytes.{Text, codes, eqb}
use socket_server.Prelude.Strip.{is_space, strip}
use socket_server.Upgrade.{
  Hashes, Host, is_version, plain_version, all_hex, Applied, accepted, under_lock,
  apply_pushed_upgrade, started, upgrade, other_clients,
}
use socket_server.Upgrade.Setting.{read_autoupgrade_config, set_autoupgrade}
use socket_server.Upgrade.Setting.ReadBack.{IsStripped, read-set_autoupgrade}
use socket_server.Server.{Tracker, setup}

abbrev pub is_accepted : Applied → Bool
is_accepted (accepted v) = true
is_accepted _ = false

-- The host is as it was, and the answer is a refusal.
pub record IsRefused (host : Host) (after : Applied × Host) : Type 0 where
  pub answer : is_accepted after.0 ≡ false
  pub kept : after.1 ≡ host

module _ (h : Hashes) where
  started-off :
      (version sha : Text) (force : Bool) (host : Host)
      → host.autoupgrade ≡ false
      → IsRefused host (upgrade h version sha force host)
  unfolding upgrade apply_pushed_upgrade started
  started-off version sha force host off =
      let expected = h.lower (strip is_space sha) in
      let Refused : Applied × Host → Type 0 = λ r. IsRefused host (started r) in
      either Refused (not (is_version (plain_version version))) _ _
        (record { answer = refl; kept = refl })
        (either Refused (not (length expected == 64) || not (all_hex expected)) _ _
          (record { answer = refl; kept = refl })
          (either_by Refused (not host.autoupgrade) _ _ (λ e. record { answer = refl; kept = refl })
            (λ on. absurd (ground (arith, off, on)))))

  under_lock-other_clients :
      (version expected : Text) (host : Host)
      → ltb 1 host.active_clients ≡ true
      → under_lock h version expected false (record host { upgrade_lock = true })
        ≡ (other_clients, record host { upgrade_lock = false })
  unfolding under_lock
  under_lock-other_clients version expected host many = rw many refl

  started-crowded :
      (version sha : Text) (host : Host)
      → host.upgrade_lock ≡ false
      → ltb 1 host.active_clients ≡ true
      → IsRefused host (upgrade h version sha false host)
  unfolding upgrade apply_pushed_upgrade started
  started-crowded version sha host free many =
      let v = plain_version version in
      let expected = h.lower (strip is_space sha) in
      let Refused : Applied × Host → Type 0 = λ r. IsRefused host (started r) in
      let crowded : Refused (other_clients, record host { upgrade_lock = false }) = record {
        answer = refl;
        kept = ap (λ b. record host { upgrade_lock = b }) (sym free);
      } in
      either Refused (not (is_version v)) _ _ (record { answer = refl; kept = refl })
        (either Refused (not (length expected == 64) || not (all_hex expected)) _ _
          (record { answer = refl; kept = refl })
          (either Refused (not host.autoupgrade) _ _ (record { answer = refl; kept = refl })
            (either Refused host.upgrade_lock _ _ (record { answer = refl; kept = refl })
              (subst Refused (sym (under_lock-other_clients v expected host many)) crowded))))

  -- After a state other than "on" (in small letters, without white space at its ends) was set, whatever the file
  -- held, and after a second connection came, unless the upgrade is forced: every upgrade is refused and
  -- changes nothing on a host whose lock is free.
  pub upgrade-IsRefused :
      (version sha : Text) (force : Bool) (host : Host) (state : Text) (file : Option (List Text))
      (t : Tracker)
      → IsStripped state
      → host.upgrade_lock ≡ false
      → host.autoupgrade ≡ read_autoupgrade_config h (some (set_autoupgrade state file))
      → host.active_clients ≡ (setup t).active_clients
      → (eqb (h.lower state) (codes "on") ≡ false) ⊎ ((force ≡ false) × (0 < t.active_clients))
      → IsRefused host (upgrade h version sha force host)
  unfolding setup
  upgrade-IsRefused version sha force host state file t stripped free read counted (inl off) =
      started-off version sha force host (read ∙ read-set_autoupgrade h state file stripped ∙ off)
  upgrade-IsRefused version sha force host state file t stripped free read counted
        (inr (f, open_)) =
      subst (λ b. IsRefused host (upgrade h version sha b host)) (sym f)
        (started-crowded version sha host free (lt→ltb 1 host.active_clients (omega arith)))
