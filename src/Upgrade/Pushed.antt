-- ===== src/Upgrade/Pushed.antt =====
-- socket_server/handlers.py, lines 36 to 97, and socket_server/upgrader.py, lines 23 to 82: an upgrade from its
-- command to its start.
use socket_server.Prelude.{
  either_by, not-false, either, ℕ, zero, suc, ◌+◌, ◌-◌, ◌≤◌, ◌≡◌, refl, sym, ap, ◌∙◌, subst, ◌⊎◌,
  inl, inr, Bool, true, false, not, ◌&&◌, ◌||◌, none, some, [], ◌∷◌, arith, ltb, ◌==◌,
  if◌then◌else◌, Bool-cases, Option-cases, length, All,
}
use socket_server.Prelude.Bytes.{Bytes, Text, eqb, eqb_refl, eqb→eq}
use socket_server.Prelude.Dict.{lookup-insert}
use socket_server.Prelude.Strip.{is_space, lstrip, rstrip, strip}
use socket_server.Upgrade.{
  Hashes, Version, Versions, is_version, dotted, plain_version, version_dir, or_no_version,
  put_version, check_package, finalize_version, finalize_pushed_version, resolve, is_executable,
  is_version_downloaded, switch_to, Host, all_hex, Applied, accepted, not_finalized, finalized,
  under_lock, apply_pushed_upgrade, restart_after_upgrade, started, upgrade,
}

-- The characters of a version number.
abbrev IsPart : ℕ → Type 0
IsPart c = (46 ≤ c) × (c ≤ 57)

dotted-parts : (least most : ℕ) (b : Bool) (s : Text) → dotted least most b s ≡ true → All IsPart s
unfolding dotted
dotted-parts least most b [] h = tt
dotted-parts least zero b (c ∷ cs) h = ground (arith, dotted-parts least zero true cs)
dotted-parts least (suc most) b (c ∷ cs) h =
    ground (arith, dotted-parts least (suc most) true cs, dotted-parts (least - 1) most false cs)

rstrip_kept : (s : Text) → All IsPart s → rstrip is_space s ≡ s
unfolding rstrip
rstrip_kept [] h = refl
rstrip_kept (c ∷ []) h = let no_space : is_space c ≡ false = ground arith in rw no_space
rstrip_kept (c ∷ d ∷ ds) h = rw (rstrip_kept (d ∷ ds) h.1)

lstrip_kept : (f : ℕ → Bool) (c : ℕ) (cs : Text) → f c ≡ false → lstrip f (c ∷ cs) ≡ c ∷ cs
unfolding lstrip
lstrip_kept f c cs h = rw h

-- A version number is in its plain form.
plain_version_kept : (s : Text) → All IsPart s → plain_version s ≡ s
unfolding plain_version strip
plain_version_kept [] h = unfold lstrip in unfold rstrip in refl
plain_version_kept (c ∷ cs) h =
    ap (λ s. lstrip (λ d. d == 118) (rstrip is_space s)) (lstrip_kept is_space c cs (ground arith))
    ∙ ap (lstrip (λ d. d == 118)) (rstrip_kept (c ∷ cs) h)
    ∙ lstrip_kept (λ d. d == 118) c cs (ground arith)

-- No version number is the name of the link.
resolve_version : (s : Text) (v : Versions) → is_version s ≡ true → resolve s v ≡ some s
unfolding resolve is_version dotted eqb
resolve_version [] v h = cc
resolve_version (c ∷ cs) v h = let no_c : (c == 99) ≡ false = ground arith in rw no_c

version_dir-put_version :
    (u v : Text) (d : Version) (s : Versions)
    → version_dir u (put_version v d s) ≡ (if eqb u v then d else version_dir u s)
unfolding version_dir
version_dir-put_version u v d s =
    ap or_no_version (lookup-insert u v d s.versions)
    ∙ elim (Bool-cases (eqb u v)) [ inl same ↦ rw same refl | inr other ↦ rw other refl ]

-- A new directory with the old binary changes no binary.
same_binary :
    (u v : Text) (d : Version) (s : Versions)
    → d.binary ≡ (version_dir v s).binary
    → (version_dir u (put_version v d s)).binary ≡ (version_dir u s).binary
same_binary u v d s e = elim (Bool-cases (eqb u v)) [
  | inl same ↦ rw (version_dir-put_version u v d s, same, eqb→eq u v same) e
  | inr other ↦ rw (version_dir-put_version u v d s, other) refl
]

module _ (h : Hashes) where
  -- The binary of a version has the checksum `sha`, and its x bit is set.
  pub record IsInstalled (v sha : Text) (s : Versions) : Type 0 where
    pub pushed : Bytes
    pub installed : (version_dir v s).binary ≡ some (pushed, true)
    pub checked : eqb (h.sha256 pushed) sha ≡ true

  -- Why a package is refused: there is none, and nothing changes; or it has another checksum, and it alone
  -- is removed.
  abbrev pub Rejects : Text → Text → Versions → Versions → Type 0
  Rejects v sha s s' =
      (((version_dir v s).staging_binary ≡ none) × (s' ≡ s))
      ⊎ ((pushed : Bytes) × ((version_dir v s).staging_binary ≡ some pushed)
          × (eqb (h.sha256 pushed) sha ≡ false)
          × (s' ≡ put_version v (record (version_dir v s) { staging_binary = none }) s))

  -- What a call that finalizes leaves.
  abbrev Finalizes : Text → Text → Versions → Bool × Versions → Type 0
  Finalizes v sha s (true, s') = IsInstalled v sha s' × (s'.restarts ≡ s.restarts)
  Finalizes v sha s (false, s') =
      (s'.current ≡ s.current)
      × (s'.restarts ≡ s.restarts)
      × ((u : Text) → (version_dir u s').binary ≡ (version_dir u s).binary)
      × Rejects v sha s s'

  check_package-Finalizes :
      (v expected : Text) (pushed : Bytes) (s : Versions)
      → (version_dir v s).staging_binary ≡ some pushed
      → Finalizes v (h.lower (strip is_space expected)) s (check_package h v expected pushed s)
  unfolding check_package
  check_package-Finalizes v expected pushed s known =
      elim (Bool-cases (eqb (h.sha256 pushed) (h.lower (strip is_space expected)))) [
        | inl right ↦ rw right (
          record {
            pushed = pushed;
            installed =
                rw
                  (
                    version_dir-put_version v v
                        (record { staging_binary = none; binary = some (pushed, true) }) s,
                    eqb_refl v,
                  )
                  refl;
            checked = right;
          },
          refl,
        )
        | inr wrong ↦ rw wrong (
          refl,
          refl,
          (λ u. same_binary u v (record (version_dir v s) { staging_binary = none }) s refl),
          inr (pushed, known, wrong, refl),
        )
      ]

  finalize_version-Finalizes :
      (v expected : Text) (s : Versions)
      → is_version v ≡ true
      → Finalizes v (h.lower (strip is_space expected)) s (finalize_version h v expected s)
  unfolding finalize_version
  finalize_version-Finalizes v expected s valid =
      rw valid (elim (Option-cases (version_dir v s).staging_binary) [
        | inl nothing ↦
            rw (nothing, finalize_version) (refl, refl, (λ u. refl), inl (nothing, refl))
        | inr (pushed, known) ↦
            rw (known, finalize_version) (check_package-Finalizes v expected pushed s known)
      ])

  finalize_pushed_version-Finalizes :
      (v expected : Text) (s : Versions)
      → plain_version v ≡ v
      → is_version v ≡ true
      → Finalizes v (h.lower (strip is_space expected)) s (finalize_pushed_version h v expected s)
  unfolding finalize_pushed_version
  finalize_pushed_version-Finalizes v expected s plain valid =
      subst
        (λ u. Finalizes v (h.lower (strip is_space expected)) s (finalize_version h u expected s))
        (sym plain) (finalize_version-Finalizes v expected s valid)

  downloaded :
      (v sha : Text) (s : Versions)
      → plain_version v ≡ v
      → is_version v ≡ true
      → IsInstalled v sha s
      → is_version_downloaded v s ≡ true
  unfolding is_version_downloaded is_executable
  downloaded v sha s plain valid i =
      rw (plain, resolve_version v s valid, is_version_downloaded, i.installed, is_executable)

  -- What an answer asks of the host afterwards, for the version `v` and the checksum `sha` of the request.
  abbrev pub UpgradeLeaves : Text → Text → Host → Applied × Host → Type 0
  UpgradeLeaves v sha host (accepted u, host') =
      (u ≡ v)
      × IsInstalled v sha host'.disk
      × (host'.disk.current ≡ some v)
      × (is_version_downloaded v host'.disk ≡ true)
      × (host'.disk.restarts ≡ host.disk.restarts + 1)
      × (host.autoupgrade ≡ true)
      × (host'.upgrade_lock ≡ host.upgrade_lock)
  UpgradeLeaves v sha host (not_finalized, host') =
      (host'.disk.current ≡ host.disk.current)
      × (host'.disk.restarts ≡ host.disk.restarts)
      × ((u : Text) → (version_dir u host'.disk).binary ≡ (version_dir u host.disk).binary)
      × (host'.upgrade_lock ≡ host.upgrade_lock)
      × Rejects v sha host.disk host'.disk
  UpgradeLeaves v sha host (refusal, host') = host' ≡ host

  finalized-Leaves :
      (v expected : Text) (host : Host) (r : Bool × Versions)
      → plain_version v ≡ v
      → is_version v ≡ true
      → host.autoupgrade ≡ true
      → Finalizes v (h.lower (strip is_space expected)) host.disk r
      → UpgradeLeaves v (h.lower (strip is_space expected)) host (started (finalized h v host r))
  unfolding finalized restart_after_upgrade switch_to started version_dir
  finalized-Leaves v expected host (false, d) plain valid on f =
      let (current, restarts, binaries, why) = f in (current, restarts, binaries, refl, why)
  finalized-Leaves v expected host (true, d) plain valid on f =
      let sha = h.lower (strip is_space expected) in
      let new : IsInstalled v sha (record d { current = some v; restarts = d.restarts + 1 }) =
        record { pushed = f.0.pushed; installed = f.0.installed; checked = f.0.checked } in
      rw (plain, downloaded v sha d plain valid f.0)
        (
          refl,
          new,
          refl,
          downloaded v sha (record d { current = some v; restarts = d.restarts + 1 }) plain valid
              new,
          ap (λ n. n + 1) f.1,
          on,
          refl,
        )

  under_lock-Leaves :
      (v expected : Text) (force : Bool) (host : Host)
      → plain_version v ≡ v
      → is_version v ≡ true
      → host.autoupgrade ≡ true
      → host.upgrade_lock ≡ false
      → UpgradeLeaves v
          (h.lower (strip is_space expected))
          host
          (started (under_lock h v expected force (record host { upgrade_lock = true })))
  unfolding under_lock started
  under_lock-Leaves v expected force host plain valid on free =
      let sha = h.lower (strip is_space expected) in
      let held = record host { upgrade_lock = false } in
      let back : held ≡ host = ap (λ b. record host { upgrade_lock = b }) (sym free) in
      either (λ r. UpgradeLeaves v sha host (started r)) (ltb 1 host.active_clients && not force) _
        _ back
        (subst
          (λ k.
            UpgradeLeaves v sha k
              (started (finalized h v held (finalize_pushed_version h v expected host.disk))))
          back
          (finalized-Leaves v expected held (finalize_pushed_version h v expected host.disk) plain
            valid on (finalize_pushed_version-Finalizes v expected host.disk plain valid)))

  -- How command 20 is answered decides what it leaves. An accepted version is that of the request, without a
  -- leading v: it is installed with the announced checksum, `current` leads to it, it can be started, the
  -- service was restarted once, and upgrades were allowed. A package that is not accepted leaves all
  -- binaries, the link and the number of restarts as they were: there was none, and nothing changed, or it
  -- had another checksum, and it alone was removed. Any other refusal changes nothing. The lock is as it
  -- was.
  pub upgrade-UpgradeLeaves :
      (version sha : Text) (force : Bool) (host : Host)
      → UpgradeLeaves
          (plain_version version)
          (h.lower (strip is_space (h.lower (strip is_space sha))))
          host
          (upgrade h version sha force host)
  unfolding upgrade apply_pushed_upgrade started is_version
  upgrade-UpgradeLeaves version sha force host =
      let v = plain_version version in
      let expected = h.lower (strip is_space sha) in
      let Leaves : Applied × Host → Type 0 =
        λ r. UpgradeLeaves v (h.lower (strip is_space expected)) host (started r) in
      either_by Leaves (not (is_version v)) _ _ (λ e. refl)
        λ valid. either Leaves (not (length expected == 64) || not (all_hex expected)) _ _ refl (
          either_by Leaves (not host.autoupgrade) _ _ (λ e. refl)
            λ on.
              either_by Leaves host.upgrade_lock _ _ (λ e. refl)
                λ free.
                  under_lock-Leaves v expected force host
                    (plain_version_kept v (dotted-parts 1 3 false v (not-false _ valid)))
                    (not-false _ valid) (not-false _ on) free)
