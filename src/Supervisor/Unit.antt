-- ===== src/Supervisor/Unit.antt =====
-- socket_server/supervisor.py: which binary the unit file starts.
use socket_server.Prelude.{
  ◌≡◌, refl, sym, ap, ◌∙◌, subst, ◌⊎◌, inl, inr, true, false, Option, none, some, List, [], ◌∷◌,
  ◌++◌, arith, Bool-cases, Option-cases,
}
use socket_server.Prelude.Bytes.{Text, codes, eqb, eqb_refl, eqb→eq}
use socket_server.Prelude.Int.{ℤ}
use socket_server.Prelude.Strip.{is_space, strip}
use socket_server.Supervisor.{
  Machine, unit_content, expected_exec, find_current_binary, ensure_dirs, succeeds, write_unit,
  enable_found, service_enable, heal, ensure_unit_correct,
}
use socket_server.Supervisor.ExecStart.{
  exec_start, OnOneLine, exec_start-unit_content, exec_start-stripped,
}

abbrev starts_current : Text
starts_current = expected_exec ++ codes " serve"

module _ {W : Type 0} (systemctl : List Text → W → ℤ × W) where
  -- What `ensure_unit_correct` leaves: everything as it was without the binary, without a unit, or
  -- without the right to write it; or a unit that starts the binary behind the link `current`.
  pub data Heals (m m' : Machine W) : Type 0 where
    not_deployed : (m.binaries.current_runs ≡ false) ⊎ (m.unit ≡ none) → m' ≡ m → Heals m m'
    denied : m.binaries.current_runs ≡ true → m.writable ≡ false → m' ≡ m → Heals m m'
    starts :
        (unit unit' : Text)
        → m.binaries.current_runs ≡ true
        → m.unit ≡ some unit
        → m'.unit ≡ some unit'
        → exec_start unit' ≡ starts_current
        → m'.binaries ≡ m.binaries
        → Heals m m'

  heal-Heals :
      (unit : Text) (m : Machine W)
      → m.binaries.current_runs ≡ true
      → m.unit ≡ some unit
      → Heals m (heal systemctl (some unit) m)
  unfolding heal write_unit succeeds
  heal-Heals unit m on there =
      elim (Bool-cases (eqb (strip is_space unit) (strip is_space (unit_content expected_exec)))) [
        | inl same ↦
            rw (same, heal)
              (starts unit unit on there there (exec_start-stripped unit (eqb→eq _ _ same)) refl)
        | inr other ↦ elim (Bool-cases m.writable) [
          | inl may ↦
              let written = (write_unit systemctl expected_exec m).1 in
              let same : heal systemctl (some unit) m ≡ written = rw other in
              let unit' : written.unit ≡ some (unit_content expected_exec) = ground (arith, may) in
              let binaries' : written.binaries ≡ m.binaries = ground (arith, may) in
              subst (Heals m) (sym same) (
                starts unit (unit_content expected_exec) on there unit'
                  (exec_start-stripped (unit_content expected_exec) refl) binaries')
          | inr must_not ↦ denied on must_not (ground (arith, other, must_not))
        ]
      ]

  ensure_on :
      (m : Machine W)
      → m.binaries.current_runs ≡ true
      → ensure_unit_correct systemctl m ≡ heal systemctl m.unit m
  unfolding ensure_unit_correct
  ensure_on m on = ground (arith, on)

  ensure_off :
      (m : Machine W) → m.binaries.current_runs ≡ false → ensure_unit_correct systemctl m ≡ m
  unfolding ensure_unit_correct
  ensure_off m off = ground (arith, off)

  -- A unit that is right is left alone.
  settled :
      (m : Machine W)
      → m.unit ≡ some (unit_content expected_exec)
      → ensure_unit_correct systemctl m ≡ m
  unfolding heal
  settled m e = elim (Bool-cases m.binaries.current_runs) [
    | inr off ↦ ensure_off m off
    | inl on ↦
        let right : heal systemctl (some (unit_content expected_exec)) m ≡ m =
          rw (eqb_refl (strip is_space (unit_content expected_exec))) in
        ensure_on m on ∙ ap (λ u. heal systemctl u m) e ∙ right
  ]

  heal_settles :
      (m : Machine W) (u : Option Text)
      → (heal systemctl u m ≡ m) ⊎ ((heal systemctl u m).unit ≡ some (unit_content expected_exec))
  unfolding heal write_unit succeeds
  heal_settles m none = inl refl
  heal_settles m (some u) =
      elim (Bool-cases (eqb (strip is_space u) (strip is_space (unit_content expected_exec)))) [
        | inl same ↦ inl (rw same)
        | inr other ↦ elim (Bool-cases m.writable) [
          | inl may ↦ inr (ground (arith, other, may))
          | inr must_not ↦ inl (ground (arith, other, must_not))
        ]
      ]

  heals_twice :
      (m : Machine W)
      → ensure_unit_correct systemctl (ensure_unit_correct systemctl m)
        ≡ ensure_unit_correct systemctl m
  heals_twice m = elim (Bool-cases m.binaries.current_runs) [
    | inr off ↦ ap (ensure_unit_correct systemctl) (ensure_off m off)
    | inl on ↦ elim (heal_settles m m.unit) [
      | inl same ↦ ap (ensure_unit_correct systemctl) (ensure_on m on ∙ same)
      | inr right ↦ settled (ensure_unit_correct systemctl m) (
          subst (λ (n : Machine W). n.unit ≡ some (unit_content expected_exec))
            (sym (ensure_on m on)) right)
    ]
  ]

  -- On every machine the check at the start leaves what `Heals` says: everything as it was without an
  -- executable binary behind the link `current`, without a unit, or without the right to write the unit;
  -- otherwise a unit whose `ExecStart` is that binary with `serve`. Checking again changes nothing.
  pub ensure_unit_correct-Heals :
      (m : Machine W)
      → Heals m (ensure_unit_correct systemctl m)
        × (ensure_unit_correct systemctl (ensure_unit_correct systemctl m)
            ≡ ensure_unit_correct systemctl m)
  ensure_unit_correct-Heals m = (
    elim (Bool-cases m.binaries.current_runs) [
      | inr off ↦ not_deployed (inl off) (ensure_off m off)
      | inl on ↦ elim (Option-cases m.unit) [
        | inl nothing ↦
            not_deployed (inr nothing)
              (ensure_on m on ∙ ap (λ u. heal systemctl u m) nothing ∙ (unfold heal in refl))
        | inr (unit, there) ↦
            subst (Heals m) (sym (ensure_on m on ∙ ap (λ u. heal systemctl u m) there))
              (heal-Heals unit m on there)
      ]
    ],
    heals_twice m,
  )

  enable_found-starts :
      (p : Option Text) (m : Machine W)
      → (enable_found systemctl p m).0 ≡ true
      → (q : Text) × (p ≡ some q) × ((enable_found systemctl p m).1.unit ≡ some (unit_content q))
  unfolding enable_found write_unit succeeds
  enable_found-starts none m h = absurd (cc)
  enable_found-starts (some []) m h = absurd (cc)
  enable_found-starts (some (c ∷ cs)) m h = elim (Bool-cases m.writable) [
    | inl may ↦ (c ∷ cs, refl, ground (arith, may))
    | inr must_not ↦ absurd (ground (arith, must_not))
  ]

  ensure_dirs-binaries : (m : Machine W) → (ensure_dirs m).binaries ≡ m.binaries
  unfolding ensure_dirs
  ensure_dirs-binaries m = elim (Option-cases m.config) [
    | inl nothing ↦ ground (arith, nothing)
    | inr (c, there) ↦ ground (arith, there)
  ]

  -- When the service is enabled, the unit starts the binary that was found, if its path is one line.
  service_enable-starts :
      (m : Machine W)
      → (service_enable systemctl m).0 ≡ true
      → (p : Text) × (find_current_binary m.binaries ≡ some p)
        × ((unit : Text) × ((service_enable systemctl m).1.unit ≡ some unit)
            × (OnOneLine p → exec_start unit ≡ p ++ codes " serve"))
  unfolding service_enable
  service_enable-starts m h =
      let (p, found, written) =
        enable_found-starts (find_current_binary (ensure_dirs m).binaries) (ensure_dirs m) h in
      (
        p,
        ap find_current_binary (sym (ensure_dirs-binaries m)) ∙ found,
        (unit_content p, written, exec_start-unit_content p),
      )
