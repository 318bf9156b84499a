-- ===== src/Prelude/Dict.antt =====
-- A Python dict whose keys are texts, in insertion order.
use mathlib.Core.Path.{◌≡◌, refl, sym, subst}
use socket_server.Prelude.Lists.{All}
use mathlib.Core.Logic.{inl, inr}
use mathlib.Core.Bool.{true}
use mathlib.Core.Option.{Option, none, some}
use mathlib.Core.List.{List, [], ◌∷◌}
use native.Mathlib.Omega.{arith}
use socket_server.Prelude.Tests.{if◌then◌else◌, Bool-cases}
use socket_server.Prelude.Bytes.{Text, eqb, eqb→eq}

abbrev pub Dict : Type 0 → Type 0
Dict V = List (Text × V)

module _ {V : Type 0} where
  unfoldable pub lookup : Text → Dict V → Option V
  lookup k [] = none
  lookup k ((j, v) ∷ d) = if eqb k j then some v else lookup k d

  -- `d[k] = v`
  pub insert : Text → V → Dict V → Dict V
  insert k v [] = (k, v) ∷ []
  insert k v ((j, u) ∷ d) = if eqb k j then (j, v) ∷ d else (j, u) ∷ insert k v d

  -- `d.pop(k, None)`
  pub erase : Text → Dict V → Dict V
  erase k [] = []
  erase k ((j, u) ∷ d) = if eqb k j then erase k d else (j, u) ∷ erase k d

eqb_subst : (i k j : Text) → eqb k j ≡ true → eqb i j ≡ eqb i k
eqb_subst i k j h = rw (eqb→eq k j h)

-- A key equal to two others makes them equal.
eqb_other : (i k j : Text) → eqb i j ≡ true → eqb i k ≡ true → eqb k j ≡ true
eqb_other i k j p q = rw (sym (eqb→eq i k q)) p

module _ {V : Type 0} where
  pub lookup-insert :
      (i k : Text) (v : V) (d : Dict V)
      → lookup i (insert k v d) ≡ (if eqb i k then some v else lookup i d)
  unfolding lookup insert
  lookup-insert i k v [] = refl
  lookup-insert i k v ((j, u) ∷ d) = elim (Bool-cases (eqb k j)) [
    | inl same ↦ rw same (ground (arith, eqb_subst i k j same))
    | inr other ↦ rw other (ground (arith, lookup-insert i k v d, eqb_other i k j))
  ]

  pub lookup-erase :
      (i k : Text) (d : Dict V) → lookup i (erase k d) ≡ (if eqb i k then none else lookup i d)
  unfolding lookup erase
  lookup-erase i k [] = ground arith
  lookup-erase i k ((j, u) ∷ d) = elim (Bool-cases (eqb k j)) [
    | inl same ↦ rw same (ground (arith, lookup-erase i k d, eqb_subst i k j same))
    | inr other ↦ rw other (ground (arith, lookup-erase i k d, eqb_other i k j))
  ]

  -- What holds of all entries, of the new one too, holds after `d[k] = v`.
  pub All-insert :
      (P : Text × V → Type 0) (k : Text) (v : V) (d : Dict V)
      → P (k, v)
      → All P d
      → All P (insert k v d)
  unfolding insert
  All-insert P k v [] p a = (p, tt)
  All-insert P k v ((j, u) ∷ d) p a = elim (Bool-cases (eqb k j)) [
    | inl same ↦ rw same (subst (λ i. P (i, v)) (eqb→eq k j same) p, a.1)
    | inr other ↦ rw other (a.0, All-insert P k v d p a.1)
  ]
