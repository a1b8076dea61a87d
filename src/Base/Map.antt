-- ===== src/Base/Map.antt =====
-- A Go `map[string]V` as an association list, the first entry of a key counting. The order of the
-- list stands for the order in which `range` visits the map, which Go leaves open.
use mathlib.Core.Path.{◌≡◌, ap, ◌∙◌}
use mathlib.Core.Logic.{inl, inr}
use mathlib.Core.Option.{Option, none, some}
use mathlib.Core.List.{List, [], ◌∷◌}
use Prim.Native.String.{String}
use text.Mathlib.Text.{◌==◌}
use text.Mathlib.TextEquality.{eq_iff}
use native.Mathlib.Omega.{arith}
use lark_bridge_agent_sdk.Base.Tests.{if◌then◌else◌, Bool-cases}

abbrev pub Map {ℓ} : Type ℓ → Type ℓ
Map V = List (String × V)

module _ {ℓ} {V : Type ℓ} where
  unfoldable pub lookup : String → Map V → Option V
  lookup key [] = none
  lookup key (entry ∷ rest) = if entry.0 == key then some (entry.1) else lookup key rest

  unfoldable pub delete : String → Map V → Map V
  delete key [] = []
  delete key (entry ∷ rest) =
      let others = delete key rest in if entry.0 == key then others else entry ∷ others

  unfoldable pub insert : String → V → Map V → Map V
  insert key value entries = (key, value) ∷ delete key entries

  pub lookup-delete :
      (k j : String) (m : Map V) → lookup j (delete k m) ≡ (if k == j then none else lookup j m)
  unfolding lookup delete
  lookup-delete k j [] = ground arith
  lookup-delete k j (entry ∷ m) =
      ground (arith, eq_iff k j, eq_iff (entry.0) k, eq_iff (entry.0) j, lookup-delete k j m)

  pub lookup-insert :
      (k j : String) (v : V) (m : Map V)
      → lookup j (insert k v m) ≡ (if k == j then some v else lookup j m)
  unfolding lookup insert
  lookup-insert k j v m = ground (arith, lookup-delete k j m)

-- An entry that an observation cannot tell from the old one changes nothing that it sees.
module _ {ℓ κ} {V : Type ℓ} {A : Type κ} (P : Option V → A) (k j : String) (m : Map V) where
  unseen :
      (o : Option V) → P o ≡ P (lookup k m) → P (if k == j then o else lookup j m) ≡ P (lookup j m)
  unseen o h = elim (Bool-cases (k == j)) [
    | inl e ↦
        ap (λ b. P (if b then o else lookup j m)) e
        ∙ h
        ∙ ap (λ i. P (lookup i m)) ((eq_iff k j).0 e)
    | inr e ↦ ap (λ b. P (if b then o else lookup j m)) e
  ]

  pub insert-unseen :
      (v : V) → P (some v) ≡ P (lookup k m) → P (lookup j (insert k v m)) ≡ P (lookup j m)
  insert-unseen v h = ap P (lookup-insert k j v m) ∙ unseen (some v) h

  pub delete-unseen : P none ≡ P (lookup k m) → P (lookup j (delete k m)) ≡ P (lookup j m)
  delete-unseen h = ap P (lookup-delete k j m) ∙ unseen none h

abbrev pub keys {ℓ} : {V : Type ℓ} → Map V → List String
keys [] = []
keys ((k, v) ∷ m) = k ∷ keys m

abbrev pub values {ℓ} : {V : Type ℓ} → Map V → List V
values [] = []
values ((k, v) ∷ m) = v ∷ values m

pub ruleset map_laws = (lookup-insert, lookup-delete)
