-- ===== src/Prelude/Dict.antt =====
-- A Go map whose keys are read as numbers, as an association list. A write replaces the entry or
-- appends one, so no key stands twice in a map that was built from the empty one.
use Prim.Native.Nat.{ℕ, ◌+◌}
use mathlib.Core.Bool.{Bool, false, true}
use mathlib.Core.List.{List, [], ◌∷◌}
use mathlib.Core.Option.{Option, none, some}
use mathlib.Core.Path.{refl, ◌≡◌}
use native.Mathlib.Omega.{arith}
use less_chain.Prelude.Lists.{length}
use less_chain.Prelude.Tests.{if◌then◌else◌, ◌==◌}

abbrev pub Dict {ℓ} : Type ℓ → Type ℓ
Dict V = List (ℕ × V)

abbrev pub is_some {ℓ} : {A : Type ℓ} → Option A → Bool
is_some (some _) = true
is_some none = false

module _ {ℓ} {V : Type ℓ} where
  -- `v, ok := m[k]`
  abbrev pub lookup : ℕ → Dict V → Option V
  lookup k [] = none
  lookup k ((j, v) ∷ d) = if j == k then some v else lookup k d

  -- `m[k] = v`
  abbrev pub insert : ℕ → V → Dict V → Dict V
  insert k v [] = (k, v) ∷ []
  insert k v ((j, w) ∷ d) = if j == k then (k, v) ∷ d else (j, w) ∷ insert k v d

  -- `delete(m, k)`
  abbrev pub erase : ℕ → Dict V → Dict V
  erase k [] = []
  erase k ((j, w) ∷ d) = if j == k then erase k d else (j, w) ∷ erase k d

  -- `_, ok := m[k]`
  abbrev pub contains : ℕ → Dict V → Bool
  contains k d = is_some (lookup k d)

  -- `m[k]`, with the zero value of the element type for a missing key.
  abbrev pub get_or : ℕ → V → Dict V → V
  get_or k z d = elim (lookup k d) [ none ↦ z | some v ↦ v ]

  pub lookup-insert :
      (k j : ℕ) (v : V) (d : Dict V)
      → lookup j (insert k v d) ≡ (if k == j then some v else lookup j d)
  lookup-insert k j v [] = refl
  lookup-insert k j v ((i, w) ∷ d) = ground (arith, lookup-insert k j v d)

  pub lookup-insert_self : (k : ℕ) (v : V) (d : Dict V) → lookup k (insert k v d) ≡ some v
  lookup-insert_self k v d = ground (arith, lookup-insert k k v d)

  pub lookup-erase :
      (k j : ℕ) (d : Dict V) → lookup j (erase k d) ≡ (if k == j then none else lookup j d)
  lookup-erase k j [] = ground arith
  lookup-erase k j ((i, w) ∷ d) = ground (arith, lookup-erase k j d)

  pub length-insert_new :
      (k : ℕ) (v : V) (d : Dict V) → lookup k d ≡ none → length (insert k v d) ≡ length d + 1
  length-insert_new k v [] h = omega arith
  length-insert_new k v ((j, w) ∷ d) h = ground (arith, length-insert_new k v d)

  pub length-insert_old :
      (k : ℕ) (v w : V) (d : Dict V) → lookup k d ≡ some w → length (insert k v d) ≡ length d
  length-insert_old k v w [] h = cc
  length-insert_old k v w ((j, u) ∷ d) h = ground (arith, length-insert_old k v w d)

  pub contains-insert :
      (id k : ℕ) (v : V) (d : Dict V) → contains id d ≡ true → contains id (insert k v d) ≡ true
  contains-insert id k v d h = let l = lookup-insert k id v d in ground arith

  pub contains-insert_self : (k : ℕ) (v : V) (d : Dict V) → contains k (insert k v d) ≡ true
  contains-insert_self k v d = let l = lookup-insert_self k v d in ground arith

  pub get_or-insert :
      (k j : ℕ) (z v : V) (d : Dict V)
      → get_or j z (insert k v d) ≡ (if k == j then v else get_or j z d)
  get_or-insert k j z v d = let l = lookup-insert k j v d in ground arith
