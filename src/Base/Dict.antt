-- ===== src/Base/Dict.antt =====
-- Go's map with string keys, as an association list. A nil map is the empty list.
use Prim.Native.String.{String}
use mathlib.Core.Path.{◌≡◌, refl}
use mathlib.Core.Bool.{Bool, false, true, not}
use mathlib.Core.Option.{Option, none, some}
use mathlib.Core.List.{List, [], ◌∷◌, ◌++◌, map}
use native.Mathlib.Omega.{arith}
use text.Mathlib.Text.{◌==◌}
use text.Mathlib.TextEquality.{eq_iff}
use grpc_test_infra.Base.Tests.{if◌then◌else◌, is_some, get_or}
use grpc_test_infra.Base.Lists.{keep}

abbrev pub Dict {ℓ} : Type ℓ → Type ℓ
Dict V = List (String × V)

module _ {ℓ} {V : Type ℓ} where
  -- `v, ok := m[k]`
  unfoldable pub lookup : String → Dict V → Option V
  lookup key [] = none
  lookup key ((here, held) ∷ others) =
      let later = lookup key others in if here == key then some held else later

  -- `m[k] = v`
  unfoldable pub insert : String → V → Dict V → Dict V
  insert key new [] = (key, new) ∷ []
  insert key new ((here, held) ∷ others) =
      let later = insert key new others in
      if here == key then (key, new) ∷ others else (here, held) ∷ later

  -- `delete(m, k)`
  unfoldable pub delete : String → Dict V → Dict V
  delete k [] = []
  delete k ((j, v) ∷ m) = let rest = delete k m in if j == k then rest else (j, v) ∷ rest

  -- `_, ok := m[k]`
  unfoldable pub has : String → Dict V → Bool
  unfolding lookup
  has k m = is_some (lookup k m)

  -- `m[k]`, with the zero value for a missing key.
  unfoldable pub lookup_or : V → String → Dict V → V
  unfolding lookup
  lookup_or d k m = get_or d (lookup k m)

  abbrev pub keys : Dict V → List String
  keys [] = []
  keys ((k, v) ∷ m) = k ∷ keys m

  abbrev pub values : Dict V → List V
  values m = map (λ e. e.1) m

  pub lookup-insert :
      (key other : String) (new : V) (d : Dict V)
      → lookup other (insert key new d) ≡ (if key == other then some new else lookup other d)
  unfolding lookup insert
  lookup-insert key other new [] = refl
  lookup-insert key other new ((here, held) ∷ d) =
      ground
        (arith, lookup-insert key other new d, eq_iff here key, eq_iff here other, eq_iff key other)

  pub lookup-delete :
      (k j : String) (m : Dict V) → lookup j (delete k m) ≡ (if k == j then none else lookup j m)
  unfolding lookup delete
  lookup-delete k j [] = ground arith
  lookup-delete k j ((i, v) ∷ m) =
      ground (arith, lookup-delete k j m, eq_iff i k, eq_iff i j, eq_iff k j)

  pub has-insert :
      (k j : String) (v : V) (m : Dict V)
      → has j (insert k v m) ≡ (if k == j then true else has j m)
  unfolding has
  has-insert k j v m = ground (arith, lookup-insert k j v m)

  pub lookup_or-insert :
      (d : V) (k j : String) (v : V) (m : Dict V)
      → lookup_or d j (insert k v m) ≡ (if k == j then v else lookup_or d j m)
  unfolding lookup_or
  lookup_or-insert d k j v m = ground (arith, lookup-insert k j v m)

  -- A new key goes to the end.
  pub insert-fresh :
      (k : String) (v : V) (m : Dict V) → has k m ≡ false → insert k v m ≡ m ++ (k, v) ∷ []
  unfolding has insert
  insert-fresh k v [] h = refl
  insert-fresh k v ((j, w) ∷ m) h = ground (arith, eq_iff j k, insert-fresh k v m)

  pub delete-keep : (k : String) (m : Dict V) → delete k m ≡ keep (λ e. not (k == e.0)) m
  unfolding delete
  delete-keep k [] = refl
  delete-keep k ((j, v) ∷ m) = ground (arith, delete-keep k m, eq_iff j k, eq_iff k j)

  pub delete-missing : (k : String) (m : Dict V) → has k m ≡ false → delete k m ≡ m
  unfolding delete has
  delete-missing k [] h = refl
  delete-missing k ((j, v) ∷ m) h = ground (arith, delete-missing k m)
