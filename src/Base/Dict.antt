-- ===== src/Base/Dict.antt =====
-- `std::map<std::string, V>` where its order is not used: an association list and its laws.
use coin_tool.Base.Bytes.{Text, text_eq, text_eq_iff}
use coin_tool.Base.Tests.{if◌then◌else◌}
use mathlib.Core.Path.{◌≡◌, refl}
use mathlib.Core.Bool.{Bool, true, false}
use mathlib.Core.Option.{Option, none, some}
use mathlib.Core.List.{List, [], ◌∷◌, ◌++◌}
use native.Mathlib.Omega.{arith}

abbrev pub Dict {ℓ} : Type ℓ → Type ℓ
Dict V = List (Text × V)

-- The value of an `Option`, or a default.
abbrev pub value_or {ℓ} : {A : Type ℓ} → Option A → A → A
value_or none d = d
value_or (some a) d = a

abbrev pub is_some {ℓ} : {A : Type ℓ} → Option A → Bool
is_some none = false
is_some (some a) = true

module _ {ℓ} {V : Type ℓ} where
  unfoldable pub lookup : Text → Dict V → Option V
  lookup k [] = none
  lookup k ((j, v) ∷ m) = if text_eq j k then some v else lookup k m

  -- `m[k] = v`
  unfoldable pub insert : Text → V → Dict V → Dict V
  insert k v [] = (k, v) ∷ []
  insert k v ((j, w) ∷ m) = if text_eq j k then (k, v) ∷ m else (j, w) ∷ insert k v m

  -- `m.count(k)`, as a test
  abbrev pub contains : Text → Dict V → Bool
  contains k m = is_some (lookup k m)

  pub lookup-insert :
      (j k : Text) (v : V) (m : Dict V)
      → lookup j (insert k v m) ≡ (if text_eq k j then some v else lookup j m)
  unfolding lookup insert
  lookup-insert j k v [] = refl
  lookup-insert j k v ((i, w) ∷ m) =
      ground (arith, text_eq_iff k j, text_eq_iff i k, text_eq_iff i j, lookup-insert j k v m)

module _ {ℓ} {A : Type ℓ} where
  -- `m[k]` of a map to vectors, where a missing key reads as an empty vector
  abbrev pub values : Text → Dict (List A) → List A
  values k m = value_or (lookup k m) []

  -- `m[k].push_back(v)`
  unfoldable pub push_back : Text → A → Dict (List A) → Dict (List A)
  push_back k v m = insert k (values k m ++ (v ∷ [])) m

  pub values-push_back :
      (j k : Text) (v : A) (m : Dict (List A))
      → values j (push_back k v m) ≡ (if text_eq k j then values j m ++ (v ∷ []) else values j m)
  unfolding push_back
  values-push_back j k v m =
      ground (arith, lookup-insert j k (values k m ++ (v ∷ [])) m, text_eq_iff k j)
