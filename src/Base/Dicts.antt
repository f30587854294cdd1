-- ===== src/Base/Dicts.antt =====
-- Go's `map[string]V` and `cmap.ConcurrentMap`: association lists with texts as keys. Where the
-- program ranges over a map, the order of the list stands for the order that the runtime picks.
use Prim.Native.String.{String}
use mathlib.Core.Path.{◌≡◌, refl, ◌∙◌}
use mathlib.Core.Bool.{Bool, true, false}
use mathlib.Core.Option.{Option, none, some}
use mathlib.Core.List.{List, [], ◌∷◌}
use native.Mathlib.Omega.{arith}
use text.Mathlib.TextEquality.{eq_iff}
use kwmserver.Base.Tests.{◌==◌, string_eq, if◌then◌else◌, is_some}

abbrev pub Dict {ℓ} : Type ℓ → Type ℓ
Dict V = List (String × V)

module _ {ℓ} {V : Type ℓ} where
  unfoldable pub lookup : String → Dict V → Option V
  lookup k [] = none
  lookup k ((j, v) ∷ m) = if j == k then some v else lookup k m

  unfoldable pub remove : String → Dict V → Dict V
  remove k [] = []
  remove k ((j, v) ∷ m) = let rest = remove k m in if j == k then rest else (j, v) ∷ rest

  unfoldable pub insert : String → V → Dict V → Dict V
  insert k v m = (k, v) ∷ remove k m

  unfoldable pub has : String → Dict V → Bool
  has k m = is_some (lookup k m)

  pub lookup-empty : (k : String) → lookup k [] ≡ none
  unfolding lookup
  lookup-empty k = refl

  pub lookup-remove :
      (k j : String) (m : Dict V) → lookup j (remove k m) ≡ (if k == j then none else lookup j m)
  unfolding lookup remove
  lookup-remove k j [] = ground arith
  lookup-remove k j ((i, v) ∷ m) =
      ground (arith, lookup-remove k j m, eq_iff i k, eq_iff i j, eq_iff k j)

  pub lookup-insert :
      (k j : String) (v : V) (m : Dict V)
      → lookup j (insert k v m) ≡ (if k == j then some v else lookup j m)
  unfolding insert lookup
  lookup-insert k j v m = ground (arith, lookup-remove k j m)

  pub has-lookup : (k : String) (m : Dict V) → has k m ≡ is_some (lookup k m)
  unfolding has
  has-lookup k m = refl

  pub lookup_iff_none : (k : String) (m : Dict V) → has k m ≡ false → lookup k m ≡ none
  unfolding has
  lookup_iff_none k m h = ground arith

-- A map as Go has it: no key twice.
module _ {V : Type 0} where
  abbrev pub IsMap : Dict V → Type 0
  IsMap [] = Unit
  IsMap ((k, v) ∷ m) = (lookup k m ≡ none) × IsMap m

  pub remove-IsMap : (k : String) (m : Dict V) → IsMap m → IsMap (remove k m)
  unfolding remove
  remove-IsMap k [] h = tt
  remove-IsMap k ((j, v) ∷ m) h = ground (arith, remove-IsMap k m h.1, lookup-remove k j m)

  pub insert-IsMap : (k : String) (v : V) (m : Dict V) → IsMap m → IsMap (insert k v m)
  unfolding insert
  insert-IsMap k v m h = (lookup-remove k k m ∙ ground (arith, eq_iff k k), remove-IsMap k m h)

-- Is a text in a list of texts?
abbrev pub mem_text : String → List String → Bool
mem_text k [] = false
mem_text k (x ∷ xs) = if x == k then true else mem_text k xs

pub ruleset dict_laws = (lookup-empty, lookup-remove, lookup-insert, has-lookup)
