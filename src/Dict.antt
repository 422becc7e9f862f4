-- ===== src/Dict.antt =====
-- `std::unordered_map<std::string, V>` as an association list without repeated keys: `find`,
-- `erase`, `emplace` and assignment through `operator[]`. Its iteration order is unspecified; the
-- code sorts what it reads off a map where the order could be seen.
pub mod Laws
use mq_project.Prelude.{
  ℕ, Bool, true, false, Option, none, some, List, [], ◌∷◌, ◌≡◌, map, if◌then◌else◌,
}
use mq_project.Bytes.{Bytes}
use mq_project.Bytes.Equality.{bytes_eq}

abbrev pub Dict {ℓ} : Type ℓ → Type ℓ
Dict V = List (Bytes × V)

module _ {ℓ} {V : Type ℓ} where
  unfoldable pub find : Bytes → Dict V → Option V
  find k [] = none
  find k ((j, v) ∷ m) = if bytes_eq j k then some v else find k m

  abbrev pub is_some : Option V → Bool
  is_some none = false
  is_some (some v) = true

  unfoldable pub has : Bytes → Dict V → Bool
  unfolding find
  has k m = is_some (find k m)

  -- `m[k] = v`.
  unfoldable pub insert : Bytes → V → Dict V → Dict V
  insert k v [] = (k, v) ∷ []
  insert k v ((j, w) ∷ m) = if bytes_eq j k then (j, v) ∷ m else (j, w) ∷ insert k v m

  unfoldable pub erase : Bytes → Dict V → Dict V
  erase k [] = []
  erase k ((j, v) ∷ m) = if bytes_eq j k then erase k m else (j, v) ∷ erase k m

  abbrev pub keys : Dict V → List Bytes
  keys = map λ p. p.0

  abbrev pub values : Dict V → List V
  values = map λ p. p.1
