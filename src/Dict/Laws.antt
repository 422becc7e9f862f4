-- ===== src/Dict/Laws.antt =====
-- What a map holds after each of its operations.
use mq_project.Prelude.{◌≡◌, refl, none, some, [], ◌∷◌, if◌then◌else◌, arith}
use mq_project.Bytes.{Bytes, All}
use mq_project.Bytes.Equality.{bytes_eq, bytes_eq_iff, bytes_eq_refl}
use mq_project.Dict.{Dict, find, insert, erase}

module _ {ℓ} {V : Type ℓ} where
  pub find-insert :
      (k j : Bytes) (v : V) (m : Dict V)
      → find j (insert k v m) ≡ (if bytes_eq k j then some v else find j m)
  unfolding find insert
  find-insert k j v [] = refl
  find-insert k j v ((i, w) ∷ m) =
      ground (arith, bytes_eq_iff k j, bytes_eq_iff i k, bytes_eq_iff i j, find-insert k j v m)

  pub find-erase :
      (k j : Bytes) (m : Dict V) → find j (erase k m) ≡ (if bytes_eq k j then none else find j m)
  unfolding find erase
  find-erase k j [] = ground arith
  find-erase k j ((i, w) ∷ m) =
      ground (arith, bytes_eq_iff k j, bytes_eq_iff i k, bytes_eq_iff i j, find-erase k j m)

  pub find-insert_self : (k : Bytes) (v : V) (m : Dict V) → find k (insert k v m) ≡ some v
  find-insert_self k v m = simp (find-insert, bytes_eq_refl)

  pub find-erase_self : (k : Bytes) (m : Dict V) → find k (erase k m) ≡ none
  find-erase_self k m = simp (find-erase, bytes_eq_refl)

  -- Every value.
  abbrev pub Each {κ} : (V → Type κ) → Dict V → Type κ
  Each P = All λ p. P p.1

  pub insert-Each {κ} :
      (P : V → Type κ) (k : Bytes) (v : V) (m : Dict V) → P v → Each P m → Each P (insert k v m)
  unfolding insert
  insert-Each P k v [] p h = (p, tt)
  insert-Each P k v ((j, w) ∷ m) p h = ground (arith, insert-Each P k v m p h.1)

  pub erase-Each {κ} : (P : V → Type κ) (k : Bytes) (m : Dict V) → Each P m → Each P (erase k m)
  unfolding erase
  erase-Each P k [] h = tt
  erase-Each P k ((j, w) ∷ m) h = ground (arith, erase-Each P k m h.1)

  pub find-Each {κ} :
      (P : V → Type κ) (k : Bytes) (v : V) (m : Dict V) → Each P m → find k m ≡ some v → P v
  unfolding find
  find-Each P k v [] h e = cc
  find-Each P k v ((j, w) ∷ m) h e = ground (arith, find-Each P k v m h.1)

  -- No key stands twice.
  abbrev pub Distinct : Dict V → Type ℓ
  Distinct [] = Unit
  Distinct ((k, v) ∷ m) = (find k m ≡ none) × Distinct m

  pub insert-Distinct : (k : Bytes) (v : V) (m : Dict V) → Distinct m → Distinct (insert k v m)
  unfolding insert find
  insert-Distinct k v [] h = (refl, tt)
  insert-Distinct k v ((j, w) ∷ m) h =
      ground
        (arith, bytes_eq_iff j k, bytes_eq_iff k j, find-insert k j v m, insert-Distinct k v m h.1)

  pub erase-Distinct : (k : Bytes) (m : Dict V) → Distinct m → Distinct (erase k m)
  unfolding erase
  erase-Distinct k [] h = tt
  erase-Distinct k ((j, w) ∷ m) h = ground (arith, find-erase k j m, erase-Distinct k m h.1)
