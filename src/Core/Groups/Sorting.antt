-- ===== src/Core/Groups/Sorting.antt =====
-- Sorted ids: the same ids, each at its place.
use mathlib.Core.List.{Perm, Mem, mem-cons_self, mem-cons_of_mem, not-mem-nil, mem-cons}
use mathlib.Core.List.Perm
use mathlib.Core.Logic.{∥∥₁_prop}
use mathlib.Core.HLevel.{⊥_prop}
use mathlib.Core.Logic.Or
use mq_project.Prelude.{
  suc, ◌≡◌, ◌≢◌, inl, inr, refl, sym, ap, ◌∙◌, true, false, none, some, List, [], ◌∷◌, ◌++◌, length,
  arith, Bool-cases,
}
use mq_project.Bytes.{Bytes}
use mq_project.Bytes.Equality.{bytes_eq, bytes_eq_iff, bytes_eq_refl, bytes_lt}
use mq_project.Dict.{Dict, find, has, keys}
use mq_project.Core.Groups.{place_id, sort_ids, index_of}

place_id-perm : (id : Bytes) (xs : List Bytes) → Perm (place_id id xs) (id ∷ xs)
unfolding place_id
place_id-perm id [] = Perm.refl _
place_id-perm id (x ∷ xs) = elim (Bool-cases (bytes_lt x id)) [
  | inl before ↦ rw before (Perm.trans (Perm.cons x (place_id-perm id xs)) (Perm.swap id x xs))
  | inr after ↦ rw after (Perm.refl _)
]

pub sort_ids-perm : (xs : List Bytes) → Perm (sort_ids xs) xs
unfolding sort_ids
sort_ids-perm [] = Perm.refl _
sort_ids-perm (x ∷ xs) = Perm.trans (place_id-perm x (sort_ids xs)) (Perm.cons x (sort_ids-perm xs))

differ : false ≡ true → ⊥
differ e = cc

bytes_ne : (x y : Bytes) → ¬ (x ≡ y) → bytes_eq x y ≡ false
bytes_ne x y h = elim (Bool-cases (bytes_eq x y)) [
  | inl e ↦ absurd (h ((bytes_eq_iff x y).0 e))
  | inr e ↦ e
]

-- The first place of an id is where it stands, if it does not stand before.
pub index_of-append :
    (pre : List Bytes) (id : Bytes) (rest : List Bytes)
    → ¬ Mem id pre
    → index_of id (pre ++ id ∷ rest) ≡ some (length pre)
unfolding index_of
index_of-append [] id rest h = rw (bytes_eq_refl id)
index_of-append (x ∷ pre) id rest h =
    let other : bytes_eq x id ≡ false = bytes_ne x id (λ e. h (rw e mem-cons_self)) in
    rw (other, index_of) (rw (index_of-append pre id rest (λ m. h (mem-cons_of_mem x m))))

-- A key of a map is found in it.
pub has-key {ℓ} : {V : Type ℓ} (k : Bytes) (m : Dict V) → Mem k (keys m) → has k m ≡ true
unfolding has find
has-key k [] h = absurd (not-mem-nil h)
has-key k ((j, v) ∷ m) h = elim (Bool-cases (bytes_eq j k)) [
  | inl e ↦ rw e
  | inr e ↦ rw e (has-key k m (below e))
]
  where
    below : bytes_eq j k ≡ false → Mem k (keys m)
    below e =
        Or.elim ∥∥₁_prop (mem-cons.0 h)
          (λ q. absurd (differ (sym e ∙ (bytes_eq_iff j k).1 (sym q)))) (λ n. n)

length-place_id : (id : Bytes) (xs : List Bytes) → length (place_id id xs) ≡ suc (length xs)
unfolding place_id
length-place_id id [] = refl
length-place_id id (x ∷ xs) = ground (arith, length-place_id id xs)

pub length-sort_ids : (xs : List Bytes) → length (sort_ids xs) ≡ length xs
unfolding sort_ids
length-sort_ids [] = refl
length-sort_ids (x ∷ xs) = length-place_id x (sort_ids xs) ∙ ap suc (length-sort_ids xs)

pub index_of-mem : (id : Bytes) (xs : List Bytes) → Mem id xs → index_of id xs ≢ none
unfolding index_of
index_of-mem id [] m e = not-mem-nil m
index_of-mem id (x ∷ xs) m e =
    Or.elim ⊥_prop (mem-cons.0 m) (λ q. ground (arith, bytes_eq_iff x id))
      (λ n. ground (arith, index_of-mem id xs n))

pub key-has {ℓ} : {V : Type ℓ} (k : Bytes) (m : Dict V) → has k m ≡ true → Mem k (keys m)
unfolding has find
key-has k [] h = absurd (differ h)
key-has k ((j, v) ∷ m) h = elim (Bool-cases (bytes_eq j k)) [
  | inl e ↦ mem-cons.1 (Or.inl (sym ((bytes_eq_iff j k).0 e)))
  | inr e ↦ mem-cons_of_mem j (key-has k m (ground arith))
]
