-- ===== src/Core/Groups/Planned.antt =====
-- The plan of a group has no partition twice.
use mathlib.Core.List.{
  Perm, Mem, Nodup, Nodup-cons, Nodup-nil, Nodup-append, mem-append, mem-cons_of_mem, not-mem-nil,
  mem-cons,
}
use mathlib.Core.List.Perm
use mathlib.Core.HLevel.{⊥_prop}
use mathlib.Core.Logic.Or
use mq_project.Prelude.{
  ℕ, zero, suc, ◌+◌, ◌<◌, ◌≡◌, ◌≢◌, inl, inr, refl, sym, ap, subst, ◌∙◌, true, false, List, [], ◌∷◌,
  arith, Bool-cases,
}
use mq_project.Bytes.{Bytes}
use mq_project.Bytes.Equality.{bytes_lt}
use mq_project.Dict.{Dict, find}
use mq_project.Core.Groups.{
  GroupAssignment, Members, set_insert, set_insert_all, subscribed_topics, count_or_zero,
  topic_partitions, collect_partitions, place_assignment, sort_assignments, assignment_lt, plan,
}

bytes_lt_trans :
    (xs ys zs : Bytes) → bytes_lt xs ys ≡ true → bytes_lt ys zs ≡ true → bytes_lt xs zs ≡ true
unfolding bytes_lt
bytes_lt_trans xs ys [] h k = absurd (ground (arith, k))
bytes_lt_trans xs [] (z ∷ zs) h k = absurd (ground (arith, h))
bytes_lt_trans [] (y ∷ ys) (z ∷ zs) h k = refl
bytes_lt_trans (x ∷ xs) (y ∷ ys) (z ∷ zs) h k = ground (arith, h, k, bytes_lt_trans xs ys zs)

bytes_lt_irrefl : (xs : Bytes) → bytes_lt xs xs ≡ false
unfolding bytes_lt
bytes_lt_irrefl [] = refl
bytes_lt_irrefl (x ∷ xs) = ground (arith, bytes_lt_irrefl xs)

-- Each topic is below those behind it.
abbrev Above : Bytes → List Bytes → Type 0
Above x [] = Unit
Above x (y ∷ ys) = (bytes_lt x y ≡ true) × Above x ys

abbrev Ascends : List Bytes → Type 0
Ascends [] = Unit
Ascends (x ∷ xs) = Above x xs × Ascends xs

Above-trans : (x y : Bytes) (zs : List Bytes) → bytes_lt x y ≡ true → Above y zs → Above x zs
Above-trans x y [] h v = tt
Above-trans x y (z ∷ zs) h (k, v) = (bytes_lt_trans x y z h k, Above-trans x y zs h v)

set_insert-Above :
    (z x : Bytes) (ys : List Bytes) → bytes_lt z x ≡ true → Above z ys → Above z (set_insert x ys)
unfolding set_insert
set_insert-Above z x [] h v = (h, tt)
set_insert-Above z x (y ∷ ys) h (k, v) = elim (Bool-cases (bytes_lt x y)) [
  | inl before ↦ rw before (h, (k, v))
  | inr late ↦ elim (Bool-cases (bytes_lt y x)) [
    | inl after ↦ rw (late, set_insert) (rw after (k, set_insert-Above z x ys h v))
    | inr same ↦ rw (late, set_insert) (rw same (k, v))
  ]
]

set_insert-Ascends : (x : Bytes) (ys : List Bytes) → Ascends ys → Ascends (set_insert x ys)
unfolding set_insert
set_insert-Ascends x [] v = (tt, tt)
set_insert-Ascends x (y ∷ ys) (a, v) = elim (Bool-cases (bytes_lt x y)) [
  | inl before ↦ rw before ((before, Above-trans x y ys before a), (a, v))
  | inr late ↦ elim (Bool-cases (bytes_lt y x)) [
    | inl after ↦
        rw (late, set_insert)
          (rw after (set_insert-Above y x ys after a, set_insert-Ascends x ys v))
    | inr same ↦ rw (late, set_insert) (rw same (a, v))
  ]
]

set_insert_all-Ascends : (xs ys : List Bytes) → Ascends ys → Ascends (set_insert_all xs ys)
unfolding set_insert_all
set_insert_all-Ascends [] ys v = v
set_insert_all-Ascends (x ∷ xs) ys v =
    set_insert_all-Ascends xs (set_insert x ys) (set_insert-Ascends x ys v)

subscribed_topics-Ascends :
    (ms : Members) (ys : List Bytes) → Ascends ys → Ascends (subscribed_topics ms ys)
unfolding subscribed_topics
subscribed_topics-Ascends [] ys v = v
subscribed_topics-Ascends ((id, m) ∷ ms) ys v =
    subscribed_topics-Ascends ms (set_insert_all m.topics ys) (set_insert_all-Ascends m.topics ys v)

never : false ≡ true → ⊥
never e = cc

Above-fresh : (x : Bytes) (ys : List Bytes) → Above x ys → ¬ Mem x ys
Above-fresh x [] v m = not-mem-nil m
Above-fresh x (y ∷ ys) (h, v) m =
    Or.elim ⊥_prop (mem-cons.0 m) (λ q. never (sym (bytes_lt_irrefl x) ∙ ap (bytes_lt x) q ∙ h))
      (λ n. Above-fresh x ys v n)

Ascends-Nodup : (xs : List Bytes) → Ascends xs → Nodup xs
Ascends-Nodup [] v = Nodup-nil
Ascends-Nodup (x ∷ xs) (a, v) = Nodup-cons.1 (Above-fresh x xs a, Ascends-Nodup xs v)

-- Among the entries for a topic from number `p` on there is none of a lower number, nor of another topic.
lower_fresh :
    (topic : Bytes) (p n : ℕ) (a : GroupAssignment)
    → a.partition < p
    → ¬ Mem a (topic_partitions topic p n)
lower_fresh topic p zero a h m = not-mem-nil m
lower_fresh topic p (suc n) a h m =
    Or.elim ⊥_prop (mem-cons.0 m) (λ q. omega (arith, h, ap (λ b. b.partition) q))
      (λ k. lower_fresh topic (p + 1) n a (omega (arith, h)) k)

other_fresh :
    (topic : Bytes) (p n : ℕ) (a : GroupAssignment)
    → a.topic ≢ topic
    → ¬ Mem a (topic_partitions topic p n)
other_fresh topic p zero a h m = not-mem-nil m
other_fresh topic p (suc n) a h m =
    Or.elim ⊥_prop (mem-cons.0 m) (λ q. h (ap (λ b. b.topic) q))
      (λ k. other_fresh topic (p + 1) n a h k)

topic_partitions-Nodup : (topic : Bytes) (p n : ℕ) → Nodup (topic_partitions topic p n)
topic_partitions-Nodup topic p zero = Nodup-nil
topic_partitions-Nodup topic p (suc n) =
    Nodup-cons.1
      (lower_fresh topic (p + 1) n _ (omega arith), topic_partitions-Nodup topic (p + 1) n)

collect-fresh :
    (partitions : Dict ℕ) (ts : List Bytes) (a : GroupAssignment)
    → ¬ Mem a.topic ts
    → ¬ Mem a (collect_partitions partitions ts)
unfolding collect_partitions
collect-fresh partitions [] a h m = not-mem-nil m
collect-fresh partitions (t ∷ ts) a h m =
    Or.elim ⊥_prop (mem-append.0 m)
      (other_fresh t 0 (count_or_zero (find t partitions)) a (λ e. h (mem-cons.1 (Or.inl e))))
      (collect-fresh partitions ts a (λ k. h (mem-cons_of_mem t k)))

collect_partitions-Nodup :
    (partitions : Dict ℕ) (ts : List Bytes) → Nodup ts → Nodup (collect_partitions partitions ts)
unfolding collect_partitions
collect_partitions-Nodup partitions [] v = Nodup-nil
collect_partitions-Nodup partitions (t ∷ ts) v =
    let (fresh, w) = Nodup-cons.0 v in
    Nodup-append.1 (
      topic_partitions-Nodup t 0 (count_or_zero (find t partitions)),
      collect_partitions-Nodup partitions ts w,
      λ a m k.
          other_fresh t 0 (count_or_zero (find t partitions)) a
            (λ e. collect-fresh partitions ts a (λ n. fresh (subst (λ x. Mem x ts) e n)) k) m,
    )

place_assignment-perm :
    (a : GroupAssignment) (xs : List GroupAssignment) → Perm (place_assignment a xs) (a ∷ xs)
unfolding place_assignment
place_assignment-perm a [] = Perm.refl _
place_assignment-perm a (x ∷ xs) = elim (Bool-cases (assignment_lt x a)) [
  | inl before ↦
      rw before (Perm.trans (Perm.cons x (place_assignment-perm a xs)) (Perm.swap a x xs))
  | inr after ↦ rw after (Perm.refl _)
]

sort_assignments-perm : (xs : List GroupAssignment) → Perm (sort_assignments xs) xs
unfolding sort_assignments
sort_assignments-perm [] = Perm.refl _
sort_assignments-perm (x ∷ xs) =
    Perm.trans (place_assignment-perm x (sort_assignments xs))
      (Perm.cons x (sort_assignments-perm xs))

pub plan-Nodup : (partitions : Dict ℕ) (ms : Members) → Nodup (plan partitions ms)
unfolding plan
plan-Nodup partitions [] = Nodup-nil
plan-Nodup partitions (m ∷ ms) =
    let topics = subscribed_topics (m ∷ ms) [] in
    let collected = collect_partitions partitions topics in
    Perm.nodup (Perm.symm (sort_assignments-perm collected)) (
      collect_partitions-Nodup partitions topics
        (Ascends-Nodup topics (subscribed_topics-Ascends (m ∷ ms) [] tt)))
