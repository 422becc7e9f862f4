-- ===== src/Core/Groups/Cover.antt =====
-- The members of a group together read each planned partition, and no two of them the same one.
use mathlib.Core.List.{Perm, Mem, Nodup, Nodup-append, flatten, mem-cons_self, mem-cons_of_mem}
use mathlib.Core.List.Perm
use mq_project.Prelude.{
  ℕ, suc, ◌≤◌, ◌≡◌, inl, inr, refl, sym, ap, ◌∙◌, true, Option, none, some, List, [], ◌∷◌, ◌++◌,
  length, arith, Bool-cases, append_assoc, length-append, map, ap₂, subst, if◌then◌else◌,
}
use mq_project.Bytes.{Bytes}
use mq_project.Dict.{find, has, keys}
use mq_project.Core.Groups.{
  GroupAssignment, Members, Coordinator, sort_ids, index_of, deal, sync, assignment,
}
use mq_project.Core.Groups.Shares.{hands, hands-perm, deal-every}
use mq_project.Core.Groups.Sorting.{
  sort_ids-perm, index_of-append, index_of-mem, length-sort_ids, has-key, key-has,
}

-- What the id `id` gets among the ids `ids`.
abbrev dealt_to : ℕ → Option ℕ → List GroupAssignment → List GroupAssignment
dealt_to n none all = []
dealt_to n (some i) all = deal n i all

-- The hands of the ids `rest`, which stand behind the ids `pre`.
module _ (n : ℕ) (all : List GroupAssignment) (h : 1 ≤ n) (ids : List Bytes) (v : Nodup ids) where
  fresh_id :
      (pre : List Bytes) (id : Bytes) (rest : List Bytes) → ids ≡ pre ++ id ∷ rest → ¬ Mem id pre
  fresh_id pre id rest e m = (Nodup-append.0 (subst Nodup e v)).2 id m mem-cons_self

  deal-hands :
      (pre rest : List Bytes)
      → ids ≡ pre ++ rest
      → flatten (map (λ id. dealt_to n (index_of id ids) all) rest)
        ≡ hands (length pre) (length rest) n all
  unfolding flatten
  deal-hands pre [] e = refl
  deal-hands pre (id ∷ rest) e =
      let place : index_of id ids ≡ some (length pre) =
        ap (index_of id) e ∙ index_of-append pre id rest (fresh_id pre id rest e) in
      let longer : length (pre ++ id ∷ []) ≡ suc (length pre) =
        omega (arith, length-append pre (id ∷ [])) in
      ap₂ ◌++◌ (ap (λ i. dealt_to n i all) place ∙ deal-every n (length pre) all h) (
        deal-hands (pre ++ id ∷ []) rest (e ∙ sym (append_assoc pre (id ∷ []) rest))
        ∙ ap (λ k. hands k (length rest) n all) longer)

-- All ids together.
deal-perm :
    (ids : List Bytes) (all : List GroupAssignment)
    → Nodup ids
    → 1 ≤ length ids
    → Perm (flatten (map (λ id. dealt_to (length ids) (index_of id ids) all) ids)) all
deal-perm [] all v h = absurd (omega arith)
deal-perm (id ∷ ids) all v h =
    rw (deal-hands (suc (length ids)) all h (id ∷ ids) v [] (id ∷ ids) refl)
      (hands-perm (length ids) all)

module _ (c : Coordinator) (group : Bytes) (ms : Members) (all : List GroupAssignment)
    (in_group : find group c.members ≡ some ms)
    (planned : find group c.assignments ≡ some all) where
  assignment-dealt_to :
      (id : Bytes)
      → has id ms ≡ true
      → assignment group id c
        ≡ dealt_to (length (sort_ids (keys ms))) (index_of id (sort_ids (keys ms))) all
  unfolding assignment
  assignment-dealt_to id e = ground arith

  assignments-dealt_to :
      (ids : List Bytes)
      → ((id : Bytes) → Mem id ids → has id ms ≡ true)
      → map (λ id. assignment group id c) ids
        ≡ map
            (λ id. dealt_to (length (sort_ids (keys ms))) (index_of id (sort_ids (keys ms))) all)
            ids
  assignments-dealt_to [] v = refl
  assignments-dealt_to (id ∷ ids) v =
      ap₂ ◌∷◌ (assignment-dealt_to id (v id mem-cons_self))
        (assignments-dealt_to ids (λ j m. v j (mem-cons_of_mem id m)))

  -- The assignments of the members of a group, put together, are the planned partitions of the
  -- group, each as often as it is planned: no partition is left out, and none has two readers.
  pub assignment-perm :
      Nodup (keys ms)
      → 1 ≤ length (keys ms)
      → Perm (flatten (map (λ id. assignment group id c) (sort_ids (keys ms)))) all
  assignment-perm v h =
      let p = sort_ids-perm (keys ms) in
      let member =
        λ (id : Bytes) (m : Mem id (sort_ids (keys ms))). has-key id ms ((Perm.mem_iff p).0 m) in
      rw (assignments-dealt_to (sort_ids (keys ms)) member) (
        deal-perm (sort_ids (keys ms)) all (Perm.nodup (Perm.symm p) v)
          (omega (arith, length-sort_ids (keys ms))))

  -- `Sync` reports to a member what `Assignment` returns for it, and fails for anyone else.
  pub sync-assignment :
      (id : Bytes) → sync group id c ≡ (if has id ms then some (assignment group id c) else none)
  unfolding sync assignment
  sync-assignment id = elim (Bool-cases (has id ms)) [
    | inl member ↦
        let p = sort_ids-perm (keys ms) in
        ground
          (arith, index_of-mem id (sort_ids (keys ms)) ((Perm.mem_iff p).1 (key-has id ms member)))
    | inr other ↦ ground arith
  ]
