-- ===== src/Core/Queues/Table.antt =====
-- The table of topics through its operations.
use mathlib.Core.List.{Perm}
use mathlib.Core.List.Perm
use mq_project.Prelude.{
  ℕ, ◌≤◌, ◌≡◌, ◌≢◌, ◌⊎◌, inl, inr, refl, true, false, none, some, ◌↔◌, List, [], ◌∷◌, if◌then◌else◌,
  arith, Bool-cases, Option-cases,
}
use mq_project.Bytes.{Bytes, All}
use mq_project.Bytes.Equality.{bytes_eq, bytes_eq_iff, bytes_lt, bytes_lt_asymm}
use mq_project.Dict.{find, has, insert, values}
use mq_project.Dict.Laws.{find-insert, find-erase, Each, insert-Each, erase-Each}
use mq_project.Core.Topic.{is_valid_topic_name}
use mq_project.Core.Queues.{
  TopicMetadata, Topics, is_valid_metadata, create_topic, delete_topic, collect_topics,
  replace_topics, max_partitions, place, sort_by_name, list_topics,
}

-- Every topic in the table has a legal name and between 1 and 1024 partitions.
pub record IsLegal (t : TopicMetadata) : Type 0 where
  pub named : is_valid_topic_name t.name ≡ true
  pub some_partitions : 1 ≤ t.partition_count
  pub few_partitions : t.partition_count ≤ max_partitions

abbrev pub AllLegal : Topics → Type 0
AllLegal = Each IsLegal

is_valid_metadata-IsLegal : (t : TopicMetadata) → is_valid_metadata t ≡ true → IsLegal t
unfolding is_valid_metadata
is_valid_metadata-IsLegal t h = ground arith

pub create_topic-AllLegal :
    (name : Bytes) (n : ℕ) (topics : Topics)
    → AllLegal topics
    → AllLegal (create_topic name n topics).1
unfolding create_topic
create_topic-AllLegal name n topics v =
    let t : TopicMetadata = record { name = name; partition_count = n } in
    elim (Bool-cases (is_valid_metadata t)) [
      | inl good ↦
          let after = insert-Each IsLegal name t topics (is_valid_metadata-IsLegal t good) v in
          ground arith
      | inr bad ↦ ground arith
    ]

pub delete_topic-AllLegal :
    (name : Bytes) (topics : Topics) → AllLegal topics → AllLegal (delete_topic name topics).1
unfolding delete_topic
delete_topic-AllLegal name topics v = let after = erase-Each IsLegal name topics v in ground arith

collect_topics-AllLegal :
    (ts : List TopicMetadata) (before after : Topics)
    → AllLegal before
    → collect_topics before ts ≡ some after
    → AllLegal after
unfolding collect_topics
collect_topics-AllLegal [] before after v e = ground arith
collect_topics-AllLegal (t ∷ ts) before after v e = elim (Bool-cases (is_valid_metadata t)) [
  | inl good ↦
      collect_topics-AllLegal ts (insert t.name t before) after
        (insert-Each IsLegal t.name t before (is_valid_metadata-IsLegal t good) v) (ground arith)
  | inr bad ↦ ground arith
]

-- `ReplaceTopics` leaves a table in which every topic has a legal name and between 1 and 1024
-- partitions, if it finds one; when it fails that is the table as it was.
pub replace_topics-AllLegal :
    (ts : List TopicMetadata) (topics : Topics)
    → AllLegal topics
    → AllLegal (replace_topics ts topics).1
unfolding replace_topics
replace_topics-AllLegal ts topics v = elim (Option-cases (collect_topics [] ts)) [
  | inl e ↦ rw (e, replace_topics) v
  | inr (after, e) ↦ rw (e, replace_topics) (collect_topics-AllLegal ts [] after tt e)
]

is_valid_metadata_of : (t : TopicMetadata) → IsLegal t → is_valid_metadata t ≡ true
unfolding is_valid_metadata
is_valid_metadata_of t v = ground arith

-- `CreateTopic` accepts a legal topic whose name is free, which is then found under its name, with
-- every other name as before; it refuses any other, and then the table stays as it was.
pub create_topic_lem :
    (name : Bytes) (n : ℕ) (topics : Topics)
    → let t : TopicMetadata = record { name = name; partition_count = n } in
      let (error, after) = create_topic name n topics in
      ((error ≡ none)
        × IsLegal t
        × (find name topics ≡ none)
        × ((j : Bytes) → find j after ≡ (if bytes_eq name j then some t else find j topics)))
      ⊎ ((error ≢ none) × (IsLegal t → find name topics ≢ none) × (after ≡ topics))
unfolding create_topic has
create_topic_lem name n topics =
    let t : TopicMetadata = record { name = name; partition_count = n } in
    elim (Bool-cases (is_valid_metadata t)) [
      | inr bad ↦ rw bad (inr (λ e. cc, λ v. cc (is_valid_metadata_of t v), refl))
      | inl good ↦ elim (Option-cases (find name topics)) [
        | inl free ↦ rw good (
            rw (free, has)
              (inl
                (refl, is_valid_metadata-IsLegal t good, refl, λ j. find-insert name j t topics)))
        | inr (u, taken) ↦ rw good (rw (taken, has) (inr (λ e. cc, λ v e. cc, refl)))
      ]
    ]

-- `DeleteTopic` removes the topic of that name, and no other, if there is one, and fails otherwise.
pub delete_topic_lem :
    (name j : Bytes) (topics : Topics)
    → let (error, after) = delete_topic name topics in
      (find j after ≡ (if bytes_eq name j then none else find j topics))
      × ((error ≡ none) ↔ (find name topics ≢ none))
unfolding delete_topic has
delete_topic_lem name j topics = ground (arith, find-erase name j topics, bytes_eq_iff name j)

-- The listing.
abbrev pub IsSorted : List TopicMetadata → Type 0
IsSorted [] = Unit
IsSorted (t ∷ []) = Unit
IsSorted (t ∷ u ∷ us) = (bytes_lt u.name t.name ≡ false) × IsSorted (u ∷ us)

place-IsSorted : (t : TopicMetadata) (us : List TopicMetadata) → IsSorted us → IsSorted (place t us)
unfolding place
place-IsSorted t [] v = tt
place-IsSorted t (u ∷ []) v = ground (arith, bytes_lt_asymm u.name t.name)
place-IsSorted t (u ∷ w ∷ us) v = ground (
  arith,
  bytes_lt_asymm u.name t.name,
  bytes_lt_asymm w.name t.name,
  place-IsSorted t (w ∷ us) v.1,
)

sort_by_name-IsSorted : (ts : List TopicMetadata) → IsSorted (sort_by_name ts)
unfolding sort_by_name
sort_by_name-IsSorted [] = tt
sort_by_name-IsSorted (t ∷ ts) = place-IsSorted t (sort_by_name ts) (sort_by_name-IsSorted ts)

place-perm : (t : TopicMetadata) (us : List TopicMetadata) → Perm (place t us) (t ∷ us)
unfolding place
place-perm t [] = Perm.refl _
place-perm t (u ∷ us) = elim (Bool-cases (bytes_lt u.name t.name)) [
  | inl before ↦ rw before (Perm.trans (Perm.cons u (place-perm t us)) (Perm.swap t u us))
  | inr after ↦ rw after (Perm.refl _)
]

sort_by_name-perm : (ts : List TopicMetadata) → Perm (sort_by_name ts) ts
unfolding sort_by_name
sort_by_name-perm [] = Perm.refl _
sort_by_name-perm (t ∷ ts) =
    Perm.trans (place-perm t (sort_by_name ts)) (Perm.cons t (sort_by_name-perm ts))

-- `ListTopics` lists exactly the topics of the table, in the order of their names.
pub list_topics_lem :
    (topics : Topics) → IsSorted (list_topics topics) × Perm (list_topics topics) (values topics)
unfolding list_topics
list_topics_lem topics = (sort_by_name-IsSorted (values topics), sort_by_name-perm (values topics))

place-IsLegal :
    (t : TopicMetadata) (ts : List TopicMetadata)
    → IsLegal t
    → All IsLegal ts
    → All IsLegal (place t ts)
unfolding place
place-IsLegal t [] v w = (v, tt)
place-IsLegal t (u ∷ us) v (w, ws) = elim (Bool-cases (bytes_lt u.name t.name)) [
  | inl after ↦ rw after (w, place-IsLegal t us v ws)
  | inr before ↦ rw before (v, (w, ws))
]

pub list_topics-IsLegal : (topics : Topics) → AllLegal topics → All IsLegal (list_topics topics)
unfolding list_topics sort_by_name
list_topics-IsLegal [] v = tt
list_topics-IsLegal ((k, t) ∷ topics) (v, vs) =
    place-IsLegal t (sort_by_name (values topics)) v (list_topics-IsLegal topics vs)
