-- ===== src/Server/Broker/TopicAdmin/Creation.antt =====
-- A topic is created in memory and on the disk, or in neither.
use mq_project.Prelude.{
  ℕ, ◌≡◌, ◌≢◌, ◌⊎◌, inl, inr, refl, ap, arith, Bool, true, false, ◌||◌, none, some, List, [], ◌∷◌,
  length, ltb, ◌==◌, if◌then◌else◌, Bool-cases, Option-cases, ltb→le,
}
use mq_project.Bytes.{Bytes, All}
use mq_project.Bytes.Laws.{get32_within}
use mq_project.Bytes.Equality.{bytes_eq, bytes_eq_refl}
use mq_project.Dict.{Dict, find, has, insert, erase}
use mq_project.Dict.Laws.{find-insert_self}
use mq_project.Protocol.Status
use mq_project.Protocol.Codec.{Request}
use mq_project.Core.Queues.{
  Error, invalid_topic_metadata, topic_exists, unknown_topic, partition_out_of_range, TopicMetadata,
  Topics, is_valid_metadata, create_topic, delete_topic, list_topics,
}
use mq_project.Core.Stores
use mq_project.Core.Stores.{Disk, max_topics, are_stored, save_topics, load_topics}
use mq_project.Core.Stores.Metadata.{load-save_topics, IsStored}
use mq_project.Core.Queues.Table.{IsLegal, AllLegal, create_topic-AllLegal, list_topics-IsLegal}
use mq_project.Core.Topic.{is_valid_topic_name}
use mq_project.Server.Broker.{Broker}
use mq_project.Server.Broker.Reply.{Reply, reply}
use mq_project.Server.Broker.TopicAdmin.{
  creation_status, parse_count, save_new, create, handle_create_topic,
}

erase-insert :
    {V : Type 0} (k : Bytes) (v : V) (m : Dict V) → find k m ≡ none → erase k (insert k v m) ≡ m
unfolding find erase insert
erase-insert k v [] h = rw (bytes_eq_refl k) refl
erase-insert k v ((j, w) ∷ m) h = elim (Bool-cases (bytes_eq j k)) [
  | inl here ↦ absurd (ground (arith, h, here))
  | inr there ↦
      rw there (rw there (ap (◌∷◌ (j, w)) (erase-insert k v m (ground (arith, h, there)))))
]

-- The topics are as they were.
rolled_back :
    (topic : Bytes) (count : ℕ) (topics : Topics)
    → (create_topic topic count topics).0 ≡ none
    → (delete_topic topic (create_topic topic count topics).1).1 ≡ topics
unfolding create_topic delete_topic has
rolled_back topic count topics h =
    let t : TopicMetadata = record { name = topic; partition_count = count } in
    elim (Bool-cases (is_valid_metadata t)) [
      | inr bad ↦ absurd (ground (arith, h, bad))
      | inl good ↦ elim (Option-cases (find topic topics)) [
        | inr (u, found) ↦ absurd (ground (arith, h, good, found))
        | inl free ↦ rw good (
            rw (free, has)
              (rw (find-insert_self topic t topics, has) (erase-insert topic t topics free)))
      ]
    ]

no_third : (a b c d : Bool) → (if a || b || c then false else d) ≡ true → b ≡ false
no_third true b c d h = absurd (ground (arith, h))
no_third false true c d h = absurd (ground (arith, h))
no_third false false c d h = refl

IsLegal-IsStored : (t : TopicMetadata) → IsLegal t → IsStored t
unfolding is_valid_topic_name
IsLegal-IsStored t v = record {
  named = v.named;
  some_partitions = v.some_partitions;
  partitions_fit = omega (arith, v.few_partitions);
  name_fits = omega (arith, ltb→le 64 (length t.name) (no_third _ _ _ _ v.named));
}

All-IsStored : (ts : List TopicMetadata) → All IsLegal ts → All IsStored ts
All-IsStored [] v = tt
All-IsStored (t ∷ ts) (v, vs) = (IsLegal-IsStored t v, All-IsStored ts vs)

-- A save that fails leaves the file.
saved_keeps :
    (works : Bool) (ts : List TopicMetadata) (disk : Disk) (e : Stores.Error)
    → (save_topics works ts disk).0 ≡ some e
    → (save_topics works ts disk).1 ≡ disk
unfolding save_topics
saved_keeps works ts disk e h = ground (
  arith,
  h,
  Bool-cases (ltb max_topics (length ts)),
  Bool-cases (are_stored ts),
  Bool-cases works,
)

-- What was saved is loaded.
saved_loads :
    (works : Bool) (ts : List TopicMetadata) (disk : Disk)
    → All IsStored ts
    → (save_topics works ts disk).0 ≡ none
    → load_topics (save_topics works ts disk).1 ≡ (none, ts)
unfolding save_topics
saved_loads works ts disk v h = elim (Bool-cases (ltb max_topics (length ts))) [
  | inl many ↦ absurd (ground (arith, h, many))
  | inr few ↦ elim (Bool-cases works) [
    | inr fails ↦ absurd (ground (arith, h, few, fails, Bool-cases (are_stored ts)))
    | inl fine ↦ rw fine (load-save_topics ts disk (ltb→le max_topics (length ts) few) v).1
  ]
]

-- How a request ends: with the topics in memory on the disk, or with those in memory as before.
abbrev pub Ends : Broker → Reply × Broker → Type 0
Ends b x =
    ((x.0 ≡ reply Status.ok []) × (load_topics x.1.metadata_file ≡ (none, list_topics x.1.queues)))
    ⊎ ((x.0 ≢ reply Status.ok []) × (x.1.queues ≡ b.queues) × (x.1.metadata_file ≡ b.metadata_file))

other_status : (s : ℕ) → s ≢ Status.ok → reply s [] ≢ reply Status.ok []
other_status s h e = h (ground (arith, e))

not_ok : (e : Error) → creation_status e ≢ Status.ok
not_ok invalid_topic_metadata = ground arith
not_ok topic_exists = ground arith
not_ok unknown_topic = ground arith
not_ok partition_out_of_range = ground arith

create-Ends :
    (works : Bool) (topic : Bytes) (b : Broker) (count : ℕ)
    → AllLegal b.queues
    → Ends b (create works topic b count)
unfolding create save_new
create-Ends works topic b count v =
    let made = (create_topic topic count b.queues).1 in
    let saved = save_topics works (list_topics made) b.metadata_file in
    elim (Option-cases (create_topic topic count b.queues).0) [
      | inr (e, refused) ↦
          rw (refused, create) (inr (other_status (creation_status e) (not_ok e), refl, refl))
      | inl free ↦ elim (Option-cases saved.0) [
        | inl good ↦
            rw (free, create)
              (rw (good, save_new)
                (inl (
                  refl,
                  saved_loads works (list_topics made) b.metadata_file
                      (All-IsStored (list_topics made)
                        (list_topics-IsLegal made (create_topic-AllLegal topic count b.queues v)))
                      good,
                )))
        | inr (e, bad) ↦
            rw (free, create)
              (rw (bad, save_new)
                (inr (
                  other_status Status.storage_error (ground arith),
                  rolled_back topic count b.queues free,
                  saved_keeps works (list_topics made) b.metadata_file e bad,
                )))
      ]
    ]

-- Where all topics are legal, a request to create one is granted, and then the file of topics, read again, has just the topics in
-- memory; or it is refused, and then the topics in memory are as before.
pub handle_create_topic-load_topics :
    (works : Bool) (r : Request) (b : Broker)
    → AllLegal b.queues
    → Ends b (handle_create_topic works r b)
unfolding handle_create_topic parse_count
handle_create_topic-load_topics works r b v = elim (Bool-cases (length r.payload == 4)) [
  | inr other ↦ rw other (inr (other_status Status.bad_request (ground arith), refl, refl))
  | inl four ↦
      let (count, read) = get32_within r.payload 0 (ground (arith, four)) in
      rw four (rw read (create-Ends works r.topic b count v))
]
