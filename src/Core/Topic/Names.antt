-- ===== src/Core/Topic/Names.antt =====
-- What `IsValidTopicName` accepts.
use mq_project.Prelude.{
  ℕ, ◌≤◌, ◌≡◌, ◌≢◌, ◌↔◌, refl, Bool, true, false, List, [], ◌∷◌, length, arith, ltb, ◌==◌, ◌||◌,
  if◌then◌else◌,
}
use mq_project.Bytes.{Byte, Bytes, All, IsByte}
use mq_project.Core.Topic.{is_valid_topic_name, is_valid_utf8, is_forbidden, no_forbidden, is_dots}
use mq_project.Core.Topic.Utf8.{IsScalar, encode_all}
use mq_project.Core.Topic.Encoding.{is_valid_utf8_iff}

-- No control character, and none of `/ \ : * ? " < > |`.
pub record IsClean (b : Byte) : Type 0 where
  pub printed : 0x20 ≤ b
  pub no_slash : b ≢ 0x2F
  pub no_backslash : b ≢ 0x5C
  pub no_colon : b ≢ 0x3A
  pub no_star : b ≢ 0x2A
  pub no_question : b ≢ 0x3F
  pub no_quote : b ≢ 0x22
  pub no_less : b ≢ 0x3C
  pub no_greater : b ≢ 0x3E
  pub no_bar : b ≢ 0x7C

pub record IsTopicName (topic : Bytes) : Type 0 where
  pub some_bytes : 1 ≤ length topic
  pub few_bytes : length topic ≤ 64
  pub no_dot : topic ≢ 0x2E ∷ []
  pub no_dots : topic ≢ 0x2E ∷ 0x2E ∷ []
  pub clean : All IsClean topic
  pub text : (cs : List ℕ) × All IsScalar cs × (topic ≡ encode_all cs)

is_forbidden-IsClean : (b : Byte) → (is_forbidden b ≡ false) ↔ IsClean b
unfolding is_forbidden
is_forbidden-IsClean b = (λ h. ground (arith, h), λ v. ground (arith, v))

no_forbidden-IsClean : (topic : Bytes) → (no_forbidden topic ≡ true) ↔ All IsClean topic
unfolding no_forbidden
no_forbidden-IsClean [] = (λ h. tt, λ v. refl)
no_forbidden-IsClean (b ∷ bs) = ground (arith, is_forbidden-IsClean b, no_forbidden-IsClean bs)

is_dots_iff :
    (topic : Bytes) → (is_dots topic ≡ false) ↔ ((topic ≢ 0x2E ∷ []) × (topic ≢ 0x2E ∷ 0x2E ∷ []))
unfolding is_dots
is_dots_iff topic = (λ h. ground (arith, h), λ h. ground (arith, h))

-- The chain of tests, whatever they are of.
tests :
    (n : ℕ) (d f u : Bool)
    → ((if n == 0 || ltb 64 n || d then false else (if f then u else false)) ≡ true)
      ↔ ((1 ≤ n) × (n ≤ 64) × (d ≡ false) × (f ≡ true) × (u ≡ true))
tests n d f u = (λ h. ground (arith, h), λ h. ground (arith, h))

accepted :
    (topic : Bytes)
    → (is_valid_topic_name topic ≡ true) ↔ (
        (1 ≤ length topic)
        × (length topic ≤ 64)
        × (is_dots topic ≡ false)
        × (no_forbidden topic ≡ true)
        × (is_valid_utf8 topic ≡ true))
unfolding is_valid_topic_name
accepted topic = tests (length topic) (is_dots topic) (no_forbidden topic) (is_valid_utf8 topic)

-- `IsValidTopicName` accepts the names of 1 to 64 bytes, other than `.` and `..`, that hold neither
-- control characters nor any of the nine separators and encode a Unicode text, and no others.
pub is_valid_topic_name_iff :
    (topic : Bytes) → All IsByte topic → (is_valid_topic_name topic ≡ true) ↔ IsTopicName topic
is_valid_topic_name_iff topic v =
    let text = is_valid_utf8_iff topic v in
    let clean = no_forbidden-IsClean topic in
    let dots = is_dots_iff topic in
    let parts = accepted topic in
    (
      λ h.
          let (some, few, d, c, u) = parts.0 h in
          record {
            some_bytes = some;
            few_bytes = few;
            no_dot = (dots.0 d).0;
            no_dots = (dots.0 d).1;
            clean = clean.0 c;
            text = text.0 u;
          },
      λ n.
          parts.1 (
            n.some_bytes,
            n.few_bytes,
            dots.1 (n.no_dot, n.no_dots),
            clean.1 n.clean,
            text.1 n.text,
          ),
    )
