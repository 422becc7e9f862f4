-- ===== src/Core/Topic/Encoding.antt =====
-- `is_valid_utf8` accepts exactly the encodings of texts.
use mq_project.Prelude.{
  ℕ, zero, suc, ◌+◌, ◌/◌, ◌%◌, ◌≤◌, ◌<◌, ◌≡◌, ◌⊎◌, ◌↔◌, inl, inr, refl, ◌∙◌, true, false, List, [],
  ◌∷◌, ◌++◌, length, ltb, arith, Bool-cases, length-append, ltb→lt, ltb→le,
}
use mq_project.Bytes.{Bytes, All, IsByte}
use mq_project.Core.Topic.{
  is_continuation, sequence_length, sequence_ok, utf8_loop, bad_second, is_valid_utf8,
}
use mq_project.Core.Topic.Utf8.{
  IsScalar, encode, encode_all, Cont, is_continuation-range, first_byte, round_ascii, round_long,
  utf8_loop_sound,
}

continues : (b : ℕ) → Cont b → is_continuation b ≡ true
continues b v = ground (arith, is_continuation-range b (omega arith))

module _ (a b : ℕ) (left : Bytes) (v : Cont b) where
  ok2 : 0xC2 ≤ a → a ≤ 0xDF → sequence_ok a 2 (b ∷ left) ≡ true
  unfolding sequence_ok
  ok2 h k = ground (arith, continues b v)

  ok3 : (c : ℕ) → Cont c → bad_second a b ≡ false → sequence_ok a 3 (b ∷ c ∷ left) ≡ true
  unfolding sequence_ok
  ok3 c w g = ground (arith, continues b v, continues c w)

  ok4 :
      (c d : ℕ)
      → Cont c
      → Cont d
      → bad_second a b ≡ false
      → sequence_ok a 4 (b ∷ c ∷ d ∷ left) ≡ true
  unfolding sequence_ok
  ok4 c d w x g = ground (arith, continues b v, continues c w, continues d x)

length2 : (a : ℕ) → 0xC2 ≤ a → a ≤ 0xDF → sequence_length a ≡ 2
length2 a h k = ground (arith, first_byte a)

length3 : (a : ℕ) → 0xE0 ≤ a → a ≤ 0xEF → sequence_length a ≡ 3
length3 a h k = ground (arith, first_byte a)

length4 : (a : ℕ) → 0xF0 ≤ a → a ≤ 0xF4 → sequence_length a ≡ 4
length4 a h k = ground (arith, first_byte a)

-- The loop accepts the encoding of a scalar value, and goes on behind it.
module _ (fuel c : ℕ) (left : Bytes) where
  goes_on2 : 0x80 ≤ c → c < 0x800 → utf8_loop (suc fuel) (encode c ++ left) ≡ utf8_loop fuel left
  goes_on2 h k =
      let a = 0xC0 + c / 64 in
      let b = 0x80 + c % 64 in
      let shape : encode c ≡ a ∷ b ∷ [] = ground arith in
      rw shape (
        round_long fuel a (b ∷ left) 2 (omega arith) (length2 a (omega arith) (omega arith))
          (ok2 a b left (omega arith) (omega arith) (omega arith)))

  goes_on3 :
      0x800 ≤ c
      → c < 0x10000
      → (c < 0xD800) ⊎ (0xE000 ≤ c)
      → utf8_loop (suc fuel) (encode c ++ left) ≡ utf8_loop fuel left
  goes_on3 h k s =
      let a = 0xE0 + c / 4096 in
      let b = 0x80 + c / 64 % 64 in
      let d = 0x80 + c % 64 in
      let shape : encode c ≡ a ∷ b ∷ d ∷ [] = ground arith in
      rw shape (
        round_long fuel a (b ∷ d ∷ left) 3 (omega arith) (length3 a (omega arith) (omega arith))
          (ok3 a b left (omega arith) d (omega arith) (ground arith)))

  goes_on4 :
      0x10000 ≤ c → c < 0x110000 → utf8_loop (suc fuel) (encode c ++ left) ≡ utf8_loop fuel left
  goes_on4 h k =
      let a = 0xF0 + c / 262144 in
      let b = 0x80 + c / 4096 % 64 in
      let d = 0x80 + c / 64 % 64 in
      let e = 0x80 + c % 64 in
      let shape : encode c ≡ a ∷ b ∷ d ∷ e ∷ [] = ground arith in
      rw shape (
        round_long fuel a (b ∷ d ∷ e ∷ left) 4 (omega arith) (length4 a (omega arith) (omega arith))
          (ok4 a b left (omega arith) d e (omega arith) (omega arith) (ground arith)))

  goes_on : IsScalar c → utf8_loop (suc fuel) (encode c ++ left) ≡ utf8_loop fuel left
  goes_on (h, s) = elim (Bool-cases (ltb c 0x80)) [
    | inl one ↦ rw one (round_ascii fuel c left (ltb→lt c 0x80 one))
    | inr more ↦ elim (Bool-cases (ltb c 0x800)) [
      | inl two ↦ goes_on2 (ltb→le c 0x80 more) (ltb→lt c 0x800 two)
      | inr over ↦ elim (Bool-cases (ltb c 0x10000)) [
        | inl three ↦ goes_on3 (ltb→le c 0x800 over) (ltb→lt c 0x10000 three) s
        | inr four ↦ goes_on4 (ltb→le c 0x10000 four) h
      ]
    ]
  ]

encode-ne-nil : (c : ℕ) → 1 ≤ length (encode c)
encode-ne-nil c = ground arith

utf8_loop-encode_all :
    (fuel : ℕ) (cs : List ℕ)
    → All IsScalar cs
    → length (encode_all cs) ≤ fuel
    → utf8_loop fuel (encode_all cs) ≡ true
unfolding utf8_loop
utf8_loop-encode_all fuel [] v h = refl
utf8_loop-encode_all zero (c ∷ cs) v h =
    absurd (omega (arith, encode-ne-nil c, length-append (encode c) (encode_all cs)))
utf8_loop-encode_all (suc fuel) (c ∷ cs) v h =
    goes_on fuel c (encode_all cs) v.0
    ∙ utf8_loop-encode_all fuel cs v.1
        (omega (arith, encode-ne-nil c, length-append (encode c) (encode_all cs)))

-- `IsValidUtf8` accepts the bytes that encode some sequence of Unicode scalar values, each in its
-- shortest form, and no others.
pub is_valid_utf8_iff :
    (value : Bytes)
    → All IsByte value
    → (is_valid_utf8 value ≡ true) ↔ ((cs : List ℕ) × All IsScalar cs × (value ≡ encode_all cs))
unfolding is_valid_utf8
is_valid_utf8_iff value v = (
  utf8_loop_sound (length value) value v,
  λ t. rw t.2 (utf8_loop-encode_all (length (encode_all t.0)) t.0 t.1 (omega arith)),
)
