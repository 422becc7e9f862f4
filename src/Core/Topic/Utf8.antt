-- ===== src/Core/Topic/Utf8.antt =====
-- `is_valid_utf8` against the encoding of Unicode scalar values.
use mq_project.Prelude.{
  ℕ, zero, suc, ◌+◌, ◌-◌, ◌*◌, ◌/◌, ◌%◌, ◌≤◌, ◌<◌, ◌≡◌, ◌⊎◌, inl, inr, refl, ap, sym, ◌∙◌, Bool,
  true, false, not, ◌&&◌, List, [], ◌∷◌, ◌++◌, drop, ltb, leb, if◌then◌else◌, arith, Bool-cases,
  ltb→lt, ltb→le,
}
use mq_project.Bytes.{Byte, Bytes, All, IsByte}
use mq_project.Core.Topic.{is_continuation, sequence_length, sequence_ok, bad_second, utf8_loop}

-- A Unicode scalar value: a code point that is no surrogate.
abbrev pub IsScalar : ℕ → Type 0
IsScalar c = (c < 0x110000) × ((c < 0xD800) ⊎ (0xE000 ≤ c))

-- Its UTF-8 encoding.
abbrev pub encode : ℕ → Bytes
encode c =
    if ltb c 0x80
    then c ∷ []
    else (if ltb c 0x800
        then (0xC0 + c / 64) ∷ (0x80 + c % 64) ∷ []
        else (if ltb c 0x10000
            then (0xE0 + c / 4096) ∷ (0x80 + c / 64 % 64) ∷ (0x80 + c % 64) ∷ []
            else (0xF0 + c / 262144)
              ∷ (0x80 + c / 4096 % 64)
              ∷ (0x80 + c / 64 % 64)
              ∷ (0x80 + c % 64)
              ∷ []))

abbrev pub encode_all : List ℕ → Bytes
encode_all [] = []
encode_all (c ∷ cs) = encode c ++ encode_all cs

-- The mask test and the range agree at a byte.
agrees : Byte → Bool
agrees b = if is_continuation b then leb 0x80 b && ltb b 0xC0 else not (leb 0x80 b && ltb b 0xC0)

-- They agree at every byte less than `limit`.
agree_until : ℕ → Bool
agree_until zero = true
agree_until (suc b) = if agrees b then agree_until b else false

agree_at : (limit : ℕ) → agree_until limit ≡ true → (b : ℕ) → b < limit → agrees b ≡ true
unfolding agree_until
agree_at zero every b h = absurd (omega arith)
agree_at (suc limit) every b h =
    let below = λ (e : agree_until limit ≡ true). agree_at limit e b in ground (arith, below)

agree_bytes : agree_until 256 ≡ true
unfolding agree_until agrees is_continuation
agree_bytes = refl

pub is_continuation-range : (b : ℕ) → b < 256 → is_continuation b ≡ (leb 0x80 b && ltb b 0xC0)
unfolding agrees
is_continuation-range b h = let e = agree_at 256 agree_bytes b h in ground (arith, e)

abbrev code2 : ℕ → ℕ → ℕ
code2 a b = (a - 0xC0) * 64 + (b - 0x80)

abbrev code3 : ℕ → ℕ → ℕ → ℕ
code3 a b c = (a - 0xE0) * 4096 + (b - 0x80) * 64 + (c - 0x80)

abbrev code4 : ℕ → ℕ → ℕ → ℕ → ℕ
code4 a b c d = (a - 0xF0) * 262144 + (b - 0x80) * 4096 + (c - 0x80) * 64 + (d - 0x80)

abbrev pub Cont : ℕ → Type 0
Cont b = (0x80 ≤ b) × (b < 0xC0)

abbrev Spells : Bytes → ℕ → Type 0
Spells bytes c = IsScalar c × (encode c ≡ bytes)

spells2 : (a b : ℕ) → 0xC2 ≤ a → a ≤ 0xDF → Cont b → Spells (a ∷ b ∷ []) (code2 a b)
spells2 a b h k v = ((omega arith, inl (omega arith)), ground arith)

spells3 :
    (a b c : ℕ)
    → 0xE0 ≤ a
    → a ≤ 0xEF
    → Cont b
    → Cont c
    → bad_second a b ≡ false
    → Spells (a ∷ b ∷ c ∷ []) (code3 a b c)
spells3 a b c h k v w g = ((omega arith, ground arith), ground arith)

spells4 :
    (a b c d : ℕ)
    → 0xF0 ≤ a
    → a ≤ 0xF4
    → Cont b
    → Cont c
    → Cont d
    → bad_second a b ≡ false
    → Spells (a ∷ b ∷ c ∷ d ∷ []) (code4 a b c d)
spells4 a b c d h k v w x g = ((ground arith, ground arith), ground arith)

-- One character off the front.
abbrev Cut : ℕ → Bytes → Type 0
Cut fuel bytes =
    (c : ℕ) × (left : Bytes) × IsScalar c
    × (encode c ++ left ≡ bytes)
    × All IsByte left
    × (utf8_loop fuel left ≡ true)

cut_one :
    (fuel : ℕ) (head left : Bytes) (c : ℕ)
    → Spells head c
    → All IsByte left
    → utf8_loop fuel left ≡ true
    → Cut fuel (head ++ left)
cut_one fuel head left c (s, e) v l = (c, left, s, ap (λ h. h ++ left) e, v, l)

-- The four kinds of first byte, and the others.
pub first_byte :
    (first : Byte)
    → ((0xC2 ≤ first) × (first ≤ 0xDF) × (sequence_length first ≡ 2))
      ⊎ ((0xE0 ≤ first) × (first ≤ 0xEF) × (sequence_length first ≡ 3))
      ⊎ ((0xF0 ≤ first) × (first ≤ 0xF4) × (sequence_length first ≡ 4))
      ⊎ ((sequence_length first ≡ 0) × ((first < 0xC2) ⊎ (0xF4 < first)))
unfolding sequence_length
first_byte first = ground arith

pub round_ascii :
    (fuel : ℕ) (first : Byte) (rest : Bytes)
    → first < 0x80
    → utf8_loop (suc fuel) (first ∷ rest) ≡ utf8_loop fuel rest
unfolding utf8_loop
round_ascii fuel first rest h = ground arith

module _ (fuel : ℕ) (first : Byte) (rest : Bytes) (n : ℕ) where
  round_accepts :
      0x80 ≤ first
      → sequence_length first ≡ n
      → utf8_loop (suc fuel) (first ∷ rest) ≡ true
      → (sequence_ok first n rest ≡ true) × (utf8_loop fuel (drop (n - 1) rest) ≡ true)
  unfolding utf8_loop
  round_accepts h q e = ground arith

  pub round_long :
      0x80 ≤ first
      → sequence_length first ≡ n
      → sequence_ok first n rest ≡ true
      → utf8_loop (suc fuel) (first ∷ rest) ≡ utf8_loop fuel (drop (n - 1) rest)
  unfolding utf8_loop
  round_long h q e = ground arith

module _ (fuel : ℕ) (first : Byte) where
  cut2 :
      (rest : Bytes)
      → 0xC2 ≤ first
      → first ≤ 0xDF
      → All IsByte rest
      → sequence_ok first 2 rest ≡ true
      → utf8_loop fuel (drop 1 rest) ≡ true
      → Cut fuel (first ∷ rest)
  unfolding sequence_ok
  cut2 [] h k v e l = ground arith
  cut2 (b ∷ left) h k v e l =
      let fact : Cont b = ground (arith, is_continuation-range b v.0) in
      cut_one fuel (first ∷ b ∷ []) left (code2 first b) (spells2 first b h k fact) v.1 l

  cut3 :
      (rest : Bytes)
      → 0xE0 ≤ first
      → first ≤ 0xEF
      → All IsByte rest
      → sequence_ok first 3 rest ≡ true
      → utf8_loop fuel (drop 2 rest) ≡ true
      → Cut fuel (first ∷ rest)
  unfolding sequence_ok
  cut3 [] h k v e l = ground arith
  cut3 (b ∷ []) h k v e l = ground arith
  cut3 (b ∷ c ∷ left) h k v e l =
      let fact : Cont b × Cont c × (bad_second first b ≡ false) =
        ground (arith, is_continuation-range b v.0, is_continuation-range c v.1.0) in
      cut_one fuel (first ∷ b ∷ c ∷ []) left (code3 first b c)
        (spells3 first b c h k fact.0 fact.1 fact.2) v.1.1 l

  cut4 :
      (rest : Bytes)
      → 0xF0 ≤ first
      → first ≤ 0xF4
      → All IsByte rest
      → sequence_ok first 4 rest ≡ true
      → utf8_loop fuel (drop 3 rest) ≡ true
      → Cut fuel (first ∷ rest)
  unfolding sequence_ok
  cut4 [] h k v e l = ground arith
  cut4 (b ∷ []) h k v e l = ground arith
  cut4 (b ∷ c ∷ []) h k v e l = ground arith
  cut4 (b ∷ c ∷ d ∷ left) h k v e l =
      let fact : Cont b × Cont c × Cont d × (bad_second first b ≡ false) = ground (
        arith,
        is_continuation-range b v.0,
        is_continuation-range c v.1.0,
        is_continuation-range d v.1.1.0,
      ) in
      cut_one fuel (first ∷ b ∷ c ∷ d ∷ []) left (code4 first b c d)
        (spells4 first b c d h k fact.0 fact.1 fact.2 fact.3) v.1.1.1 l

  cut :
      (rest : Bytes)
      → All IsByte rest
      → utf8_loop (suc fuel) (first ∷ rest) ≡ true
      → Cut fuel (first ∷ rest)
  unfolding sequence_ok
  cut rest v e = elim (Bool-cases (ltb first 0x80)) [
    | inl ascii ↦
        let a : first < 0x80 = ltb→lt first 0x80 ascii in
        cut_one fuel (first ∷ []) rest first ((omega arith, inl (omega arith)), ground arith) v
          (sym (round_ascii fuel first rest a) ∙ e)
    | inr long ↦
        let a : 0x80 ≤ first = ltb→le first 0x80 long in
        elim (first_byte first) [
          | inl (h, k, q) ↦
              let both = round_accepts fuel first rest 2 a q e in cut2 rest h k v both.0 both.1
          | inr (inl (h, k, q)) ↦
              let both = round_accepts fuel first rest 3 a q e in cut3 rest h k v both.0 both.1
          | inr (inr (inl (h, k, q))) ↦
              let both = round_accepts fuel first rest 4 a q e in cut4 rest h k v both.0 both.1
          | inr (inr (inr (q, _))) ↦
              let r : false ≡ true = (round_accepts fuel first rest 0 a q e).0 in cc
        ]
  ]

pub utf8_loop_sound :
    (fuel : ℕ) (bytes : Bytes)
    → All IsByte bytes
    → utf8_loop fuel bytes ≡ true
    → (cs : List ℕ) × All IsScalar cs × (bytes ≡ encode_all cs)
unfolding utf8_loop
utf8_loop_sound fuel [] v e = ([], tt, refl)
utf8_loop_sound zero (first ∷ rest) v e = cc
utf8_loop_sound (suc fuel) (first ∷ rest) v e =
    let (c, left, s, shape, v', e') = cut fuel first rest v.1 e in
    let (cs, w, t) = utf8_loop_sound fuel left v' e' in
    (c ∷ cs, (s, w), sym shape ∙ ap (◌++◌ (encode c)) t)
