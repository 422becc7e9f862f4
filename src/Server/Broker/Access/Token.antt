-- ===== src/Server/Broker/Access/Token.antt =====
-- `ConstantTimeEqual`, and how a token stands at the front of a payload.
use mq_project.Prelude.{
  ℕ, suc, ◌+◌, ◌*◌, ◌/◌, ◌%◌, ◌≡◌, ◌↔◌, inl, inr, refl, sym, ap, subst, ◌∙◌, arith, true, some, [],
  ◌∷◌, ◌++◌, length, take, drop, drop_all, take-append-drop, ◌==◌, ==_iff, Bool-cases, Option-cases,
  bit_or, bit_xor,
}
use mq_project.Bytes.{Bytes, IsByte, All, put16, get16}
use mq_project.Bytes.Bits.{bit_or_zero, bit_xor_zero, bit_xor_self}
use mq_project.Server.Broker.Access.{difference, constant_time_equal, has_token, without_token}

difference_zero :
    (so_far : ℕ) (left right : Bytes)
    → length left ≡ length right
    → difference so_far left right ≡ 0
    → (so_far ≡ 0) × (left ≡ right)
unfolding difference
difference_zero so_far [] [] e h = (h, refl)
difference_zero so_far [] (b ∷ right) e h = absurd (omega (arith, e))
difference_zero so_far (a ∷ left) [] e h = absurd (omega (arith, e))
difference_zero so_far (a ∷ left) (b ∷ right) e h =
    let (z, same) = difference_zero (bit_or so_far (bit_xor a b)) left right (omega (arith, e)) h in
    let (y, x) = bit_or_zero so_far (bit_xor a b) z in (y, ground (arith, same, bit_xor_zero a b x))

difference_same : (left : Bytes) → difference 0 left left ≡ 0
unfolding difference
difference_same [] = refl
difference_same (a ∷ left) = rw (bit_xor_self a) (difference_same left)

constant_time_equal_sound :
    (left right : Bytes) → constant_time_equal left right ≡ true → left ≡ right
unfolding constant_time_equal
constant_time_equal_sound left right h = elim (Bool-cases (length left == length right)) [
  | inl same ↦
      (difference_zero 0 left right ((==_iff (length left) (length right)).0 same)
        ((==_iff (difference 0 left right) 0).0 (ground (arith, same, h)))).1
  | inr other ↦ absurd (ground (arith, other, h))
]

pub constant_time_equal_refl : (left : Bytes) → constant_time_equal left left ≡ true
unfolding constant_time_equal
constant_time_equal_refl left =
    rw ((==_iff (length left) (length left)).1 refl) (rw (difference_same left) refl)

-- `ConstantTimeEqual` of two strings is true just when they are the same.
pub constant_time_equal_iff :
    (left right : Bytes) → (constant_time_equal left right ≡ true) ↔ (left ≡ right)
constant_time_equal_iff left right = (
  constant_time_equal_sound left right,
  λ e. subst (λ b. constant_time_equal left b ≡ true) e (constant_time_equal_refl left),
)

get16_split :
    (xs : Bytes) (v : ℕ) → All IsByte xs → get16 xs 0 ≡ some v → xs ≡ put16 [] v ++ drop 2 xs
unfolding get16
get16_split [] v b h = absurd (ground (arith, h))
get16_split (x ∷ []) v b h = absurd (ground (arith, h))
get16_split (x ∷ y ∷ xs) v (p, (q, b)) h =
    let e : v ≡ x * 256 + y = ground (arith, h) in
    let hi : x ≡ v / 256 % 256 = omega (arith, e, p, q) in
    let lo : y ≡ v % 256 = omega (arith, e, p, q) in cc (hi, lo)

drop-drop : (n : ℕ) (xs : Bytes) → drop n (drop 2 xs) ≡ drop (2 + n) xs
drop-drop n [] = drop_all n [] (omega arith) ∙ sym (drop_all (2 + n) [] (omega arith))
drop-drop n (x ∷ []) = drop_all n [] (omega arith) ∙ sym (drop_all (2 + n) (x ∷ []) (omega arith))
drop-drop n (x ∷ y ∷ xs) = ap (λ k. drop k (x ∷ y ∷ xs)) {x = suc (suc n)} {y = 2 + n} (omega arith)

pub has_token_sound :
    (payload token : Bytes)
    → All IsByte payload
    → has_token payload token ≡ some true
    → payload ≡ put16 [] (length token) ++ token ++ without_token payload token
unfolding has_token
has_token_sound payload token b h = elim (Option-cases (get16 payload 0)) [
  | inl none_there ↦ absurd (ground (arith, h, none_there))
  | inr (size, read) ↦
      let sized : size ≡ length token = (==_iff size (length token)).0 (ground (arith, h, read)) in
      let same =
        constant_time_equal_sound (take size (drop 2 payload)) token (ground (arith, h, read)) in
      get16_split payload size b read
      ∙ ap (λ n. put16 [] n ++ drop 2 payload) sized
      ∙ ap (λ xs. put16 [] (length token) ++ xs)
          (sym (take-append-drop size (drop 2 payload))
            ∙ ap (λ xs. xs ++ drop size (drop 2 payload)) same
            ∙ ap (λ xs. token ++ xs)
                (drop-drop size payload ∙ ap (λ n. drop (2 + n) payload) sized))
]
