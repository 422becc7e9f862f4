-- ===== src/Core/Groups/Shares.antt =====
-- Dealing a list out by strides: the hands together are the list.
use mathlib.Core.List.{Perm, perm_append_comm}
use mathlib.Core.List.Perm
use mq_project.Prelude.{
  ℕ, zero, suc, ◌+◌, ◌-◌, ◌≤◌, ◌<◌, ◌≡◌, ◌⊎◌, inl, inr, refl, sym, ap, ◌∙◌, none, some, List, [],
  ◌∷◌, ◌++◌, length, get_elem?, drop, arith, append-nil, append_assoc, drop_all,
}
use mq_project.Core.Groups.{GroupAssignment, stride, deal}

-- Skip `c` entries, take one, and go on with every `n`-th.
abbrev pub every : ℕ → ℕ → List GroupAssignment → List GroupAssignment
every c n [] = []
every zero n (x ∷ xs) = x ∷ every (n - 1) n xs
every (suc c) n (x ∷ xs) = every c n xs

every-drop : (c n : ℕ) (xs : List GroupAssignment) → every c n xs ≡ every 0 n (drop c xs)
every-drop zero n xs = refl
every-drop (suc c) n [] = refl
every-drop (suc c) n (x ∷ xs) = every-drop c n xs

drop-cases :
    (i : ℕ) (xs : List GroupAssignment)
    → ((get_elem? xs i ≡ none) × (drop i xs ≡ []))
      ⊎ ((a : GroupAssignment) × (rest : List GroupAssignment) × (get_elem? xs i ≡ some a)
          × (drop i xs ≡ a ∷ rest)
          × (i < length xs)
          × ((c : ℕ) → drop c rest ≡ drop (suc i + c) xs))
drop-cases zero [] = inl (refl, refl)
drop-cases (suc i) [] = inl (refl, refl)
drop-cases zero (x ∷ xs) = inr (
  x,
  xs,
  refl,
  refl,
  omega arith,
  λ c. ap (λ k. drop k (x ∷ xs)) {x = suc c} {y = 1 + c} (omega arith),
)
drop-cases (suc i) (x ∷ xs) = elim (drop-cases i xs) [
  | inl (e, d) ↦ inl (e, d)
  | inr (a, rest, e, d, l, m) ↦ inr (
    a,
    rest,
    e,
    d,
    omega arith,
    λ c. m c ∙ ap (λ k. drop k (x ∷ xs)) {x = suc (suc i + c)} {y = suc (suc i) + c} (omega arith),
  )
]

stride-every :
    (fuel index n : ℕ) (all : List GroupAssignment)
    → 1 ≤ n
    → length all ≤ fuel + index
    → stride fuel index n all ≡ every 0 n (drop index all)
unfolding stride
stride-every zero index n all h k = rw (drop_all index all (omega arith))
stride-every (suc fuel) index n all h k = elim (drop-cases index all) [
  | inl (e, d) ↦ rw (e, d, stride)
  | inr (a, rest, e, d, l, m) ↦
      rw (e, d, stride)
        (ap (◌∷◌ a) (
          stride-every fuel (index + n) n all h (omega arith)
          ∙ ap (every 0 n) (
              ap (λ k. drop k all) {x = index + n} {y = suc index + (n - 1)} (omega arith)
              ∙ sym (m (n - 1)))
          ∙ sym (every-drop (n - 1) n rest)))
]

pub deal-every :
    (n index : ℕ) (all : List GroupAssignment) → 1 ≤ n → deal n index all ≡ every index n all
unfolding deal
deal-every n index all h =
    stride-every (length all) index n all h (omega arith) ∙ sym (every-drop index n all)

-- The hands of `m` players from number `k` on.
abbrev pub hands : ℕ → ℕ → ℕ → List GroupAssignment → List GroupAssignment
hands k zero n xs = []
hands k (suc m) n xs = every k n xs ++ hands (suc k) m n xs

hands-nil : (k m n : ℕ) → hands k m n [] ≡ []
hands-nil k zero n = refl
hands-nil k (suc m) n = hands-nil (suc k) m n

hands-cons :
    (k m n : ℕ) (x : GroupAssignment) (xs : List GroupAssignment)
    → hands (suc k) m n (x ∷ xs) ≡ hands k m n xs
hands-cons k zero n x xs = refl
hands-cons k (suc m) n x xs = ap (◌++◌ (every k n xs)) (hands-cons (suc k) m n x xs)

hands-snoc :
    (k m n : ℕ) (xs : List GroupAssignment)
    → hands k (suc m) n xs ≡ hands k m n xs ++ every (k + m) n xs
hands-snoc k zero n xs =
    append-nil (every k n xs) ∙ ap (λ c. every c n xs) {x = k} {y = k + 0} (omega arith)
hands-snoc k (suc m) n xs =
    ap (◌++◌ (every k n xs)) (
      hands-snoc (suc k) m n xs
      ∙ ap (λ c. hands (suc k) m n xs ++ every c n xs) {x = suc k + m} {y = k + suc m}
          (omega arith))
    ∙ sym (append_assoc (every k n xs) (hands (suc k) m n xs) (every (k + suc m) n xs))

-- Among `n` players every entry is dealt once.
pub hands-perm : (m : ℕ) (xs : List GroupAssignment) → Perm (hands 0 (suc m) (suc m) xs) xs
hands-perm m [] = rw (hands-nil 1 m (suc m)) Perm.nil
hands-perm m (x ∷ xs) =
    let top : suc m - 1 ≡ m = omega arith in
    let whole : hands 0 (suc m) (suc m) xs ≡ hands 0 m (suc m) xs ++ every m (suc m) xs =
      hands-snoc 0 m (suc m) xs
      ∙ ap (λ c. hands 0 m (suc m) xs ++ every c (suc m) xs) {x = 0 + m} {y = m} (omega arith) in
    Perm.cons x (
      rw (top, hands-cons 0 m (suc m) x xs)
        (Perm.trans (perm_append_comm (every m (suc m) xs) (hands 0 m (suc m) xs))
          (rw (← whole) (hands-perm m xs))))
