-- ===== src/Bytes/Laws.antt =====
-- Reading a big-endian integer gives back what was written.
use native.Mathlib.Nat.{
  add-zero, div-div-eq-div-mul, pow-suc, mod-eq_of_lt, div-le_self, div-one, div-eq_of_lt,
}
use native.Mathlib.Numerals.{add-one}
use mq_project.Prelude.{
  ℕ, zero, suc, ◌+◌, ◌*◌, ◌/◌, ◌%◌, ◌^◌, ◌≤◌, ◌<◌, ◌≡◌, refl, sym, ap, ◌∙◌, Option, none, some, [],
  ◌∷◌, ◌++◌, get_elem?, length, arith, drop, get_elem?-some, drop-append_left, get_elem?-append_le,
  get_elem?-append_at, ◌⊎◌, inl, inr,
}
use mq_project.Bytes.{
  Bytes, IsByte, All, be_bytes, put16, get_loop, get16, get32, get64, stream_loop, stream_get16,
  stream_get32, stream_get64, stream_read,
}

pub length-be_bytes : (k v : ℕ) → length (be_bytes k v) ≡ k
length-be_bytes zero v = refl
length-be_bytes (suc k) v = ap suc (length-be_bytes k v)

pub be_bytes-IsByte : (k v : ℕ) → All IsByte (be_bytes k v)
be_bytes-IsByte zero v = tt
be_bytes-IsByte (suc k) v = (omega arith, be_bytes-IsByte k v)

-- One round of a reading loop: the next byte extends the prefix by eight bits.
next_prefix : (m k v : ℕ) → v < m → (v / 256 ^ suc k) * 256 % m + v / 256 ^ k % 256 ≡ v / 256 ^ k
next_prefix m k v h = rw (pow-suc, ← div-div-eq-div-mul) (step (v / 256 ^ k) below)
  where
    below : v / 256 ^ k < m
    below = omega (arith, div-le_self v (256 ^ k))

    step : (u : ℕ) → u < m → u / 256 * 256 % m + u % 256 ≡ u
    step u l = rw (mod-eq_of_lt {n = u / 256 * 256} {m = m} (omega arith)) (omega arith)

stream_loop-be_bytes :
    (m k v : ℕ) (rest : Bytes)
    → v < m
    → stream_loop m k (v / 256 ^ k) (be_bytes k v ++ rest) ≡ some (v, rest)
unfolding stream_loop
stream_loop-be_bytes m zero v rest h = rw div-one
stream_loop-be_bytes m (suc k) v rest h =
    rw (next_prefix m k v h) (stream_loop-be_bytes m k v rest h)

pub stream_get16-put16 :
    (v : ℕ) (rest : Bytes) → v < 2 ^ 16 → stream_get16 (put16 [] v ++ rest) ≡ some (v, rest)
unfolding stream_get16
stream_get16-put16 v rest h = ap (λ n. some (n, rest)) (omega arith)

pub stream_get32-be_bytes :
    (v : ℕ) (rest : Bytes) → v < 2 ^ 32 → stream_get32 (be_bytes 4 v ++ rest) ≡ some (v, rest)
unfolding stream_get32
stream_get32-be_bytes v rest h =
    ap (λ n. stream_loop (2 ^ 32) 4 n (be_bytes 4 v ++ rest)) (sym (div-eq_of_lt {m = 256 ^ 4} h))
    ∙ stream_loop-be_bytes (2 ^ 32) 4 v rest h

pub stream_get64-be_bytes :
    (v : ℕ) (rest : Bytes) → v < 2 ^ 64 → stream_get64 (be_bytes 8 v ++ rest) ≡ some (v, rest)
unfolding stream_get64
stream_get64-be_bytes v rest h =
    ap (λ n. stream_loop (2 ^ 64) 8 n (be_bytes 8 v ++ rest)) (sym (div-eq_of_lt {m = 256 ^ 8} h))
    ∙ stream_loop-be_bytes (2 ^ 64) 8 v rest h

pub stream_read-append : (xs rest : Bytes) → stream_read (length xs) (xs ++ rest) ≡ some (xs, rest)
unfolding stream_read
stream_read-append [] rest = refl
stream_read-append (x ∷ xs) rest = rw (stream_read-append xs rest)

-- A read at a position is a read of the stream that starts there.
abbrev value_of : Option (ℕ × Bytes) → Option ℕ
value_of none = none
value_of (some (v, rest)) = some v

drop-get_elem? :
    (xs : Bytes) (i : ℕ)
    → ((get_elem? xs i ≡ none) × (drop i xs ≡ []))
      ⊎ ((b : ℕ) × (get_elem? xs i ≡ some b) × (drop i xs ≡ b ∷ drop (suc i) xs))
drop-get_elem? [] zero = inl (refl, refl)
drop-get_elem? [] (suc i) = inl (refl, refl)
drop-get_elem? (x ∷ xs) zero = inr (x, refl, refl)
drop-get_elem? (x ∷ xs) (suc i) = drop-get_elem? xs i

get_loop-drop :
    (m n value : ℕ) (xs : Bytes) (pos : ℕ)
    → get_loop m xs pos n value ≡ value_of (stream_loop m n value (drop pos xs))
unfolding get_loop stream_loop
get_loop-drop m zero value xs pos = refl
get_loop-drop m (suc n) value xs pos = elim (drop-get_elem? xs pos) [
  | inl (e, d) ↦ rw (e, d, get_loop, stream_loop)
  | inr (b, e, d) ↦
      rw (e, d, get_loop, stream_loop)
        (rw add-one (get_loop-drop m n (value * 256 % m + b) xs (suc pos)))
]

pub get16-append :
    (pre : Bytes) (v : ℕ) (rest : Bytes)
    → v < 2 ^ 16
    → get16 (pre ++ (v / 256 % 256) ∷ (v % 256) ∷ rest) (length pre) ≡ some v
unfolding get16
get16-append pre v rest h =
    let ys : Bytes = (v / 256 % 256) ∷ (v % 256) ∷ rest in
    let first : get_elem? (pre ++ ys) (length pre) ≡ some (v / 256 % 256) =
      ap (get_elem? (pre ++ ys)) (sym (add-zero (length pre))) ∙ get_elem?-append_at pre ys 0 in
    let second : get_elem? (pre ++ ys) (length pre + 1) ≡ some (v % 256) =
      get_elem?-append_at pre ys 1 in
    rw (first, get16) (rw (second, get16) (ap some (omega arith)))

pub get32-append :
    (pre : Bytes) (v : ℕ) (rest : Bytes)
    → v < 2 ^ 32
    → get32 (pre ++ (be_bytes 4 v ++ rest)) (length pre) ≡ some v
unfolding get32 stream_get32
get32-append pre v rest h =
    get_loop-drop (2 ^ 32) 4 0 (pre ++ (be_bytes 4 v ++ rest)) (length pre)
    ∙ ap (λ s. value_of (stream_get32 s)) (drop-append_left pre (be_bytes 4 v ++ rest))
    ∙ ap value_of (stream_get32-be_bytes v rest h)

pub get64-append :
    (pre : Bytes) (v : ℕ) (rest : Bytes)
    → v < 2 ^ 64
    → get64 (pre ++ (be_bytes 8 v ++ rest)) (length pre) ≡ some v
unfolding get64 stream_get64
get64-append pre v rest h =
    get_loop-drop (2 ^ 64) 8 0 (pre ++ (be_bytes 8 v ++ rest)) (length pre)
    ∙ ap (λ s. value_of (stream_get64 s)) (drop-append_left pre (be_bytes 8 v ++ rest))
    ∙ ap value_of (stream_get64-be_bytes v rest h)

-- Inside the input a read succeeds, and its value fits the word.
get_loop_within :
    (m n value : ℕ) (xs : Bytes) (pos : ℕ)
    → pos + n ≤ length xs
    → (v : ℕ) × (get_loop m xs pos n value ≡ some v)
unfolding get_loop
get_loop_within m zero value xs pos h = (value, refl)
get_loop_within m (suc n) value xs pos h =
    let (b, e) = get_elem?-some xs pos (omega arith) in
    rw (e, get_loop) (get_loop_within m n (value * 256 % m + b) xs (pos + 1) (omega arith))

pub get16_within : (xs : Bytes) (pos : ℕ) → pos + 2 ≤ length xs → (v : ℕ) × (get16 xs pos ≡ some v)
unfolding get16
get16_within xs pos h =
    let (a, e) = get_elem?-some xs pos (omega arith) in
    let (b, d) = get_elem?-some xs (pos + 1) (omega arith) in
    (a * 256 + b, rw (e, get16) (rw (d, get16)))

pub get32_within : (xs : Bytes) (pos : ℕ) → pos + 4 ≤ length xs → (v : ℕ) × (get32 xs pos ≡ some v)
unfolding get32
get32_within xs pos h = get_loop_within (2 ^ 32) 4 0 xs pos h

pub get64_within : (xs : Bytes) (pos : ℕ) → pos + 8 ≤ length xs → (v : ℕ) × (get64 xs pos ≡ some v)
unfolding get64
get64_within xs pos h = get_loop_within (2 ^ 64) 8 0 xs pos h

-- More bytes behind the input change no read inside it.
get_loop-append_le :
    (m n value : ℕ) (xs ys : Bytes) (pos : ℕ)
    → pos + n ≤ length xs
    → get_loop m (xs ++ ys) pos n value ≡ get_loop m xs pos n value
unfolding get_loop
get_loop-append_le m zero value xs ys pos h = refl
get_loop-append_le m (suc n) value xs ys pos h =
    let (b, e) = get_elem?-some xs pos (omega arith) in
    let d : get_elem? (xs ++ ys) pos ≡ some b = get_elem?-append_le xs ys pos (omega arith) ∙ e in
    rw (e, d, get_loop) (get_loop-append_le m n (value * 256 % m + b) xs ys (pos + 1) (omega arith))

pub get16-append_le :
    (xs ys : Bytes) (pos : ℕ) → pos + 2 ≤ length xs → get16 (xs ++ ys) pos ≡ get16 xs pos
unfolding get16
get16-append_le xs ys pos h =
    let first = get_elem?-append_le xs ys pos (omega arith) in
    let second = get_elem?-append_le xs ys (pos + 1) (omega arith) in ground arith

pub get32-append_le :
    (xs ys : Bytes) (pos : ℕ) → pos + 4 ≤ length xs → get32 (xs ++ ys) pos ≡ get32 xs pos
unfolding get32
get32-append_le xs ys pos h = get_loop-append_le (2 ^ 32) 4 0 xs ys pos h

get_elem?-IsByte : (xs : Bytes) (i b : ℕ) → All IsByte xs → get_elem? xs i ≡ some b → b < 256
get_elem?-IsByte [] i b v e = cc
get_elem?-IsByte (x ∷ xs) zero b v e = ground (arith, v.0)
get_elem?-IsByte (x ∷ xs) (suc i) b v e = get_elem?-IsByte xs i b v.1 e

pub get16_bound : (xs : Bytes) (pos v : ℕ) → All IsByte xs → get16 xs pos ≡ some v → v < 2 ^ 16
unfolding get16
get16_bound xs pos v h e = elim (drop-get_elem? xs pos) [
  | inl (d, _) ↦ ground arith
  | inr (a, d, _) ↦ elim (drop-get_elem? xs (pos + 1)) [
    | inl (d', _) ↦ ground arith
    | inr (b, d', _) ↦
        ground (arith, get_elem?-IsByte xs pos a h d, get_elem?-IsByte xs (pos + 1) b h d')
  ]
]
