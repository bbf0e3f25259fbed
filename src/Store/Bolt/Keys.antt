-- ===== src/Store/Bolt/Keys.antt =====
-- The byte strings of stores/boltdbstore: `binary.BigEndian`, and the order in which bbolt keeps
-- keys, that of `bytes.Compare`.
use native.Mathlib.Numerals.{unary_clauses}
use native.Mathlib.Nat.{mod-lt, mod-eq_of_lt, div-lt_iff_lt-mul, div-add-mod', mul-le-mul_right}
use protosource.Prelude.{
  ℕ, zero, suc, ◌+◌, ◌*◌, ◌/◌, ◌%◌, ◌^◌, ◌<◌, ◌≡◌, ap, ◌∙◌, Bool, true, false, ◌&&◌, [], ◌∷◌, arith,
  ltb, ◌==◌, if◌then◌else◌, ◌↔◌,
}
use protosource.Compress.{Bytes}

-- The n lowest bytes of a number, the highest first: PutUint64 for n = 8, PutUint32 for n = 4.
unfoldable pub be_bytes : ℕ → ℕ → Bytes
be_bytes zero x = []
be_bytes (suc n) x = x / 256 ^ n % 256 ∷ be_bytes n (x % 256 ^ n)

unfoldable pub be_from : ℕ → Bytes → ℕ
be_from acc [] = acc
be_from acc (b ∷ bytes) = be_from (acc * 256 + b) bytes

-- Uint64 of eight bytes, Uint32 of four.
unfoldable pub be_value : Bytes → ℕ
unfolding be_from
be_value bytes = be_from 0 bytes

unfoldable pub bytes_eq : Bytes → Bytes → Bool
bytes_eq [] [] = true
bytes_eq (x ∷ xs) (y ∷ ys) = x == y && bytes_eq xs ys
bytes_eq _ _ = false

-- `bytes.Compare(xs, ys) < 0`
unfoldable pub before : Bytes → Bytes → Bool
before xs [] = false
before [] (y ∷ ys) = true
before (x ∷ xs) (y ∷ ys) = let rest = before xs ys in if x == y then rest else ltb x y

pub bytes_eq_iff : (xs ys : Bytes) → (bytes_eq xs ys ≡ true) ↔ (xs ≡ ys)
unfolding bytes_eq
bytes_eq_iff [] [] = ground arith
bytes_eq_iff [] (y ∷ ys) = ground arith
bytes_eq_iff (x ∷ xs) [] = ground arith
bytes_eq_iff (x ∷ xs) (y ∷ ys) = ground (arith, bytes_eq_iff xs ys)

pow_pos : (n : ℕ) → 0 < 256 ^ n
pow_pos zero = omega arith
pow_pos (suc n) = simp unary_clauses (omega (arith, pow_pos n))

-- A number by its quotient and its remainder; `q` and `r` stand for the digits' values.
regroup : (acc q p r x : ℕ) → q * p + r ≡ x → (acc * 256 + q) * p + r ≡ acc * (p * 256) + x
regroup acc q p r x h = grind arith

high_byte_lt : (q s p r t : ℕ) → r < p → q < s → q * p + r < s * p + t
high_byte_lt q s p r t h k = let step = mul-le-mul_right p k in grind arith

compare_parts :
    (a b r s x y p : ℕ)
    → a * p + r ≡ x
    → b * p + s ≡ y
    → r < p
    → s < p
    → (if a == b then ltb r s else ltb a b) ≡ ltb x y
compare_parts a b r s x y p e f h k =
    ground
      (arith, high_byte_lt a b p r s, high_byte_lt b a p s r, ap (λ (q : ℕ). q * p) {x = a} {y = b})

quotient : (n x : ℕ) → x < 256 ^ suc n → x / 256 ^ n % 256 ≡ x / 256 ^ n
quotient n x h =
    let bound : x < 256 ^ n * 256 = simp unary_clauses at h in
    mod-eq_of_lt ((div-lt_iff_lt-mul (pow_pos n)).1 (omega arith))

be_from-be_bytes : (n acc x : ℕ) → x < 256 ^ n → be_from acc (be_bytes n x) ≡ acc * 256 ^ n + x
unfolding be_from be_bytes
be_from-be_bytes zero acc x h = omega arith
be_from-be_bytes (suc n) acc x h =
    let p = 256 ^ n in
    be_from-be_bytes n (acc * 256 + x / p % 256) (x % p) (mod-lt x (pow_pos n))
    ∙ rw (quotient n x h) (simp unary_clauses (regroup acc (x / p) p (x % p) x (div-add-mod' x p)))

-- What a key says is its version.
pub be_value-be_bytes : (n x : ℕ) → x < 256 ^ n → be_value (be_bytes n x) ≡ x
unfolding be_value
be_value-be_bytes n x h = be_from-be_bytes n 0 x h ∙ omega arith

-- The order of the keys is the order of the numbers.
pub before-be_bytes :
    (n x y : ℕ) → x < 256 ^ n → y < 256 ^ n → before (be_bytes n x) (be_bytes n y) ≡ ltb x y
unfolding before be_bytes
before-be_bytes zero x y h k = ground arith
before-be_bytes (suc n) x y h k =
    let p = 256 ^ n in
    let rest = before-be_bytes n (x % p) (y % p) (mod-lt x (pow_pos n)) (mod-lt y (pow_pos n)) in
    rw (quotient n x h, quotient n y k, rest)
      (compare_parts (x / p) (y / p) (x % p) (y % p) x y p (div-add-mod' x p) (div-add-mod' y p)
        (mod-lt x (pow_pos n)) (mod-lt y (pow_pos n)))
