-- ===== src/Opaque/Cosmos/Accepted.antt =====
-- gen/opaquedata/cosmos: which names `isValidOpaqueAttr` accepts.
use mathlib.Core.Path.{◌≡⟨◌⟩◌, ◌∎}
use protosource.Prelude.{
  append_assoc, refl, sym, ap, take-drop, take-append, length-append, ℕ, zero, suc, ◌+◌, ◌-◌, ◌*◌,
  ◌≤◌, String, ◌≡◌, ◌⊎◌, ◌↔◌, ◌∙◌, inl, inr, true, ◌||◌, List, [], ◌∷◌, ◌++◌, take, drop, length,
  str_eq, eq_iff, arith, Bool-cases, All,
}
use protosource.Opaque.Cosmos.Attributes.{
  codes, same_codes, has_suffix, is_decimal, index_in_range, digits_of, is_slot_name,
  is_valid_opaque_attr,
}

-- What the digits stand for, continuing from n.
abbrev pub number_from : ℕ → List ℕ → ℕ
number_from n [] = n
number_from n (c ∷ digits) = number_from (n * 10 + (c - b'0')) digits

-- "pk", "sk", or "gsi", a number from 1 to 20 in decimal, and "pk" or "sk". The number may have
-- leading zeros, so that not all of these are names of the schema.
pub data IsOpaqueAttr (name : String) : Type 0 where
  main : (name ≡ "pk") ⊎ (name ≡ "sk") → IsOpaqueAttr name
  slot :
      (digits suffix : List ℕ)
      → codes name ≡ codes "gsi" ++ (digits ++ suffix)
      → (suffix ≡ codes "pk") ⊎ (suffix ≡ codes "sk")
      → All (λ c. is_decimal c ≡ true) digits
      → 1 ≤ number_from 0 digits
      → number_from 0 digits ≤ 20
      → IsOpaqueAttr name

number_from-le : (n : ℕ) (digits : List ℕ) → n ≤ number_from n digits
number_from-le n [] = omega arith
number_from-le n (c ∷ digits) = omega (arith, number_from-le (n * 10 + (c - b'0')) digits)

-- The loop accepts the decimal numbers from 1 to 20.
index_in_range_sound :
    (n : ℕ) (digits : List ℕ)
    → index_in_range n digits ≡ true
    → All (λ c. is_decimal c ≡ true) digits
      × (1 ≤ number_from n digits)
      × (number_from n digits ≤ 20)
unfolding index_in_range
index_in_range_sound n [] h = ground arith
index_in_range_sound n (c ∷ digits) h =
    ground (arith, index_in_range_sound (n * 10 + (c - b'0')) digits)

index_in_range_complete :
    (n : ℕ) (digits : List ℕ)
    → All (λ c. is_decimal c ≡ true) digits
    → 1 ≤ number_from n digits
    → number_from n digits ≤ 20
    → index_in_range n digits ≡ true
unfolding index_in_range
index_in_range_complete n [] h p q = ground arith
index_in_range_complete n (c ∷ digits) h p q = ground (
  arith,
  index_in_range_complete (n * 10 + (c - b'0')) digits h.1 p q,
  number_from-le (n * 10 + (c - b'0')) digits,
  h.0,
)

same_codes-eq : (xs ys : List ℕ) → same_codes xs ys ≡ true → xs ≡ ys
unfolding same_codes
same_codes-eq [] [] h = cc
same_codes-eq [] (y ∷ ys) h = cc
same_codes-eq (x ∷ xs) [] h = cc
same_codes-eq (x ∷ xs) (y ∷ ys) h = ground (arith, same_codes-eq xs ys)

same_codes_refl : (xs : List ℕ) → same_codes xs xs ≡ true
unfolding same_codes
same_codes_refl [] = cc
same_codes_refl (x ∷ xs) = ground (arith, same_codes_refl xs)

take-take : (k m : ℕ) (xs : List ℕ) → k ≤ m → take k (take m xs) ≡ take k xs
take-take zero m xs h = refl
take-take (suc k) zero xs h = absurd (omega arith)
take-take (suc k) (suc m) [] h = refl
take-take (suc k) (suc m) (x ∷ xs) h = ap (◌∷◌ x) (take-take k m xs (omega arith))

-- A name of five characters at least, split into its parts.
split_name :
    (name : List ℕ)
    → 6 ≤ length name
    → name ≡ take 3 name ++ (digits_of name ++ drop (length name - 2) name)
unfolding digits_of
split_name name h =
    let m = length name - 2 in
    name
    ≡⟨ sym (take-drop m name) ⟩ take m name ++ drop m name
    ≡⟨ ap (λ xs. xs ++ drop m name) (sym (take-drop 3 (take m name))) ⟩
      (take 3 (take m name) ++ drop 3 (take m name)) ++ drop m name
    ≡⟨ append_assoc (take 3 (take m name)) _ _ ⟩
      take 3 (take m name) ++ (drop 3 (take m name) ++ drop m name)
    ≡⟨ ap (λ xs. xs ++ (drop 3 (take m name) ++ drop m name)) (take-take 3 m name (omega arith)) ⟩
      take 3 name ++ (drop 3 (take m name) ++ drop m name) ∎

has_suffix-drop :
    (name suffix : List ℕ)
    → has_suffix name suffix ≡ true
    → drop (length name - length suffix) name ≡ suffix
unfolding has_suffix
has_suffix-drop name suffix h = same_codes-eq _ _ (ground arith)

-- What the parts of an accepted name are.
record IsSlotName (name : List ℕ) : Type 0 where
  long : 6 ≤ length name
  prefix : take 3 name ≡ codes "gsi"
  suffixed : (drop (length name - 2) name ≡ codes "pk") ⊎ (drop (length name - 2) name ≡ codes "sk")
  in_range : index_in_range 0 (digits_of name) ≡ true

is_slot_name_sound : (name : List ℕ) → is_slot_name name ≡ true → IsSlotName name
unfolding is_slot_name
is_slot_name_sound name h = record {
  long = ground arith;
  prefix = same_codes-eq _ _ (ground arith);
  suffixed = elim (Bool-cases (has_suffix name (codes "pk"))) [
    | inl pk ↦ inl (has_suffix-drop name (codes "pk") pk)
    | inr apart ↦ inr (has_suffix-drop name (codes "sk") (ground arith))
  ];
  in_range = ground arith;
}

drop-length : (xs ys : List ℕ) → drop (length xs) (xs ++ ys) ≡ ys
drop-length [] ys = refl
drop-length (x ∷ xs) ys = drop-length xs ys

-- Where the suffix begins.
slot_split :
    (digits suffix : List ℕ)
    → length suffix ≡ 2
    → length (codes "gsi" ++ (digits ++ suffix)) - 2 ≡ length (codes "gsi" ++ digits)
slot_split digits suffix h = omega (arith, length-append digits suffix)

drop-slot :
    (digits suffix : List ℕ)
    → length suffix ≡ 2
    → drop (length (codes "gsi" ++ (digits ++ suffix)) - 2) (codes "gsi" ++ (digits ++ suffix))
      ≡ suffix
drop-slot digits suffix h = rw (slot_split digits suffix h) (drop-length digits suffix)

digits_of-slot :
    (digits suffix : List ℕ)
    → length suffix ≡ 2
    → digits_of (codes "gsi" ++ (digits ++ suffix)) ≡ digits
unfolding digits_of
digits_of-slot digits suffix h = rw (slot_split digits suffix h) (take-append digits suffix)

digits-pos : (digits : List ℕ) → 1 ≤ number_from 0 digits → 1 ≤ length digits
digits-pos [] h = absurd (omega arith)
digits-pos (c ∷ digits) h = omega arith

has_suffix_complete :
    (name suffix : List ℕ)
    → length suffix ≤ length name
    → drop (length name - length suffix) name ≡ suffix
    → has_suffix name suffix ≡ true
unfolding has_suffix
has_suffix_complete name suffix long e =
    let same : same_codes (drop (length name - length suffix) name) suffix ≡ true =
      rw e (same_codes_refl suffix) in
    ground arith

is_slot_name_lem :
    (name : List ℕ)
    → 6 ≤ length name
    → same_codes (take 3 name) (codes "gsi") ≡ true
    → (has_suffix name (codes "pk") ≡ true) ⊎ (has_suffix name (codes "sk") ≡ true)
    → 1 ≤ length (digits_of name)
    → index_in_range 0 (digits_of name) ≡ true
    → is_slot_name name ≡ true
unfolding is_slot_name
is_slot_name_lem name long prefix (inl suffixed) digits in_range = ground arith
is_slot_name_lem name long prefix (inr suffixed) digits in_range = ground arith

is_slot_name_complete :
    (digits suffix : List ℕ)
    → (suffix ≡ codes "pk") ⊎ (suffix ≡ codes "sk")
    → All (λ c. is_decimal c ≡ true) digits
    → 1 ≤ number_from 0 digits
    → number_from 0 digits ≤ 20
    → is_slot_name (codes "gsi" ++ (digits ++ suffix)) ≡ true
is_slot_name_complete digits suffix e h p q =
    let name = codes "gsi" ++ (digits ++ suffix) in
    let two : length suffix ≡ 2 = elim e [ inl pk ↦ rw pk refl | inr sk ↦ rw sk refl ] in
    let split = drop-slot digits suffix two in
    let found = digits_of-slot digits suffix two in
    let some_digit : 1 ≤ length digits = digits-pos digits p in
    is_slot_name_lem name (omega (arith, length-append digits suffix))
      (same_codes_refl (codes "gsi"))
      (elim e [
        | inl pk ↦ inl (
            has_suffix_complete name (codes "pk") (omega (arith, length-append digits suffix))
              (split ∙ pk))
        | inr sk ↦ inr (
            has_suffix_complete name (codes "sk") (omega (arith, length-append digits suffix))
              (split ∙ sk))
      ])
      (rw found some_digit) (rw found (index_in_range_complete 0 digits h p q))

pub is_valid_opaque_attr_iff :
    (name : String) → (is_valid_opaque_attr name ≡ true) ↔ IsOpaqueAttr name
unfolding is_valid_opaque_attr
is_valid_opaque_attr_iff name = (sound, complete)
  where
    sound : is_valid_opaque_attr name ≡ true → IsOpaqueAttr name
    sound h = elim (Bool-cases (str_eq name "pk" || str_eq name "sk")) [
      | inl eq ↦ main (elim (Bool-cases (str_eq name "pk")) [
        | inl pk ↦ inl ((eq_iff name "pk").0 pk)
        | inr other ↦ inr ((eq_iff name "sk").0 (ground arith))
      ])
      | inr apart ↦
          let parts = is_slot_name_sound (codes name) (ground arith) in
          let digits = index_in_range_sound 0 (digits_of (codes name)) parts.in_range in
          slot (digits_of (codes name)) (drop (length (codes name) - 2) (codes name))
            (split_name (codes name) parts.long
              ∙ ap
                  (λ front.
                    front
                    ++ (digits_of (codes name) ++ drop (length (codes name) - 2) (codes name)))
                  parts.prefix)
            parts.suffixed digits.0 digits.1 digits.2
    ]

    complete : IsOpaqueAttr name → is_valid_opaque_attr name ≡ true
    complete (main (inl e)) = rw e refl
    complete (main (inr e)) = rw e refl
    complete (slot digits suffix e suffixed h p q) =
        let whole : is_slot_name (codes name) ≡ true =
          rw e (is_slot_name_complete digits suffix suffixed h p q) in
        ground arith
