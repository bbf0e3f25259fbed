-- ===== src/Opaque/Cosmos/Attributes.antt =====
-- gen/opaquedata/cosmos: `isValidOpaqueAttr`, on the code points of a name. Go counts the bytes of
-- the name; the two differ only on names with a character that is not ASCII, which are refused by
-- either count.
use Prim.Native.Char.{code}
use Prim.Native.String.{[] as no_text, ◌∷◌ as ◌then◌}
use protosource.Prelude.{
  ℕ, ◌+◌, ◌-◌, ◌*◌, String, Bool, true, false, not, ◌&&◌, ◌||◌, List, [], ◌∷◌, take, drop, length,
  ltb, leb, ◌==◌, str_eq, if◌then◌else◌,
}

abbrev pub codes : String → List ℕ
codes no_text = []
codes (◌then◌ c s) = code c ∷ codes s

unfoldable pub same_codes : List ℕ → List ℕ → Bool
same_codes [] [] = true
same_codes (x ∷ xs) (y ∷ ys) = x == y && same_codes xs ys
same_codes _ _ = false

-- `strings.HasSuffix`
unfoldable pub has_suffix : List ℕ → List ℕ → Bool
unfolding same_codes
has_suffix name suffix =
    leb (length suffix) (length name) && same_codes (drop (length name - length suffix) name) suffix

abbrev pub is_decimal : ℕ → Bool
is_decimal c = leb b'0' c && leb c b'9'

-- The loop over the digits.
unfoldable pub index_in_range : ℕ → List ℕ → Bool
index_in_range n [] = leb 1 n && leb n 20
index_in_range n (c ∷ digits) =
    let n' = n * 10 + (c - b'0') in
    let rest = index_in_range n' digits in
    if not (is_decimal c) then false else if ltb 20 n' then false else rest

-- The digits between "gsi" and a suffix of two characters.
unfoldable pub digits_of : List ℕ → List ℕ
digits_of name = drop 3 (take (length name - 2) name)

unfoldable pub is_slot_name : List ℕ → Bool
is_slot_name name =
    if ltb (length name) 6 || not (same_codes (take 3 name) (codes "gsi"))
    then false
    else if not (has_suffix name (codes "pk") || has_suffix name (codes "sk"))
    then false
    else if length (digits_of name) == 0
    then false
    else index_in_range 0 (digits_of name)

unfoldable pub is_valid_opaque_attr : String → Bool
unfolding index_in_range digits_of has_suffix is_slot_name
is_valid_opaque_attr name =
    if str_eq name "pk" || str_eq name "sk" then true else is_slot_name (codes name)
