-- ===== src/Core/Ids.antt =====
-- crates/ovecc-core/src/util.rs: `stable_id`. The digest of a text, by its UTF-8 bytes, is the crate
-- sha2's, and an argument.
use ovecc.Prelude.{
  ℕ, ◌+◌, ◌-◌, ◌/◌, ◌%◌, List, [], ◌∷◌, ◌++◌, if◌then◌else◌, ltb, take, ◌≡◌, ◌≢◌, All, refl, ap,
  ◌↔◌,
}
use ovecc.Text.{Text}

-- What goes into the hasher: each part, and a NUL after it.
unfoldable pub hashed : List Text → Text
hashed [] = []
hashed (part ∷ parts) = part ++ 0 ∷ hashed parts

-- Of a value the low four bits, as a digit.
abbrev hex_char : ℕ → ℕ
hex_char value = if ltb (value % 16) 10 then b'0' + value % 16 else b'a' + (value % 16 - 10)

abbrev hex_digits : List ℕ → Text
hex_digits [] = []
hex_digits (byte ∷ bytes) = hex_char (byte / 16) ∷ hex_char byte ∷ hex_digits bytes

unfoldable pub hex_prefix : List ℕ → ℕ → Text
hex_prefix bytes chars = take chars (hex_digits bytes)

unfoldable pub stable_id : (Text → List ℕ) → Text → List Text → Text
unfolding hashed hex_prefix
stable_id sha256 prefix parts = prefix ++ b':' ∷ hex_prefix (sha256 (hashed parts)) 24

-- A part that holds no NUL.
abbrev pub HasNoNul : Text → Type 0
HasNoNul part = All (λ c. c ≢ 0) part

split_nul : (p q r s : Text) → HasNoNul p → HasNoNul q → p ++ 0 ∷ r ≡ q ++ 0 ∷ s → (p ≡ q) × (r ≡ s)
split_nul [] [] r s h k e = (refl, cc)
split_nul [] (d ∷ q) r s h k e = absurd (k.0 (cc))
split_nul (c ∷ p) [] r s h k e = absurd (h.0 (cc))
split_nul (c ∷ p) (d ∷ q) r s h k e =
    let (rest, tail) = split_nul p q r s h.1 k.1 (cc) in (cc, tail)

hashed_injective :
    (xs ys : List Text) → All HasNoNul xs → All HasNoNul ys → hashed xs ≡ hashed ys → xs ≡ ys
unfolding hashed
hashed_injective [] [] h k e = refl
hashed_injective [] ([] ∷ ys) h k e = cc
hashed_injective [] ((d ∷ y) ∷ ys) h k e = cc
hashed_injective ([] ∷ xs) [] h k e = cc
hashed_injective ((c ∷ x) ∷ xs) [] h k e = cc
hashed_injective (x ∷ xs) (y ∷ ys) h k e =
    let (here, rest) = split_nul x y (hashed xs) (hashed ys) h.0 k.0 e in
    let more = hashed_injective xs ys h.1 k.1 rest in cc

-- What is hashed tells the parts apart: two lists of parts that hold no NUL are hashed as one text
-- exactly if they are the same list.
pub hashed_iff :
    (xs ys : List Text) → All HasNoNul xs → All HasNoNul ys → (hashed xs ≡ hashed ys) ↔ (xs ≡ ys)
hashed_iff xs ys h k = (hashed_injective xs ys h k, ap hashed)
