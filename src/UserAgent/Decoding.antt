-- ===== src/UserAgent/Decoding.antt =====
-- The encoded text can be decoded, and fits its buffer.
use android_device_samsung_a.Base.{
  ℕ, suc, ◌+◌, ◌-◌, ◌*◌, ◌≤◌, ◌<◌, ◌≡◌, refl, ap, ◌∙◌, true, false, Option, none, some, [], ◌∷◌,
  ◌==◌, leb, ltb, arith, inl, inr, length, take, if◌then◌else◌, Bool-cases,
}
use android_device_samsung_a.Text.{Text}
use android_device_samsung_a.UserAgent.{encoding, put_encoded, encode_from, encode_in_place}

abbrev hex_value : ℕ → ℕ
hex_value c = if leb c b'9' then c - b'0' else c - b'A' + 10

-- Percent-decoding.
unfoldable pub decode : Text → Text
decode [] = []
decode (c ∷ []) = c ∷ []
decode (c ∷ a ∷ []) = c ∷ a ∷ []
decode (c ∷ a ∷ b ∷ s) =
    let code = decode s in
    let plain = decode (a ∷ b ∷ s) in
    if c == b'%' then (hex_value a * 16 + hex_value b) ∷ code else c ∷ plain

decode-plain : (c : ℕ) (s : Text) → (c == b'%') ≡ false → decode (c ∷ s) ≡ c ∷ decode s
unfolding decode
decode-plain c [] h = refl
decode-plain c (a ∷ []) h = refl
decode-plain c (a ∷ b ∷ s) h = rw h refl

encoding-plain : (c : ℕ) → encoding c ≡ none → (c == b'%') ≡ false
encoding-plain c h = ground arith

encoding-code : (c hi lo : ℕ) → encoding c ≡ some (hi, lo) → hex_value hi * 16 + hex_value lo ≡ c
encoding-code c hi lo h = ground arith

decode-code :
    (c hi lo : ℕ) (s : Text)
    → encoding c ≡ some (hi, lo)
    → decode (b'%' ∷ hi ∷ lo ∷ s) ≡ c ∷ decode s
unfolding decode
decode-code c hi lo s h = ap (λ x. x ∷ decode s) (encoding-code c hi lo h)

-- How long the text is once it is encoded.
abbrev cost : Option (ℕ × ℕ) → ℕ
cost none = 1
cost (some p) = 3

abbrev pub encoded_length : Text → ℕ
encoded_length [] = 0
encoded_length (c ∷ s) = cost (encoding c) + encoded_length s

-- A beginning of the text comes back.
abbrev IsBeginning : Text → Text → Type 0
IsBeginning out s = (k : ℕ) × (out ≡ take k s)

put-decodes :
    (size outpos c : ℕ) (o : Option (ℕ × ℕ)) (s plain_rest code_rest : Text)
    → encoding c ≡ o
    → IsBeginning (decode plain_rest) s
    → IsBeginning (decode code_rest) s
    → IsBeginning (decode (put_encoded size outpos c o plain_rest code_rest)) (c ∷ s)
unfolding decode
put-decodes size outpos c none s plain_rest code_rest e (k, h) r =
    (suc k, decode-plain c plain_rest (encoding-plain c e) ∙ ap (λ x. c ∷ x) h)
put-decodes size outpos c (some (hi, lo)) s plain_rest code_rest e p (k, h) =
    elim (Bool-cases (leb size (outpos + 3))) [
      | inl stop ↦ rw stop (0, refl)
      | inr go ↦ rw go (suc k, decode-code c hi lo code_rest e ∙ ap (λ x. c ∷ x) h)
    ]

encode_from-decodes :
    (size outpos : ℕ) (s : Text) → IsBeginning (decode (encode_from size outpos s)) s
unfolding encode_from decode
encode_from-decodes size outpos [] = (0, refl)
encode_from-decodes size outpos (c ∷ s) =
    let plain = encode_from-decodes size (outpos + 1) s in
    let code = encode_from-decodes size (outpos + 3) s in
    elim (Bool-cases (ltb (outpos + 1) size)) [
      | inr stop ↦ rw stop (0, refl)
      | inl go ↦ rw go (put-decodes size outpos c (encoding c) s _ _ refl plain code)
    ]

put-fits :
    (size outpos c : ℕ) (o : Option (ℕ × ℕ)) (plain_rest code_rest : Text)
    → outpos + 1 < size
    → (outpos + 1 + 1 ≤ size → outpos + 1 + length plain_rest + 1 ≤ size)
    → (outpos + 3 + 1 ≤ size → outpos + 3 + length code_rest + 1 ≤ size)
    → outpos + length (put_encoded size outpos c o plain_rest code_rest) + 1 ≤ size
put-fits size outpos c none plain_rest code_rest h p r = let q = p (omega arith) in omega arith
put-fits size outpos c (some (hi, lo)) plain_rest code_rest h p r =
    elim (Bool-cases (leb size (outpos + 3))) [
      | inl stop ↦ rw stop (omega arith)
      | inr go ↦ (let q = r (ground arith) in rw go (omega arith))
    ]

encode_from-fits :
    (size outpos : ℕ) (s : Text)
    → outpos + 1 ≤ size
    → outpos + length (encode_from size outpos s) + 1 ≤ size
unfolding encode_from
encode_from-fits size outpos [] h = omega arith
encode_from-fits size outpos (c ∷ s) h = elim (Bool-cases (ltb (outpos + 1) size)) [
  | inr stop ↦ rw stop (omega arith)
  | inl go ↦ rw go (
      put-fits size outpos c (encoding c) _ _ (ground arith) (encode_from-fits size (outpos + 1) s)
        (encode_from-fits size (outpos + 3) s))
]

put-whole :
    (size outpos c : ℕ) (o : Option (ℕ × ℕ)) (s plain_rest code_rest : Text)
    → encoding c ≡ o
    → outpos + (cost o + encoded_length s) + 1 ≤ size
    → (outpos + 1 + encoded_length s + 1 ≤ size → decode plain_rest ≡ s)
    → (outpos + 3 + encoded_length s + 1 ≤ size → decode code_rest ≡ s)
    → decode (put_encoded size outpos c o plain_rest code_rest) ≡ c ∷ s
put-whole size outpos c none s plain_rest code_rest e h p r =
    decode-plain c plain_rest (encoding-plain c e) ∙ ap (λ x. c ∷ x) (p (omega arith))
put-whole size outpos c (some (hi, lo)) s plain_rest code_rest e h p r =
    let go : leb size (outpos + 3) ≡ false = ground arith in
    rw go (decode-code c hi lo code_rest e ∙ ap (λ x. c ∷ x) (r (omega arith)))

cost-positive : (o : Option (ℕ × ℕ)) → 1 ≤ cost o
cost-positive none = omega arith
cost-positive (some p) = omega arith

encode_from-whole :
    (size outpos : ℕ) (s : Text)
    → outpos + encoded_length s + 1 ≤ size
    → decode (encode_from size outpos s) ≡ s
unfolding encode_from decode
encode_from-whole size outpos [] h = refl
encode_from-whole size outpos (c ∷ s) h =
    let one = cost-positive (encoding c) in
    let go : ltb (outpos + 1) size ≡ true = ground arith in
    rw go (
      put-whole size outpos c (encoding c) s _ _ refl h (encode_from-whole size (outpos + 1) s)
        (encode_from-whole size (outpos + 3) s))

-- `encodeInPlace` in a buffer that is not empty: the text and its NUL fit, percent-decoding gives
-- back a beginning of the value, so no code is cut in two, and gives back the value where its
-- encoding fits.
pub encode_in_place-decodes :
    (room : ℕ) (value : Text)
    → (length (encode_in_place (suc room) value) ≤ room)
      × ((k : ℕ) × (decode (encode_in_place (suc room) value) ≡ take k value))
      × (encoded_length value ≤ room → decode (encode_in_place (suc room) value) ≡ value)
unfolding encode_in_place
encode_in_place-decodes room value =
    let fits = encode_from-fits (suc room) 0 value (omega arith) in
    (
      omega arith,
      encode_from-decodes (suc room) 0 value,
      λ h. encode_from-whole (suc room) 0 value (omega arith),
    )
