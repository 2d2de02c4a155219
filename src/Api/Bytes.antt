-- ===== src/Api/Bytes.antt =====
-- The texts of `hexcode` and `decodeAddress`, against descriptions without the buffer's index.
use mathlib.Core.List.{append-nil, append_assoc}
use android_device_samsung_a.Base.{
  ℕ, zero, suc, ◌+◌, ◌-◌, ◌*◌, ◌%◌, ◌/◌, ◌≤◌, ◌<◌, ◌≡◌, refl, sym, ap, ◌∙◌, true, false, some, List,
  [], ◌∷◌, ◌++◌, ◌==◌, leb, ltb, arith, inl, inr, take, length, length-append, if◌then◌else◌,
  Bool-cases,
}
use android_device_samsung_a.Api.{
  hex_digit, hexcode_from, hexcode, put_digit, decode_loop, decode_address,
}

-- Two hexadecimal digits a byte, the high one first.
abbrev pub hex_text : List ℕ → List ℕ
hex_text [] = []
hex_text (ch ∷ bytes) = hex_digit (ch / 16 % 16) ∷ hex_digit (ch % 16) ∷ hex_text bytes

full : (i size : ℕ) → i ≡ (size - 1) / 2 → leb (i * 2 + 3) size ≡ false
full i size h = ground arith

fits : (i size : ℕ) → i < (size - 1) / 2 → leb (i * 2 + 3) size ≡ true
fits i size h = ground arith

hexcode_from-take :
    (i room size : ℕ) (bytes : List ℕ)
    → i + room ≡ (size - 1) / 2
    → hexcode_from i size bytes ≡ (hex_text (take room bytes), i + length (take room bytes))
unfolding hexcode_from
hexcode_from-take i zero size [] h = ap (λ n. ([], n)) (omega arith)
hexcode_from-take i (suc room) size [] h = ap (λ n. ([], n)) (omega arith)
hexcode_from-take i zero size (ch ∷ bytes) h =
    rw (full i size (omega arith)) (ap (λ n. ([], n)) (omega arith))
hexcode_from-take i (suc room) size (ch ∷ bytes) h =
    let ih = hexcode_from-take (suc i) room size bytes (omega arith) in
    rw (fits i size (omega arith)) (
      ap (λ r. (hex_digit (ch / 16 % 16) ∷ hex_digit (ch % 16) ∷ r.0, r.1))
        (ih ∙ ap (λ n. (hex_text (take room bytes), n)) (omega arith)))

-- `hexcode` writes two digits for each byte that fits into the string with its end, the high one
-- first, and returns how many bytes these are.
hexcode-fits :
    (size : ℕ) (bytes : List ℕ)
    → hexcode size bytes
      ≡ (hex_text (take ((size - 1) / 2) bytes), length (take ((size - 1) / 2) bytes))
unfolding hexcode
hexcode-fits size bytes =
    hexcode_from-take 0 ((size - 1) / 2) size bytes (omega arith)
    ∙ ap (λ n. (hex_text (take ((size - 1) / 2) bytes), n)) (omega arith)

-- A half of a byte that is a decimal digit.
abbrev digit_of : ℕ → List ℕ
digit_of n = if leb n 9 then (n + b'0') ∷ [] else []

-- The decimal digits of the bytes, the low half of a byte first.
abbrev pub digits_of : List ℕ → List ℕ
digits_of [] = []
digits_of (ch ∷ bytes) = digit_of (ch % 16) ++ digit_of (ch / 16) ++ digits_of bytes

abbrev cut : ℕ → List ℕ → List ℕ × ℕ
cut size xs = (take size xs, length (take size xs))

take_none : (room : ℕ) → take {A = ℕ} room [] ≡ []
take_none zero = refl
take_none (suc room) = refl

cut-nil : (room : ℕ) → ([], 0) ≡ cut room []
cut-nil zero = refl
cut-nil (suc room) = refl

take-append_short :
    (room y : ℕ) (xs : List ℕ)
    → length (take room xs) < room
    → take room (xs ++ y ∷ []) ≡ take room xs ++ y ∷ []
take-append_short zero y xs h = ground arith
take-append_short (suc room) y [] h = ap (λ l. y ∷ l) (take_none room)
take-append_short (suc room) y (x ∷ xs) h =
    ap (λ l. x ∷ l) (take-append_short room y xs (omega arith))

take-append_full :
    (room : ℕ) (xs ys : List ℕ) → room ≤ length (take room xs) → take room (xs ++ ys) ≡ take room xs
take-append_full zero xs ys h = refl
take-append_full (suc room) [] ys h = ground arith
take-append_full (suc room) (x ∷ xs) ys h =
    ap (λ l. x ∷ l) (take-append_full room xs ys (omega arith))

cut-short :
    (room y : ℕ) (xs : List ℕ)
    → length (take room xs) < room
    → (take room xs ++ y ∷ [], length (take room xs) + 1) ≡ cut room (xs ++ y ∷ [])
cut-short room y xs h =
    let e = take-append_short room y xs h in
    ap (λ n. (take room xs ++ y ∷ [], n)) (sym (length-append (take room xs) (y ∷ [])))
    ∙ ap (λ l. (l, length l)) (sym e)

cut-full :
    (room : ℕ) (xs ys : List ℕ) → room ≤ length (take room xs) → cut room xs ≡ cut room (xs ++ ys)
cut-full room xs ys h = ap (λ l. (l, length l)) (sym (take-append_full room xs ys h))

put_digit-cut :
    (room n : ℕ) (xs : List ℕ) → put_digit (suc room) n (cut room xs) ≡ cut room (xs ++ digit_of n)
put_digit-cut room n xs = elim (Bool-cases (leb n 9)) [
  | inr e ↦ rw e (ap (cut room) (sym (append-nil xs)))
  | inl e ↦ rw e (elim (Bool-cases (ltb (length (take room xs) + 1) (suc room))) [
    | inl short ↦ rw short (cut-short room (n + b'0') xs (ground arith))
    | inr full ↦ rw full (cut-full room xs _ (ground arith))
  ])
]

decode_loop-cut :
    (room : ℕ) (bytes xs : List ℕ)
    → decode_loop (suc room) bytes (cut room xs) ≡ cut room (xs ++ digits_of bytes)
unfolding decode_loop
decode_loop-cut room [] xs = ap (cut room) (sym (append-nil xs))
decode_loop-cut room (ch ∷ bytes) xs =
    ap (λ r. decode_loop (suc room) bytes (put_digit (suc room) (ch / 16) r))
      (put_digit-cut room (ch % 16) xs)
    ∙ ap (decode_loop (suc room) bytes) (put_digit-cut room (ch / 16) (xs ++ digit_of (ch % 16)))
    ∙ decode_loop-cut room bytes _
    ∙ ap (cut room) (
        append_assoc (xs ++ digit_of (ch % 16)) (digit_of (ch / 16)) (digits_of bytes)
        ∙ append_assoc xs (digit_of (ch % 16)) (digit_of (ch / 16) ++ digits_of bytes)
        ∙ ap (λ l. xs ++ l)
            (sym (append_assoc (digit_of (ch % 16)) (digit_of (ch / 16)) (digits_of bytes))))

-- `decodeAddress` gives, after the prefix 0x91, the decimal digits of the bytes, the low half of a
-- byte first and halves above 9 left out, cut where the string with its end is full; with another
-- prefix it gives none.
decode_address-digits :
    (room prefix : ℕ) (bytes : List ℕ)
    → decode_address (suc room) (prefix ∷ bytes)
      ≡ some (if prefix == 145 then cut room (digits_of bytes) else ([], 0))
unfolding decode_address
decode_address-digits room prefix bytes = elim (Bool-cases (prefix == 145)) [
  | inr e ↦ rw e refl
  | inl e ↦
      rw e
        (ap some (ap (decode_loop (suc room) bytes) (cut-nil room) ∙ decode_loop-cut room bytes []))
]
