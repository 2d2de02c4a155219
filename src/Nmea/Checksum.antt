-- ===== src/Nmea/Checksum.antt =====
-- A receiver accepts the sentence.
use Prim.Native.Nat.{bit_xor}
use android_device_samsung_a.Base.{
  ℕ, suc, ◌+◌, ◌-◌, ◌*◌, ◌/◌, ◌%◌, ◌≤◌, ◌<◌, ◌≡◌, refl, ap, ◌∙◌, Bool, true, false, Option, none,
  some, [], ◌∷◌, ◌++◌, length, length-append, take_all, ltb, ◌==◌, All, arith, if◌then◌else◌,
}
use android_device_samsung_a.Text.{Text}
use android_device_samsung_a.Nmea.{checksum_from, hex, checksum_text, put_checksum}

abbrev digit_value : ℕ → ℕ
digit_value c = if ltb c b'A' then c - b'0' else c - b'A' + 10

-- What follows the asterisk, with the XOR of what came before it: whether they agree.
abbrev agrees : ℕ → Text → Bool
agrees sum [] = false
agrees sum (h ∷ []) = false
agrees sum (h ∷ l ∷ rest) = digit_value h * 16 + digit_value l == sum

abbrev push : ℕ → Option Text → Option Text
push c none = none
push c (some s) = some (c ∷ s)

-- A receiver on what follows the first character: the text before the asterisk, if the checksum
-- agrees.
unfoldable pub received : ℕ → Text → Option Text
received sum [] = none
received sum (c ∷ s) =
    let more = received (bit_xor sum c % 256) s in
    if c == b'*' then (if agrees sum s then some [] else none) else push c more

unfoldable pub receive : Text → Option Text
receive [] = none
receive (c ∷ s) = received 0 s

agrees_sum :
    (sum : ℕ) → sum < 256 → agrees sum (hex (sum / 16) ∷ hex (sum % 16) ∷ 13 ∷ 10 ∷ []) ≡ true
agrees_sum sum h = ground arith

-- No asterisk.
abbrev pub IsPlain : ℕ → Type 0
IsPlain c = (c == b'*') ≡ false

received_lem :
    (sum : ℕ) (body : Text)
    → sum < 256
    → All IsPlain body
    → received sum (body ++ checksum_text (checksum_from sum body)) ≡ some body
unfolding received checksum_from
received_lem sum [] h all = let a = agrees_sum sum h in rw a refl
received_lem sum (c ∷ body) h (plain, all) =
    let ih = received_lem (bit_xor sum c % 256) body (omega arith) all in rw (plain, ih) refl

-- Where the sentence, its checksum and the end of the line fit the buffer, a receiver that recomputes
-- the checksum of what stands between the first character and the asterisk accepts the sentence and
-- reads the body, if that has no asterisk itself; and the length returned is that of the sentence.
pub put_checksum-received :
    (start : ℕ) (body : Text) (max_size : ℕ)
    → All IsPlain body
    → length body + 7 ≤ max_size
    → (receive (put_checksum start body max_size).0 ≡ some body)
      × (length (put_checksum start body max_size).0 ≡ (put_checksum start body max_size).1)
unfolding put_checksum receive
put_checksum-received start body max_size plain h =
    let text = checksum_text (checksum_from 0 body) in
    let whole = take_all (max_size - length body - 1 - 1) text (omega arith) in
    let long = length-append body text in
    (
      ap (λ t. received 0 (body ++ t)) whole ∙ received_lem 0 body (omega arith) plain,
      ap (λ t. suc (length (body ++ t))) whole ∙ omega arith,
    )
