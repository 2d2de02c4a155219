-- ===== src/UserAgent.antt =====
-- gps/loc_api/libloc_api_50001/LocEngAdapter.cpp: the encoding of the parts of the XTRA user agent, in
-- `LocSetXtraUserAgent`. Texts are the bytes before their NUL.
pub mod Decoding
mod Tests
use android_device_samsung_a.Base.{
  ℕ, zero, suc, ◌+◌, ◌-◌, Bool, true, false, Option, none, some, List, [], ◌∷◌, ◌++◌, ◌==◌, leb,
  ltb, if◌then◌else◌,
}
use android_device_samsung_a.Text.{Text}

-- The table `encodings`: the two digits that follow the percent sign.
abbrev pub encoding : ℕ → Option (ℕ × ℕ)
encoding ch =
    if ch == b'/'
    then some (b'2', b'F')
    else if ch == b'+'
    then some (b'2', b'B')
    else if ch == b'|'
    then some (b'7', b'C')
    else if ch == b'%'
    then some (b'2', b'5')
    else none

-- What a character adds to the buffer, `rest` being what comes after it for each of the two sizes.
abbrev pub put_encoded :
    (size outpos : ℕ) → ℕ → Option (ℕ × ℕ) → (plain_rest code_rest : Text) → Text
put_encoded size outpos ch none plain_rest code_rest = ch ∷ plain_rest
put_encoded size outpos ch (some (hi, lo)) plain_rest code_rest =
    if leb size (outpos + 3) then [] else b'%' ∷ hi ∷ lo ∷ code_rest

-- The loop of `encodeInPlace` from `outpos` on: what it puts into `buffer`. The inner loop copies all
-- three characters of a code, since there is room for them.
unfoldable pub encode_from : (size outpos : ℕ) → Text → Text
encode_from size outpos [] = []
encode_from size outpos (ch ∷ value) =
    let plain_rest = encode_from size (outpos + 1) value in
    let code_rest = encode_from size (outpos + 3) value in
    if ltb (outpos + 1) size
    then put_encoded size outpos ch (encoding ch) plain_rest code_rest
    else []

-- `encodeInPlace`
unfoldable pub encode_in_place : (size : ℕ) → Text → Text
encode_in_place size value = encode_from size 0 value

-- The last loop of `proc`: spaces become `#`.
unfoldable pub hash_spaces : Text → Text
hash_spaces [] = []
hash_spaces (c ∷ s) = (if c == b' ' then b'#' else c) ∷ hash_spaces s
