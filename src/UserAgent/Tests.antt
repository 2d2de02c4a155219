-- ===== src/UserAgent/Tests.antt =====
-- The theorem on the user agent's encoding at a short text.
use android_device_samsung_a.Base.{ℕ, ◌≤◌, ◌≡◌, [], ◌∷◌, length, take}
use android_device_samsung_a.Text.{Text}
use android_device_samsung_a.UserAgent.{encode_in_place}
use android_device_samsung_a.UserAgent.Decoding.{decode, encoded_length, encode_in_place-decodes}

abbrev text : Text
text = b'a' ∷ b'/' ∷ b'%' ∷ b'b' ∷ []

encode_in_place-decodes_example :
    (length (encode_in_place 6 text) ≤ 5)
    × ((k : ℕ) × (decode (encode_in_place 6 text) ≡ take k text))
    × (encoded_length text ≤ 5 → decode (encode_in_place 6 text) ≡ text)
encode_in_place-decodes_example = encode_in_place-decodes 5 text
