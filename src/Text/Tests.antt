-- ===== src/Text/Tests.antt =====
-- The theorems on texts at small texts.
use android_device_samsung_a.Base.{◌≡◌, [], ◌∷◌, take}
use android_device_samsung_a.Text.{Text, split_string}
use android_device_samsung_a.Text.Split.{split, split_string-split}

abbrev padded : Text
padded = b' ' ∷ b'a' ∷ b' ' ∷ b'b' ∷ b' ' ∷ []

split_string-split_example : split_string padded 2 b' ' ≡ take 2 (split b' ' padded)
split_string-split_example = split_string-split padded 2 b' '
