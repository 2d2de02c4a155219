-- ===== src/Config/Tests.antt =====
-- The theorems on configurations at a small table.
use android_device_samsung_a.Base.{ℕ, suc, ◌≡◌, refl, arith, true, false, some, [], ◌∷◌, All}
use android_device_samsung_a.Text.{
  Text, strtok, token, skip, equal_text, trim_space, trim_loop, is_space,
}
use android_device_samsung_a.Config.{
  text, number, Param, Numbers, read_conf, read_conf_r, read_loop, fill_conf_item, set_entries,
  set_config_entry,
}
use android_device_samsung_a.Config.Bounds.{IsSound, read_conf-IsSound}

-- A C library that reads no digits but gives the length of the text.
abbrev measure : Text → ℕ
measure [] = 0
measure (c ∷ s) = suc (measure s)

abbrev small_numbers : Numbers ℕ ℕ
small_numbers = record { atoi = measure; strtol_16 = measure; atof = measure; zero_double = 0 }

abbrev name_param : Param ℕ ℕ
name_param = record {
  param_name = b'N' ∷ [];
  param_type = b's';
  has_ptr = true;
  value = text [];
  has_set = true;
  is_set = false;
}

abbrev count_param : Param ℕ ℕ
count_param = record {
  param_name = b'C' ∷ [];
  param_type = b'n';
  has_ptr = true;
  value = number 0;
  has_set = false;
  is_set = false;
}

-- `N = xy` and `C=0xA`
abbrev name_line : Text
name_line = b'N' ∷ b' ' ∷ b'=' ∷ b' ' ∷ b'x' ∷ b'y' ∷ []

abbrev count_line : Text
count_line = b'C' ∷ b'=' ∷ b'0' ∷ b'x' ∷ b'A' ∷ []

read_conf-reads :
    read_conf small_numbers (some (name_line ∷ count_line ∷ [])) (name_param ∷ count_param ∷ []) []
    ≡ (
      record name_param { value = text (b'x' ∷ b'y' ∷ []); is_set = true }
          ∷ record count_param { value = number 1 }
          ∷ [],
      [],
    )
unfolding read_conf read_conf_r read_loop fill_conf_item strtok token skip set_entries
    set_config_entry equal_text trim_space trim_loop is_space
read_conf-reads = refl

read_conf-IsSound_example :
    let r = read_conf small_numbers (some (name_line ∷ [])) (name_param ∷ []) (count_param ∷ []) in
    All IsSound r.0 × All IsSound r.1
read_conf-IsSound_example =
    read_conf-IsSound small_numbers (some (name_line ∷ [])) (name_param ∷ []) (count_param ∷ [])
      ((refl, omega arith), tt) (refl, tt)
