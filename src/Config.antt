-- ===== src/Config.antt =====
-- gps/utils/loc_cfg.cpp: parameters in a table are set from lines `NAME = VALUE`.
--
-- The numbers are those of the C library: `atoi`, `atof` and `strtol` with base 16 are parameters,
-- as are the types of their results. A table entry holds what its pointers point to; no two entries
-- share a variable.
pub mod Bounds
pub mod Update
mod Tests
use android_device_samsung_a.Base.{
  ℕ, zero, suc, ◌+◌, ◌-◌, ◌%◌, ◌^◌, ◌≤◌, Bool, true, false, ◌&&◌, ◌||◌, not, Option, none, some,
  List, [], ◌∷◌, ◌++◌, ◌==◌, leb, ltb, take, length, if◌then◌else◌,
}
use android_device_samsung_a.Text.{Text, trim_space, equal_text, strtok}

abbrev pub max_param_string : ℕ
max_param_string = 80

-- What a parameter is: text, or a number of either kind.
pub data Setting (N F : Type 0) : Type 0 where
  text : Text → Setting N F
  number : N → Setting N F
  float : F → Setting N F

-- `loc_param_s_type` and what its pointers point to; `has_ptr` and `has_set` say that they are not
-- NULL.
pub record Param (N F : Type 0) : Type 0 where
  pub param_name : Text
  pub param_type : ℕ
  pub has_ptr : Bool
  pub value : Setting N F
  pub has_set : Bool
  pub is_set : Bool

-- `loc_param_v_type`
pub record Value (N F : Type 0) : Type 0 where
  pub param_name : Text
  pub param_str_value : Text
  pub param_int_value : N
  pub param_double_value : F

-- The C library, and the zeros that `memset` writes.
pub record Numbers (N F : Type 0) : Type 0 where
  pub atoi : Text → N
  pub strtol_16 : Text → N
  pub atof : Text → F
  pub zero_double : F

abbrev pub to_lower : ℕ → ℕ
to_lower c = if leb b'A' c && leb c b'Z' then c + 32 else c

abbrev pub hex_digits : Text → Option Text
hex_digits (a ∷ b ∷ c ∷ s) = if (a == b'0') && (to_lower b == b'x') then some (c ∷ s) else none
hex_digits s = none

-- `num_params -= ...` on `unsigned int`.
abbrev pub less_wrapping : ℕ → ℕ → ℕ
less_wrapping a b = (a + 2 ^ 32 - b % 2 ^ 32) % 2 ^ 32

-- The tokens that the calls of `strtok_r` give; each takes a byte at least, which is the fuel.
abbrev pub tokens_from : ℕ → Option (Text × Text) → List Text
tokens_from zero r = []
tokens_from (suc k) none = []
tokens_from (suc k) (some (line, rest)) = line ∷ tokens_from k (strtok b'\n' rest)

abbrev pub tokens : Text → List Text
tokens s = tokens_from (suc (length s)) (strtok b'\n' s)

module _ {N F : Type 0} where
  -- `strlcpy` into a buffer of `LOC_MAX_PARAM_STRING + 1`.
  abbrev pub stored_text : Text → Setting N F
  stored_text s =
      if equal_text s (b'N' ∷ b'U' ∷ b'L' ∷ b'L' ∷ [])
      then text []
      else text (take max_param_string s)

  abbrev pub stored : Setting N F → Param N F → Param N F
  stored v p = record p { value = v; is_set = p.has_set || p.is_set }

  -- `loc_set_config_entry`, true for its 0.
  unfoldable pub set_config_entry : Param N F → Value N F → Bool × Param N F
  set_config_entry p v =
      if equal_text p.param_name v.param_name && p.has_ptr
      then (if p.param_type == b's'
          then (true, stored (stored_text v.param_str_value) p)
          else if p.param_type == b'n'
          then (true, stored (number v.param_int_value) p)
          else if p.param_type == b'f'
          then (true, stored (float v.param_double_value) p)
          else (false, p))
      else (false, p)

  -- The loop over the table: how many entries were set, and the table.
  unfoldable pub set_entries : List (Param N F) → Value N F → ℕ × List (Param N F)
  set_entries [] v = (0, [])
  set_entries (p ∷ ps) v =
      let r = set_config_entry p v in
      let rest = set_entries ps v in ((if r.0 then 1 else 0) + rest.0, r.1 ∷ rest.1)

  abbrev pub clear_set : List (Param N F) → List (Param N F)
  clear_set [] = []
  clear_set (p ∷ ps) = record p { is_set = if p.has_set then false else p.is_set } ∷ clear_set ps

  module _ (lib : Numbers N F) where
    abbrev pub value_by : Option Text → (name value : Text) → Value N F
    value_by (some digits) name value = record {
      param_name = name;
      param_str_value = value;
      param_int_value = lib.strtol_16 digits;
      param_double_value = lib.zero_double;
    }
    value_by none name value = record {
      param_name = name;
      param_str_value = value;
      param_int_value = lib.atoi value;
      param_double_value = lib.atof value;
    }

    -- The value for a name and a text, before they are trimmed.
    abbrev pub config_value : (name value : Text) → Value N F
    config_value name value =
        value_by (hex_digits (trim_space value)) (trim_space name) (trim_space value)

    abbrev pub fill_value : Text → Option (Text × Text) → List (Param N F) → ℕ × List (Param N F)
    fill_value name none table = (0, table)
    fill_value name (some (value, rest)) table = set_entries table (config_value name value)

    abbrev pub fill_name : Option (Text × Text) → List (Param N F) → ℕ × List (Param N F)
    fill_name none table = (0, table)
    fill_name (some (name, rest)) table = fill_value name (strtok b'=' rest) table

    -- `loc_fill_conf_item` with pointers that are not NULL.
    unfoldable pub fill_conf_item : Text → List (Param N F) → ℕ × List (Param N F)
    fill_conf_item line table = fill_name (strtok b'=' line) table

    -- The loop of `loc_read_conf_r` over what `fgets` gives.
    unfoldable pub read_loop : (num_params : ℕ) → List Text → List (Param N F) → List (Param N F)
    read_loop n [] table = table
    read_loop n (line ∷ lines) table =
        let r = fill_conf_item line table in
        let rest = read_loop (less_wrapping n r.0) lines r.1 in if n == 0 then table else rest

    -- `loc_read_conf_r`; a NULL file is `none`. The result is -1 (false) or 0.
    unfoldable pub read_conf_r : Option (List Text) → List (Param N F) → Bool × List (Param N F)
    read_conf_r none table = (false, table)
    read_conf_r (some lines) table = (true, read_loop (length table) lines (clear_set table))

    -- The loop of `loc_update_conf` over the tokens between newlines: `ret` and the table.
    unfoldable pub update_loop :
        (num_params : ℕ) → List Text → (ret : ℕ) → List (Param N F) → ℕ × List (Param N F)
    update_loop n [] ret table = (ret, table)
    update_loop n (line ∷ lines) ret table =
        let r = fill_conf_item line table in
        let rest = update_loop (less_wrapping n r.0) lines (suc ret) r.1 in
        if n == 0 then (ret, table) else rest

    -- `loc_update_conf` with pointers that are not NULL and memory for its copy; `none` is -1.
    unfoldable pub update_conf :
        (conf_data : Text) → (count : ℕ) → List (Param N F) → Option ℕ × List (Param N F)
    update_conf conf zero table = (none, table)
    update_conf conf (suc n) [] = (none, [])
    update_conf conf (suc n) (p ∷ ps) =
        let r = update_loop (length ps) (tokens (take (suc n) conf)) 0 (p ∷ ps) in (some r.0, r.1)

    -- `loc_read_conf`: the table of the caller, and the table `loc_param_table` of the log's own.
    unfoldable pub read_conf :
        (file : Option (List Text))
        → (table own : List (Param N F)) → List (Param N F) × List (Param N F)
    read_conf none table own = (table, own)
    read_conf (some lines) [] own = ([], (read_conf_r (some lines) own).1)
    read_conf (some lines) (p ∷ ps) own =
        ((read_conf_r (some lines) (p ∷ ps)).1, (read_conf_r (some lines) own).1)
