-- ===== src/Target.antt =====
-- gps/utils/loc_target.cpp: which GPS hardware the device has.
--
-- Properties, files and the existence of paths are parameters; a text is the bytes before its NUL.
-- `gTarget` is `none` for (unsigned int)-1.
pub mod Words
mod Tests
use android_device_samsung_a.Base.{
  ℕ, zero, suc, ◌+◌, ◌-◌, ◌*◌, Bool, true, false, ◌&&◌, ◌||◌, not, Option, none, some, List, [],
  ◌∷◌, ◌==◌, if◌then◌else◌,
}
use android_device_samsung_a.Text.{Text, equal_text}

pub data DeviceFile : Type 0 where
  hw_platform id hw_platform_dep id_dep mdm : DeviceFile

-- What the platform answers: the property sys.qca1530 at each try, with `none` for a negative result,
-- ro.baseband, which paths exist, and the contents of the files that can be opened.
pub record Platform : Type 0 where
  pub qca1530 : ℕ → Option Text
  pub baseband : Text
  pub exists : DeviceFile → Bool
  pub file : DeviceFile → Option Text

-- `fgets` with room for so many bytes before the NUL.
unfoldable pub first_line : (room : ℕ) → Text → Text
first_line zero text = []
first_line (suc room) [] = []
first_line (suc room) (c ∷ text) = if c == 10 then c ∷ [] else c ∷ first_line room text

-- `read_a_line`: whether it returns 0, and the line.
abbrev pub read_contents : (line_size : ℕ) → Option Text → Bool × Text
read_contents line_size none = (false, [])
read_contents line_size (some text) = (true, first_line (line_size - 1) text)

unfoldable pub read_a_line : Platform → DeviceFile → (line_size : ℕ) → Bool × Text
read_a_line p path line_size = read_contents line_size (p.file path)

-- The loop of `is_qca1530`, with the tries that are left and the number of this one.
unfoldable pub try_qca1530 : Platform → (left i : ℕ) → Bool
try_qca1530 p zero i = false
try_qca1530 p (suc left) i =
    let next = try_qca1530 p left (suc i) in
    elim (p.qca1530 i) [
      | none ↦ false
      | some text ↦
          equal_text text (b'y' ∷ b'e' ∷ b's' ∷ [])
          || (equal_text text (b'd' ∷ b'e' ∷ b't' ∷ b'e' ∷ b'c' ∷ b't' ∷ []) && next)
    ]

abbrev pub is_qca1530 : Platform → Bool
is_qca1530 p = try_qca1530 p 15 0

-- IS_STR_END for a byte that is not NUL.
abbrev pub is_str_end : ℕ → Bool
is_str_end c = c == 10 || c == 13

-- `memcmp` with a constant at the start of a text.
unfoldable pub starts_with : Text → Text → Bool
starts_with [] text = true
starts_with (x ∷ xs) [] = false
starts_with (x ∷ xs) (c ∷ text) = x == c && starts_with xs text

-- The same and then IS_STR_END.
unfoldable pub is_line : Text → Text → Bool
is_line [] [] = true
is_line [] (c ∷ text) = is_str_end c
is_line (x ∷ xs) [] = false
is_line (x ∷ xs) (c ∷ text) = x == c && is_line xs text

-- `GNSS_TARGET`
pub data Gnss : Type 0 where
  gnss_none gnss_msm gnss_gss gnss_mdm gnss_qca1530 gnss_auto gnss_unknown : Gnss

abbrev pub gnss_number : Gnss → ℕ
gnss_number gnss_none = 0
gnss_number gnss_msm = 1
gnss_number gnss_gss = 2
gnss_number gnss_mdm = 3
gnss_number gnss_qca1530 = 4
gnss_number gnss_auto = 5
gnss_number gnss_unknown = 6

-- TARGET_SET
abbrev pub target_set : Gnss → (ssc : Bool) → ℕ
target_set gnss ssc = 2 * gnss_number gnss + (if ssc then 1 else 0)

abbrev pub liquid : Text
liquid = b'L' ∷ b'i' ∷ b'q' ∷ b'u' ∷ b'i' ∷ b'd' ∷ []

abbrev pub surf : Text
surf = b'S' ∷ b'u' ∷ b'r' ∷ b'f' ∷ []

abbrev pub mtp : Text
mtp = b'M' ∷ b'T' ∷ b'P' ∷ []

-- The line of one file, or of another if that does not exist.
abbrev pub line_of : Platform → (path deprecated : DeviceFile) → Text
line_of p path deprecated =
    if p.exists path then (read_a_line p path 100).1 else (read_a_line p deprecated 100).1

abbrev pub is_board : Text → Bool
is_board line = is_line liquid line || is_line surf line || is_line mtp line

-- `loc_get_target` for a `gTarget` of -1.
unfoldable pub detect : Platform → Option ℕ
detect p =
    let soc = line_of p id id_dep in
    let mpq = is_line (b'1' ∷ b'3' ∷ b'0' ∷ []) soc in
    let msm = is_line (b'1' ∷ b'4' ∷ b'2' ∷ []) soc || is_line (b'1' ∷ b'1' ∷ b'6' ∷ []) soc in
    if is_qca1530 p
    then some (target_set gnss_qca1530 false)
    else if starts_with (b'a' ∷ b'u' ∷ b't' ∷ b'o' ∷ []) p.baseband
    then some (target_set gnss_auto false)
    else if starts_with (b'a' ∷ b'p' ∷ b'q' ∷ []) p.baseband
    then some (if mpq then target_set gnss_none false else target_set gnss_gss false)
    else if is_board (line_of p hw_platform hw_platform_dep)
    then if (read_a_line p mdm 100).0 then some (target_set gnss_mdm true) else none
    else some (if msm then target_set gnss_msm false else target_set gnss_unknown false)

abbrev pub detect_if : Platform → (g_target : Option ℕ) → Option ℕ
detect_if p none = detect p
detect_if p (some target) = some target

-- `loc_get_target`: its result, which is the new `gTarget`.
unfoldable pub loc_get_target : Platform → (g_target : Option ℕ) → Option ℕ
loc_get_target p g_target = detect_if p g_target
