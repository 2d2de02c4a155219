-- ===== src/Target/Words.antt =====
-- When the hardware is left undetermined.
use android_device_samsung_a.Base.{
  ℕ, ◌≡◌, ◌↔◌, ◌⊎◌, inl, inr, refl, sym, ap, ap₂, ◌∙◌, subst, Bool, true, false, ◌||◌, Option, none,
  some, [], ◌∷◌, ◌==◌, ==_iff, ==_refl, All, Bool-cases, arith, if◌then◌else◌,
}
use android_device_samsung_a.Text.{Text}
use android_device_samsung_a.Target.{
  hw_platform, hw_platform_dep, mdm, Platform, read_contents, read_a_line, is_qca1530, is_str_end,
  starts_with, is_line, liquid, surf, mtp, line_of, is_board, detect, loc_get_target,
}

-- A text up to the end of its line.
unfoldable pub word : Text → Text
word [] = []
word (c ∷ text) = if is_str_end c then [] else c ∷ word text

-- No byte of a text ends a line.
abbrev pub IsWord : Text → Type 0
IsWord s = All (λ c. is_str_end c ≡ false) s

tail-eq : {x y : ℕ} {xs ys : Text} → (x ∷ xs) ≡ (y ∷ ys) → xs ≡ ys
tail-eq e = cc

head-eq : {x y : ℕ} {xs ys : Text} → (x ∷ xs) ≡ (y ∷ ys) → x ≡ y
head-eq e = cc

other_head :
    (x c : ℕ) (s line : Text)
    → (x == c) ≡ false
    → (if is_str_end c then [] else c ∷ word line) ≡ x ∷ s
    → false ≡ true
other_head x c s line k e = elim (Bool-cases (is_str_end c)) [
  | inl i ↦ cc
  | inr i ↦
      let same : c ≡ x =
        head-eq (sym (ap (λ b. if◌then◌else◌ {A = Text} b [] (c ∷ word line)) i) ∙ e) in
      sym k ∙ ap (λ y. x == y) same ∙ ==_refl x
]

word-is_line : (s line : Text) → IsWord s → (is_line s line ≡ true) ↔ (word line ≡ s)
unfolding is_line word
word-is_line [] [] h = (λ e. refl, λ e. refl)
word-is_line [] (c ∷ line) h = elim (Bool-cases (is_str_end c)) [
  | inl e ↦ rw e (λ e. refl, λ e. refl)
  | inr e ↦ rw e (λ k. cc, λ k. cc)
]
word-is_line (x ∷ s) [] h = (λ e. cc, λ e. cc)
word-is_line (x ∷ s) (c ∷ line) (h, hs) =
    let rest = word-is_line s line hs in
    elim (Bool-cases (x == c)) [
      | inl k ↦
          let same : x ≡ c = (==_iff x c).0 k in
          let inside : is_str_end c ≡ false = subst (λ y. is_str_end y ≡ false) same h in
          rw (k, inside) (λ e. ap₂ (λ y ys. y ∷ ys) (sym same) (rest.0 e), λ e. rest.1 (tail-eq e))
      | inr k ↦ rw k (λ e. cc, λ e. other_head x c s line k e)
    ]

-- The platforms whose kind of GPS hardware is told by /dev/mdm.
abbrev pub IsBoard : Text → Type 0
IsBoard w = (w ≡ liquid) ⊎ (w ≡ surf) ⊎ (w ≡ mtp)

any_of :
    {P Q R : Type 0} (a b c : Bool)
    → ((a ≡ true) ↔ P)
    → ((b ≡ true) ↔ Q)
    → ((c ≡ true) ↔ R)
    → ((a || b || c) ≡ true) ↔ (P ⊎ Q ⊎ R)
any_of true b c f g h = (λ e. inl (f.0 refl), λ e. refl)
any_of false true c f g h = (λ e. inr (inl (g.0 refl)), λ e. refl)
any_of false false c f g h = (
  λ e. inr (inr (h.0 e)),
  λ e. elim e [
    | inl x ↦ ap (λ y. y || c) (f.1 x)
    | inr (inl x) ↦ ap (λ y. y || c) (g.1 x)
    | inr (inr x) ↦ h.1 x
  ],
)

is_board-IsBoard : (line : Text) → (is_board line ≡ true) ↔ IsBoard (word line)
is_board-IsBoard line =
    let l = word-is_line liquid line (refl, (refl, (refl, (refl, (refl, (refl, tt)))))) in
    let s = word-is_line surf line (refl, (refl, (refl, (refl, tt)))) in
    let m = word-is_line mtp line (refl, (refl, (refl, tt))) in
    any_of (is_line liquid line) (is_line surf line) (is_line mtp line) l s m

none_read : (o : Option Text) → ((read_contents 100 o).0 ≡ false) ↔ (o ≡ none)
none_read none = (λ e. refl, λ e. refl)
none_read (some text) = (λ e. cc, λ e. cc)

undetermined_by :
    (q a p b r : Bool) (v w x y z : ℕ)
    → ((if q
          then some v
          else if a
          then some w
          else if p
          then some x
          else if b
          then if r then some y else none
          else some z)
        ≡ none)
      ↔ ((q ≡ false) × (a ≡ false) × (p ≡ false) × (b ≡ true) × (r ≡ false))
undetermined_by q a p b r v w x y z = ground arith

-- While `gTarget` is -1, `loc_get_target` leaves it so exactly if no qca1530 is reported, the baseband
-- starts neither with auto nor with apq, the line read from the platform's file is Liquid, Surf or MTP
-- up to its end at a line feed or a carriage return, and /dev/mdm cannot be opened.
pub loc_get_target-undetermined :
    (p : Platform)
    → (loc_get_target p none ≡ none) ↔ (
        (is_qca1530 p ≡ false)
        × (starts_with (b'a' ∷ b'u' ∷ b't' ∷ b'o' ∷ []) p.baseband ≡ false)
        × (starts_with (b'a' ∷ b'p' ∷ b'q' ∷ []) p.baseband ≡ false)
        × IsBoard (word (line_of p hw_platform hw_platform_dep))
        × (p.file mdm ≡ none))
unfolding loc_get_target detect read_a_line
loc_get_target-undetermined p =
    let board = is_board-IsBoard (line_of p hw_platform hw_platform_dep) in
    let unread = none_read (p.file mdm) in
    let (there, back) =
      undetermined_by (is_qca1530 p) (starts_with (b'a' ∷ b'u' ∷ b't' ∷ b'o' ∷ []) p.baseband)
        (starts_with (b'a' ∷ b'p' ∷ b'q' ∷ []) p.baseband)
        (is_board (line_of p hw_platform hw_platform_dep)) (read_a_line p mdm 100).0 _ _ _ _ _ in
    (
      λ e. let (q, a, b, c, d) = there e in (q, a, b, board.0 c, unread.0 d),
      λ (q, a, b, c, d). back (q, a, b, board.1 c, unread.1 d),
    )
