-- ===== src/Base/Text.antt =====
-- Texts read character by character: Go's runes, `strings.TrimSpace`, `HasPrefix` and `TrimPrefix`.
use Prim.Native.Char.{Char, code}
use Prim.Native.Nat.{ℕ, zero, suc, ◌-◌, ◌≤◌, ◌<◌}
use mathlib.Core.Logic.{◌⊎◌, inl, inr}
use Prim.Native.String
use Prim.Native.String.append
use Prim.Native.String.{String}
use mathlib.Core.Path.{◌≡◌, refl, ap, ◌∙◌}
use mathlib.Core.Bool.{Bool, true, false, ◌&&◌, ◌||◌}
use mathlib.Core.Option.{Option, none, some}
use mathlib.Core.List.{List, [], ◌∷◌}
use text.Mathlib.Text.{◌==◌}
use text.Mathlib.TextEquality.{Char-path}
use native.Mathlib.Omega.{arith}
use lark_bridge_agent_sdk.Base.Tests.{if◌then◌else◌, nat_eq, leb, is_some}

abbrev pub same_char : Char → Char → Bool
same_char c d = nat_eq (code c) (code d)

pub same_char-eq : (c d : Char) → same_char c d ≡ true → c ≡ d
same_char-eq c d h = Char-path c d (ground arith)

-- `unicode.IsSpace`.
unfoldable pub is_space : Char → Bool
is_space c =
    (leb 9 (code c) && leb (code c) 13)
    || nat_eq (code c) 32
    || nat_eq (code c) 0x85
    || nat_eq (code c) 0xa0
    || nat_eq (code c) 0x1680
    || (leb 0x2000 (code c) && leb (code c) 0x200a)
    || nat_eq (code c) 0x2028
    || nat_eq (code c) 0x2029
    || nat_eq (code c) 0x202f
    || nat_eq (code c) 0x205f
    || nat_eq (code c) 0x3000

-- Whether `strings.TrimSpace` leaves nothing.
unfoldable pub is_blank : String → Bool
is_blank String.[] = true
is_blank (String.◌∷◌ c s) = is_space c && is_blank s

-- What follows a prefix.
unfoldable pub strip_prefix : String → String → Option String
strip_prefix String.[] t = some t
strip_prefix (String.◌∷◌ c s) String.[] = none
strip_prefix (String.◌∷◌ c s) (String.◌∷◌ d t) =
    let rest = strip_prefix s t in if same_char c d then rest else none

abbrev pub is_empty : String → Bool
is_empty String.[] = true
is_empty (String.◌∷◌ c s) = false

unfoldable pub runes : String → ℕ
runes String.[] = 0
runes (String.◌∷◌ c s) = suc (runes s)

unfoldable pub take_runes : ℕ → String → String
take_runes zero s = ""
take_runes (suc n) String.[] = ""
take_runes (suc n) (String.◌∷◌ c s) = String.◌∷◌ c (take_runes n s)

unfoldable pub drop_runes : ℕ → String → String
drop_runes zero s = s
drop_runes (suc n) String.[] = ""
drop_runes (suc n) (String.◌∷◌ c s) = drop_runes n s

pub take-drop_runes : (n : ℕ) (s : String) → String.◌++◌ (take_runes n s) (drop_runes n s) ≡ s
unfolding take_runes drop_runes
take-drop_runes zero s = append.nil s
take-drop_runes (suc n) String.[] = append.nil ""
take-drop_runes (suc n) (String.◌∷◌ c s) =
    append.cons c (take_runes n s) (drop_runes n s) ∙ ap (String.◌∷◌ c) (take-drop_runes n s)

pub strip_prefix-append : (s t : String) → strip_prefix s (String.◌++◌ s t) ≡ some t
unfolding strip_prefix
strip_prefix-append String.[] t = ap some (append.nil t)
strip_prefix-append (String.◌∷◌ c s) t =
    ap (strip_prefix (String.◌∷◌ c s)) (append.cons c s t) ∙ ground (arith, strip_prefix-append s t)

pub runes-drop : (n : ℕ) (s : String) → runes (drop_runes n s) ≡ runes s - n
unfolding runes drop_runes
runes-drop zero s = ground arith
runes-drop (suc n) String.[] = ground arith
runes-drop (suc n) (String.◌∷◌ c s) = ground (arith, runes-drop n s)

pub strip_prefix-length :
    (s t : String) → (r : String) → strip_prefix s t ≡ some r → runes r ≤ runes t
unfolding strip_prefix runes
strip_prefix-length String.[] t r h = ground arith
strip_prefix-length (String.◌∷◌ c s) String.[] r h = ground arith
strip_prefix-length (String.◌∷◌ c s) (String.◌∷◌ d t) r h =
    ground (arith, strip_prefix-length s t r)

pub runes_zero : (s : String) → runes s ≡ 0 → s ≡ ""
unfolding runes
runes_zero String.[] h = refl
runes_zero (String.◌∷◌ c s) h = ground arith

pub take_runes-nonempty :
    (n : ℕ) (s : String) → 1 ≤ runes s → is_empty (take_runes (suc n) s) ≡ false
unfolding take_runes runes
take_runes-nonempty n String.[] h = ground arith
take_runes-nonempty n (String.◌∷◌ c s) h = refl

pub is_empty-eq : (s : String) → is_empty s ≡ true → s ≡ ""
is_empty-eq String.[] h = refl
is_empty-eq (String.◌∷◌ c s) h = ground arith

-- A text loses at least one rune to a non-empty prefix.
pub runes-drop_suc :
    (n : ℕ) (s : String)
    → (is_empty (drop_runes (suc n) s) ≡ true) ⊎ (runes (drop_runes (suc n) s) < runes s)
unfolding drop_runes runes
runes-drop_suc n String.[] = inl refl
runes-drop_suc n (String.◌∷◌ c s) = inr (ground (arith, runes-drop n s))

unfoldable pub trim_left : String → String
trim_left String.[] = ""
trim_left (String.◌∷◌ c s) = if is_space c then trim_left s else String.◌∷◌ c s

unfoldable pub trim_right : String → String
trim_right String.[] = ""
trim_right (String.◌∷◌ c s) =
    let rest = trim_right s in if is_empty rest && is_space c then "" else String.◌∷◌ c rest

-- `strings.TrimSpace`.
abbrev pub trim_space : String → String
trim_space s = trim_right (trim_left s)

abbrev after_char : Char → Option String → Option String
after_char c none = none
after_char c (some s) = some (String.◌∷◌ c s)

-- What stands before a suffix.
unfoldable pub strip_suffix : String → String → Option String
strip_suffix suffix String.[] = if is_empty suffix then some "" else none
strip_suffix suffix (String.◌∷◌ c s) =
    let rest = after_char c (strip_suffix suffix s) in
    if suffix == String.◌∷◌ c s then some "" else rest

-- `strings.Contains`.
unfoldable pub contains : String → String → Bool
contains String.[] part = is_empty part
contains (String.◌∷◌ c s) part = is_some (strip_prefix part (String.◌∷◌ c s)) || contains s part

-- `strings.ContainsAny`.
unfoldable pub contains_any : String → String → Bool
contains_any String.[] chars = false
contains_any (String.◌∷◌ c s) chars = contains chars (String.◌∷◌ c "") || contains_any s chars

unfoldable gather : String → List String → List String
gather word words = if is_empty word then words else word ∷ words

-- The first word of a text, which may be empty, and the other words.
unfoldable words_of : String → String × List String
unfolding gather
words_of String.[] = ("", [])
words_of (String.◌∷◌ c s) =
    let (word, words) = words_of s in
    if is_space c then ("", gather word words) else (String.◌∷◌ c word, words)

-- `strings.Fields`.
unfoldable pub fields : String → List String
unfolding words_of gather
fields s = let (word, words) = words_of s in gather word words
