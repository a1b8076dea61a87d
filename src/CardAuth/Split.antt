-- ===== src/CardAuth/Split.antt =====
-- `strings.Split` at a character.
use Prim.Native.Char.{Char, code}
use Prim.Native.String
use Prim.Native.String.append
use lark_bridge_agent_sdk.Base.{
  String, Bool, true, ◌&&◌, not, List, [], ◌∷◌, ◌≡◌, refl, ap, ◌∙◌, nat_eq, if◌then◌else◌, arith,
}

abbrev same_char : Char → Char → Bool
same_char c d = nat_eq (code c) (code d)

-- The character in front of the first part.
unfoldable pub in_front : Char → List String → List String
in_front c [] = (String.◌∷◌ c "") ∷ []
in_front c (part ∷ parts) = String.◌∷◌ c part ∷ parts

unfoldable pub split : Char → String → List String
unfolding in_front
split sep String.[] = "" ∷ []
split sep (String.◌∷◌ c s) =
    let rest = split sep s in if same_char c sep then "" ∷ rest else in_front c rest

unfoldable pub lacks : Char → String → Bool
lacks sep String.[] = true
lacks sep (String.◌∷◌ c s) = not (same_char c sep) && lacks sep s

pub split-lacks : (sep : Char) (s : String) → lacks sep s ≡ true → split sep s ≡ s ∷ []
unfolding split lacks in_front
split-lacks sep String.[] h = refl
split-lacks sep (String.◌∷◌ c s) h = ground (arith, split-lacks sep s)

pub split-append :
    (sep : Char) (s t : String)
    → lacks sep s ≡ true
    → split sep (String.◌++◌ s (String.◌∷◌ sep t)) ≡ s ∷ split sep t
unfolding split lacks in_front
split-append sep String.[] t h =
    ap (λ u. split sep u) (append.nil (String.◌∷◌ sep t)) ∙ ground arith
split-append sep (String.◌∷◌ c s) t h =
    ap (λ u. split sep u) (append.cons c s (String.◌∷◌ sep t))
    ∙ ground (arith, split-append sep s t)

-- A text in front of a dot is the first part.
pub split-dotted :
    (s t : String)
    → lacks "." s ≡ true
    → split "." (String.◌++◌ s (String.◌++◌ "." t)) ≡ s ∷ split "." t
split-dotted s t h =
    ap (λ u. split "." (String.◌++◌ s u))
      (append.cons "." "" t ∙ ap (String.◌∷◌ ".") (append.nil t))
    ∙ split-append "." s t h
