-- ===== src/Presenter/Search.antt =====
-- internal/app/impresenter/card_rollover.go: the binary search against a search from the top.
use lark_bridge_agent_sdk.Base.{
  ℕ, zero, suc, ◌+◌, ◌-◌, ◌/◌, ◌≤◌, String, ◌≡◌, refl, ap, Bool, true, false, ◌&&◌, arith,
  if◌then◌else◌, Bool-cases, inl, inr, ◌⊎◌, leb, ltb, nat_eq, if-lift, ◌∙◌,
}
use lark_bridge_agent_sdk.Base.Text.{runes, take_runes}
use lark_bridge_agent_sdk.Presenter.Prefix.{search, fitting_length, fitting_string_prefix}

-- The greatest number up to a limit that fits, and 0 where none does.
unfoldable pub longest : (ℕ → Bool) → ℕ → ℕ
longest fits zero = 0
longest fits (suc n) = let rest = longest fits n in if fits (suc n) then suc n else rest

-- What is cut off by trying the lengths from the longest down.
unfoldable pub longest_prefix : (String → Bool) → String → String
unfolding longest
longest_prefix fits content =
    let n = longest (λ k. fits (take_runes k content)) (runes content) in
    take_runes (if nat_eq n 0 then 1 else n) content

-- A shorter text fits where a longer one does.
abbrev pub Shrinks : (ℕ → Bool) → Type 0
Shrinks fits = (a b : ℕ) → a ≤ b → fits b ≡ true → fits a ≡ true

longest-above : (fits : ℕ → Bool) (n k : ℕ) → k ≤ n → fits k ≡ true → k ≤ longest fits n
unfolding longest
longest-above fits zero k h fit = h
longest-above fits (suc n) k h fit = elim (Bool-cases (leb k n)) [
  | inl below ↦
      let rest = longest-above fits n k (ground arith) fit in
      if-lift (λ m. k ≤ m) (fits (suc n)) (suc n) (longest fits n) h rest
  | inr above ↦ let top : fits (suc n) ≡ true = ap fits (k_top above) ∙ fit in ground arith
]
  where
    k_top : leb k n ≡ false → suc n ≡ k
    k_top above = ground arith

longest-fits : (fits : ℕ → Bool) (n : ℕ) → (longest fits n ≡ 0) ⊎ (fits (longest fits n) ≡ true)
unfolding longest
longest-fits fits zero = inl refl
longest-fits fits (suc n) = either (fits (suc n)) refl (longest-fits fits n)
  where
    Fit : ℕ → Type 0
    Fit m = (m ≡ 0) ⊎ (fits m ≡ true)

    either :
        (fit : Bool)
        → fits (suc n) ≡ fit
        → Fit (longest fits n)
        → Fit (if fit then suc n else longest fits n)
    either true e rest = inr e
    either false e rest = rest

longest-below :
    (fits : ℕ → Bool) (n k : ℕ) → Shrinks fits → 1 ≤ k → fits k ≡ false → longest fits n ≤ k - 1
longest-below fits n k shrinks h fit = elim (longest-fits fits n) [
  | inl none ↦ ground arith
  | inr some ↦ elim (Bool-cases (leb k (longest fits n))) [
    | inl over ↦ ground (arith, shrinks k (longest fits n) (ground arith) some)
    | inr under ↦ ground arith
  ]
]

-- What the loop keeps: the greatest length lies between `best` and `high`.
abbrev Finds : (ℕ → Bool) → ℕ → ℕ → Type 0
Finds fits n fuel =
    (low high best : ℕ)
    → best + 1 ≡ low
    → best ≤ longest fits n
    → longest fits n ≤ high
    → high ≤ n
    → high + 1 ≤ fuel + low
    → search fits fuel low high best ≡ longest fits n

search_round :
    (fits : ℕ → Bool) (n : ℕ)
    → Shrinks fits
    → (fuel : ℕ) → Finds fits n fuel
    → (low high best : ℕ) → best + 1 ≡ low
    → best ≤ longest fits n
    → longest fits n ≤ high
    → high ≤ n
    → high + 1 ≤ suc fuel + low
    → low ≤ high
    → (middle : ℕ) → middle ≡ low + (high - low) / 2
    → (fit : Bool) → fits middle ≡ fit
    → search fits fuel
        (if fit then middle + 1 else low)
        (if fit then high else middle - 1)
        (if fit then middle else best)
      ≡ longest fits n
search_round fits n shrinks fuel again low high best h₁ h₂ h₃ h₄ h₅ within middle m true e =
    again (middle + 1) high middle refl (longest-above fits n middle (ground arith) e) h₃ h₄
      (ground arith)
search_round fits n shrinks fuel again low high best h₁ h₂ h₃ h₄ h₅ within middle m false e =
    again low (middle - 1) best h₁ h₂ (longest-below fits n middle shrinks (ground arith) e)
      (ground arith) (ground arith)

search-longest : (fits : ℕ → Bool) (n : ℕ) → Shrinks fits → (fuel : ℕ) → Finds fits n fuel
unfolding search
search-longest fits n shrinks zero low high best h₁ h₂ h₃ h₄ h₅ = ground arith
search-longest fits n shrinks (suc fuel) low high best h₁ h₂ h₃ h₄ h₅ =
    elim (Bool-cases (leb low high)) [
      | inl within ↦
          let middle = low + (high - low) / 2 in
          ground (
            arith,
            search_round fits n shrinks fuel (search-longest fits n shrinks fuel) low high best h₁
                h₂ h₃ h₄ h₅ (ground arith) middle refl (fits middle) refl,
          )
      | inr empty ↦ ground arith
    ]

longest_bound : (fits : ℕ → Bool) (n : ℕ) → longest fits n ≤ n
unfolding longest
longest_bound fits zero = ground arith
longest_bound fits (suc n) = ground (arith, longest_bound fits n)

-- The binary search takes the longest text that fits, as the search from the top does, when a
-- shorter text fits wherever a longer one does. A text of which no part fits is cut after one rune.
pub fitting_string_prefix-longest :
    (fits : String → Bool) (content : String)
    → Shrinks (λ k. fits (take_runes k content))
    → fitting_string_prefix fits content ≡ longest_prefix fits content
unfolding fitting_string_prefix longest_prefix fitting_length runes take_runes
fitting_string_prefix-longest fits String.[] shrinks = refl
fitting_string_prefix-longest fits (String.◌∷◌ c s) shrinks =
    let Fits : ℕ → Bool = λ k. fits (take_runes k (String.◌∷◌ c s)) in
    let n = suc (runes s) in
    let same : search Fits n 1 n 0 ≡ longest Fits n =
      search-longest Fits n shrinks n 1 n 0 refl (ground arith) (longest_bound Fits n)
        (ground arith) (ground arith) in
    let length : fitting_length Fits n ≡ (if nat_eq (longest Fits n) 0 then 1 else longest Fits n) =
      cut_length (runes s) (search Fits n 1 n 0) (longest Fits n) same in
    ap (λ m. take_runes m (String.◌∷◌ c s)) length
  where
    cut_length :
        (n m k : ℕ)
        → m ≡ k
        → (if nat_eq m 0 && ltb 0 (suc n) then 1 else m) ≡ (if nat_eq k 0 then 1 else k)
    cut_length n m k h = ground arith
