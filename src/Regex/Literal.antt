-- ===== src/Regex/Literal.antt =====
-- The first occurrence of a text in another, which is what `regexec` finds for a pattern that is
-- that text.
use command_stats.Common.{
  ℕ, suc, ◌+◌, ◌≡◌, ◌≢◌, refl, ap, Bool, true, false, [], ◌∷◌, ◌++◌, ◌&&◌, Option, none, some,
  arith, if◌then◌else◌, ◌==◌, length, inl, inr, Bool-cases, Option-cases, ==_iff,
}
use command_stats.Common.Text.{Text}
use command_stats.Regex.{Regexec, Match, span}

unfoldable pub starts_with : Text → Text → Bool
starts_with [] s = true
starts_with (c ∷ cs) [] = false
starts_with (c ∷ cs) (d ∷ ds) = c == d && starts_with cs ds

unfoldable pub find_first : Text → Text → Option ℕ
unfolding starts_with
find_first sep [] = if starts_with sep [] then some 0 else none
find_first sep (c ∷ cs) =
    if starts_with sep (c ∷ cs)
    then some 0
    else (elim (find_first sep cs) [ none ↦ none | some i ↦ some (suc i) ])

-- the match at an index, the pattern's whole and its one group alike
unfoldable pub match_at : Text → Option ℕ → Option Match
match_at sep none = none
match_at sep (some i) =
    some (record { whole = span i (i + length sep); sub = λ _. some (span i (i + length sep)) })

-- What POSIX says of regexec for an expression that is a literal text in brackets, or without.
pub record IsLiteral (regexec : Regexec) (pattern sep : Text) : Type 0 where
  pub not_empty : sep ≢ []
  pub leftmost : (s : Text) → regexec pattern s ≡ match_at sep (find_first sep s)

starts_with-split : (sep s : Text) → starts_with sep s ≡ true → (post : Text) × (s ≡ sep ++ post)
unfolding starts_with
starts_with-split [] s h = (s, refl)
starts_with-split (c ∷ cs) [] h = absurd (ground arith)
starts_with-split (c ∷ cs) (d ∷ ds) h =
    let (post, e) = starts_with-split cs ds (ground arith) in (post, ground (arith, e, ==_iff c d))

-- A text splits at the place that is found.
pub find_first-split :
    (sep s : Text) {i : ℕ}
    → find_first sep s ≡ some i
    → (pre post : Text) × (s ≡ pre ++ (sep ++ post)) × (length pre ≡ i)
unfolding find_first
find_first-split sep [] {i} h = elim (Bool-cases (starts_with sep [])) [
  | inl b ↦ let (post, e) = starts_with-split sep [] b in ([], post, e, ground arith)
  | inr b ↦ absurd (ground arith)
]
find_first-split sep (c ∷ cs) {i} h = elim (Bool-cases (starts_with sep (c ∷ cs))) [
  | inl b ↦ let (post, e) = starts_with-split sep (c ∷ cs) b in ([], post, e, ground arith)
  | inr b ↦ elim (Option-cases (find_first sep cs)) [
    | inl none_left ↦ absurd (ground arith)
    | inr (j, found) ↦
        let (pre, post, e, l) = find_first-split sep cs found in
        (c ∷ pre, post, ap (λ (r : Text). c ∷ r) e, ground arith)
  ]
]
