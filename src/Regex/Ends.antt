-- ===== src/Regex/Ends.antt =====
-- Counting and splitting end for an expression that takes a byte or more, and the pieces of a split
-- are shorter than the text.
use mathlib.Core.Path.{subst}
use command_stats.Common.{
  ℕ, zero, suc, ◌+◌, ◌≤◌, ◌<◌, ◌≡◌, refl, false, List, [], ◌∷◌, none, some, arith, length, take,
  drop, leb, All, Option-cases, inl, inr, length-take, length-drop, ◌≢◌, ◌++◌, length-append, sym,
  ◌∙◌,
}
use command_stats.Common.Outcome.{
  Outcome, done, fault, Ends, bind-Ends, bind-eq-done, done-injective,
}
use command_stats.Common.Text.{Text}
use mathlib.Core.Option.{some-injective}
use command_stats.Regex.Literal.{IsLiteral, find_first, find_first-split, match_at}
use command_stats.Regex.{Regexec, Match, Span, group, count_occurrences_of_regex, split_loop}

-- What POSIX says of regexec for an expression that does not match the empty text: its match takes a
-- byte or more, inside the text.
abbrev pub TakesBytes : Regexec → Text → Type 0
TakesBytes regexec pattern =
    (t : Text) (m : Match)
    → regexec pattern t ≡ some m
    → (m.whole.rm_so < m.whole.rm_eo) × (m.whole.rm_eo ≤ length t)

-- The same of a group of the expression, where it takes part.
abbrev pub GroupTakesBytes : Regexec → Text → ℕ → Type 0
GroupTakesBytes regexec pattern g =
    (t : Text) (m : Match) (s : Span)
    → regexec pattern t ≡ some m
    → group m g ≡ some s
    → (s.rm_so < s.rm_eo) × (s.rm_eo ≤ length t)

wide : (a b : ℕ) → a < b → leb b a ≡ false
wide a b h = ground arith

module _ (regexec : Regexec) (pattern : Text) (takes : TakesBytes regexec pattern) where
  pub count-Ends :
      (k : ℕ) (s : Text) (beyond : List Text)
      → length s < k
      → Ends (count_occurrences_of_regex k regexec pattern s beyond)
  unfolding count_occurrences_of_regex
  count-Ends zero s beyond room = omega (arith, room)
  count-Ends (suc k) [] beyond room = tt
  count-Ends (suc k) (c ∷ cs) beyond room = elim (Option-cases (regexec pattern (c ∷ cs))) [
    | inl e ↦ rw (e, count_occurrences_of_regex) tt
    | inr (m, e) ↦
        let (some_bytes, inside) = takes (c ∷ cs) m e in
        rw (e, count_occurrences_of_regex)
          (rw (wide m.whole.rm_so m.whole.rm_eo some_bytes) (
            bind-Ends
              (count_occurrences_of_regex k regexec pattern (drop m.whole.rm_eo (c ∷ cs)) beyond) _
              (count-Ends k (drop m.whole.rm_eo (c ∷ cs)) beyond
                (omega (arith, length-drop m.whole.rm_eo (c ∷ cs), room, some_bytes)))
              (λ count h. tt)))
  ]

-- The bytes of the pieces, with one more for each piece.
unfoldable pub extent : List Text → ℕ
extent [] = 0
extent (p ∷ ps) = length p + 1 + extent ps

module _ (regexec : Regexec) (pattern : Text) (g : ℕ)
    (takes : GroupTakesBytes regexec pattern g) where
  last-Ends :
      (n : ℕ) (obs str : Text)
      → Ends (elim n as (λ _. Outcome (List Text)) [
        | zero ↦ done (take (length obs) str ∷ [])
        | suc _ ↦ fault
      ])
  last-Ends zero obs str = tt
  last-Ends (suc n) obs str = tt

  pub split_loop-Ends : (n : ℕ) (obs str : Text) → Ends (split_loop n regexec pattern g obs str)
  unfolding split_loop
  split_loop-Ends zero obs str = tt
  split_loop-Ends (suc n) obs str = elim (Option-cases (regexec pattern obs)) [
    | inl e ↦ rw (e, split_loop) (last-Ends n obs str)
    | inr (m, e) ↦ elim (Option-cases (group m g)) [
      | inl e' ↦ rw (e, split_loop) (rw e' tt)
      | inr (s, e') ↦
          rw (e, split_loop)
            (rw e' (
              bind-Ends (split_loop n regexec pattern g (drop s.rm_eo obs) (drop s.rm_eo str)) _
                (split_loop-Ends n (drop s.rm_eo obs) (drop s.rm_eo str)) (λ pieces h. tt)))
    ]
  ]

  last-extent :
      (n : ℕ) (obs str : Text) (pieces : List Text)
      → (elim n as (λ _. Outcome (List Text)) [
        | zero ↦ done (take (length obs) str ∷ [])
        | suc _ ↦ fault
      ])
        ≡ done pieces
      → extent pieces ≤ length str + 1
  unfolding extent
  last-extent zero obs str pieces h =
      subst (λ (ps : List Text). extent ps ≤ length str + 1) (done-injective h)
        (omega (arith, length-take (length obs) str))
  last-extent (suc n) obs str pieces h = cc

  pub split_loop-extent :
      (n : ℕ) (obs str : Text) (pieces : List Text)
      → length obs ≡ length str
      → split_loop n regexec pattern g obs str ≡ done pieces
      → extent pieces ≤ length str + 1
  unfolding split_loop extent
  split_loop-extent zero obs str pieces l h =
      subst (λ (ps : List Text). extent ps ≤ length str + 1) (done-injective h) (omega arith)
  split_loop-extent (suc n) obs str pieces l h = elim (Option-cases (regexec pattern obs)) [
    | inl e ↦ last-extent n obs str pieces (rw (e, split_loop) at h)
    | inr (m, e) ↦ elim (Option-cases (group m g)) [
      | inl e' ↦ let bad : fault ≡ done pieces = rw e' at (rw (e, split_loop) at h) in cc
      | inr (s, e') ↦
          let (rest, e'', k) =
            bind-eq-done (split_loop n regexec pattern g (drop s.rm_eo obs) (drop s.rm_eo str)) _
              (rw e' at (rw (e, split_loop) at h)) in
          let (some_bytes, inside) = takes obs m s e e' in
          let ih =
            split_loop-extent n (drop s.rm_eo obs) (drop s.rm_eo str) rest
              (omega (arith, l, length-drop s.rm_eo obs, length-drop s.rm_eo str)) e'' in
          subst (λ (ps : List Text). extent ps ≤ length str + 1) (done-injective k)
            (omega
              (arith, ih, some_bytes, inside, l, length-take s.rm_so str, length-drop s.rm_eo str))
    ]
  ]

All-shorter :
    (bound : ℕ) (pieces : List Text) → extent pieces ≤ bound → All (λ p. length p < bound) pieces
unfolding extent
All-shorter bound [] e = tt
All-shorter bound (p ∷ ps) e = (omega (arith, e), All-shorter bound ps (omega (arith, e)))

-- a piece of two or more is shorter than the text
pub piece_shorter :
    (bound : ℕ) (pieces : List Text)
    → extent pieces ≤ bound + 1
    → 1 < length pieces
    → All (λ p. length p < bound) pieces
unfolding extent
piece_shorter bound [] e more = tt
piece_shorter bound (p ∷ []) e more = absurd (omega (arith, more))
piece_shorter bound (p ∷ q ∷ ps) e more =
    (omega (arith, e), All-shorter bound (q ∷ ps) (omega (arith, e)))

not_empty-length : (sep : Text) → sep ≢ [] → 0 < length sep
not_empty-length [] h = absurd (h refl)
not_empty-length (c ∷ cs) h = omega arith

-- The expressions of "&&", "||" and ";", whose group is the whole match, are such expressions.
literal-TakesBytes :
    (regexec : Regexec) (pattern sep t : Text) (m : Match)
    → IsLiteral regexec pattern sep
    → regexec pattern t ≡ some m
    → (m.sub 1 ≡ some m.whole) × (m.whole.rm_so < m.whole.rm_eo) × (m.whole.rm_eo ≤ length t)
unfolding match_at
literal-TakesBytes regexec pattern sep t m literal h = elim (Option-cases (find_first sep t)) [
  | inl e ↦ let bad : none ≡ some m = rw (literal.leftmost t, e) at h in cc
  | inr (i, e) ↦
      let (pre, post, split, place) = find_first-split sep t e in
      let k = rw (literal.leftmost t, e) at h in
      subst
        (λ (m : Match).
          (m.sub 1 ≡ some m.whole) × (m.whole.rm_so < m.whole.rm_eo) × (m.whole.rm_eo ≤ length t))
        (some-injective _ m k)
        (
          refl,
          omega (arith, not_empty-length sep literal.not_empty),
          rw split (omega (arith, place, length-append pre (sep ++ post), length-append sep post)),
        )
]

pub literal-Takes :
    (regexec : Regexec) (pattern sep : Text)
    → IsLiteral regexec pattern sep
    → TakesBytes regexec pattern × GroupTakesBytes regexec pattern 1
literal-Takes regexec pattern sep literal = (
  λ t m h. let (g, l, r) = literal-TakesBytes regexec pattern sep t m literal h in (l, r),
  λ t m s h k.
      let (g, l, r) = literal-TakesBytes regexec pattern sep t m literal h in
      let same = some-injective m.whole s (sym g ∙ k) in
      subst (λ (s : Span). (s.rm_so < s.rm_eo) × (s.rm_eo ≤ length t)) same (l, r),
)
