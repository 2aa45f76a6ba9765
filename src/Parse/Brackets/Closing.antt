-- ===== src/Parse/Brackets/Closing.antt =====
-- remove_brackets_if_alone of src/parse/parse.c, and its test for broken groups against the brackets of the text.
use command_stats.Common.{
  ◌⊎◌, ℕ, some, zero, suc, ◌+◌, ◌≤◌, ◌<◌, ◌≡◌, refl, Bool, true, false, [], ◌∷◌, arith, ltb, ◌==◌,
  if◌then◌else◌, Bool-cases, inl, inr, take, sym, ◌∙◌, ltb→lt,
}
use mathlib.Core.Path.{subst}
use mathlib.Core.Bool.{true≢false}
use command_stats.Common.Text.{Text}
use command_stats.Common.Outcome.{done, fault}
use command_stats.Regex.{Regexec, Match, Span, create_string_from_match}
use command_stats.Parse.Brackets.{
  is_broken, match_string_inside_brackets_if_alone, remove_brackets_if_alone,
}

-- The text less its backslashes and the bytes behind them.
unfoldable pub unescaped : Bool → Text → Text
unescaped skip [] = []
unescaped skip (c ∷ cs) = elim skip [
  | true ↦ unescaped false cs
  | false ↦ elim (c == b'\\') [ true ↦ unescaped true cs | false ↦ c ∷ unescaped false cs ]
]

unfoldable pub count : ℕ → Text → ℕ
count b [] = 0
count b (c ∷ cs) = (if c == b then 1 else 0) + count b cs

-- No beginning of `s` closes more than it opens, where `o` and `c` brackets stand before it.
abbrev pub NeverBelow : ℕ → ℕ → Text → Type 0
NeverBelow o c s = (n : ℕ) → c + count b')' (take n s) ≤ o + count b'(' (take n s)

NeverBelow-nil : (o c : ℕ) → c ≤ o → NeverBelow o c []
unfolding count
NeverBelow-nil o c h zero = omega arith
NeverBelow-nil o c h (suc n) = omega arith

NeverBelow-cons :
    (o c o' c' x : ℕ) (s : Text)
    → c ≤ o
    → (o' ≡ o + (if x == b'(' then 1 else 0))
    → (c' ≡ c + (if x == b')' then 1 else 0))
    → NeverBelow o' c' s
    → NeverBelow o c (x ∷ s)
unfolding count
NeverBelow-cons o c o' c' x s h eo ec below zero = omega arith
NeverBelow-cons o c o' c' x s h eo ec below (suc n) = omega (arith, below n, eo, ec)

-- What a byte does to the two counters.
abbrev opens : ℕ → ℕ → ℕ
opens o x = o + (if x == b'(' then 1 else 0)

abbrev closes : ℕ → ℕ → ℕ
closes c x = c + (if x == b')' then 1 else 0)

module _ (o c x : ℕ) (s : Text) where
  step-escape :
      (x == b'\\') ≡ true
      → (is_broken false o c (x ∷ s) ≡ is_broken true o c s)
        × (unescaped false (x ∷ s) ≡ unescaped true s)
  unfolding is_broken unescaped
  step-escape h = (rw (h, is_broken), rw (h, unescaped))

  unescaped-visible : (x == b'\\') ≡ false → unescaped false (x ∷ s) ≡ x ∷ unescaped false s
  unfolding unescaped
  unescaped-visible h = rw (h, unescaped)

  -- A byte that is not a backslash breaks the groups at once, or moves the counters.
  broken-now : (x == b'\\') ≡ false → o < closes c x → c ≤ o → is_broken false o c (x ∷ s) ≡ true
  unfolding is_broken
  broken-now h b k = ground arith

  broken-later :
      (x == b'\\') ≡ false
      → closes c x ≤ o
      → is_broken false o c (x ∷ s) ≡ is_broken false (opens o x) (closes c x) s
  unfolding is_broken
  broken-later h b = ground arith

broken→below :
    (skip : Bool) (o c : ℕ) (s : Text)
    → c ≤ o
    → is_broken skip o c s ≡ false
    → NeverBelow o c (unescaped skip s)
unfolding unescaped
broken→below true o c [] h e = NeverBelow-nil o c h
broken→below false o c [] h e = NeverBelow-nil o c h
broken→below true o c (x ∷ s) h e = broken→below false o c s h (unfold is_broken in e)
broken→below false o c (x ∷ s) h e = elim (Bool-cases (x == b'\\')) [
  | inl b ↦
      let (t, u) = step-escape o c x s b in
      subst (NeverBelow o c) (sym u) (broken→below true o c s h (sym t ∙ e))
  | inr b ↦ elim (Bool-cases (ltb o (closes c x))) [
    | inl k ↦ absurd (true≢false (sym (broken-now o c x s b (ltb→lt o (closes c x) k) h) ∙ e))
    | inr k ↦
        let fits : closes c x ≤ o = ground arith in
        let fits' : closes c x ≤ opens o x = omega arith in
        let later =
          broken→below false (opens o x) (closes c x) s fits'
            (sym (broken-later o c x s b fits) ∙ e) in
        subst (NeverBelow o c) (sym (unescaped-visible o c x s b))
          (NeverBelow-cons o c (opens o x) (closes c x) x (unescaped false s) h refl refl later)
  ]
]

-- A beginning of `s` closes more than it opens.
abbrev pub IsAbove : ℕ → ℕ → Text → Type 0
IsAbove o c s = (n : ℕ) × (o + count b'(' (take n s) < c + count b')' (take n s))

IsAbove-head : (o c x : ℕ) (s : Text) → c ≤ o → o < closes c x → IsAbove o c (x ∷ s)
unfolding count
IsAbove-head o c x s h b = (1, ground arith)

IsAbove-cons : (o c x : ℕ) (s : Text) → IsAbove (opens o x) (closes c x) s → IsAbove o c (x ∷ s)
unfolding count
IsAbove-cons o c x s (n, b) = (suc n, omega (arith, b))

broken→above :
    (skip : Bool) (o c : ℕ) (s : Text)
    → c ≤ o
    → is_broken skip o c s ≡ true
    → IsAbove o c (unescaped skip s)
unfolding unescaped
broken→above true o c [] h e = absurd (true≢false (sym (unfold is_broken in e)))
broken→above false o c [] h e = absurd (true≢false (sym (unfold is_broken in e)))
broken→above true o c (x ∷ s) h e = broken→above false o c s h (unfold is_broken in e)
broken→above false o c (x ∷ s) h e = elim (Bool-cases (x == b'\\')) [
  | inl b ↦
      let (t, u) = step-escape o c x s b in
      subst (IsAbove o c) (sym u) (broken→above true o c s h (sym t ∙ e))
  | inr b ↦
      subst (IsAbove o c) (sym (unescaped-visible o c x s b))
        (elim (Bool-cases (ltb o (closes c x))) [
          | inl k ↦ IsAbove-head o c x (unescaped false s) h (ltb→lt o (closes c x) k)
          | inr k ↦
              let fits : closes c x ≤ o = ground arith in
              let fits' : closes c x ≤ opens o x = omega arith in
              IsAbove-cons o c x (unescaped false s) (
                broken→above false (opens o x) (closes c x) s fits'
                  (sym (broken-later o c x s b fits) ∙ e))
        ])
]

-- Where regexec finds brackets around a text, and the group is the span `s`, remove_brackets_if_alone
-- does one of two things. It returns what the span has, and no beginning of that, less what stands
-- behind backslashes, closes more brackets than it opens; or some beginning does, and it returns the
-- text as it is, if the C library bears that regfree is called again of a freed expression; else that
-- call is a fault.
pub remove_brackets-IsAbove :
    (regexec : Regexec) (regfree_again : Bool) (str : Text) (m : Match) (s : Span)
    → regexec match_string_inside_brackets_if_alone str ≡ some m
    → m.sub 1 ≡ some s
    → let inside = create_string_from_match str s in
      (NeverBelow 0 0 (unescaped false inside)
        × (remove_brackets_if_alone regexec regfree_again str ≡ done inside))
      ⊎ (IsAbove 0 0 (unescaped false inside)
          × (remove_brackets_if_alone regexec regfree_again str
              ≡ (if regfree_again then done str else fault)))
unfolding remove_brackets_if_alone
remove_brackets-IsAbove regexec regfree_again str m s found group =
    let inside = create_string_from_match str s in
    elim (Bool-cases (is_broken false 0 0 inside)) [
      | inl broken ↦ inr (
        broken→above false 0 0 inside (omega arith) broken,
        rw (found, group, broken, remove_brackets_if_alone) refl,
      )
      | inr whole ↦ inl (
        broken→below false 0 0 inside (omega arith) whole,
        rw (found, group, whole, remove_brackets_if_alone) refl,
      )
    ]
