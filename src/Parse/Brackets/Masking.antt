-- ===== src/Parse/Brackets/Masking.antt =====
-- The obfuscated text is a mask of the text, and hides what stands inside brackets.
use command_stats.Common.{
  ℕ, suc, ◌≡◌, refl, ap, Bool, true, false, [], ◌∷◌, ◌++◌, inl, inr, ◌⊎◌, arith, map, append_assoc,
  ◌∙◌, map-append, ◌==◌, if◌then◌else◌, length,
}
use command_stats.Common.Int.{ℤ, pos, ◌+ℤ◌, ◌-ℤ◌}
use command_stats.Common.Text.{Text}
use command_stats.Parse.Brackets.{is_positive, obfuscate_from, obfuscate_brackets_in_string}
use command_stats.Regex.Split.{Masks}

pub obfuscate-Masks : (d : ℤ) (s : Text) → Masks (obfuscate_from d s) s
unfolding obfuscate_from
obfuscate-Masks d [] = tt
obfuscate-Masks d (c ∷ cs) =
    let opened = if c == b'(' then d +ℤ pos 1 else d in
    (
      hide (is_positive opened) c,
      obfuscate-Masks (if c == b')' then opened -ℤ pos 1 else opened) cs,
    )
  where
    hide : (b : Bool) (x : ℕ) → ((if b then b'#' else x) ≡ x) ⊎ ((if b then b'#' else x) ≡ b'#')
    hide true x = inr refl
    hide false x = inl refl

pub length-obfuscate : (d : ℤ) (s : Text) → length (obfuscate_from d s) ≡ length s
unfolding obfuscate_from
length-obfuscate d [] = refl
length-obfuscate d (c ∷ cs) =
    let opened = if c == b'(' then d +ℤ pos 1 else d in
    ap suc (length-obfuscate (if c == b')' then opened -ℤ pos 1 else opened) cs)

-- The brackets of a text taken apart: plain bytes, and groups that are closed.
pub data IsBalanced : Text → Type 0 where
  empty : IsBalanced []
  plain :
      {c : ℕ} {s : Text}
      → (c == b'(') ≡ false
      → (c == b')') ≡ false
      → IsBalanced s
      → IsBalanced (c ∷ s)
  group : {s t u : Text} → IsBalanced s → IsBalanced t → u ≡ b'(' ∷ (s ++ (b')' ∷ t)) → IsBalanced u

-- every byte hidden
abbrev pub hidden : Text → Text
hidden s = map (λ _. b'#') s

one_more : (d : ℕ) → pos d +ℤ pos 1 ≡ pos (suc d)
unfolding ◌+ℤ◌
one_more d = ground arith

one_less : (d : ℕ) → pos (suc d) -ℤ pos 1 ≡ pos d
unfolding ◌-ℤ◌
one_less d = ground arith

step-open :
    (d : ℕ) (cs : Text)
    → obfuscate_from (pos d) (b'(' ∷ cs) ≡ b'#' ∷ obfuscate_from (pos (suc d)) cs
unfolding obfuscate_from
step-open d cs = rw (one_more d) (ground arith)

step-close :
    (d : ℕ) (cs : Text)
    → obfuscate_from (pos (suc d)) (b')' ∷ cs) ≡ b'#' ∷ obfuscate_from (pos d) cs
unfolding obfuscate_from
step-close d cs = rw (one_less d) (ground arith)

step-plain :
    (d c : ℕ) (cs : Text)
    → (c == b'(') ≡ false
    → (c == b')') ≡ false
    → obfuscate_from (pos (suc d)) (c ∷ cs) ≡ b'#' ∷ obfuscate_from (pos (suc d)) cs
unfolding obfuscate_from
step-plain d c cs h k = rw (h, k) (ground arith)

-- Inside a bracket a balanced text is hidden whole, and the depth is the same behind it.
inside :
    (d : ℕ) {s : Text} (r : Text)
    → IsBalanced s
    → obfuscate_from (pos (suc d)) (s ++ r) ≡ hidden s ++ obfuscate_from (pos (suc d)) r
inside d r empty = refl
inside d r (plain {c} {s} h k b) =
    step-plain d c (s ++ r) h k ∙ ap (λ (x : Text). b'#' ∷ x) (inside d r b)
inside d r (group {s} {t} b b' e) = rw e (
    simp (
      append_assoc,
      map-append,
      step-open (suc d),
      inside (suc d) (b')' ∷ (t ++ r)) b,
      step-close (suc d),
      inside d r b',
    ))

-- A group in brackets that is balanced inside is hidden whole, and the text behind it is treated as
-- if it stood alone.
pub obfuscate-group :
    {s : Text} (t : Text)
    → IsBalanced s
    → obfuscate_brackets_in_string (b'(' ∷ (s ++ (b')' ∷ t)))
      ≡ hidden (b'(' ∷ (s ++ (b')' ∷ []))) ++ obfuscate_brackets_in_string t
obfuscate-group {s} t b =
    simp (append_assoc, map-append, step-open 0, inside 0 (b')' ∷ t) b, step-close 0)
