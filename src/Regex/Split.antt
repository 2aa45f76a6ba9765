-- ===== src/Regex/Split.antt =====
-- Splitting at a literal separator, on a text and on a masked copy of it.
use mathlib.Core.Path.{subst}
use native.Mathlib.Numerals.{add-one}
use command_stats.Common.{
  ℕ, zero, suc, ◌+◌, ◌<◌, ◌≡◌, ◌≢◌, refl, sym, ap, ◌∙◌, false, List, [], ◌∷◌, ◌++◌, none, some,
  arith, length, take, drop, ◌⊎◌, inl, inr, Option-cases, length-append, append_assoc, leb,
}
use command_stats.Common.Outcome.{done}
use command_stats.Common.Text.{Text}
use command_stats.Regex.{
  Regexec, Match, Span, span, group, count_occurrences_of_regex, split_loop,
  split_obfuscated_string,
}
use command_stats.Regex.Literal.{IsLiteral, find_first, match_at, find_first-split}

-- `masked` is `str` with some bytes replaced by '#'.
abbrev pub Masks : Text → Text → Type 0
Masks [] [] = Unit
Masks [] (d ∷ ds) = ⊥
Masks (c ∷ cs) [] = ⊥
Masks (c ∷ cs) (d ∷ ds) = ((c ≡ d) ⊎ (c ≡ b'#')) × Masks cs ds

abbrev pub NoMask : Text → Type 0
NoMask [] = Unit
NoMask (c ∷ cs) = (c ≢ b'#') × NoMask cs

-- the pieces, with the separator between each two
unfoldable pub join : Text → List Text → Text
join sep [] = []
join sep (p ∷ []) = p
join sep (p ∷ (q ∷ ps)) = p ++ (sep ++ join sep (q ∷ ps))

pub Masks-self : (s : Text) → Masks s s
Masks-self [] = tt
Masks-self (c ∷ cs) = (inl refl, Masks-self cs)

Masks-length : (s t : Text) → Masks s t → length s ≡ length t
Masks-length [] [] h = refl
Masks-length [] (d ∷ ds) h = absurd h
Masks-length (c ∷ cs) [] h = absurd h
Masks-length (c ∷ cs) (d ∷ ds) h = ap suc (Masks-length cs ds h.1)

take-all : (s : Text) → take (length s) s ≡ s
take-all [] = refl
take-all (c ∷ cs) = ap (λ (r : Text). c ∷ r) (take-all cs)

take-prefix : (pre rest : Text) → take (length pre) (pre ++ rest) ≡ pre
take-prefix [] rest = refl
take-prefix (c ∷ cs) rest = ap (λ (r : Text). c ∷ r) (take-prefix cs rest)

drop-at : (n : ℕ) (xs ys : Text) → n ≡ length xs → drop n (xs ++ ys) ≡ ys
drop-at zero [] ys h = refl
drop-at zero (c ∷ cs) ys h = absurd (omega arith)
drop-at (suc n) [] ys h = absurd (omega arith)
drop-at (suc n) (c ∷ cs) ys h = drop-at n cs ys (omega arith)

drop-prefix :
    (i : ℕ) (pre sep post : Text)
    → length pre ≡ i
    → drop (i + length sep) (pre ++ (sep ++ post)) ≡ post
drop-prefix i pre sep post h =
    rw (← append_assoc pre sep post)
      (drop-at (i + length sep) (pre ++ sep) post (omega (arith, length-append pre sep)))

length-pos : (sep : Text) → sep ≢ [] → 0 < length sep
length-pos [] h = absurd (h refl)
length-pos (c ∷ cs) h = omega arith

-- Under the mask a separator without '#' stands for itself.
Masks-sep :
    (sep post t : Text)
    → NoMask sep
    → Masks (sep ++ post) t
    → (post' : Text) × (t ≡ sep ++ post') × Masks post post'
Masks-sep [] post t n h = (t, refl, h)
Masks-sep (c ∷ cs) post [] n h = absurd h
Masks-sep (c ∷ cs) post (d ∷ ds) n h =
    let (post', e, m) = Masks-sep cs post ds n.1 h.1 in (post', ground (arith, e, h.0, n.0), m)

Masks-split :
    (pre sep post t : Text)
    → NoMask sep
    → Masks (pre ++ (sep ++ post)) t
    → (pre' post' : Text) × (t ≡ pre' ++ (sep ++ post'))
      × (length pre' ≡ length pre)
      × Masks post post'
Masks-split [] sep post t n h =
    let (post', e, m) = Masks-sep sep post t n h in ([], post', e, refl, m)
Masks-split (c ∷ cs) sep post [] n h = absurd h
Masks-split (c ∷ cs) sep post (d ∷ ds) n h =
    let (pre', post', e, l, m) = Masks-split cs sep post ds n h.1 in
    (d ∷ pre', post', ap (λ (r : Text). d ∷ r) e, ap suc l, m)

-- the span that a match of the separator has, whichever of the two groups is asked for
group-match_at :
    (g i : ℕ) (m : Match) (sep : Text)
    → some m ≡ match_at sep (some i)
    → (group m g ≡ some (span i (i + length sep))) × (m.whole ≡ span i (i + length sep))
unfolding match_at
group-match_at zero i m sep h = ground arith
group-match_at (suc g) i m sep h = ground arith

is_wide : (w : Span) (i n : ℕ) → w ≡ span i (i + n) → 0 < n → leb w.rm_eo w.rm_so ≡ false
is_wide w i n e h = ground arith

module _ (regexec : Regexec) (pattern sep : Text) (g : ℕ) (literal : IsLiteral regexec pattern sep)
    (plain : NoMask sep) (beyond : List Text) where
  -- Count and split agree, and the pieces make up the text.
  record Agree (k : ℕ) (obs str : Text) : Type 0 where
    count : ℕ
    pieces : List Text
    counted : count_occurrences_of_regex k regexec pattern obs beyond ≡ done count
    splits : split_loop (suc count) regexec pattern g obs str ≡ done pieces
    not_nil : pieces ≢ []
    joins : join sep pieces ≡ str
    as_many : length pieces ≡ suc count

  count-none :
      (k : ℕ) (obs : Text)
      → regexec pattern obs ≡ none
      → count_occurrences_of_regex (suc k) regexec pattern obs beyond ≡ done 0
  unfolding count_occurrences_of_regex
  count-none k [] h = refl
  count-none k (c ∷ cs) h = rw (h, count_occurrences_of_regex)

  count-some :
      (k n : ℕ) (c : ℕ) (cs post : Text) (m : Match)
      → regexec pattern (c ∷ cs) ≡ some m
      → leb m.whole.rm_eo m.whole.rm_so ≡ false
      → drop m.whole.rm_eo (c ∷ cs) ≡ post
      → count_occurrences_of_regex k regexec pattern post beyond ≡ done n
      → count_occurrences_of_regex (suc k) regexec pattern (c ∷ cs) beyond ≡ done (n + 1)
  unfolding count_occurrences_of_regex
  count-some k n c cs post m found wide rest ih =
      rw (found, count_occurrences_of_regex) (rw wide (rw (rest, ih)))

  split-none :
      (obs str : Text)
      → regexec pattern obs ≡ none
      → Masks obs str
      → split_loop 1 regexec pattern g obs str ≡ done (str ∷ [])
  unfolding split_loop
  split-none obs str h m = rw (h, split_loop) (rw (Masks-length obs str m, take-all))

  split-some :
      (n : ℕ) (obs str post post' : Text) (m : Match) (s : Span) (pieces : List Text)
      → regexec pattern obs ≡ some m
      → group m g ≡ some s
      → drop s.rm_eo obs ≡ post
      → drop s.rm_eo str ≡ post'
      → split_loop n regexec pattern g post post' ≡ done pieces
      → split_loop (suc n) regexec pattern g obs str ≡ done (take s.rm_so str ∷ pieces)
  unfolding split_loop
  split-some n obs str post post' m s pieces found grp d d' ih =
      rw (found, split_loop) (rw (grp, split_loop) (rw (d, d', ih)))

  join-cons : (p : Text) (ps : List Text) → ps ≢ [] → join sep (p ∷ ps) ≡ p ++ (sep ++ join sep ps)
  unfolding join
  join-cons p [] h = absurd (h refl)
  join-cons p (q ∷ ps) h = refl

  Agree-none :
      (k : ℕ) (obs str : Text) → Masks obs str → regexec pattern obs ≡ none → Agree (suc k) obs str
  unfolding join
  Agree-none k obs str m h = record {
    count = 0;
    pieces = str ∷ [];
    counted = count-none k obs h;
    splits = split-none obs str h m;
    not_nil = λ e. cc;
    joins = refl;
    as_many = refl;
  }

  Agree-some :
      (k : ℕ) (obs str : Text) (i : ℕ) (pre post pre' post' : Text)
      → obs ≡ pre ++ (sep ++ post)
      → length pre ≡ i
      → str ≡ pre' ++ (sep ++ post')
      → length pre' ≡ length pre
      → (m : Match) → regexec pattern obs ≡ some m
      → some m ≡ match_at sep (some i)
      → Agree k post post'
      → Agree (suc k) obs str
  Agree-some k [] str i pre post pre' post' eo li es ls m found at a = absurd (
      omega (
        arith,
        ap (length {0}) eo,
        length-append pre (sep ++ post),
        length-append sep post,
        length-pos sep literal.not_empty,
      ))
  Agree-some k (c ∷ cs) str i pre post pre' post' eo li es ls m found at a =
      let (grp, whole) = group-match_at g i m sep at in
      let rest : drop (i + length sep) (c ∷ cs) ≡ post = rw eo (drop-prefix i pre sep post li) in
      let rest' : drop (i + length sep) str ≡ post' =
        rw es (drop-prefix i pre' sep post' (ls ∙ li)) in
      let piece : take i str ≡ pre' = rw es (rw (← li, ← ls) (take-prefix pre' (sep ++ post'))) in
      record {
        count = a.count + 1;
        pieces = take i str ∷ a.pieces;
        counted =
            count-some k a.count c cs post m found
              (is_wide m.whole i (length sep) whole (length-pos sep literal.not_empty))
              (ap (λ (w : Span). drop w.rm_eo (c ∷ cs)) whole ∙ rest) a.counted;
        splits =
            split-some (a.count + 1) (c ∷ cs) str post post' m (span i (i + length sep)) a.pieces
              found grp rest rest' (rw add-one a.splits);
        not_nil = λ e. cc;
        joins = join-cons (take i str) a.pieces a.not_nil ∙ rw (piece, a.joins) (sym es);
        as_many = omega (arith, a.as_many);
      }

  Agree-all : (k : ℕ) (obs str : Text) → length obs < k → Masks obs str → Agree k obs str
  unfolding match_at
  Agree-all zero obs str h m = absurd (omega arith)
  Agree-all (suc k) obs str h m = elim (Option-cases (find_first sep obs)) [
    | inl e ↦ Agree-none k obs str m (literal.leftmost obs ∙ ap (match_at sep) e)
    | inr (i, e) ↦
        let (pre, post, eo, li) = find_first-split sep obs e in
        let (pre', post', es, ls, m') =
          Masks-split pre sep post str plain (subst (λ (t : Text). Masks t str) eo m) in
        Agree-some k obs str i pre post pre' post' eo li es ls
          (record { whole = span i (i + length sep); sub = λ _. some (span i (i + length sep)) })
          (literal.leftmost obs ∙ ap (match_at sep) e) refl
          (Agree-all k post post'
            (omega (
              arith,
              h,
              ap (length {0}) eo,
              length-append pre (sep ++ post),
              length-append sep post,
              length-pos sep literal.not_empty,
            ))
            m')
  ]

  -- With a literal separator, whichever group of its match is asked for, and fuel above the length
  -- of the masked text, split_obfuscated_string ends without a fault, and its pieces with the
  -- separator between each two are the text that was split: nothing is lost.
  pub split_obfuscated_string-join :
      (k : ℕ) (obs str : Text)
      → length obs < k
      → Masks obs str
      → (pieces : List Text) × (split_obfuscated_string k regexec obs pattern g str beyond
          ≡ done pieces)
        × (join sep pieces ≡ str)
  unfolding split_obfuscated_string
  split_obfuscated_string-join k obs str h m =
      let a = Agree-all k obs str h m in
      (a.pieces, rw (a.counted, split_obfuscated_string) (rw add-one a.splits), a.joins)

  -- Where the expression matches nowhere, the text is its only piece.
  pub split_obfuscated_string-whole :
      (k : ℕ) (obs str : Text)
      → regexec pattern obs ≡ none
      → Masks obs str
      → split_obfuscated_string (suc k) regexec obs pattern g str beyond ≡ done (str ∷ [])
  unfolding split_obfuscated_string
  split_obfuscated_string-whole k obs str h m =
      rw (count-none k obs h, split_obfuscated_string) (rw add-one (split-none obs str h m))
