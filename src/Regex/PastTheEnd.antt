-- ===== src/Regex/PastTheEnd.antt =====
-- An expression that matches the empty text at the end, such as "($)": count_occurrences_of_regex
-- steps over the terminating zero, and what it counts from there on is not in its string. The first
-- piece of the split, the only one that the parser reads, is not touched by that.
use native.Mathlib.Numerals.{add-one}
use command_stats.Common.{
  ℕ, zero, suc, ◌+◌, ◌<◌, ◌≡◌, ◌≢◌, refl, ap, ◌∙◌, List, [], ◌∷◌, some, arith, length, take, drop,
  All, leb, true,
}
use command_stats.Common.Outcome.{done, ◌>>=◌}
use command_stats.Common.Text.{Text}
use command_stats.Regex.{
  Regexec, Match, span, count_occurrences_of_regex, split_loop, split_obfuscated_string,
}

abbrev pub end_match : Text → Match
end_match s = record {
  whole = span (length s) (length s);
  sub = λ _. some (span (length s) (length s));
}

-- What POSIX says of regexec for "($)".
abbrev pub MatchesEnd : Regexec → Text → Type 0
MatchesEnd regexec pattern = (s : Text) → regexec pattern s ≡ some (end_match s)

drop-length : (s : Text) → drop (length s) s ≡ []
drop-length [] = refl
drop-length (c ∷ cs) = drop-length cs

take-length : (s : Text) → take (length s) s ≡ s
take-length [] = refl
take-length (c ∷ cs) = ap (λ (r : Text). c ∷ r) (take-length cs)

narrow : (n : ℕ) → leb n n ≡ true
narrow n = ground arith

abbrev IsFull : Text → Type 0
IsFull t = t ≢ []

module _ (regexec : Regexec) (pattern : Text) (ends : MatchesEnd regexec pattern) where
  count-step :
      (k c : ℕ) (cs t : Text) (ts : List Text)
      → count_occurrences_of_regex (suc k) regexec pattern (c ∷ cs) (t ∷ ts)
        ≡ (count_occurrences_of_regex k regexec pattern t ts >>= λ count. done (count + 1))
  unfolding count_occurrences_of_regex
  count-step k c cs t ts =
      rw (ends (c ∷ cs), count_occurrences_of_regex)
        (rw drop-length (rw (narrow (suc (length cs)))))

  count-last :
      (k c : ℕ) (cs : Text)
      → count_occurrences_of_regex (suc (suc k)) regexec pattern (c ∷ cs) [] ≡ done 1
  unfolding count_occurrences_of_regex
  count-last k c cs =
      rw (ends (c ∷ cs), count_occurrences_of_regex)
        (rw drop-length (rw (narrow (suc (length cs)))))

  -- After a text that is not empty, the count is one more than the number of texts that stand behind
  -- it in memory: for any such texts, it counts in memory that is not its string's.
  pub count-past_the_end :
      (s : Text) (beyond : List Text)
      → s ≢ []
      → All IsFull beyond
      → count_occurrences_of_regex (length beyond + 2) regexec pattern s beyond
        ≡ done (length beyond + 1)
  count-past_the_end [] beyond h all = absurd (h refl)
  count-past_the_end (c ∷ cs) [] h all = count-last 0 c cs
  count-past_the_end (c ∷ cs) (t ∷ ts) h all =
      let e : suc (length ts) + 2 ≡ suc (length ts + 2) = omega arith in
      rw e (
        count-step (length ts + 2) c cs t ts
        ∙ rw (count-past_the_end t ts all.0 all.1) (ap done (omega arith)))

  count-total :
      (k : ℕ) (s : Text) (beyond : List Text)
      → length beyond + 1 < k
      → (n : ℕ) × (count_occurrences_of_regex k regexec pattern s beyond ≡ done n)
  unfolding count_occurrences_of_regex
  count-total zero s beyond h = absurd (omega arith)
  count-total (suc k) [] beyond h = (0, refl)
  count-total (suc zero) (c ∷ cs) [] h = absurd (omega arith)
  count-total (suc (suc k)) (c ∷ cs) [] h = (1, count-last k c cs)
  count-total (suc k) (c ∷ cs) (t ∷ ts) h =
      let (n, e) = count-total k t ts (omega arith) in (n + 1, count-step k c cs t ts ∙ rw e)

  split_empty :
      (n g : ℕ) (str : Text)
      → (pieces : List Text) × (split_loop n regexec pattern g [] str ≡ done pieces)
  unfolding split_loop
  split_empty zero g str = ([], refl)
  split_empty (suc n) zero str =
      let (ps, e) = split_empty n zero str in (take 0 str ∷ ps, rw (ends [], split_loop) (rw e))
  split_empty (suc n) (suc g) str =
      let (ps, e) = split_empty n (suc g) str in (take 0 str ∷ ps, rw (ends [], split_loop) (rw e))

  split_loop-first :
      (n : ℕ) (obs str : Text)
      → length obs ≡ length str
      → (rest : List Text) × (split_loop (suc n) regexec pattern 1 obs str ≡ done (str ∷ rest))
  unfolding split_loop
  split_loop-first n obs str h =
      let (ps, e) = split_empty n 1 (drop (length obs) str) in
      (ps, rw (ends obs, split_loop) (rw drop-length (rw (e, h, take-length))))

  -- Whatever stands behind the string in memory, with fuel for that memory the split by the first
  -- group ends, and its first piece is the whole text.
  pub split_obfuscated_string-first :
      (k : ℕ) (obs str : Text) (beyond : List Text)
      → length beyond + 1 < k
      → length obs ≡ length str
      → (rest : List Text) × (split_obfuscated_string k regexec obs pattern 1 str beyond
          ≡ done (str ∷ rest))
  unfolding split_obfuscated_string
  split_obfuscated_string-first k obs str beyond f h =
      let (n, e) = count-total k obs beyond f in
      let (rest, e') = split_loop-first n obs str h in
      (rest, rw (e, split_obfuscated_string) (rw add-one e'))
