-- ===== src/Print/Hash/Overflow.antt =====
-- How long a command may be for its hash not to overflow.
use command_stats.Common.{
  ℕ, zero, suc, ◌+◌, ◌-◌, ◌*◌, ◌/◌, ◌%◌, ◌↔◌, leb, leb→le, Bool-cases, inl, inr, ◌≡◌, ◌≤◌, ◌<◌,
  refl, [], ◌∷◌, length, arith, All,
}
use command_stats.Common.Outcome.{done, fault}
use command_stats.Common.Text.{Text}
use command_stats.Print.Hash.{add_char, hash_loop, hash}

abbrev pub IsByte : ℕ → Type 0
IsByte c = c < 256

-- a hash that overflows within `k + 1` more bytes
abbrev floor : ℕ → ℕ
floor zero = 288230376151711744
floor (suc k) = (floor k + 128) / 33 + 1

-- a hash that does not overflow within `k` more bytes, nor when a pid is added
abbrev ceiling : ℕ → ℕ
ceiling zero = 9223372034707292159
ceiling (suc k) = (ceiling k - 255) / 33

hash_loop-floor : (k : ℕ) (t : Text) (h : ℕ) → floor k ≤ h → k < length t → hash_loop t h ≡ fault
unfolding hash_loop
hash_loop-floor k [] h low long = ground arith
hash_loop-floor zero (c ∷ t) h low long = ground arith
hash_loop-floor (suc k) (c ∷ t) h low long =
    let rest = hash_loop-floor k t (add_char (h * 32 + h) c) (ground arith) (omega arith) in
    ground (arith, rest)

ceiling_bound : (k : ℕ) → ceiling k ≤ 9223372034707292159
ceiling_bound zero = omega arith
ceiling_bound (suc k) = omega (arith, ceiling_bound k)

hash_loop-ceiling :
    (k : ℕ) (t : Text) (h : ℕ)
    → All IsByte t
    → 5381 ≤ h
    → h ≤ ceiling k
    → length t ≤ k
    → (n : ℕ) × (hash_loop t h ≡ done n) × (n ≤ 9223372034707292159)
unfolding hash_loop
hash_loop-ceiling zero [] h bytes low high short = (h, refl, high)
hash_loop-ceiling (suc k) [] h bytes low high short =
    (h, refl, omega (arith, ceiling_bound (suc k)))
hash_loop-ceiling zero (c ∷ t) h bytes low high short = absurd (omega (arith, short))
hash_loop-ceiling (suc k) (c ∷ t) h bytes low high short =
    let (n, e, l) =
      hash_loop-ceiling k t (add_char (h * 32 + h) c) bytes.1 (ground arith)
        (ground (arith, bytes.0)) (omega arith) in
    (n, ground (arith, bytes.0, e, ceiling_bound k), l)

hash-short :
    (pid : ℕ) (t : Text)
    → All IsByte t
    → pid < 2147483648
    → length t ≤ 10
    → (n : ℕ) × (hash pid t ≡ done n)
unfolding hash
hash-short pid t bytes small short =
    let (n, e, l) = hash_loop-ceiling 10 t 5381 bytes (omega arith) (omega arith) short in
    ((n + pid) % 100000, rw (e, hash) (ground arith))

-- The hash of a command overflows exactly when the command has more than ten bytes, whatever they
-- and the pid are.
pub hash-overflow :
    (pid : ℕ) (t : Text) → All IsByte t → pid < 2147483648 → (hash pid t ≡ fault) ↔ (10 < length t)
unfolding hash
hash-overflow pid t bytes small = (
  (λ overflow. elim (Bool-cases (leb (length t) 10)) [
    | inl short ↦ let (n, e) = hash-short pid t bytes small (leb→le (length t) 10 short) in cc
    | inr long ↦ ground (arith, long)
  ]),
  (λ long. rw (hash_loop-floor 10 t 5381 (omega arith) long, hash) refl),
)
