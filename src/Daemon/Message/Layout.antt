-- ===== src/Daemon/Message/Layout.antt =====
-- The two texts of a booking and the length of the buffer that holds them.
use native.Mathlib.Numerals.{add-one}
use command_stats.Common.{
  ℕ, zero, suc, ◌+◌, ◌≤◌, ◌<◌, ◌≡◌, ◌≢◌, refl, sym, ap, ◌∙◌, List, [], ◌∷◌, ◌++◌, arith, length,
  All, length-append,
}
use command_stats.Common.Outcome.{done, fault, ◌>>=◌, bind_assoc, done-injective}
use command_stats.Common.Text.{Text}
use command_stats.Daemon.Message.{
  max_log_path, BookingInfo, strcpy, strcpy_at, strlen, text_at, zeros, Getcwd, fill_booking,
  create_booking, read_booking,
}

-- a text with no zero byte, which C can hold
abbrev pub IsText : Text → Type 0
IsText t = All (λ c. c ≢ 0) t

-- What POSIX says of getcwd in the directory `cwd`: it writes the directory where it fits.
abbrev pub Writes : Getcwd → Text → Type 0
Writes getcwd cwd =
    (buffer : List ℕ) → length cwd < length buffer → strcpy cwd buffer ≡ done (getcwd buffer)

strcpy-fits :
    (t : Text) (buffer : List ℕ)
    → length t < length buffer
    → (rest : List ℕ) × (strcpy t buffer ≡ done (t ++ 0 ∷ rest))
      × (length t + 1 + length rest ≡ length buffer)
unfolding strcpy
strcpy-fits t [] h = absurd (omega arith)
strcpy-fits [] (b ∷ buffer) h = (buffer, refl, omega arith)
strcpy-fits (c ∷ t) (b ∷ buffer) h =
    let (rest, e, l) = strcpy-fits t buffer (omega arith) in (rest, rw e refl, omega arith)

strcpy-overflow : (t : Text) (buffer : List ℕ) → length buffer ≤ length t → strcpy t buffer ≡ fault
unfolding strcpy
strcpy-overflow t [] h = refl
strcpy-overflow [] (b ∷ buffer) h = absurd (omega arith)
strcpy-overflow (c ∷ t) (b ∷ buffer) h = rw (strcpy-overflow t buffer (omega arith)) refl

strlen-text : (t : Text) (rest : List ℕ) → IsText t → strlen (t ++ 0 ∷ rest) ≡ done (length t)
unfolding strlen
strlen-text [] rest h = refl
strlen-text (c ∷ t) rest h = ground (arith, strlen-text t rest h.1, h.0)

text_at-zero : (t : Text) (rest : List ℕ) → IsText t → text_at 0 (t ++ 0 ∷ rest) ≡ done t
unfolding text_at
text_at-zero [] rest h = refl
text_at-zero (c ∷ t) rest h = ground (arith, text_at-zero t rest h.1, h.0)

text_at-behind :
    (t : Text) (rest : List ℕ) → text_at (suc (length t)) (t ++ 0 ∷ rest) ≡ text_at 0 rest
unfolding text_at
text_at-behind [] rest = refl
text_at-behind (c ∷ t) rest = text_at-behind t rest

strcpy_at-behind :
    (t p : Text) (rest : List ℕ)
    → strcpy_at (suc (length t)) p (t ++ 0 ∷ rest) ≡ (strcpy p rest >>= λ r. done (t ++ 0 ∷ r))
unfolding strcpy_at
strcpy_at-behind [] p rest = refl
strcpy_at-behind (c ∷ t) p rest =
    rw (strcpy_at-behind t p rest)
      (bind_assoc (strcpy p rest) (λ r. done (t ++ 0 ∷ r)) (λ r. done (c ∷ r)))

length-zeros : (n : ℕ) → length (zeros n) ≡ n
unfolding zeros
length-zeros zero = refl
length-zeros (suc n) = ap suc (length-zeros n)

-- The buffer after getcwd, and what fill_booking makes of it.
module _ (pid : ℕ) (getcwd : Getcwd) (cwd path : Text) (buffer : List ℕ)
    (writes : Writes getcwd cwd) (text : IsText cwd) (fits : length cwd < length buffer) where
  record Started : Type 0 where
    rest : List ℕ
    written : getcwd buffer ≡ cwd ++ 0 ∷ rest
    size : length cwd + 1 + length rest ≡ length buffer
    fills :
        fill_booking pid getcwd path buffer
        ≡ (strcpy path rest >>= λ r. done (record { pid = pid; log_path = cwd ++ 0 ∷ r }))

  started : Started
  unfolding fill_booking
  started =
      let (rest, e, l) = strcpy-fits cwd buffer fits in
      let w : getcwd buffer ≡ cwd ++ 0 ∷ rest = done-injective (sym (writes buffer fits) ∙ e) in
      record {
        rest = rest;
        written = w;
        size = l;
        fills =
            rw (w, fill_booking)
              (rw (strlen-text cwd rest text) (
                rw add-one (
                  rw (strcpy_at-behind cwd path rest) (
                    bind_assoc (strcpy path rest) (λ r. done (cwd ++ 0 ∷ r))
                      (λ r. done (record { pid = pid; log_path = r }))))));
      }

  fill-read :
      IsText path
      → length cwd + length path + 2 ≤ length buffer
      → (info : BookingInfo) × (fill_booking pid getcwd path buffer ≡ done info)
        × (read_booking info ≡ done (cwd, path))
        × (info.pid ≡ pid)
        × (length info.log_path ≡ length buffer)
  unfolding read_booking
  fill-read text' room =
      let s = started in
      let (r, e, l) = strcpy-fits path s.rest (omega (arith, s.size)) in
      (
        record { pid = pid; log_path = cwd ++ 0 ∷ (path ++ 0 ∷ r) },
        s.fills ∙ rw e,
        rw (strlen-text cwd (path ++ 0 ∷ r) text, read_booking)
            (rw (text_at-zero cwd (path ++ 0 ∷ r) text) (
              rw add-one
                (rw (text_at-behind cwd (path ++ 0 ∷ r)) (rw (text_at-zero path r text') refl)))),
        refl,
        omega
            (arith, s.size, l, length-append cwd (0 ∷ (path ++ 0 ∷ r)), length-append path (0 ∷ r)),
      )

  fill-overflow :
      length buffer < length cwd + length path + 2 → fill_booking pid getcwd path buffer ≡ fault
  fill-overflow over =
      let s = started in s.fills ∙ rw (strcpy-overflow path s.rest (omega (arith, s.size)))

-- Where the directory of the tool and the path of the log have no zero byte and fit into the buffer
-- with a zero behind each, what the daemon reads of the message is this directory and this path.
pub read_booking-create_booking :
    (pid : ℕ) (getcwd : Getcwd) (cwd path : Text)
    → Writes getcwd cwd
    → IsText cwd
    → IsText path
    → length cwd + length path + 2 ≤ max_log_path
    → (info : BookingInfo) × (create_booking pid getcwd path ≡ done info)
      × (read_booking info ≡ done (cwd, path))
      × (info.pid ≡ pid)
      × (length info.log_path ≡ max_log_path)
unfolding create_booking
read_booking-create_booking pid getcwd cwd path writes text text' room =
    let l : length (zeros max_log_path) ≡ max_log_path = length-zeros max_log_path in
    let (info, e, r, p, n) =
      fill-read pid getcwd cwd path (zeros max_log_path) writes text (omega (arith, l)) text'
        (omega (arith, l)) in
    (info, e, r, p, n ∙ l)

-- Where the directory alone fits into the buffer and both texts with their zeros do not, writing the
-- message runs past the end of the buffer: a directory and a path of 2049 bytes each are enough.
pub create_booking-overflow :
    (pid : ℕ) (getcwd : Getcwd) (cwd path : Text)
    → Writes getcwd cwd
    → IsText cwd
    → length cwd < max_log_path
    → max_log_path < length cwd + length path + 2
    → create_booking pid getcwd path ≡ fault
unfolding create_booking
create_booking-overflow pid getcwd cwd path writes text fits over =
    let l : length (zeros max_log_path) ≡ max_log_path = length-zeros max_log_path in
    fill-overflow pid getcwd cwd path (zeros max_log_path) writes text (omega (arith, l))
      (omega (arith, l))
