-- ===== src/Parse/Lifetime/Owned.antt =====
-- What priority_map points to, over any number of initialize_parser and finalize_parser.
use command_stats.Common.{
  ℕ, zero, suc, ◌+◌, ◌*◌, ◌<◌, ◌≡◌, refl, sym, ap, ◌∙◌, Bool, true, false, List, [], ◌∷◌, ◌++◌,
  none, some, arith, append_assoc, append-nil, length, All, if◌then◌else◌, ==_iff,
}
use command_stats.Common.Outcome.{done}
use command_stats.Common.Text.{Text}
use command_stats.Parse.Lifetime.{
  PriorityMapEntry, Heap, Parser, first_parser, compile_regex, initialize_regexes,
  initialize_parser, regfree, finalize_regexes, finalize_parser, Use, initialize, finalize,
  use_parser,
}

-- `k` numbers from `n` on
abbrev from : ℕ → ℕ → List ℕ
from n zero = []
from n (suc k) = n ∷ from (n + 1) k

-- the pointers of entries that have been written
abbrev pub regexes : List PriorityMapEntry → List ℕ
regexes [] = []
regexes (e ∷ es) = elim e.compiled_separator [ none ↦ regexes es | some regex ↦ regex ∷ regexes es ]

-- How often the expressions are compiled, and whether the parser is initialized at the end, where
-- `on` says whether it is at first.
abbrev pub compilations : Bool → List Use → ℕ
compilations on [] = 0
compilations true (initialize ∷ uses) = compilations true uses
compilations false (initialize ∷ uses) = compilations true uses + 1
compilations on (finalize ∷ uses) = compilations false uses

abbrev pub is_on : Bool → List Use → Bool
is_on on [] = on
is_on on (initialize ∷ uses) = is_on true uses
is_on on (finalize ∷ uses) = is_on false uses

abbrev pub Compiles : (Text → Bool) → List PriorityMapEntry → Type 0
Compiles regcomp es = All (λ e. regcomp e.separator_regex ≡ true) es

abbrev AreCompiled : List PriorityMapEntry → Type 0
AreCompiled es = All (λ e. (regex : ℕ) × (e.compiled_separator ≡ some regex)) es

length-regexes : (es : List PriorityMapEntry) → AreCompiled es → length (regexes es) ≡ length es
length-regexes [] h = refl
length-regexes (e ∷ es) h = rw h.0.1 (ap suc (length-regexes es h.1))

initialize_regexes-from :
    (regcomp : Text → Bool) (es : List PriorityMapEntry) (heap : Heap)
    → Compiles regcomp es
    → (es' : List PriorityMapEntry) × (initialize_regexes regcomp es heap
        ≡ done (
          es',
          record {
            allocated = heap.allocated + length es;
            contents = heap.contents ++ regexes es';
          },
        ))
      × (length es' ≡ length es)
      × Compiles regcomp es'
      × AreCompiled es'
unfolding initialize_regexes compile_regex
initialize_regexes-from regcomp [] heap ok =
    let sum : heap.allocated + 0 ≡ heap.allocated = omega arith in
    ([], rw (sum, append-nil heap.contents) refl, refl, tt, tt)
initialize_regexes-from regcomp (e ∷ es) heap ok =
    let n = heap.allocated in
    let sum : n + 1 + length es ≡ n + suc (length es) = omega arith in
    let (es', h, same, ok', compiled) =
      initialize_regexes-from regcomp es
        (record { allocated = n + 1; contents = heap.contents ++ n ∷ [] }) ok.1 in
    (
      record e { compiled_separator = some n } ∷ es',
      rw (ok.0, h, sum, append_assoc heap.contents (n ∷ []) (regexes es')) refl,
      ap suc same,
      (ok.0, ok'),
      ((n, refl), compiled),
    )

regfree-head : (block : ℕ) (left : List ℕ) → regfree block (block ∷ left) ≡ done left
unfolding regfree
regfree-head block left = rw ((==_iff block block).1 refl) refl

finalize_regexes-head :
    (e : PriorityMapEntry) (es : List PriorityMapEntry) (block : ℕ) (left : List ℕ)
    → e.compiled_separator ≡ some block
    → finalize_regexes (e ∷ es) (block ∷ left) ≡ finalize_regexes es left
unfolding finalize_regexes
finalize_regexes-head e es block left h = rw (h, regfree-head block left) refl

finalize_regexes-all :
    (es : List PriorityMapEntry) → AreCompiled es → finalize_regexes es (regexes es) ≡ done []
unfolding finalize_regexes
finalize_regexes-all [] h = refl
finalize_regexes-all (e ∷ es) h =
    let first : regexes (e ∷ es) ≡ h.0.0 ∷ regexes es = rw h.0.1 refl in
    ap (finalize_regexes (e ∷ es)) first
    ∙ finalize_regexes-head e es h.0.0 (regexes es) h.0.1
    ∙ finalize_regexes-all es h.1

-- the number of expressions
abbrev pub operators_count : ℕ
operators_count = 5

-- What holds between two calls of the parser, after `c` compilations of its expressions.
record IsOwned (regcomp : Text → Bool) (c : ℕ) (p : Parser) : Type 0 where
  size : length p.entries ≡ operators_count
  compiles : Compiles regcomp p.entries
  blocks : p.heap.allocated ≡ operators_count * c
  owned : p.heap.contents ≡ (if p.parser_initialized then regexes p.entries else [])
  was_compiled : p.parser_initialized ≡ true → 0 < c
  are_compiled : 0 < c → AreCompiled p.entries

-- A call of the parser from one such state to another.
module _ (regcomp : Text → Bool) (c : ℕ) (p : Parser) (i : IsOwned regcomp c p) where
  initialize_parser-on : p.parser_initialized ≡ true → initialize_parser regcomp p ≡ done p
  unfolding initialize_parser
  initialize_parser-on e = rw e refl

  initialize_parser-off :
      p.parser_initialized ≡ false
      → (p' : Parser) × (initialize_parser regcomp p ≡ done p')
        × IsOwned regcomp (c + 1) p'
        × (p'.parser_initialized ≡ true)
  unfolding initialize_parser
  initialize_parser-off e =
      let (es, h, same, ok, compiled) =
        initialize_regexes-from regcomp p.entries p.heap i.compiles in
      let empty : p.heap.contents ≡ [] = rw e at i.owned in
      (
        record {
          entries = es;
          parser_initialized = true;
          heap = record {
            allocated = p.heap.allocated + length p.entries;
            contents = p.heap.contents ++ regexes es;
          };
        },
        rw (e, h) refl,
        record {
          size = same ∙ i.size;
          compiles = ok;
          blocks = omega (arith, i.blocks, i.size);
          owned = rw empty refl;
          was_compiled = λ _. omega arith;
          are_compiled = λ _. compiled;
        },
        refl,
      )

  finalize_parser-off : p.parser_initialized ≡ false → finalize_parser p ≡ done p
  unfolding finalize_parser
  finalize_parser-off e = rw e refl

  finalize_parser-on :
      p.parser_initialized ≡ true
      → (p' : Parser) × (finalize_parser p ≡ done p')
        × IsOwned regcomp c p'
        × (p'.parser_initialized ≡ false)
  unfolding finalize_parser
  finalize_parser-on e =
      let holds : p.heap.contents ≡ regexes p.entries = rw e at i.owned in
      let all = finalize_regexes-all p.entries (i.are_compiled (i.was_compiled e)) in
      (
        record p { parser_initialized = false; heap = record (p.heap) { contents = [] } },
        rw (e, holds, all) refl,
        record {
          size = i.size;
          compiles = i.compiles;
          blocks = i.blocks;
          owned = refl;
          was_compiled = λ e'. cc;
          are_compiled = i.are_compiled;
        },
        refl,
      )

use_parser-IsOwned :
    (regcomp : Text → Bool) (uses : List Use) (c : ℕ) (p : Parser) (on : Bool)
    → p.parser_initialized ≡ on
    → IsOwned regcomp c p
    → (p' : Parser) × (use_parser regcomp uses p ≡ done p')
      × IsOwned regcomp (c + compilations on uses) p'
      × (p'.parser_initialized ≡ is_on on uses)
unfolding use_parser
use_parser-IsOwned regcomp [] c p on e i =
    let sum : c + 0 ≡ c = omega arith in (p, refl, rw sum i, e)
use_parser-IsOwned regcomp (initialize ∷ uses) c p true e i =
    rw (initialize_parser-on regcomp c p i e) (use_parser-IsOwned regcomp uses c p true e i)
use_parser-IsOwned regcomp (initialize ∷ uses) c p false e i =
    let (q, h, j, on) = initialize_parser-off regcomp c p i e in
    let (p', h', j', e') = use_parser-IsOwned regcomp uses (c + 1) q true on j in
    let sum : c + 1 + compilations true uses ≡ c + (compilations true uses + 1) = omega arith in
    (p', rw (h, use_parser) h', rw (sym sum) j', e')
use_parser-IsOwned regcomp (finalize ∷ uses) c p true e i =
    let (q, h, j, off) = finalize_parser-on regcomp c p i e in
    let (p', h', j', e') = use_parser-IsOwned regcomp uses c q false off j in
    (p', rw (h, use_parser) h', j', e')
use_parser-IsOwned regcomp (finalize ∷ uses) c p false e i =
    rw (finalize_parser-off regcomp c p i e) (use_parser-IsOwned regcomp uses c p false e i)

-- Where regcomp takes the separators, the parser can be initialized and finalized in any order and
-- any number of times: regfree is called of no pointer that has not been written, and of none whose
-- contents have been freed. While the parser is initialized, the contents that have not been freed
-- are those that priority_map points to; while it is not, all have been freed, but priority_map
-- still points to the blocks once they have been compiled. The blocks themselves are never given
-- back: each compilation allocates five more.
pub use_parser-owned :
    (regcomp : Text → Bool) (uses : List Use)
    → Compiles regcomp first_parser.entries
    → (p : Parser) × (use_parser regcomp uses first_parser ≡ done p)
      × (p.parser_initialized ≡ is_on false uses)
      × (p.heap.contents ≡ (if is_on false uses then regexes p.entries else []))
      × (0 < compilations false uses → length (regexes p.entries) ≡ operators_count)
      × (p.heap.allocated ≡ operators_count * compilations false uses)
use_parser-owned regcomp uses compiles =
    let first : IsOwned regcomp 0 first_parser = record {
      size = refl;
      compiles = compiles;
      blocks = refl;
      owned = refl;
      was_compiled = λ e. cc;
      are_compiled = λ h. absurd (omega (arith, h));
    } in
    let (p, h, i, e) = use_parser-IsOwned regcomp uses 0 first_parser false refl first in
    (
      p,
      h,
      e,
      rw (sym e) i.owned,
      λ c. length-regexes p.entries (i.are_compiled (omega (arith, c))) ∙ i.size,
      omega (arith, i.blocks),
    )
