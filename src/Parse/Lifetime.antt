-- ===== src/Parse/Lifetime.antt =====
-- The compiled expressions of priority_map: initialize_parser and finalize_parser of
-- src/parse/parse.c, with compile_regex of src/common/my_regex.c.
pub mod Owned
use command_stats.Common.{
  ℕ, ◌+◌, Bool, true, false, List, [], ◌∷◌, ◌++◌, Option, none, some, if◌then◌else◌, map, ◌==◌,
}
use command_stats.Common.Outcome.{Outcome, done, fault, exited, ◌>>=◌}
use command_stats.Common.Text.{Text}
use command_stats.Parse.Operators.{
  and_separator, or_separator, pipe_separator, semicolon_separator, executable_separator,
}

-- An entry of priority_map, but for its handler; `none` is a pointer that has not been written.
-- A pointer to a
-- regex_t is the number of its block.
pub record PriorityMapEntry : Type 0 where
  pub separator_regex : Text
  pub compiled_separator : Option ℕ

abbrev pub uncompiled : Text → PriorityMapEntry
uncompiled separator = record { separator_regex = separator; compiled_separator = none }

-- The blocks of a regex_t that malloc has given, of which none is given back anywhere, and those
-- whose contents regcomp has made and regfree has not freed.
pub record Heap : Type 0 where
  pub allocated : ℕ
  pub contents : List ℕ

-- the static variables and the heap
pub record Parser : Type 0 where
  pub entries : List PriorityMapEntry
  pub parser_initialized : Bool
  pub heap : Heap

abbrev pub first_parser : Parser
first_parser = record {
  entries = map uncompiled (
      and_separator ∷ or_separator ∷ pipe_separator ∷ semicolon_separator ∷ executable_separator
      ∷ []);
  parser_initialized = false;
  heap = record { allocated = 0; contents = [] };
}

-- compile_regex: a block, and regcomp, which is the C library's, into it. The memory for the block is
-- there.
unfoldable pub compile_regex : (Text → Bool) → Text → Heap → Outcome (ℕ × Heap)
compile_regex regcomp regex heap =
    if regcomp regex
    then done (
      heap.allocated,
      record { allocated = heap.allocated + 1; contents = heap.contents ++ heap.allocated ∷ [] },
    )
    else exited 1

-- the loop of initialize_regexes
unfoldable pub initialize_regexes :
    (Text → Bool) → List PriorityMapEntry → Heap → Outcome (List PriorityMapEntry × Heap)
unfolding compile_regex
initialize_regexes regcomp [] heap = done ([], heap)
initialize_regexes regcomp (e ∷ es) heap =
    compile_regex regcomp e.separator_regex heap >>= λ (regex, h).
    initialize_regexes regcomp es h >>= λ (es', last).
    done (record e { compiled_separator = some regex } ∷ es', last)

unfoldable pub initialize_parser : (Text → Bool) → Parser → Outcome Parser
unfolding initialize_regexes
initialize_parser regcomp p =
    if p.parser_initialized
    then done p
    else (initialize_regexes regcomp p.entries p.heap >>= λ (es, h).
        done (record { entries = es; parser_initialized = true; heap = h }))

-- What the C library's regfree does to the list of contents; it must not be called of a block whose
-- contents have not been made or have been freed.
unfoldable pub regfree : ℕ → List ℕ → Outcome (List ℕ)
regfree block [] = fault
regfree block (x ∷ xs) = if block == x then done xs else (regfree block xs >>= λ ys. done (x ∷ ys))

-- the loop of finalize_regexes
unfoldable pub finalize_regexes : List PriorityMapEntry → List ℕ → Outcome (List ℕ)
unfolding regfree
finalize_regexes [] contents = done contents
finalize_regexes (e ∷ es) contents = elim e.compiled_separator [
  | none ↦ fault
  | some regex ↦ regfree regex contents >>= λ left. finalize_regexes es left
]

unfoldable pub finalize_parser : Parser → Outcome Parser
unfolding finalize_regexes
finalize_parser p =
    if p.parser_initialized
    then (finalize_regexes p.entries p.heap.contents >>= λ contents.
        done
          (record p { parser_initialized = false; heap = record (p.heap) { contents = contents } }))
    else done p

-- A call of the parser: initialize_parser, which create_node_from_string makes as well, or
-- finalize_parser.
pub data Use : Type 0 where
  initialize finalize : Use

unfoldable pub use_parser : (Text → Bool) → List Use → Parser → Outcome Parser
unfolding initialize_parser finalize_parser
use_parser regcomp [] p = done p
use_parser regcomp (initialize ∷ uses) p =
    initialize_parser regcomp p >>= λ p'. use_parser regcomp uses p'
use_parser regcomp (finalize ∷ uses) p = finalize_parser p >>= λ p'. use_parser regcomp uses p'
