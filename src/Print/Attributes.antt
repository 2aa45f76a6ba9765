-- ===== src/Print/Attributes.antt =====
-- The attributes that can be printed: src/print_results/printer.c and printer.h.
pub mod Names
use command_stats.Common.{
  ℕ, zero, suc, ◌+◌, Bool, true, false, List, [], ◌∷◌, Option, none, some, length, if◌then◌else◌,
}
use command_stats.Common.Outcome.{Outcome, done, ◌>>=◌}
use command_stats.Common.Text.{Text, codes, text_eq}
use command_stats.Regex.{Regexec, split_string}

-- `invalid_attribute` is INVALID_ATTRIBUTE
pub data Attribute : Type 0 where
  invalid_attribute pid exit_code execution_failed start_time end_time : Attribute
  total_time user_cpu_time system_cpu_time maximum_resident_segment_size : Attribute

-- keywords, in the order of the array
abbrev pub keywords : List (Text × Attribute)
keywords =
    (codes "pid", pid)
    ∷ (codes "exit_code", exit_code)
    ∷ (codes "invocation_failed", execution_failed)
    ∷ (codes "start_time", start_time)
    ∷ (codes "end_time", end_time)
    ∷ (codes "total_time", total_time)
    ∷ (codes "user_cpu_time", user_cpu_time)
    ∷ (codes "system_cpu_time", system_cpu_time)
    ∷ (codes "maximum_resident_set_size", maximum_resident_segment_size)
    ∷ []

-- the loop of parse_attribute
unfoldable pub find_keyword : Text → List (Text × Attribute) → Attribute
find_keyword attribute_string [] = invalid_attribute
find_keyword attribute_string ((keyword, value) ∷ rest) =
    if text_eq attribute_string keyword then value else find_keyword attribute_string rest

unfoldable pub parse_attribute : Text → Attribute
unfolding find_keyword text_eq
parse_attribute attribute_string = find_keyword attribute_string keywords

-- keywords[i].value == attribute
unfoldable pub same_attribute : Attribute → Attribute → Bool
same_attribute invalid_attribute invalid_attribute = true
same_attribute pid pid = true
same_attribute exit_code exit_code = true
same_attribute execution_failed execution_failed = true
same_attribute start_time start_time = true
same_attribute end_time end_time = true
same_attribute total_time total_time = true
same_attribute user_cpu_time user_cpu_time = true
same_attribute system_cpu_time system_cpu_time = true
same_attribute maximum_resident_segment_size maximum_resident_segment_size = true
same_attribute _ _ = false

-- the loop of get_attribute_name
unfoldable pub find_value : Attribute → List (Text × Attribute) → Option Text
find_value attribute [] = none
find_value attribute ((keyword, value) ∷ rest) =
    if same_attribute value attribute then some keyword else find_value attribute rest

unfoldable pub get_attribute_name : Attribute → Option Text
unfolding find_value same_attribute
get_attribute_name attribute = find_value attribute keywords

-- The loop of parse_attributes over the pieces: an unknown name is passed over.
unfoldable pub keep_attributes : List Text → List Attribute
unfolding parse_attribute
keep_attributes [] = []
keep_attributes (piece ∷ pieces) =
    let attribute = parse_attribute piece in
    let rest = keep_attributes pieces in
    if same_attribute attribute invalid_attribute then rest else attribute ∷ rest

-- parse_attributes; `beyond` is what stands in memory behind the text
unfoldable pub parse_attributes : Regexec → Text → List Text → Outcome (List Attribute)
unfolding keep_attributes
parse_attributes regexec attributes_string beyond =
    split_string (suc (length attributes_string + length beyond + 1)) regexec attributes_string
      (codes ",") beyond
    >>= λ pieces. done (keep_attributes pieces)
