-- ===== src/Print/Printer.antt =====
-- The interface of a printer (src/print_results/printer.h), and what the printers take from the C
-- library.
use command_stats.Common.{ℕ, Bool, List, ◌++◌, Option, none, some}
use command_stats.Common.Int.{ℤ}
use command_stats.Common.Text.{Text}
use command_stats.Structs.Node.{NodeFields, ExecutableNode, ExecutionResult, Operator}
use command_stats.Print.Attributes.{Attribute}

-- ctime with its closing newline, the conversions of printf, WEXITSTATUS, and what a conversion
-- prints of a field that has not been written.
pub record Library : Type 0 where
  pub ctime : ℤ → Text
  pub decimal : ℤ → Text
  pub milliseconds_of_nsec : ℤ → Text
  pub milliseconds_of_usec : ℕ → Text
  pub wexitstatus : ℕ → ℕ
  pub unwritten : Text

-- PrinterContext, and the static variable `previous_value` of csv.c. `attributes_count` is the
-- length of `attributes`.
pub record Context : Type 0 where
  pub command : Text
  pub index : ℤ
  pub command_subindex : ℕ
  pub attributes : List Attribute
  pub out : Text
  pub previous_value : Bool

-- fprintf (context->out, …) of a text
abbrev pub put : Text → Context → Context
put t context = record context { out = context.out ++ t }

-- The functions of type ToString, by what of the node they read: nothing but the context, the
-- operator, an executable, and the result of an executable that has one.
abbrev pub ContextToString : Type 0
ContextToString = Context → Context

abbrev pub OperatorToString : Type 0
OperatorToString = Operator → Context → Context

abbrev pub ExecutableToString : Type 0
ExecutableToString = NodeFields → ExecutableNode → Context → Context

abbrev pub ResultToString : Type 0
ResultToString = NodeFields → ExecutionResult → Context → Context

pub record Printer : Type 0 where
  pub head : ContextToString
  pub executable_head : ExecutableToString
  pub enter_operand_node : Option OperatorToString
  pub executed_to_string : ExecutableToString
  pub invocation_failed_to_string : ResultToString
  pub pid_to_string : ResultToString
  pub exit_code_to_string : ResultToString
  pub start_time_to_string : ResultToString
  pub end_time_to_string : ResultToString
  pub total_time_to_string : ResultToString
  pub user_cpu_time_to_string : ResultToString
  pub system_cpu_time_to_string : ResultToString
  pub maximum_resident_set_size_to_string : ResultToString
  pub executable_foot : ExecutableToString
  pub exit_operand_node : Option OperatorToString
  pub foot : ContextToString

-- a field of a result by its conversion
abbrev pub shown {ℓ} : {A : Type ℓ} → Library → (A → Text) → Option A → Text
shown lib show none = lib.unwritten
shown lib show (some a) = show a
