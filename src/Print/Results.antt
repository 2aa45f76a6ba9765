-- ===== src/Print/Results.antt =====
-- src/print_results/print_results.c: the choice of a printer and its walk over the command tree.
use command_stats.Common.{List, [], ◌∷◌, Option, none, some, if◌then◌else◌}
use command_stats.Common.Outcome.{Outcome, done, exited, ◌>>=◌}
use command_stats.Common.Text.{Text, codes, text_eq}
use command_stats.Structs.Node.{
  Operator, NodeFields, ExecutableNode, ExecutionResult, Node, executable, operands, Nodes, nil,
  cons,
}
use command_stats.Print.Attributes.{
  Attribute, invalid_attribute, pid, exit_code, execution_failed, start_time, end_time, total_time,
  user_cpu_time, system_cpu_time, maximum_resident_segment_size,
}
use command_stats.Print.Printer.{Library, Context, Printer, OperatorToString, ResultToString}
use command_stats.Print.Txt.{txt_printer}
use command_stats.Print.Csv.{csv_printer}
use command_stats.Print.Html.{html_printer}

-- printers, in the order of the array
abbrev pub printers : Library → List (Text × Printer)
printers lib =
    (codes "txt", txt_printer lib)
    ∷ (codes "csv", csv_printer lib)
    ∷ (codes "html", html_printer lib)
    ∷ []

-- the loop of get_printer_by_format_name; program_fail exits with 1
unfoldable pub find_printer : Text → List (Text × Printer) → Outcome Printer
find_printer name [] = exited 1
find_printer name ((printer_name, printer) ∷ rest) =
    if text_eq printer_name name then done printer else find_printer name rest

unfoldable pub get_printer_by_format_name : Library → Text → Outcome Printer
unfolding find_printer text_eq
get_printer_by_format_name lib name = find_printer name (printers lib)

-- the switch of print_executable_node
unfoldable pub print_attribute : Printer → Attribute → ResultToString
print_attribute printer pid = printer.pid_to_string
print_attribute printer exit_code = printer.exit_code_to_string
print_attribute printer execution_failed = printer.invocation_failed_to_string
print_attribute printer start_time = printer.start_time_to_string
print_attribute printer end_time = printer.end_time_to_string
print_attribute printer total_time = printer.total_time_to_string
print_attribute printer user_cpu_time = printer.user_cpu_time_to_string
print_attribute printer system_cpu_time = printer.system_cpu_time_to_string
print_attribute printer maximum_resident_segment_size = printer.maximum_resident_set_size_to_string
print_attribute printer invalid_attribute = λ f r context. context

-- the loop around the switch
unfoldable pub print_attributes : Printer → List Attribute → ResultToString
unfolding print_attribute
print_attributes printer [] f r context = context
print_attributes printer (attribute ∷ rest) f r context =
    print_attributes printer rest f r (print_attribute printer attribute f r context)

-- The attributes, where the node has a result.
unfoldable pub print_result : Printer → NodeFields → Option ExecutionResult → Context → Context
unfolding print_attributes
print_result printer f none context = context
print_result printer f (some r) context = print_attributes printer context.attributes f r context

unfoldable pub print_executable_node : Printer → NodeFields → ExecutableNode → Context → Context
unfolding print_result
print_executable_node printer f e context =
    let headed = printer.executed_to_string f e (printer.executable_head f e context) in
    printer.executable_foot f e (print_result printer f f.result headed)

-- a function of the printer that may be NULL
abbrev pub call : Option OperatorToString → Operator → Context → Context
call none op context = context
call (some to_string) op context = to_string op context

unfoldable mutual
  unfolding print_executable_node

  pub print_results_rec : Printer → Node → Context → Context
  print_results_rec printer (executable f e) context = print_executable_node printer f e context
  print_results_rec printer (operands f op a ns) context =
      call printer.exit_operand_node op
        (print_results_nodes printer ns (call printer.enter_operand_node op context))

  pub print_results_nodes : Printer → Nodes → Context → Context
  print_results_nodes printer nil context = context
  print_results_nodes printer (cons n ns) context =
      print_results_nodes printer ns (print_results_rec printer n context)

unfoldable pub print_results_root : Printer → Node → Context → Context
unfolding print_results_rec print_results_nodes
print_results_root printer root context =
    printer.foot (print_results_rec printer root (printer.head context))

-- print_results, from a context with its attributes; closing the file is not modelled.
unfoldable pub print_results : Library → Text → Node → Context → Outcome Context
unfolding get_printer_by_format_name print_results_root
print_results lib format root context = get_printer_by_format_name lib format >>= λ printer.
    done (print_results_root printer root context)
