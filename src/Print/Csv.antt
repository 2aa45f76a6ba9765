-- ===== src/Print/Csv.antt =====
-- src/print_results/csv.c: the printer of comma separated values.
use command_stats.Common.{true, false, List, [], ◌∷◌, none, if◌then◌else◌}
use command_stats.Common.Int.{pos}
use command_stats.Common.Text.{Text, codes}
use command_stats.Print.Attributes.{Attribute, get_attribute_name}
use command_stats.Print.Printer.{
  Library, Context, put, Printer, shown, ContextToString, ExecutableToString, ResultToString,
}
use command_stats.Print.Duration.{print_total_time, print_timeval}

unfoldable pub separate_argument : Context → Context
separate_argument context =
    if context.previous_value
    then put (codes ",") context
    else record context { previous_value = true }

-- print_csv_value, the text formatted; also separate_argument and a print after it
unfoldable pub print_csv_value : Text → Context → Context
unfolding separate_argument
print_csv_value t context = put t (separate_argument context)

-- what printf makes of the name that get_attribute_name returns
unfoldable pub shown_name : Library → Attribute → Text
shown_name lib attribute = shown lib (λ name. name) (get_attribute_name attribute)

-- the loop of csv_head
unfoldable pub csv_names : Library → List Attribute → Context → Context
unfolding print_csv_value shown_name
csv_names lib [] context = context
csv_names lib (attribute ∷ rest) context =
    csv_names lib rest (print_csv_value (shown_name lib attribute) context)

-- fprintf (context->out, "\n"); previous_value = FALSE
unfoldable pub end_row : Context → Context
end_row context = record (put (codes "\n") context) { previous_value = false }

unfoldable pub csv_head : Library → ContextToString
unfolding print_csv_value csv_names end_row
csv_head lib context = end_row (
    csv_names lib context.attributes
      (print_csv_value (codes "executable_name") (record context { previous_value = false })))

unfoldable pub csv_executable_head : ExecutableToString
unfolding print_csv_value
csv_executable_head f e = print_csv_value e.path

unfoldable pub csv_executed_to_string : ExecutableToString
csv_executed_to_string f e context = context

-- my_ctime: the last byte, a newline, is dropped.
unfoldable pub my_ctime : Text → Text
my_ctime [] = []
my_ctime (x ∷ []) = []
my_ctime (x ∷ y ∷ t) = x ∷ my_ctime (y ∷ t)

abbrev pub csv_pid_to_string : Library → ResultToString
csv_pid_to_string lib f r = print_csv_value (lib.decimal (pos f.pid))

abbrev pub csv_exit_code_to_string : Library → ResultToString
csv_exit_code_to_string lib f r =
    print_csv_value (shown lib (λ status. lib.decimal (pos (lib.wexitstatus status))) r.exit_code)

abbrev pub csv_execution_failed_to_string : ResultToString
csv_execution_failed_to_string f r =
    print_csv_value (if r.invocation_failed then codes "true" else codes "false")

abbrev pub csv_start_time_to_string : Library → ResultToString
csv_start_time_to_string lib f r = print_csv_value (my_ctime (lib.ctime r.start_time.tv_sec))

abbrev pub csv_end_time_to_string : Library → ResultToString
csv_end_time_to_string lib f r =
    print_csv_value (shown lib (λ end. my_ctime (lib.ctime end.tv_sec)) r.end_time)

abbrev pub csv_total_time_to_string : Library → ResultToString
csv_total_time_to_string lib f r = print_csv_value (print_total_time lib r)

abbrev pub csv_user_cpu_time_to_string : Library → ResultToString
csv_user_cpu_time_to_string lib f r =
    print_csv_value (shown lib (print_timeval lib) r.user_cpu_time_used)

abbrev pub csv_system_cpu_time_to_string : Library → ResultToString
csv_system_cpu_time_to_string lib f r =
    print_csv_value (shown lib (print_timeval lib) r.system_cpu_time_used)

abbrev pub csv_maximum_resident_set_size_to_string : Library → ResultToString
csv_maximum_resident_set_size_to_string lib f r =
    print_csv_value (shown lib (λ size. lib.decimal (pos size)) r.maximum_resident_set_size)

unfoldable pub csv_foot : ContextToString
csv_foot context = context

unfoldable pub csv_executable_foot : ExecutableToString
unfolding end_row
csv_executable_foot f e = end_row

abbrev pub csv_printer : Library → Printer
csv_printer lib = record {
  head = csv_head lib;
  executable_head = csv_executable_head;
  enter_operand_node = none;
  executed_to_string = csv_executed_to_string;
  invocation_failed_to_string = csv_execution_failed_to_string;
  pid_to_string = csv_pid_to_string lib;
  exit_code_to_string = csv_exit_code_to_string lib;
  start_time_to_string = csv_start_time_to_string lib;
  end_time_to_string = csv_end_time_to_string lib;
  total_time_to_string = csv_total_time_to_string lib;
  user_cpu_time_to_string = csv_user_cpu_time_to_string lib;
  system_cpu_time_to_string = csv_system_cpu_time_to_string lib;
  maximum_resident_set_size_to_string = csv_maximum_resident_set_size_to_string lib;
  executable_foot = csv_executable_foot;
  exit_operand_node = none;
  foot = csv_foot;
}
