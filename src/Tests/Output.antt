-- ===== src/Tests/Output.antt =====
-- What is printed for a tree.
use command_stats.Common.{◌≡◌, refl, true, false, [], ◌∷◌, ◌++◌, none, some, map}
use command_stats.Common.Int.{pos}
use command_stats.Common.Text.{codes}
use command_stats.Structs.Node.{Node, executable, operands, nil, cons, and_node, ExecutionResult}
use command_stats.Print.Attributes.{pid, execution_failed, end_time, get_attribute_name}
use command_stats.Print.Printer.{Library, Context}
use command_stats.Print.Csv.{
  csv_printer, shown_name, csv_head, csv_executable_head, csv_executed_to_string,
  csv_executable_foot, csv_foot, my_ctime,
}
use command_stats.Print.Results.{print_results_root}
use command_stats.Print.Rows.{row, rows, print_results_root-rows}
use command_stats.Tests.Samples.{fields_at, make_command, test}

abbrev library : Library
library = record {
  ctime = λ t. codes "Thu Jan  1 00:00:00 1970\n";
  decimal = λ n. codes "7";
  milliseconds_of_nsec = λ n. codes "0.5";
  milliseconds_of_usec = λ n. codes "0.5";
  wexitstatus = λ status. status;
  unwritten = codes "?";
}

abbrev not_invoked : ExecutionResult
not_invoked = record {
  invocation_failed = true;
  exit_code = none;
  start_time = record { tv_sec = pos 0; tv_nsec = pos 0 };
  end_time = some (record { tv_sec = pos 0; tv_nsec = pos 0 });
  user_cpu_time_used = none;
  system_cpu_time_used = none;
  maximum_resident_set_size = none;
}

-- make && test, where make could not be invoked and test was not run
abbrev failed_and : Node
failed_and = operands (fields_at 1) and_node none (
    cons (executable (record (fields_at 2) { result = some not_invoked }) make_command)
      (cons test nil))

abbrev context : Context
context = record {
  command = codes "make && test";
  index = pos 42;
  command_subindex = 1;
  attributes = pid ∷ execution_failed ∷ end_time ∷ [];
  out = [];
  previous_value = false;
}

print_results_root-rows_example :
    (print_results_root (csv_printer library) failed_and context).out
    ≡ context.out
      ++ (row (codes "executable_name" ∷ map (shown_name library) context.attributes)
          ++ rows library context.attributes failed_and)
print_results_root-rows_example = print_results_root-rows library failed_and context

-- those rows
csv_text :
    (print_results_root (csv_printer library) failed_and context).out
    ≡ codes
        "executable_name,pid,invocation_failed,end_time\nmake,7,true,Thu Jan  1 00:00:00 1970\ntest\n"
unfolding print_results_root csv_head csv_executable_head csv_executed_to_string csv_executable_foot
    csv_foot get_attribute_name my_ctime
csv_text = refl
