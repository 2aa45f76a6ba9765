-- ===== src/Print/Txt.antt =====
-- src/print_results/txt.c: the printer of plain text.
use command_stats.Common.{suc, ◌++◌, none, if◌then◌else◌}
use command_stats.Common.Int.{pos}
use command_stats.Common.Text.{Text, codes}
use command_stats.Print.Printer.{
  Library, Context, put, Printer, shown, ContextToString, ExecutableToString, ResultToString,
}
use command_stats.Print.Duration.{print_total_time, print_timeval}

unfoldable pub txt_head : ContextToString
txt_head context =
    put (codes "------------------------------------\n")
      (put (codes "Execution of '" ++ (context.command ++ codes "'\n")) context)

-- The index that is printed is the one before `command_subindex++`.
unfoldable pub txt_executable_head : Library → ExecutableToString
txt_executable_head lib f e context =
    let out =
      codes "------------------------------------\nCOMMAND:\t\t"
      ++ (context.command
          ++ (codes "\nPATH:\t\t\t"
              ++ (e.path
                  ++ (codes "\nID:\t\t\t#"
                      ++ (lib.decimal context.index
                          ++ (codes "."
                              ++ (lib.decimal (pos context.command_subindex)
                                  ++ codes "\n\n"))))))) in
    put out (record context { command_subindex = suc context.command_subindex })

abbrev pub txt_executed_to_string : ExecutableToString
txt_executed_to_string f e context = context

-- fprintf (context->out, "<label><value>\n")
abbrev pub txt_line : Text → Text → Context → Context
txt_line label value context = put (label ++ (value ++ codes "\n")) context

abbrev pub txt_pid_to_string : Library → ResultToString
txt_pid_to_string lib f r = txt_line (codes "PID:\t\t\t") (lib.decimal (pos f.pid))

abbrev pub txt_exit_code_to_string : Library → ResultToString
txt_exit_code_to_string lib f r =
    txt_line (codes "Exit Code:\t\t")
      (shown lib (λ status. lib.decimal (pos (lib.wexitstatus status))) r.exit_code)

abbrev pub txt_execution_failed_to_string : ResultToString
txt_execution_failed_to_string f r =
    txt_line (codes "Execution OK:\t\t")
      (if r.invocation_failed then codes "false" else codes "true")

abbrev pub txt_start_time_to_string : Library → ResultToString
txt_start_time_to_string lib f r = put (codes "Start time:\t\t" ++ lib.ctime r.start_time.tv_sec)

abbrev pub txt_end_time_to_string : Library → ResultToString
txt_end_time_to_string lib f r =
    put (codes "End time:\t\t" ++ shown lib (λ end. lib.ctime end.tv_sec) r.end_time)

abbrev pub txt_total_time_to_string : Library → ResultToString
txt_total_time_to_string lib f r = txt_line (codes "Total time:\t\t") (print_total_time lib r)

abbrev pub txt_user_cpu_time_to_string : Library → ResultToString
txt_user_cpu_time_to_string lib f r =
    txt_line (codes "User CPU time:\t\t") (shown lib (print_timeval lib) r.user_cpu_time_used)

abbrev pub txt_system_cpu_time_to_string : Library → ResultToString
txt_system_cpu_time_to_string lib f r =
    txt_line (codes "System CPU time:\t") (shown lib (print_timeval lib) r.system_cpu_time_used)

abbrev pub txt_maximum_resident_set_size_to_string : Library → ResultToString
txt_maximum_resident_set_size_to_string lib f r =
    txt_line (codes "Max resident set:\t")
      (shown lib (λ size. lib.decimal (pos size)) r.maximum_resident_set_size)

unfoldable pub txt_executable_foot : ExecutableToString
txt_executable_foot f e = put (codes "------------------------------------\n")

unfoldable pub txt_foot : ContextToString
txt_foot = put (codes "\n\n\n")

abbrev pub txt_printer : Library → Printer
txt_printer lib = record {
  head = txt_head;
  executable_head = txt_executable_head lib;
  enter_operand_node = none;
  executed_to_string = txt_executed_to_string;
  invocation_failed_to_string = txt_execution_failed_to_string;
  pid_to_string = txt_pid_to_string lib;
  exit_code_to_string = txt_exit_code_to_string lib;
  start_time_to_string = txt_start_time_to_string lib;
  end_time_to_string = txt_end_time_to_string lib;
  total_time_to_string = txt_total_time_to_string lib;
  user_cpu_time_to_string = txt_user_cpu_time_to_string lib;
  system_cpu_time_to_string = txt_system_cpu_time_to_string lib;
  maximum_resident_set_size_to_string = txt_maximum_resident_set_size_to_string lib;
  executable_foot = txt_executable_foot;
  exit_operand_node = none;
  foot = txt_foot;
}
