-- ===== src/Print.antt =====
-- src/print_results: what the tool writes to the log.
pub mod Attributes
pub mod Printer
pub mod Duration
pub mod Txt
pub mod Csv
pub mod Html
pub mod Results
pub mod Rows
pub mod Numbers
pub mod Hash
