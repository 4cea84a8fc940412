-- ===== src/Print/Once.antt =====
-- createPrintJobs of offline-menuvex/internal/store/printing.go: the job that answers each document that is asked for.
use menuvex_printer.Prelude.{key_eq, string_eq}
use menuvex_printer.Print.Answers.{Answers}
use menuvex_printer.Result.{Result}
use menuvex_printer.Store.{Store}
