-- ===== src/Tests/Rounds.antt =====
-- A server with one page, for a round of synchronisation.
use menuvex_printer.Client.{Round, Server, answer, refresh}
use menuvex_printer.Client.Finish.{Finished, refresh-Finished}
use menuvex_printer.Client.Refresh.{AllCommitted, refresh-Keeps}
use menuvex_printer.Prelude.{[], false, some}
use menuvex_printer.Prelude.Int.{pos}
use menuvex_printer.Store.{all_well, new_empty_db, whole}

abbrev one_page : Server
one_page = record {
  shake =
      λ n c. answer (record { bootstrap_required = false; version = pos 2; max_batch = pos 10 });
  snapshot =
      λ n. answer (record { snapshot_cursor = "c0"; data_rows = some []; more_pages = false });
  push = λ n ops. answer [];
  pull = λ n c. answer (record { next = "c1"; has_more = false; changes = [] });
  ack = λ n c. answer tt;
}

abbrev fresh_device : Round
fresh_device = record {
  steps = 0;
  store = record { closed = false; state = new_empty_db; file = whole new_empty_db };
  acks = [];
}

refresh-Keeps_example :
    AllCommitted (refresh one_page (λ n. all_well) "https://api|dev" fresh_device).1.acks
refresh-Keeps_example = refresh-Keeps one_page (λ n. all_well) "https://api|dev" fresh_device tt

refresh-Finished_example :
    Finished (refresh one_page (λ n. all_well) "https://api|dev" fresh_device)
refresh-Finished_example = refresh-Finished one_page (λ n. all_well) "https://api|dev" fresh_device
