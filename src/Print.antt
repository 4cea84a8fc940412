-- ===== src/Print.antt =====
-- The print jobs of offline-menuvex/internal/store/printing.go: a job as it is stored, read and updated.
pub mod Answers
pub mod Payload
pub mod Receipt
pub mod EscPos
pub mod Labels
pub mod Switch
pub mod Settings
pub mod Pages
pub mod Once
pub mod Copies
pub mod Sent
pub mod Keeps
pub mod Served
pub mod Kitchen
pub mod Dispatch
pub mod Policy
pub mod Enqueue
pub mod Wants
pub mod Create
pub mod Status
pub mod Jobs
pub mod Codec
use menuvex_printer.Json.{
  Items, Json, arr, blob, cons, decode_map, encode_map, list_of, nil, null, num, str,
}
use menuvex_printer.Json.Print.{print}
use menuvex_printer.Prelude.{
  List, Map, Option, String, [], get_or, if◌then◌else◌, lookup, none, some, str_eq, string_eq, zero,
  ◌∷◌,
}
use menuvex_printer.Prelude.Int.{ltb_ℤ, pos, ℤ}
use menuvex_printer.Result.{Result, bad_row, err, ok, or_fail, ◌>>=◌}
use menuvex_printer.Store.Changes.{int_field, string_field}

-- printJobPayload; a slice that is nil is `none`
pub record PrintJob : Type 0 where
  pub id : String
  pub order_id : String
  pub order_number : String
  pub doc_type : String
  pub printer_id : String
  pub printer_title : String
  pub connection : String
  pub queue : String
  pub paper_width : String
  pub status : String
  pub last_error : String
  pub attempts : ℤ
  pub copies : ℤ
  pub categories : Option (List String)
  pub dedupe_key : String
  pub created_at : String
  pub updated_at : String
  pub version : ℤ

pub record PrintJobView : Type 0 where
  pub id : String
  pub order_id : String
  pub order_number : String
  pub doc_type : String
  pub printer_id : String
  pub printer_title : String
  pub connection : String
  pub queue : String
  pub paper_width : String
  pub status : String
  pub last_error : String
  pub attempts : ℤ
  pub copies : ℤ
  pub categories : Option (List String)
  pub created_at : String
  pub updated_at : String

-- printJobView
unfoldable pub job_view : PrintJob → PrintJobView
job_view p = record {
  id = p.id;
  order_id = p.order_id;
  order_number = p.order_number;
  doc_type = p.doc_type;
  printer_id = p.printer_id;
  printer_title = p.printer_title;
  connection = p.connection;
  queue = p.queue;
  paper_width = p.paper_width;
  status = p.status;
  last_error = p.last_error;
  attempts = p.attempts;
  copies = if ltb_ℤ p.copies (pos 1) then pos 1 else p.copies;
  categories = p.categories;
  created_at = p.created_at;
  updated_at = p.updated_at;
}

-- PrintJobView{}
abbrev pub zero_view : PrintJobView
zero_view = record {
  id = "";
  order_id = "";
  order_number = "";
  doc_type = "";
  printer_id = "";
  printer_title = "";
  connection = "";
  queue = "";
  paper_width = "";
  status = "";
  last_error = "";
  attempts = pos 0;
  copies = pos 0;
  categories = none;
  created_at = "";
  updated_at = "";
}

unfoldable pub text_items : List String → Items
text_items [] = nil
text_items (s ∷ ss) = cons (str s) (text_items ss)

-- The two fields with omitempty, each left out where it is zero, nil or empty
unfoldable pub copies_field : ℤ → Map String Json → Map String Json
copies_field (pos zero) m = m
copies_field z m = ("copies", num z) ∷ m

unfoldable pub categories_field : Option (List String) → Map String Json
unfolding text_items
categories_field none = []
categories_field (some []) = []
categories_field (some (c ∷ cs)) = ("categories", arr (text_items (c ∷ cs))) ∷ []

-- json.Marshal of a job
unfoldable pub encode_job : PrintJob → Json
unfolding encode_map copies_field categories_field
encode_job p = encode_map (
    ("id", str p.id)
    ∷ ("order_id", str p.order_id)
    ∷ ("order_number", str p.order_number)
    ∷ ("doc_type", str p.doc_type)
    ∷ ("printer_id", str p.printer_id)
    ∷ ("printer_title", str p.printer_title)
    ∷ ("connection", str p.connection)
    ∷ ("queue", str p.queue)
    ∷ ("paper_width", str p.paper_width)
    ∷ ("status", str p.status)
    ∷ ("last_error", str p.last_error)
    ∷ ("attempts", num p.attempts)
    ∷ ("dedupe_key", str p.dedupe_key)
    ∷ ("created_at", str p.created_at)
    ∷ ("updated_at", str p.updated_at)
    ∷ ("version", num p.version)
    ∷ copies_field p.copies (categories_field p.categories))

unfoldable pub text_rows : List Json → Result (List String)
text_rows [] = ok []
text_rows (str s ∷ js) = do ss ← text_rows js; ok (s ∷ ss)
text_rows (blob b ∷ js) = do ss ← text_rows js; ok (print (arr b) ∷ ss)
text_rows (null ∷ js) = do ss ← text_rows js; ok ("" ∷ ss)
text_rows (j ∷ js) = err bad_row

-- A []string field of a struct
unfoldable pub texts_in : Option Json → Result (Option (List String))
unfolding text_rows list_of
texts_in none = ok none
texts_in (some null) = ok none
texts_in (some (arr js)) = do ss ← text_rows (list_of js); ok (some ss)
texts_in (some j) = err bad_row

unfoldable pub string_fields : Map String Json → List String → Result (List String)
unfolding string_field
string_fields m [] = ok []
string_fields m (k ∷ ks) = do t ← string_field m k; ts ← string_fields m ks; ok (t ∷ ts)

abbrev pub text_keys : List String
text_keys =
    "id" ∷ "order_id" ∷ "order_number" ∷ "doc_type" ∷ "printer_id" ∷ "printer_title" ∷ "connection"
    ∷ "queue" ∷ "paper_width" ∷ "status" ∷ "last_error" ∷ "dedupe_key" ∷ "created_at" ∷ "updated_at"
    ∷ []

-- A job of the texts of `text_keys`, in that order, and of its numbers and categories
abbrev pub job_of : List String → ℤ → ℤ → ℤ → Option (List String) → PrintJob
job_of ts attempts copies version categories = record {
  id = get_or ts 0 "";
  order_id = get_or ts 1 "";
  order_number = get_or ts 2 "";
  doc_type = get_or ts 3 "";
  printer_id = get_or ts 4 "";
  printer_title = get_or ts 5 "";
  connection = get_or ts 6 "";
  queue = get_or ts 7 "";
  paper_width = get_or ts 8 "";
  status = get_or ts 9 "";
  last_error = get_or ts 10 "";
  dedupe_key = get_or ts 11 "";
  created_at = get_or ts 12 "";
  updated_at = get_or ts 13 "";
  attempts = attempts;
  copies = copies;
  version = version;
  categories = categories;
}

-- json.Unmarshal into printJobPayload; an error in any field is one of the whole
unfoldable pub job_in : Json → Result PrintJob
unfolding decode_map string_fields int_field texts_in lookup
job_in raw = do
  m ← or_fail (decode_map raw) bad_row
  ts ← string_fields m text_keys
  attempts ← int_field m "attempts"
  copies ← int_field m "copies"
  version ← int_field m "version"
  categories ← texts_in (lookup "categories" m)
  ok (job_of ts attempts copies version categories)

-- decodePrintJob
unfoldable pub decode_print_job : Json → Option PrintJob
unfolding job_in
decode_print_job raw = elim (job_in raw) [
  | err e ↦ none
  | ok p ↦ if str_eq p.id "" then none else some p
]
