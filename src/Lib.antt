-- ===== src/Lib.antt =====
-- The local store of the desktop cafe program, offline-menuvex/internal/store, with the printing and the steps of
-- an order that the application builds on it, offline-menuvex.
--
-- The program keeps its whole state in one JSON file. Every write runs in a transaction that works on a
-- copy, encodes it, and replaces the file (withTx). On it stand the snapshot of the server's records with
-- their versions and tombstones, the outbox of edits for the server, and the local tills: orders, tables,
-- customers, debtors, split bills and local records. The pages and the sync client only call these
-- operations.
--
-- Which file models what:
--   Store          store.go: the persisted state, withTx, the keys of the entities
--   Store/Atomic   what a transaction leaves in memory and on disk
--   Store/Changes  store.go: Bind, SaveConnection, ApplyPage, Bootstrap and the operations on the whole state
--   Entity         store.go: Field, Label, PriceIRR, OrderItems, Entity, Entities
--   Outbox         outbox.go: SaveResults, Discard; Outbox/Validate: validateIntent; Outbox/Queue:
--                  QueueCatalog; Outbox/Listing: Outbox; Outbox/Calls: sequences of the calls of
--                  the outbox and the synchronisation
--   Order          domains.go: lines and sums of an order; Order/Create: CreatePOSOrder; Order/Update:
--                  UpdateOrderItemsFull; Order/Transfer: TransferOrder; Order/Debt: DeferOrderToDebtor and
--                  SettleDebtorPayment; Order/Status: UpdateLocalOrderStatusReason; Order/Split: the
--                  split bill, with its payments in Order/Split/Payment
--   Local          domains.go: validateLocalFields, SaveLocalRecord, DeleteLocalRecord
--   Print          internal/store/printing.go: a print job as it is stored; Print/Jobs: UpdatePrintJobStatus,
--                  PrintJobs and the like; Print/Wants and Print/Enqueue: EnqueueOrderPrintJobsDocs;
--                  Print/Create: createPrintJobs; Print/Policy and Print/Dispatch: the automatic printing
--                  and dispatchPrintJob of offline-menuvex/printing.go; Print/Pages: handlePrintOrder,
--                  handlePrintRetry and handlePrintTest of app.go; Print/Settings: handlePrinterToggle,
--                  handlePrintPolicy, handlePrinterRouteSave and handlePrinterRouteToggle; Print/Labels,
--                  Print/Receipt, Print/EscPos and Print/Payload: the bytes of a job
--   Stock          domains.go: RecordStockMovement; Stock/Waste: VoidWasteEvent
--   Workflow       offline-menuvex/app.go: orderAdvanceTarget, orderPrimaryAction, handleOrderStatus and
--                  handleOrderAdvance
--   Calendar       offline-menuvex/jalali.go: GregorianToJalali
--   Client         offline-menuvex/internal/syncclient/client.go: bootstrap and Refresh, with the server as a parameter
--   Text/Persian   the amounts of the pages and forms: FormatPersianNumber, tomanFormToIRR
--   Text, Json     what the program uses of strings, strconv, math/big, regexp and encoding/json
--   Result         the errors, one for each message that the store returns
--   Prelude        shared names, integers, association lists and sorting
-- Functions keep the source's names in snake_case; the body of a transaction is the function with _body.
--
-- How the model reads the code:
--   - An operation takes the store and gives its result and the store afterwards. The outcome of each call
--     of package os in a transaction is an argument (Io), as are the clock, the identifiers that UUID()
--     gives, and the test whether a time lies on the current day in Tehran. The temporary file is not
--     part of the state, since Open never reads it. A WriteFile that fails leaves the file as it was, cut
--     short, or complete (Leftover).
--   - The mutex makes each operation atomic, so a run of the program is a list of calls.
--   - A payload is the JSON value that its bytes stand for. A struct field is read by its exact key, while
--     encoding/json takes other letter case too. Where validateIntent matches the bytes of a number, those bytes
--     are an argument (Literals). The literal null, which is never stored, reads as an
--     empty object. A string is plain text or, for the column split_payments, the text of an array.
--   - A map is an association list; a loop over a Go map runs in the order of the list, and the theorems
--     hold for every list.
--   - The key of an entity is the pair of its kind and id: no kind holds the byte that joins them.
--   - Amounts of math/big are integers without bound; int and int64 wrap at 2^64 where a sum or a product
--     is taken. float64, which the stock and the deduction of a recipe compute with, is a parameter
--     (Measures, Floats).
--   - What a printer does is a parameter: the text of the error of each copy that is sent, if there is one.
--     The order in which Go's range visits the keys of a map is one where a result depends on it (Visits).
--   - Each loop is a recursion on a list, and printing a number has fuel one above the number, of which
--     each digit takes one unit.
--   - Refresh reads at most 100 pages, as its loop does; the bound is the fuel of pull_pages.
--
-- Not modelled: what sendToPrinter does, analytics, HTTP, the other pages and their labels, the
-- texts of dates, demo data, and the parts in other languages.
pub mod Calendar
pub mod Client
pub mod Entity
pub mod Json
pub mod Local
pub mod Order
pub mod Outbox
pub mod Prelude
pub mod Print
pub mod Result
pub mod Stock
pub mod Store
pub mod Tests
pub mod Text
pub mod Workflow
