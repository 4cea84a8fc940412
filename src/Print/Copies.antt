-- ===== src/Print/Copies.antt =====
-- The numbers of copies that PrintScenario.docs of offline-menuvex/printing.go asks for, and those that
-- dispatchPrintJob sends.
use menuvex_printer.Prelude.{Map, String, [], none, str_eq, string_eq, true, ℕ, ◌∷◌, ◌≡◌, ◌⊎◌}
use menuvex_printer.Prelude.Int.{pos, ℤ, ◌≤ℤ◌}
use menuvex_printer.Print.{PrintJobView}
use menuvex_printer.Print.Dispatch.{copies_to_send, send_copies}
use menuvex_printer.Print.Policy.{PrintScenario}
use menuvex_printer.Print.Wants.{clamp_copies}

-- The receipt of the customer and that of the café, in the arrangement of one's own
abbrev pub IsMerchantCopy : PrintScenario → Type 0
IsMerchantCopy sc = (sc.checkout ≡ true) × (str_eq sc.mode "custom" ≡ true) × (sc.merchant ≡ true)

-- A job that asks for n copies is printed in m, where every call of sendToPrinter succeeds.
abbrev pub Prints : ℤ → ℕ → Type 0
Prints n m =
    (job : PrintJobView)
    → job.copies ≡ n
    → send_copies (λ i. none) 0 (copies_to_send job) ≡ (m, none)

-- All copies that are asked for are sent, or more than five are asked for, with the café's, and five are sent.
abbrev pub IsSent : PrintScenario → ℤ → Type 0
IsSent sc n =
    ((m : ℕ) × (pos m ≡ n) × Prints n m)
    ⊎ (IsMerchantCopy sc × (pos 6 ≤ℤ n) × (n ≤ℤ pos 10) × Prints n 5)

abbrev pub AllDocs : (ℤ → Type 0) → Map String ℤ → Type 0
AllDocs P [] = Unit {0}
AllDocs P ((k, n) ∷ m) = P n × AllDocs P m

abbrev FromSix : ℤ → Type 0
FromSix d = (clamp_copies d ≡ d) ⊎ ((pos 6 ≤ℤ d) × (d ≤ℤ pos 10) × (clamp_copies d ≡ pos 5))
