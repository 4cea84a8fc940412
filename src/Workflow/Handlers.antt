-- ===== src/Workflow/Handlers.antt =====
-- What handleOrderAdvance leaves of an order.
use mathlib.Core.Path.{subst}
use menuvex_printer.Entity.{Entity, get_entity}
use menuvex_printer.Order.Status.{Floats, one_of, status_body, update_local_order_status}
use menuvex_printer.Outbox.{is_open}
use menuvex_printer.Prelude.{Option, String, false, inl, inr, refl, sym, true, ℕ, ◌≡◌, ◌⊎◌}
use menuvex_printer.Result.{Result}
use menuvex_printer.Store.{Store, all_well, whole}
use menuvex_printer.Store.Atomic.{with_tx_well}
use menuvex_printer.Text.{trim_space}
use menuvex_printer.Workflow.{
  Notice, advanced_to, handle_order_advance, no_stage_left, order_advance_target,
  pos_enabled_stages,
}
use menuvex_printer.Workflow.Cycle.{HasStatus, open_plain, status_shown, update-HasStatus}
use menuvex_printer.Workflow.Nearest.{
  IsNearest, NoneAfter, order_advance_target-IsNearest, order_advance_target-NoneAfter,
}
use menuvex_printer.Workflow.Steps.{open_words, order_advance_target-Follows}

-- No later stage is switched on and nothing was changed, or the order has the status that the notice names, and that is
-- the nearest later stage that is switched on.
abbrev pub AdvancedBy : Result Entity → String → String → Store → Notice × Store → Type 0
AdvancedBy prof order_id x s (n, s') =
    ((n ≡ no_stage_left) × (s' ≡ s) × NoneAfter prof x)
    ⊎ ((t : String) × (n ≡ advanced_to t) × HasStatus order_id t s'.state × IsNearest prof x t)

abbrev pub profile_of : Store → Result Entity
profile_of s = get_entity all_well "cafe_profile" "cafe-main-profile" s

module _ {F : Type 0} (fl : Floats F) (fresh : ℕ → Option String) (now : String) where
  -- On a store that is open and whose calls succeed, the button that moves an order on, pressed on one that is
  -- pending, accepted, preparing or ready, finds no later stage switched on and changes nothing; or it gives
  -- the order the stage that its notice names, the nearest later one that is switched on.
  pub handle_order_advance-AdvancedBy :
      (form_order x : String) (s : Store)
      → s.closed ≡ false
      → HasStatus (trim_space form_order) x s.state
      → one_of x open_words ≡ true
      → AdvancedBy
          (profile_of s)
          (trim_space form_order)
          x
          s
          (handle_order_advance fl fresh all_well now form_order s)
  unfolding handle_order_advance update_local_order_status pos_enabled_stages
  handle_order_advance-AdvancedBy form_order x s alive has is_open =
      let order_id = trim_space form_order in
      let (o, found, text) = status_shown fl fresh order_id now x s has in
      let plain = open_plain fl fresh order_id now x is_open in
      let stages = pos_enabled_stages all_well s in
      let t = order_advance_target x stages in
      let run = handle_order_advance fl fresh all_well now form_order s in
      elim (order_advance_target-Follows x is_open stages) [
        | inl none_left ↦
            let stays : run ≡ (no_stage_left, s) =
              rw (found, handle_order_advance, text, plain, none_left) refl in
            subst (AdvancedBy (profile_of s) order_id x s) (sym stays)
              (inl (refl, refl, order_advance_target-NoneAfter (profile_of s) x is_open none_left))
        | inr f ↦
            let (st', done, has') = update-HasStatus fl fresh order_id now x t s.state has f in
            let moves : run ≡ (advanced_to t, record s { state = st'; file = whole st' }) =
              rw
                (
                  found,
                  handle_order_advance,
                  text,
                  plain,
                  f.4,
                  with_tx_well (status_body fl fresh order_id t "" now) s alive done,
                )
                refl in
            subst (AdvancedBy (profile_of s) order_id x s) (sym moves)
              (inr (t, refl, has', order_advance_target-IsNearest (profile_of s) x is_open f))
      ]
