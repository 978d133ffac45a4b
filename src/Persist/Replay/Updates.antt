-- ===== src/Persist/Replay/Updates.antt =====
-- The types of events in the loop of `EventReplayer::replay_file` of
-- backend/modules/persist/src/event_journal.cpp: what each changes in the summary.
use axiotick.Common.{
  ℕ, ◌&&◌, ◌||◌, if◌then◌else◌, ◌==◌, none, some, ℤ, pos, ◌+ℤ◌, ◌-ℤ◌, ltb_ℤ, leb_ℤ, ◌==ℤ◌, min_ℤ,
  max_ℤ, neg_ℤ, find, put, remove,
}
use mathlib.Core.Option.{get_or}
use axiotick.Core.Float.{Float}
use axiotick.Core.Order.{side_buy, side_sell}
use axiotick.Core.FixedPoint.{to_notional_units}
use axiotick.Persist.Event.{
  order_accepted, order_rejected, trade_executed, order_canceled, order_replaced, gateway_rejected,
  JournalEvent,
}
use axiotick.Persist.Replay.{
  ReplayOrderState, ReplaySummary, Replay, no_order, status_resting, status_partially_filled,
  status_filled, status_canceled, status_rejected, next_u64, positive_part,
}

unfoldable pub apply_fill_to_state : ℤ → ReplayOrderState → ReplayOrderState
apply_fill_to_state fill_lots s =
    let applied = min_ℤ fill_lots (positive_part s.remaining_lots) in
    let left = positive_part (s.remaining_lots -ℤ applied) in
    if leb_ℤ fill_lots (pos 0) || leb_ℤ applied (pos 0) then s else record s {
      filled_lots = s.filled_lots +ℤ applied;
      remaining_lots = left;
      status = if left ==ℤ pos 0 then status_filled else status_partially_filled;
    }

abbrev pub seen_lots : ℕ → Replay → ℤ
seen_lots id r = get_or (find id r.seen_fill_lots) (pos 0)

-- An order is put to the history, and to the active orders or out of them.
abbrev pub kept_active : ℕ → ReplayOrderState → ReplaySummary → ReplaySummary
kept_active id st s = record s {
  active_orders = put id st s.active_orders;
  order_history = put id st s.order_history;
}

abbrev pub kept_closed : ℕ → ReplayOrderState → ReplaySummary → ReplaySummary
kept_closed id st s = record s {
  active_orders = remove id s.active_orders;
  order_history = put id st s.order_history;
}

-- `apply_fill`, whose trades count for an order that is not known yet.
unfoldable pub apply_fill : ℕ → ℤ → Replay → Replay
apply_fill id lots r =
    let seen = record r { seen_fill_lots = put id (seen_lots id r +ℤ lots) r.seen_fill_lots } in
    if id == 0 || leb_ℤ lots (pos 0) then r else elim (find id r.summary.active_orders) [
      | none ↦ seen
      | some st ↦
          let filled = apply_fill_to_state lots st in
          record seen {
            summary =
                if leb_ℤ filled.remaining_lots (pos 0)
                then kept_closed id filled seen.summary
                else kept_active id filled seen.summary;
          }
    ]

unfoldable pub apply_accepted : JournalEvent → Replay → ReplaySummary
apply_accepted event r =
    let s = record r.summary { accepted = next_u64 r.summary.accepted } in
    let initial = positive_part event.quantity_lots in
    let remaining = positive_part event.remaining_lots in
    let filled = min_ℤ initial (positive_part (seen_lots event.order_id r)) in
    let st : ReplayOrderState = record {
      price_ticks = event.price_ticks;
      initial_lots = initial;
      remaining_lots = remaining;
      filled_lots = filled;
      side = event.side;
      status = if ltb_ℤ (pos 0) filled then status_partially_filled else status_resting;
    } in
    let closed_status =
      if leb_ℤ initial filled && ltb_ℤ (pos 0) initial
      then status_filled
      else if ltb_ℤ (pos 0) filled
      then status_partially_filled
      else status_canceled in
    if event.resting && ltb_ℤ (pos 0) remaining
    then kept_active event.order_id st s
    else kept_closed event.order_id (record st { remaining_lots = pos 0; status = closed_status }) s

unfoldable pub apply_rejected : JournalEvent → Replay → ReplaySummary
apply_rejected event r =
    kept_closed event.order_id
      (record {
        price_ticks = event.price_ticks;
        initial_lots = positive_part event.quantity_lots;
        remaining_lots = positive_part event.remaining_lots;
        filled_lots = pos 0;
        side = event.side;
        status = status_rejected;
      })
      (record r.summary { rejected = next_u64 r.summary.rejected })

unfoldable pub apply_canceled : JournalEvent → Replay → ReplaySummary
apply_canceled event r =
    let s = record r.summary { canceled = next_u64 r.summary.canceled } in
    let st : ReplayOrderState = elim (find event.order_id s.order_history) [
      | some held ↦ record held { remaining_lots = pos 0; status = status_canceled }
      | none ↦ record no_order {
        price_ticks = event.price_ticks;
        side = event.side;
        status = status_canceled;
      }
    ] in
    kept_closed event.order_id st s

unfoldable pub apply_replaced : JournalEvent → Replay → ReplaySummary
apply_replaced event r =
    let s = record r.summary { replaced = next_u64 r.summary.replaced } in
    let held = get_or (find event.order_id s.order_history) no_order in
    let initial = positive_part event.quantity_lots in
    let remaining = positive_part event.remaining_lots in
    let seen = positive_part (seen_lots event.order_id r) in
    let filled = min_ℤ initial (max_ℤ seen (initial -ℤ remaining)) in
    let st = record held {
      price_ticks = event.price_ticks;
      side = if event.side == side_buy || event.side == side_sell then event.side else held.side;
      initial_lots = initial;
      remaining_lots = remaining;
      filled_lots = filled;
    } in
    if ltb_ℤ (pos 0) remaining
    then kept_active event.order_id
        (record st {
          status = if ltb_ℤ (pos 0) filled then status_partially_filled else status_resting;
        })
        s
    else kept_closed event.order_id
        (record st {
          status = if ltb_ℤ (pos 0) filled then status_partially_filled else status_canceled;
        })
        s

module _ {D : Type 0} (f : Float D) where
  unfoldable pub signed_notional_units : ℤ → ℤ → ℕ → ℤ
  signed_notional_units price_ticks quantity_lots side =
      let units = to_notional_units f price_ticks quantity_lots in
      if leb_ℤ price_ticks (pos 0) || leb_ℤ quantity_lots (pos 0)
      then pos 0
      else if side == side_sell
      then neg_ℤ units
      else units

  -- What one party of a trade adds to the exposure and to the position.
  unfoldable pub add_party : JournalEvent → ℕ → ReplaySummary → ReplaySummary
  add_party event side s = record s {
    filled_exposure_units =
        s.filled_exposure_units +ℤ signed_notional_units event.price_ticks event.quantity_lots side;
    net_position_lots =
        s.net_position_lots
        +ℤ (if side == side_buy then event.quantity_lots else neg_ℤ event.quantity_lots);
  }

  unfoldable pub apply_trade_event : JournalEvent → Replay → Replay
  apply_trade_event event r =
      let counted = record r {
        summary = record r.summary { trades = next_u64 r.summary.trades };
      } in
      let taken = apply_fill event.order_id event.quantity_lots counted in
      let made = apply_fill event.related_order_id event.quantity_lots taken in
      let maker_side = if event.side == side_buy then side_sell else side_buy in
      if event.related_order_id == 0
      then record taken { summary = add_party event event.side taken.summary }
      else record made {
        summary = add_party event maker_side (add_party event event.side made.summary);
      }

  unfoldable pub apply_type : JournalEvent → Replay → Replay
  apply_type event r = elim event.type [
    | order_accepted ↦ record r { summary = apply_accepted event r }
    | order_rejected ↦ record r { summary = apply_rejected event r }
    | gateway_rejected ↦ record r {
      summary = record r.summary { gateway_rejections = next_u64 r.summary.gateway_rejections };
    }
    | trade_executed ↦ apply_trade_event event r
    | order_canceled ↦ record r { summary = apply_canceled event r }
    | order_replaced ↦ record r { summary = apply_replaced event r }
  ]
