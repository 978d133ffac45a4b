-- ===== src/Risk.antt =====
-- `RiskManager` of backend/include/risk/risk_manager.hpp: its state, the keys of its maps and the sums
-- of backend/modules/risk/src/risk_manager.cpp. Each operation is one step: the locks and the
-- compare-and-swap loops, which a second thread may run into, are not modelled, and neither is logging.
pub mod Positions
pub mod Reservations
pub mod Checks
pub mod Admission
pub mod Accounting
pub mod NetLots
pub mod Keeps
pub mod History
pub mod Books
mod Examples
use axiotick.Common.{
  ℕ, ◌-◌, Bool, true, false, ◌&&◌, ◌||◌, if◌then◌else◌, leb, ◌==◌, Option, none, some, List, [],
  ◌∷◌, ℤ, pos, ltb_ℤ, neg_ℤ, ◌+ℤ◌, ◌-ℤ◌, int64_max, int64_min,
}
use axiotick.Core.Float.{Float}
use axiotick.Core.Order.{Order, side_buy}

-- A string is the list of its bytes; a byte array ends at its first zero.
abbrev pub to_upper : ℕ → ℕ
to_upper c = if leb 97 c && leb c 122 then c - 32 else c

-- The characters '/', '-', '_' and ' '.
abbrev pub is_separator : ℕ → Bool
is_separator c = c == 47 || c == 45 || c == 95 || c == 32

unfoldable pub normalize_symbol : List ℕ → List ℕ
normalize_symbol [] = []
normalize_symbol (c ∷ cs) =
    let rest = normalize_symbol cs in
    if c == 0 then [] else if is_separator c then rest else to_upper c ∷ rest

abbrev pub same_symbol : List ℕ → List ℕ → Bool
same_symbol [] [] = true
same_symbol [] (d ∷ ds) = false
same_symbol (c ∷ cs) [] = false
same_symbol (c ∷ cs) (d ∷ ds) = c == d && same_symbol cs ds

-- An assignment to a map whose keys are strings.
abbrev pub update_symbol : {A : Type 0} → (List ℕ → Option A) → List ℕ → A → List ℕ → Option A
update_symbol map key value k = if same_symbol key k then some value else map k

pub record SymbolRiskLimit (D : Type 0) : Type 0 where
  pub symbol : List ℕ
  pub max_net_position : D
  pub max_gross_position : D

pub record RiskLimits (D : Type 0) : Type 0 where
  pub max_order_value : D
  pub max_position_exposure : D
  pub max_daily_loss : D
  pub symbol_limits : List (SymbolRiskLimit D)

pub record Reservation : Type 0 where
  pub side : ℕ
  pub reserved_price_ticks : ℤ
  pub remaining_lots : ℤ
  pub symbol : List ℕ

pub record SymbolLimitState (D : Type 0) : Type 0 where
  pub limit : SymbolRiskLimit D
  pub net_position_lots : ℤ

pub record PositionState (D : Type 0) : Type 0 where
  pub net_lots : ℤ
  pub avg_price : D
  pub last_mark_price : D
  pub unrealized_pnl : D

pub record RiskManager (D : Type 0) : Type 0 where
  pub limits : RiskLimits D
  pub committed_exposure_units : ℤ
  pub filled_exposure_units : ℤ
  pub kill_switch_active : Bool
  pub reservations : ℕ → Option Reservation
  pub symbol_limit_states : List ℕ → Option (SymbolLimitState D)
  pub positions : List ℕ → Option (PositionState D)
  pub realized_pnl_total : D
  pub unrealized_pnl_total : D
  pub day_baseline_pnl : D
  pub current_day_index : ℕ

-- 2 ^ 64.
abbrev pub two_64 : ℤ
two_64 = pos 18_446_744_073_709_551_616

-- The wrap-around of a sum or difference of two `int64_t` values, as `fetch_add` and `fetch_sub` have it.
unfoldable pub wrap_int64 : ℤ → ℤ
wrap_int64 a =
    if ltb_ℤ int64_max a then a -ℤ two_64 else if ltb_ℤ a int64_min then a +ℤ two_64 else a

-- `none` where the sum does not fit.
unfoldable pub try_add_units : ℤ → ℤ → Option ℤ
try_add_units base delta =
    if ltb_ℤ (pos 0) delta && ltb_ℤ (int64_max -ℤ delta) base
      || ltb_ℤ delta (pos 0) && ltb_ℤ base (int64_min -ℤ delta)
    then none
    else some (base +ℤ delta)

abbrev pub signed_position_lots : {D : Type 0} → Order D → ℤ
signed_position_lots o = if o.side == side_buy then o.quantity_lots else neg_ℤ o.quantity_lots

-- The constructor's loop over the limits of the symbols, and the constructor.
abbrev enter_limits :
    {D : Type 0}
    → List (SymbolRiskLimit D)
    → (List ℕ → Option (SymbolLimitState D))
    → List ℕ
    → Option (SymbolLimitState D)
enter_limits [] states = states
enter_limits (l ∷ ls) states = enter_limits ls (elim (normalize_symbol l.symbol) [
  | [] ↦ states
  | c ∷ cs ↦ update_symbol states (c ∷ cs) (record { limit = l; net_position_lots = pos 0 })
])

abbrev pub new_risk_manager : {D : Type 0} → ⦃f : Float D⦄ → RiskLimits D → RiskManager D
new_risk_manager ⦃f⦄ limits = record {
  limits = limits;
  committed_exposure_units = pos 0;
  filled_exposure_units = pos 0;
  kill_switch_active = false;
  reservations = λ _. none;
  symbol_limit_states = enter_limits limits.symbol_limits (λ _. none);
  positions = λ _. none;
  realized_pnl_total = f.nought;
  unrealized_pnl_total = f.nought;
  day_baseline_pnl = f.nought;
  current_day_index = 0;
}
