-- ===== src/Core/Order.antt =====
-- backend/include/core/types.h: `Order`, `Trade` and the codes of side, type and time in force,
-- which the order holds as bytes that nothing has checked yet. `D` is `double`.
use axiotick.Common.{ℕ, List, ℤ}

abbrev pub side_buy : ℕ
side_buy = 1

abbrev pub side_sell : ℕ
side_sell = 2

abbrev pub order_type_market : ℕ
order_type_market = 1

abbrev pub order_type_limit : ℕ
order_type_limit = 2

abbrev pub order_type_stop : ℕ
order_type_stop = 3

abbrev pub tif_gtc : ℕ
tif_gtc = 1

abbrev pub tif_ioc : ℕ
tif_ioc = 2

abbrev pub tif_fok : ℕ
tif_fok = 3

pub record Order (D : Type 0) : Type 0 where
  pub order_id : ℕ
  pub client_id : ℕ
  pub timestamp_ns : ℕ
  pub price : D
  pub quantity : D
  pub price_ticks : ℤ
  pub quantity_lots : ℤ
  pub symbol : List ℕ
  pub side : ℕ
  pub type : ℕ
  pub tif : ℕ

pub record Trade (D : Type 0) : Type 0 where
  pub trade_id : ℕ
  pub maker_order_id : ℕ
  pub taker_order_id : ℕ
  pub timestamp_ns : ℕ
  pub price : D
  pub quantity : D
  pub price_ticks : ℤ
  pub quantity_lots : ℤ
  pub side : ℕ
