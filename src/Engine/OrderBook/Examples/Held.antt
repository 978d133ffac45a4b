-- ===== src/Engine/OrderBook/Examples/Held.antt =====
-- The orders that the test book of the parent module holds.
use axiotick.Common.{◌≡◌, refl, true, false, List, [], ◌∷◌, ℤ, pos, ◌-ℤ◌, ◌+ℤ◌, arith, int_laws}
use axiotick.Core.FixedPoint.{normalize_order_scalars}
use axiotick.Core.Validator.{is_valid_order}
use axiotick.Engine.PoolAllocator.{try_emplace, reset, at}
use axiotick.Engine.PriceLevels.{find_or_create_level, find_level_index}
use axiotick.Core.Float.Whole.{whole_float}
use axiotick.Core.Order.{side_buy, side_sell}
use axiotick.Engine.OrderBook.Resting.{add_order}
use axiotick.Engine.OrderBook.Resting.Lookup.{IsReady}
use axiotick.Engine.PoolAllocator.Soundness.{reset-IsSound}
use axiotick.Engine.OrderBook.{new_book, blank_node}
use axiotick.Engine.OrderBook.PriceTime.{Level}
use axiotick.Engine.OrderBook.Represents.{Holds}
use axiotick.Engine.OrderBook.Examples.{small, three_asks, limit_order, buyer}

abbrev pub asks_held : List (Level ℤ)
asks_held =
    record {
      price = pos 40;
      queue =
          record { index = 0; order = limit_order 1 side_sell 40 5 }
          ∷ record { index = 2; order = limit_order 4 side_sell 40 2 }
          ∷ [];
    }
    ∷ record {
      price = pos 50;
      queue = record { index = 1; order = limit_order 2 side_sell 50 7 } ∷ [];
    }
    ∷ []

pub buyer-is_valid : is_valid_order (normalize_order_scalars buyer) ≡ true
unfolding is_valid_order normalize_order_scalars
buyer-is_valid = refl

pub asks-Holds : Holds small three_asks side_sell asks_held
unfolding add_order new_book is_valid_order normalize_order_scalars try_emplace reset
    find_or_create_level find_level_index at ◌-ℤ◌ ◌+ℤ◌
asks-Holds = record {
  levels = (
    omega arith,
    record {
      price = refl;
      head = refl;
      tail = refl;
      total = refl;
      count = refl;
      occupied = omega arith;
      chain = (refl, (refl, tt));
      distinct = (((λ e. omega arith), tt), (tt, tt));
      makers = (
        record {
          below = omega arith;
          used = refl;
          on_side = refl;
          at_price = refl;
          lots_pos = omega int_laws;
          located = refl;
        },
        (
          record {
            below = omega arith;
            used = refl;
            on_side = refl;
            at_price = refl;
            lots_pos = omega int_laws;
            located = refl;
          },
          tt,
        ),
      );
    },
    (
      omega arith,
      record {
        price = refl;
        head = refl;
        tail = refl;
        total = refl;
        count = refl;
        occupied = omega arith;
        chain = (refl, tt);
        distinct = (tt, tt);
        makers = (
          record {
            below = omega arith;
            used = refl;
            on_side = refl;
            at_price = refl;
            lots_pos = omega int_laws;
            located = refl;
          },
          tt,
        );
      },
      refl,
    ),
  );
  ranked = ((refl, tt), (tt, tt));
}

pub bids-Holds : Holds small three_asks side_buy []
unfolding add_order new_book is_valid_order normalize_order_scalars try_emplace reset
    find_or_create_level find_level_index at ◌-ℤ◌ ◌+ℤ◌
bids-Holds = record { levels = refl; ranked = tt }

pub empty-IsReady : IsReady {D = ℤ} small (new_book small)
unfolding new_book reset
empty-IsReady = record {
  pool = reset-IsSound 4 (blank_node {D = ℤ});
  sorted = λ side. record { before = λ i j h k. absurd (ground arith) };
  tails = λ side j n h. absurd (ground arith);
}

pub buyer-added : (add_order small buyer (new_book small)).0 ≡ true
unfolding add_order new_book is_valid_order normalize_order_scalars try_emplace reset
    find_or_create_level find_level_index at
buyer-added = refl

pub copy-refused : (add_order small (limit_order 1 side_sell 40 5) three_asks).0 ≡ false
unfolding add_order new_book is_valid_order normalize_order_scalars try_emplace reset
    find_or_create_level find_level_index at
copy-refused = refl
