-- ===== src/Engine.antt =====
-- backend/include/engine and backend/modules/engine/src: the node pool, the sorted arrays of price
-- levels and the order book.
pub mod PoolAllocator
pub mod PriceLevels
pub mod OrderBook
mod Examples
