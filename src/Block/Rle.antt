-- ===== src/Block/Rle.antt =====
-- storage/secondary/block/rle_block_builder.rs and rle_block_iterator.rs: run-length encoded blocks.
pub mod Builder
pub mod Iterator
pub mod Contract
pub mod Layout
pub mod RoundTrip
pub mod Plain
mod Tests
