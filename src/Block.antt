-- ===== src/Block.antt =====
-- storage/secondary/block: the encodings of a block of a column.
pub mod Interface
pub mod Varint
pub mod Primitive
pub mod Encode
pub mod Rle
