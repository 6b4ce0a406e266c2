-- ===== src/Lib.antt =====
-- RisingLight: an OLAP database in Rust. This library models the parts of it that decide which
-- rows a query sees, and shows that they do what they promise.
--
-- The program. A query is parsed (crate `sqlparser`), bound (binder), planned and optimised
-- (planner), and executed by streams of chunks (executor) over the storage engine (storage). The
-- secondary storage engine keeps a table as rowsets. A rowset has a file of blocks for each
-- column; a block is built by a block builder and read by a block iterator
-- (storage/secondary/block). Which rowsets and delete vectors make up a table at some moment is
-- the business of the version manager (storage/secondary/version_manager.rs), which hands out
-- snapshots, writes the manifest and vacuums rowsets that no snapshot can see any more.
--
-- Which file models what.
--
--   Prelude           names that the other modules share; lists and slices over native numbers,
--                     maps and sets with numbers as keys, Boolean tests, and the outcome of
--                     fallible code: a value, an error that the code returns, or a panic.
--   Block.Interface   src/storage/secondary/block.rs: the traits `BlockBuilder` and
--                     `BlockIterator` as records of operations, and the contract of a block
--                     iterator, `IsBlockIterator`. An array builder is the list of the items
--                     pushed so far, an item is `none` for a null.
--   Block.Varint      src/storage/secondary/block/rle_block_builder.rs: `encode_32`,
--                     `decode_u32_slice`, `decode_u32`, on 32-bit numbers with their wrap-around
--                     written out.
--   Block.Primitive   primitive_block_builder.rs, primitive_block_iterator.rs and the trait
--                     `PrimitiveFixedWidthEncode` of src/storage/secondary/encode.rs.
--   Block.Encode      src/storage/secondary/encode.rs: the instances of that trait.
--   Block.Rle         rle_block_builder.rs and rle_block_iterator.rs, over any inner builder and
--                     iterator. Builder.Runs has the runs that a builder stands for, Iterator.View
--                     what an iterator has left to read, Contract that it keeps the contract of
--                     the trait if its inner iterator does, RoundTrip and Plain the whole way from
--                     appended rows to rows read through the bytes of the block.
--   Version.Snapshot  `Snapshot` of src/storage/secondary/version_manager.rs.
--   Version.Manager   `VersionManagerInner`, `VersionManager` and `Version` of the same file. A
--                     critical section of the inner lock is one function; `commit_changes` has two
--                     of them, `begin_commit` and `end_commit`, with the write of the manifest
--                     between. Manager.System puts the manager together with its clients as a step
--                     relation: commits in two halves (a failed write ends one after the first),
--                     versions taken and dropped, vacuums, in any order that the manifest's lock
--                     allows.
--   DeleteVector      src/storage/secondary/delete_vector.rs: `new` and `apply_to`.
--   Catalog.Table     src/catalog/table.rs and column.rs: `TableCatalog`, with `new_` as
--                     `new_kind`.
--   Catalog.Schema    src/catalog/schema.rs: `SchemaCatalog`; Reach has the schemas that its
--                     operations can make. Names are texts, in maps of Catalog.Names.
--   Catalog.Root      src/catalog/root.rs: `RootCatalog`, by its inner state.
--   Executor.Builder  src/array/data_chunk_builder.rs: `DataChunkBuilder`, on whole rows.
--   Executor.Evaluate what evaluating an expression on a chunk gives to an executor; an expression
--                     is a parameter, with the hypothesis that it gives each row its own value.
--   Executor.Aggregate the aggregations of src/executor/evaluator.rs, with those of arrays in
--                     src/array/ops.rs and of values in src/types/value.rs; Sums for what a sum
--                     relies on, Laws for aggregations by chunks and by rows.
--   Executor.Group    src/executor/simple_agg.rs, hash_agg.rs, sort_agg.rs and window.rs: States
--                     for the lists of states and when they do not panic, Sort and Hash for the
--                     two aggregations by groups, Agree for their comparison, Window for window
--                     functions.
--   Executor.Order    src/executor/order.rs and top_n.rs: Compare for the comparison of rows, Keys
--                     for rows behind their keys, Heap for the loop of the top-n, Reference for a
--                     sort and a heap that have the laws that the two executors rely on.
--   Executor.Join     src/executor/hash_join.rs and nested_loop_join.rs. Hash has the hash join
--                     (Probe and Rows its matches, Outer and Marks the rows without one),
--                     NestedLoop the nested loop join (Cross its product, Matched the rows without
--                     a match), Semi the semi and anti joins of both, Agree their comparison.
--                     Merge has src/executor/merge_join.rs: Groups the runs of equal keys, Pairs,
--                     Steps and Laws what the loop gives, Agree its comparison with the hash join.
--                     The order of the keys is a parameter, `Prelude.Ord`, that a total order must
--                     fill.
--   Executor.Stream   what a `try_stream` yields and how it ends.
--   Executor.Limit    src/executor/limit.rs.
--
-- Bounds and fuel. Machine integers of 32 bits wrap or panic as written; `usize` has 64 bits. The
-- loop of `encode_32` runs on well-founded recursion, no fuel. The loop of `decode_u32` has the
-- length of the buffer as fuel, since each round reads a byte. `RleBlockIterator::next_batch` has
-- the number of rows plus that of runs, since each round pushes a row or ends a run, and `skip`
-- the number of runs; running out is a panic in the model, and the theorems say that the code
-- returns. Epochs and reference counts of the version manager are unbounded numbers.
--
-- Parameters. The fixed-width integers of the crate `bytes` are a record of two functions with
-- their laws (`FixedWidth`, `IsFixedWidth`; `Codec`, `IsCodec` for one kind of number). The
-- objects of rowsets and delete vectors and the catalog's manifest entries are type parameters of
-- the version manager. Whether someone else holds a rowset's object when the vacuum takes it
-- (`Arc::try_unwrap`) is a function argument. Whether the receiver of the vacuum's notifications
-- is still there when a version is dropped is another one; if it is not, the drop of the last
-- version of an old epoch panics. Arithmetic and order of values are the record `Scalar`: its `+`
-- may be missing for a type (SMALLINT, intervals), where it panics, and theorems about sums say
-- what they need of it. That a commit adds only rowsets whose ids are new, and deletes only such
-- as were added once, is a condition of the steps (`AreFresh`): ids come from a counter
-- (`SecondaryTable::generate_rowset_id`). Data types, the queries of views and the types of
-- indexes are type parameters of the catalog.
--
-- The order in which a hash map is gone through is a function that permutes. The sort of the
-- standard library (`Sort`) and the heap of binary_heap_plus (`BinaryHeap`) are records of
-- operations with their documented laws, which hold on rows with a value for every order. The
-- equality and the order of values are records too (`PartialEq`, `Ord`).
--
-- Not modelled: the contents of files and the calls of the operating system, asynchronous
-- scheduling beyond the order of critical sections, block statistics, checksums, the parser,
-- binder and planner, the other executors, arrays, the other kinds of blocks, the readers of
-- columns and rowsets, transactions, compaction, the memory storage engine and vector indexes.
pub mod Prelude
pub mod Block
pub mod Catalog
pub mod DeleteVector
pub mod Executor
pub mod Version
