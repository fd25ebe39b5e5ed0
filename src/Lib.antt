-- ===== src/Lib.antt =====
-- kobzar is a database engine. This library models the parts of kobzar/src that keep its data and describe
-- it: the write-ahead log and the page cache of the storage engine, the files of records and their schema,
-- the search in an index, the registry of types, the configuration, and the start of the server. A query is turned into log entries,
-- which the log frames and appends to the newest of its segment files; the pages of an index are loaded into
-- a cache, lent out for reading and writing, and dropped from it by their access history; a search descends
-- through such pages; the records that it finds stand in the heap, laid out as the schema says.
--
-- Base: numbers, lists, little-endian bytes, results, association lists, the binary search of slices.
-- Wal: kobzar/src/q_engine/storage/wal.rs.
--   Entry and Payload hold `WalEntry`, its codes and the writes of the inner `write_entry`.
--   Reader is a specification: a reader for the payloads, which the source does not have yet.
--   Frame is `Wal::write_entry` with its size, hash and padding; Frame/Read reads records back.
--   Names and Segments are the names of the segment files and the operations of `Wal` on them;
--   Segments/Cycle is about a cut, a drop of old segments and a new start in turn.
-- Cache: kobzar/src/q_engine/storage/idx_common.rs.
--   Ring is `RingInline` and `CacheMeta`, Store is `PageStore` up to `item_page_mut`, Evict is `evict`:
--   Select and Scan are about a round of its first loop, Least about the whole loop, Drop about the second one,
--   Freed, Emptied and Reload about the store behind it, Panics and Overflow about its panics.
--   Reach holds the histories of a store, as a relation of its operations.
--   Contents is about the cache as a map from keys to pages.
-- Pidx: kobzar/src/q_engine/storage/pidx.rs, the pages that the cache holds for a primary index.
--   Keys is `Key` with its file name, Visibility is `VisibilityMapCalc` with the vectors and masks
--   of the processor as a parameter, Bytes, Collect and Shown are about its bytes, the fallback loop and its results,
--   Loads is about pages that the cache loads by these keys.
-- Bitmap: `BitmapEdit` of kobzar/src/q_engine/storage.rs.
-- Layout: kobzar/src/q_engine/storage/layout.rs, the size of a record.
-- Dt: kobzar/src/q_engine/dt.rs.
--   Consts and Derived are the constants of `TypeId`, Repr is `InnerTypeRepr::try_from`, Display and Unique its display.
-- Btree: kobzar/src/q_engine/storage/idx_btree.rs. The module itself holds pages, keys, offsets and outcomes.
--   Keys are the keys for the cache; Search is `DbStore::btree_search`; Range, Descent and Stray are about one page, the recursion, and the
--   first child that it visits.
-- Heap: kobzar/src/q_engine/storage/heap.rs.
--   File is the interface of files and of the buffers around them, Memory an implementation of it.
--   Blob, Read and Write are `BlobStorable`, `HeapRead` with `BlobFile::read`, and `HeapWrite`.
--   Steps, Trip and Stale are about what these operations leave, a round trip, and the buffer.
-- Schema: kobzar/src/q_engine/storage/schema.rs.
--   The module itself holds `FieldFlags` and the records of the file, Read is `Read`, Flags the operators.
-- Engine: kobzar/src/q_engine.rs, with the structures of ffi.rs that it holds.
--   Ident is `IdentPath::new`, Structs the data of a schema, Registry is `Types`, Db is `Db`;
--   History holds the histories of a database, as a relation of their operations.
-- Query: kobzar/src/q_engine/query.rs, the queries as data, with the records of Tables, Fields and Others.
-- Storage: records of kobzar/src/q_engine/storage.rs, storage/wal.rs and storage/code.rs.
-- Cfg: kobzar/src/cfg.rs.
--   The module itself holds the configuration and `device_at`, Load is `init` with what it loads.
-- Start: `main` of kobzar/src/main.rs with `init_log` of cfg.rs.
--
-- An integer of w bits is a natural number with its wrap-around written out, as in a release build. A
-- text is the list of its bytes. All functions are structural recursions but three: `decimal`, whose fuel of
-- 20 digits is enough for a u64; the loop to the right of a match, whose fuel is the number of keys; and the
-- recursion of the search, whose fuel is an argument that exceeds the height of the tree. The hash, files,
-- buffers and directories, the binary search of slices, the tables of characters, the environment and the
-- format of the configuration file are not part of the repository: they are records of operations with the
-- documented laws that are used. Panics are results (`none`, `expect_failed`, `panics`).
--
-- Not modelled: the wrapping of I/O errors, the opening of files and the scheduling of asynchronous calls,
-- which are I/O; the set-up of the output of the log; the display of errors; and the functions of storage.rs,
-- wal.rs, idx_btree.rs and ffi.rs whose bodies are not written in the source (`todo!`). Queries (query.rs) are
-- data without operations in the source, and so are they here.
pub mod Base
pub mod Bitmap
pub mod Btree
pub mod Cache
pub mod Cfg
pub mod Dt
pub mod Engine
pub mod Heap
pub mod Layout
pub mod Pidx
pub mod Query
pub mod Schema
pub mod Start
pub mod Storage
pub mod Wal
