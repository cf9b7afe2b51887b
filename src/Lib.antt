-- ===== src/Lib.antt =====
-- vsdb: a key-value store with branches and versions, in the manner of git.
--
-- The program. `core` holds the raw maps: `core/src/common/engines` keeps all maps of a process
-- in one key-value engine, each under a prefix; `core/src/basic/mapx_raw` is an ordered map of
-- bytes over it; `core/src/versioned/mapx_raw/backend.rs` is the version manager, which the rest
-- of the library wraps: a branch is a list of versions, a key has one value for each version that
-- wrote it, and a read by branch and version takes the value of the last version of the branch,
-- up to the given one, that wrote the key.
--
-- The files. Mapx is the ordered map: sorted entries over an `Ord` key, with `get`, `insert`,
-- `remove`, `last`, `range`. Mapx.Laws says what it reads after a change; Mapx.Sorted is about
-- maps keyed by numbers, and Mapx.Sorted.Newest about the search downwards from a version;
-- Mapx.Ascending and Mapx.Count are about maps keyed by bytes. Exec is `&mut self` with
-- `ruc::Result`. Common holds the identifiers and constants of core/src/common/mod.rs and the
-- allocators of the engine (`alloc_br_id`, `alloc_ver_id` of
-- core/src/common/engines/rocks_db.rs). Backend is the state `MapxRawVs` with `new`, `init` and
-- `clear`; Backend.Field is the access to its maps. Backend.Data has the reads and writes of
-- data, Backend.Version, Backend.Branch, Backend.Merge and Backend.Prune the operations on
-- versions and branches, under the names of the functions of backend.rs. Backend.View is the
-- abstract reading, Backend.Write the effect of one write on it, Backend.ReadWrite the contract
-- of the writers, Backend.Invariant what holds of every state. Modules below an operation's
-- module hold the theorems about it. Backend.Iter has the iterators, `MapxRawVsIter`, and the
-- reads made of them; Backend.Reach the states of all runs. Api is
-- core/src/versioned/mapx_raw/mod.rs, the operations under the names of branches and versions:
-- Api itself the data, Api.Manage the methods of `VsMgmt`, Api.Mutable `ValueMut`, `Entry` and
-- the items of mutable iterators, Api.Reads and Api.Versions the theorems. Engine is
-- core/src/common/engines/rocks_db.rs, with the defaults of the trait `Engine`: its counters,
-- prefixes, lengths, look-ups and iterators, over a database `RocksDb`. Engine.Instance is `Mapx`
-- of core/src/common/engines/mod.rs and `MapxRaw` of core/src/basic/mapx_raw/mod.rs, which has
-- the same operations; Engine.Content says what ordered map an instance holds, Engine.Strip how
-- prefixes cut a column family into instances, and Engine.Insert, Engine.Remove, Engine.Range,
-- Engine.Create and Engine.Clone what the operations do. Ende is wrappers/src/common/ende.rs, the
-- encodings of keys: Ende.Bytes the big-endian forms, Ende.Signed the integer types, Ende.Vector
-- and Ende.Array the vectors and arrays. Vecx is wrappers/src/basic/vecx_raw/mod.rs, a vector
-- over the map of an instance, with what it uses of wrappers/src/basic/mapx_ord_rawvalue/mod.rs;
-- Vecx.Refines, Vecx.Remove and Vecx.Swap compare it with a list, Vecx.Entries is the map of a
-- vector, Vecx.Steps and Vecx.Gap the loops that move elements. MultiKey is
-- wrappers/src/basic_multi_key/mapx_raw/mod.rs, maps with keys of several parts as nested maps:
-- MultiKey.Keys is the order of such keys, MultiKey.Laws says what is read after a change,
-- MultiKey.Trees that the maps stay in order, MultiKey.Walk, MultiKey.Prefix and MultiKey.Visits
-- what an iteration visits. MultiKeyVs is wrappers/src/versioned_multi_key/mapx_raw/backend.rs,
-- the version manager `MapxRawMkVs` of such maps, with the restoration from its serialized form;
-- MultiKeyVs.Field, MultiKeyVs.Data, MultiKeyVs.Version, MultiKeyVs.Branch and MultiKeyVs.Prune
-- hold its operations, MultiKeyVs.View what it reads, MultiKeyVs.Write and MultiKeyVs.Remove the
-- effect of the writers, with MultiKeyVs.Batch on the loops of a removal; MultiKeyVs.Iter is
-- about the iteration, MultiKeyVs.Restore and MultiKeyVs.Reload about the restoration,
-- MultiKeyVs.Keeps and MultiKeyVs.Version.Keeps about what the operations keep, MultiKeyVs.Reach
-- about its runs. The version manager of raw maps stands on the map of Mapx, which is what
-- Engine.Content gives for an instance, and its `Allocator` is what Engine.Create gives for the
-- counters. Scenario is a run with its tests; Scenario.Operations and Scenario.Named apply the
-- theorems at its states, Scenario.Clean those on the clean-up, Scenario.Encoding those on the
-- encodings; Scenario.Store is a database in memory, on which Scenario.Instances runs the engine;
-- Scenario.Vectors is about a vector, Scenario.MultiKeys and Scenario.Merging about maps with
-- keys of two parts.
--
-- Choices. A nested map is stored by value where the source stores its prefix: each nested map
-- has one owner, so a write through a decoded handle is a write into the map that holds it. An
-- identifier is the number whose big-endian form the source stores. The counters of the engine
-- wrap at 2 ^ 64, and a theorem that needs a fresh identifier says that one is left. An error
-- returns the state beside it, since the source does not undo what it wrote before the error. A
-- panic is the error `panicked`. Hash maps and hash sets are in the order of their keys. All
-- loops are recursions on lists, but for two. `chunks` has the length of the slice for fuel,
-- since each chunk takes an element. And `collect` of Backend.Iter, which calls `next` of an
-- iterator to its end, is on fuel: each call uses up an entry, so more than the number of entries
-- is enough.
--
-- Valid states. `IsValid` of Backend.Invariant asks, among other things, that a version has a
-- name exactly if it has a change set. `do_prune` leaves the names of the versions that it merges
-- in the table, so the theorems on valid states do not cover the state after such a prune.
--
-- Not modelled. Threads and locks, but for the test of `do_prune` whether the locks are free,
-- which is a parameter as is the coin that it tosses. Clones and shadows of a version manager,
-- and the serialization of that of raw maps, which share prefixes. The background job that clears
-- the versions of a removed branch, since the branch is cleared before. The database under the
-- engine is a parameter with laws; how it is opened, its options and the sled engine are left
-- out. Of the encodings: `String`, hashes and big integers of other crates, serde. The other
-- typed wrappers, the multi-key maps with typed keys, the functions of the multi-key maps that
-- resolve names, the derive macros and the tries. `trie_root` of the `ruc` crate is a parameter.
pub mod Prelude
pub mod Exec
pub mod Mapx
pub mod Common
pub mod Backend
pub mod Ende
pub mod Engine
pub mod Vecx
pub mod MultiKey
pub mod MultiKeyVs
pub mod Api
pub mod Scenario
