-- ===== src/Backend.antt =====
-- core/src/versioned/mapx_raw/backend.rs: the state of the version manager, and how a new one
-- starts. The fields are those of `struct MapxRawVs`; `db` is the part of the global `VSDB` that
-- the operations change. The locks round the derived fields are not modelled: one thread runs.
pub mod Field
pub mod Data
pub mod Version
pub mod Prune
pub mod Branch
pub mod Merge
pub mod View
pub mod Invariant
pub mod Write
pub mod ReadWrite
pub mod Iter
pub mod Reach
use vsdb.Prelude.{◌≡◌, Option, none, some, [], Bool}
use vsdb.Common.{
  RawKey, RawValue, RawBytes, BranchId, VersionId, initial_branch_id, initial_branch_name,
  Allocator,
}
use vsdb.Mapx
use vsdb.Mapx.{Mapx, nat_ord, bytes_ord}

-- A nested instance: the versions of a branch (with empty values), or the values of a key by
-- version.
abbrev pub VerMap : Type 0
VerMap = Mapx VersionId RawValue

-- `BTreeSet<RawKey>`
abbrev pub ChangeSet : Type 0
ChangeSet = Mapx RawKey (Unit {0})

pub record MapxRawVs : Type 0 where
  pub default_branch : BranchId
  pub br_name_to_br_id : Mapx RawBytes BranchId
  pub ver_name_to_ver_id : Mapx RawBytes VersionId
  pub br_to_its_vers : Mapx BranchId VerMap
  pub layered_kv : Mapx RawKey VerMap
  pub br_id_to_br_name : Mapx BranchId RawBytes
  pub ver_id_to_ver_name : Mapx VersionId RawBytes
  pub ver_to_change_set : Mapx VersionId ChangeSet
  pub db : Allocator

unfoldable pub init : MapxRawVs → MapxRawVs
init s = record s {
  default_branch = initial_branch_id;
  br_name_to_br_id = Mapx.insert s.br_name_to_br_id initial_branch_name initial_branch_id;
  br_to_its_vers = Mapx.insert s.br_to_its_vers initial_branch_id [];
  br_id_to_br_name = Mapx.insert s.br_id_to_br_name initial_branch_id initial_branch_name;
}

-- `new`, over the allocators of the engine
unfoldable pub new : Allocator → MapxRawVs
unfolding init
new db = init (record {
  default_branch = 0;
  br_name_to_br_id = [];
  ver_name_to_ver_id = [];
  br_to_its_vers = [];
  layered_kv = [];
  br_id_to_br_name = [];
  ver_id_to_ver_name = [];
  ver_to_change_set = [];
  db = db;
})

unfoldable pub clear : MapxRawVs → MapxRawVs
unfolding init
clear s = init (record s {
  br_name_to_br_id = [];
  ver_name_to_ver_id = [];
  br_to_its_vers = [];
  layered_kv = [];
  br_id_to_br_name = [];
  ver_id_to_ver_name = [];
  ver_to_change_set = [];
})
