-- ===== src/MultiKeyVs.antt =====
-- wrappers/src/versioned_multi_key/mapx_raw/backend.rs: the version manager of maps with keys of
-- several parts. The fields are those of `struct MapxRawMkVs`; `db` is the part of the global `VSDB`
-- that the operations change. A change set holds the values too, as a map with keys of several parts;
-- `layered_kv` is in memory only, and is made again from the change sets.
pub mod Field
pub mod Data
pub mod Version
pub mod Branch
pub mod Prune
pub mod View
pub mod Write
pub mod Batch
pub mod Remove
pub mod Restore
pub mod Reload
pub mod Iter
pub mod Keeps
pub mod Reach
use vsdb.Prelude.{ℕ, ◌≡◌, Bool, Option, none, some, List, [], ◌∷◌, foldl}
use vsdb.Common.{
  RawKey, RawValue, RawBytes, BranchId, VersionId, initial_branch_id, initial_branch_name,
  Allocator,
}
use vsdb.Exec.{missing, Result, ok, err, Exec, ◌>>=◌, ◌>>◌, modify, for_each}
use vsdb.Mapx
use vsdb.Mapx.{Mapx, nat_ord, bytes_ord, Ord}
use vsdb.MultiKey.{MapxRawMk, iter_op}
use vsdb.MultiKey.Keys.{RawKeys, keys_ord}
use vsdb.Backend.{VerMap}

-- The values of each key by version.
abbrev pub Layers : Type 0
Layers = Mapx RawKeys VerMap

pub record MapxRawMkVs : Type 0 where
  pub key_size : ℕ
  pub default_branch : BranchId
  pub br_name_to_br_id : Mapx RawBytes BranchId
  pub ver_name_to_ver_id : Mapx RawBytes VersionId
  pub br_to_its_vers : Mapx BranchId VerMap
  pub ver_to_change_set : Mapx VersionId MapxRawMk
  pub br_id_to_br_name : Mapx BranchId RawBytes
  pub ver_id_to_ver_name : Mapx VersionId RawBytes
  pub layered_kv : Layers
  pub db : Allocator

unfoldable pub init : MapxRawMkVs → MapxRawMkVs
init s = record s {
  default_branch = initial_branch_id;
  br_name_to_br_id = Mapx.insert s.br_name_to_br_id initial_branch_name initial_branch_id;
  br_to_its_vers = Mapx.insert s.br_to_its_vers initial_branch_id [];
  br_id_to_br_name = Mapx.insert s.br_id_to_br_name initial_branch_id initial_branch_name;
}

-- `new`, over the allocators of the engine
unfoldable pub new : ℕ → Allocator → MapxRawMkVs
unfolding init
new key_size db = init (record {
  key_size = key_size;
  default_branch = 0;
  br_name_to_br_id = [];
  ver_name_to_ver_id = [];
  br_to_its_vers = [];
  ver_to_change_set = [];
  br_id_to_br_name = [];
  ver_id_to_ver_name = [];
  layered_kv = [];
  db = db;
})

unfoldable pub clear : MapxRawMkVs → MapxRawMkVs
unfolding init
clear s = init (record s {
  br_name_to_br_id = [];
  ver_name_to_ver_id = [];
  br_to_its_vers = [];
  ver_to_change_set = [];
  br_id_to_br_name = [];
  ver_id_to_ver_name = [];
  layered_kv = [];
})

-- `entry(k).or_default().insert(ver, v)`
abbrev pub put_layer : RawKeys → VersionId → RawValue → Layers → Layers
put_layer key ver_id value m = Mapx.insert m key (Mapx.insert (Mapx.at m key) ver_id value)

-- `iter().map(|(n, id)| (id, n)).collect()`
abbrev pub inverted : Mapx RawBytes ℕ → Mapx ℕ RawBytes
inverted names = foldl (λ acc e. Mapx.insert acc e.1 e.0) [] names

-- The layers of one change set on top of those of the earlier ones.
unfoldable pub restore_version : VersionId × MapxRawMk → Exec Layers Unit
unfolding iter_op
restore_version e = iter_op e.1 (λ k v. modify (put_layer k e.0 v))

-- What comes back when a map is written by `Serialize` and read by `Deserialize`: the maps of the
-- engine, and the derived fields that `From<MapxRawMkVsWithoutDerivedFields>` makes of them.
unfoldable pub restored : MapxRawMkVs → MapxRawMkVs
unfolding restore_version
restored s = record s {
  br_id_to_br_name = inverted s.br_name_to_br_id;
  ver_id_to_ver_name = inverted s.ver_name_to_ver_id;
  layered_kv = (for_each s.ver_to_change_set restore_version []).1;
}
