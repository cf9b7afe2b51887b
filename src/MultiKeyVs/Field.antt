-- ===== src/MultiKeyVs/Field.antt =====
-- The maps of `MapxRawMkVs` as places that an operation reads and writes: `.remove(k)` with
-- `.c(d!())?`, and the change of a nested map through its decoded handle.
use vsdb.Common.{RawValue, RawBytes, BranchId, VersionId}
use vsdb.Exec.{missing, Exec, pure, require, gets, modify, ◌>>=◌, ◌>>◌}
use vsdb.Mapx
use vsdb.Mapx.{Mapx, Ord, nat_ord, bytes_ord}
use vsdb.Backend.{VerMap}
use vsdb.MultiKey.{MapxRawMk}
use vsdb.MultiKey.Keys.{RawKeys, keys_ord}
use vsdb.MultiKeyVs.{MapxRawMkVs}

pub record Field (A : Type 0) : Type 0 where
  pub read : MapxRawMkVs → A
  pub write : A → MapxRawMkVs → MapxRawMkVs

abbrev pub br_name_to_br_id : Field (Mapx RawBytes BranchId)
br_name_to_br_id = record {
  read = λ s. s.br_name_to_br_id;
  write = λ m s. record s { br_name_to_br_id = m };
}

abbrev pub ver_name_to_ver_id : Field (Mapx RawBytes VersionId)
ver_name_to_ver_id = record {
  read = λ s. s.ver_name_to_ver_id;
  write = λ m s. record s { ver_name_to_ver_id = m };
}

abbrev pub br_to_its_vers : Field (Mapx BranchId VerMap)
br_to_its_vers = record {
  read = λ s. s.br_to_its_vers;
  write = λ m s. record s { br_to_its_vers = m };
}

abbrev pub layered_kv : Field (Mapx RawKeys VerMap)
layered_kv = record { read = λ s. s.layered_kv; write = λ m s. record s { layered_kv = m } }

abbrev pub br_id_to_br_name : Field (Mapx BranchId RawBytes)
br_id_to_br_name = record {
  read = λ s. s.br_id_to_br_name;
  write = λ m s. record s { br_id_to_br_name = m };
}

abbrev pub ver_id_to_ver_name : Field (Mapx VersionId RawBytes)
ver_id_to_ver_name = record {
  read = λ s. s.ver_id_to_ver_name;
  write = λ m s. record s { ver_id_to_ver_name = m };
}

abbrev pub ver_to_change_set : Field (Mapx VersionId MapxRawMk)
ver_to_change_set = record {
  read = λ s. s.ver_to_change_set;
  write = λ m s. record s { ver_to_change_set = m };
}

module _ {K V : Type 0} ⦃o : Ord K⦄ where
  -- `map.insert(k, v)`
  abbrev pub insert_in : Field (Mapx K V) → K → V → Exec MapxRawMkVs Unit
  insert_in f k v = modify (λ s. f.write (Mapx.insert (f.read s) k v) s)

  -- `map.get(k).c(d!())?`
  abbrev pub get_in : Field (Mapx K V) → K → Exec MapxRawMkVs V
  get_in f k = do found ← gets (λ s. Mapx.get (f.read s) k); require found missing

  -- `map.remove(k).c(d!())?`
  abbrev pub remove_in : Field (Mapx K V) → K → Exec MapxRawMkVs V
  remove_in f k = do v ← get_in f k; modify (λ s. f.write (Mapx.remove (f.read s) k) s); pure v

module _ {K : Type 0} ⦃o : Ord K⦄ where
  -- `decode_map(map.get(k).c(d!())?).remove(ver).c(d!())?`
  abbrev pub remove_nested : Field (Mapx K VerMap) → K → VersionId → Exec MapxRawMkVs RawValue
  remove_nested f k ver_id = do
    vers ← get_in f k
    v ← require (Mapx.get vers ver_id) missing
    insert_in f k (Mapx.remove vers ver_id)
    pure v
