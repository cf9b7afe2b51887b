-- ===== src/Engine/Content.antt =====
-- What an instance holds: an ordered map of its own, and its length beside it. The operations of
-- `Mapx` do to this map what their names say.
use vsdb.Prelude.{
  ℕ, ◌<◌, ◌≡◌, ◌≢◌, refl, sym, ap, ◌∙◌, Bool, true, false, some, [], ◌∷◌, ◌++◌, length, arith, ◌==◌,
  ltb, if◌then◌else◌,
}
use vsdb.Common.{RawKey, RawValue, u64_mod}
use vsdb.Exec.{ok}
use vsdb.Mapx
use vsdb.Mapx.{Mapx, bytes_ord, cmp_bytes, eq_of_cmp_bytes}
use vsdb.Mapx.Ascending.{IsAscending}
use vsdb.Ende.Bytes.{to_be_bytes, length-to_be_bytes, from_be_bytes-to_be_bytes}
use vsdb.Engine.{
  RocksDb, RocksEngine, PreBytes, engine_get, engine_insert, engine_remove, set_max_key_len,
  read_int, same_bytes, area_idx, meta_key_max_keylen,
}
use vsdb.Engine.Strip.{
  strip, strip_key-other, get-strip, strip-insert, strip-remove, strip-insert_other,
  strip-remove_other, strip-IsAscending,
}

if_same : {A : Type 0} (a : ℕ) (x y : A) → (if a == a then x else y) ≡ x
if_same a x y = ground arith

pub if_either :
    {A B : Type 0} (t : Bool) (f : A → B) (x y : A) (z : B)
    → f x ≡ z
    → f y ≡ z
    → f (if t then x else y) ≡ z
if_either true f x y z h k = h
if_either false f x y z h k = k

module _ {S : Type 0} (db : RocksDb S) where
  -- The entries of an instance, and where their number is kept.
  unfoldable pub content : RocksEngine S → PreBytes → Mapx RawKey RawValue
  content s p = strip p (db.entries s.meta (area_idx p))

  -- An instance: a prefix of 8 bytes, under which the engine has the number of its entries.
  pub record IsInstance (s : RocksEngine S) (p : PreBytes) : Type 0 where
    pub eight : length p ≡ 8
    pub counted : db.get s.meta p ≡ some (to_be_bytes 8 (length (content s p)))
    pub in_range : length (content s p) < u64_mod

  pub content-IsAscending : (s : RocksEngine S) (p : PreBytes) → IsAscending (content s p)
  unfolding content
  content-IsAscending s p = strip-IsAscending p _ (db.entries_asc s.meta (area_idx p))

  pub engine_get-content :
      (s : RocksEngine S) (p : PreBytes) (k : RawKey)
      → engine_get db s p k ≡ Mapx.get (content s p) k
  unfolding engine_get content
  engine_get-content s p k =
      db.get_cf_law s.meta (area_idx p) (p ++ k)
      ∙ sym (get-strip p k (db.entries s.meta (area_idx p)))

  pub read_int_lem :
      (s : RocksEngine S) (p : PreBytes) (n : ℕ)
      → db.get s.meta p ≡ some (to_be_bytes 8 n)
      → n < u64_mod
      → read_int db p s ≡ (ok n, s)
  unfolding read_int
  read_int_lem s p n found small =
      ground (arith, found, length-to_be_bytes 8 n, from_be_bytes-to_be_bytes 8 n (omega arith))

  -- The engine after a longer key than before is seen.
  unfoldable pub grown : RocksEngine S → RawKey → RocksEngine S
  grown s k =
      if ltb s.max_keylen (length k)
      then record {
        meta = db.put s.meta meta_key_max_keylen (to_be_bytes 8 (length k));
        max_keylen = length k;
      }
      else s

  -- The engine after an entry is written, or taken out.
  unfoldable pub written : RocksEngine S → PreBytes → RawKey → RawValue → RocksEngine S
  unfolding grown
  written s p k v = record (grown s k) { meta = db.put_cf (grown s k).meta (area_idx p) (p ++ k) v }

  unfoldable pub erased : RocksEngine S → PreBytes → RawKey → RocksEngine S
  erased s p k = record s { meta = db.delete_cf s.meta (area_idx p) (p ++ k) }

  grown-entries :
      (s : RocksEngine S) (k : RawKey) (cf : ℕ)
      → db.entries (grown s k).meta cf ≡ db.entries s.meta cf
  unfolding grown
  grown-entries s k cf =
      ground (arith, db.put_entries s.meta meta_key_max_keylen (to_be_bytes 8 (length k)) cf)

  not_max_keylen : (p : PreBytes) → length p ≡ 8 → same_bytes p meta_key_max_keylen ≡ false
  not_max_keylen [] h = absurd (omega arith)
  not_max_keylen (a ∷ []) h = absurd (omega arith)
  not_max_keylen (a ∷ b ∷ p) h = ground arith

  pub grown-meta :
      (s : RocksEngine S) (k : RawKey) (p : PreBytes)
      → length p ≡ 8
      → db.get (grown s k).meta p ≡ db.get s.meta p
  unfolding grown
  grown-meta s k p h = ground (
    arith,
    db.put_law s.meta meta_key_max_keylen (to_be_bytes 8 (length k)) p,
    not_max_keylen p h,
  )

  old_value :
      (s : RocksEngine S) (p : PreBytes) (k : RawKey)
      → db.get_cf (grown s k).meta (area_idx p) (p ++ k) ≡ Mapx.get (content s p) k
  unfolding content
  old_value s p k =
      db.get_cf_law (grown s k).meta (area_idx p) (p ++ k)
      ∙ ap (λ m. Mapx.get m (p ++ k)) (grown-entries s k (area_idx p))
      ∙ sym (get-strip p k (db.entries s.meta (area_idx p)))

  pub engine_insert_lem :
      (s : RocksEngine S) (p : PreBytes) (k : RawKey) (v : RawValue)
      → engine_insert db p k v s ≡ (ok (Mapx.get (content s p) k), written s p k v)
  unfolding engine_insert set_max_key_len written grown
  engine_insert_lem s p k v = ground (arith, old_value s p k)

  engine_remove_lem :
      (s : RocksEngine S) (p : PreBytes) (k : RawKey)
      → engine_remove db p k s ≡ (ok (Mapx.get (content s p) k), erased s p k)
  unfolding engine_remove erased engine_get
  engine_remove_lem s p k = ground (arith, engine_get-content s p k)

  pub content-written :
      (s : RocksEngine S) (p : PreBytes) (k : RawKey) (v : RawValue)
      → content (written s p k v) p ≡ Mapx.insert (content s p) k v
  unfolding content written
  content-written s p k v =
      let a = area_idx p in
      ap (strip p) (
        db.put_cf_law (grown s k).meta a (p ++ k) v a
        ∙ if_same a _ _
        ∙ ap (λ m. Mapx.insert m (p ++ k) v) (grown-entries s k a))
      ∙ strip-insert p k v (db.entries s.meta a) (db.entries_asc s.meta a)

  pub content-erased :
      (s : RocksEngine S) (p : PreBytes) (k : RawKey)
      → content (erased s p k) p ≡ Mapx.remove (content s p) k
  unfolding content erased
  content-erased s p k =
      let a = area_idx p in
      ap (strip p) (db.delete_cf_law s.meta a (p ++ k) a ∙ if_same a _ _)
      ∙ strip-remove p k (db.entries s.meta a)

  pub content-written_other :
      (s : RocksEngine S) (p q : PreBytes) (k : RawKey) (v : RawValue)
      → length p ≡ length q
      → p ≢ q
      → content (written s p k v) q ≡ content s q
  unfolding content written
  content-written_other s p q k v len ne =
      ap (strip q) (db.put_cf_law (grown s k).meta (area_idx p) (p ++ k) v (area_idx q))
      ∙ if_either (area_idx q == area_idx p) (strip q) _ _ _
          (ap (λ m. strip q (Mapx.insert m (p ++ k) v)) (grown-entries s k (area_idx q))
            ∙ strip-insert_other p q k v (db.entries s.meta (area_idx q))
                (strip_key-other p q k len ne))
          (ap (strip q) (grown-entries s k (area_idx q)))

  pub content-erased_other :
      (s : RocksEngine S) (p q : PreBytes) (k : RawKey)
      → length p ≡ length q
      → p ≢ q
      → content (erased s p k) q ≡ content s q
  unfolding content erased
  content-erased_other s p q k len ne =
      ap (strip q) (db.delete_cf_law s.meta (area_idx p) (p ++ k) (area_idx q))
      ∙ if_either (area_idx q == area_idx p) (strip q) _ _ _
          (strip-remove_other p q k (db.entries s.meta (area_idx q)) (strip_key-other p q k len ne))
          refl
