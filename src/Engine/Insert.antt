-- ===== src/Engine/Insert.antt =====
-- `insert` on an instance of the engine is an insertion into its ordered map, and touches no other
-- instance.
use vsdb.Prelude.{◌+◌, ◌<◌, ◌≡◌, ◌≢◌, refl, sym, ap, ◌∙◌, length, if◌then◌else◌, is_some, if_elim}
use vsdb.Common.{RawKey, RawValue, u64_mod}
use vsdb.Exec.{ok}
use vsdb.Mapx
use vsdb.Mapx.{Mapx, bytes_ord, eq_of_cmp_bytes, cmp_bytes_refl}
use vsdb.Mapx.Count.{length-insert}
use vsdb.Engine.{RocksDb, RocksEngine, PreBytes}
use vsdb.Engine.Content.{
  content, IsInstance, if_either, content-IsAscending, written, engine_insert_lem, content-written,
  content-written_other,
}
use vsdb.Engine.Instance
use vsdb.Engine.Counter.{
  counted_as, content-counted_as, counted_as-IsInstance, counted_known, counted_as_other,
  written-meta, increase_lem, then_grow, test_true, test_false,
}

module _ {S : Type 0} (db : RocksDb S) where
  -- The state after `insert`.
  unfoldable pub inserted : RocksEngine S → PreBytes → RawKey → RawValue → RocksEngine S
  inserted s p k v =
      let t = written db s p k v in
      if is_some (Mapx.get (content db s p) k)
      then t
      else counted_as db t p (length (content db s p) + 1)

  insert_lem :
      (s : RocksEngine S) (p : PreBytes) (k : RawKey) (v : RawValue)
      → IsInstance db s p
      → length (content db s p) + 1 < u64_mod
      → Instance.insert db p k v s ≡ (ok (Mapx.get (content db s p) k), inserted s p k v)
  unfolding Instance.insert inserted
  insert_lem s p k v is room =
      let grow =
        increase_lem db (written db s p k v) p (length (content db s p))
          (written-meta db s p k v p is.eight ∙ is.counted) room in
      rw (engine_insert_lem db s p k v) (then_grow _ _ _ _ grow)

  content-inserted :
      (s : RocksEngine S) (p : PreBytes) (k : RawKey) (v : RawValue)
      → content db (inserted s p k v) p ≡ Mapx.insert (content db s p) k v
  unfolding inserted
  content-inserted s p k v =
      if_either (is_some (Mapx.get (content db s p) k)) (λ t. content db t p) _ _ _
        (content-written db s p k v)
        (content-counted_as db (written db s p k v) p _ p ∙ content-written db s p k v)

  inserted-IsInstance :
      (s : RocksEngine S) (p : PreBytes) (k : RawKey) (v : RawValue)
      → IsInstance db s p
      → length (content db s p) + 1 < u64_mod
      → IsInstance db (inserted s p k v) p
  unfolding inserted
  inserted-IsInstance s p k v is room =
      let w = written db s p k v in
      let known = Mapx.get (content db s p) k in
      let count : length (content db w p)
          ≡ (if is_some known then length (content db s p) else length (content db s p) + 1) =
        ap length (content-written db s p k v)
        ∙ length-insert (content db s p) k v (content-IsAscending db s p) in
      if_elim (λ t. IsInstance db t p) (is_some known) w
        (counted_as db w p (length (content db s p) + 1))
        (λ there.
          counted_known db s w p (written-meta db s p k v p is.eight)
            (count ∙ test_true _ _ _ there) is)
        (λ absent. counted_as-IsInstance db w p _ is.eight (count ∙ test_false _ _ _ absent) room)

  -- In an instance with room for one more entry, `insert` returns the value that the map had at the
  -- key, the map has the new value there and is otherwise as before, and the engine counts its
  -- entries again.
  pub insert-content :
      (s : RocksEngine S) (p : PreBytes) (k : RawKey) (v : RawValue)
      → IsInstance db s p
      → length (content db s p) + 1 < u64_mod
      → ((Instance.insert db p k v s).0 ≡ ok (Mapx.get (content db s p) k))
        × (content db (Instance.insert db p k v s).1 p ≡ Mapx.insert (content db s p) k v)
        × IsInstance db (Instance.insert db p k v s).1 p
  insert-content s p k v is room =
      rw (insert_lem s p k v is room)
        (refl, content-inserted s p k v, inserted-IsInstance s p k v is room)

  -- It changes no other instance.
  pub insert-content_other :
      (s : RocksEngine S) (p q : PreBytes) (k : RawKey) (v : RawValue)
      → IsInstance db s p
      → length (content db s p) + 1 < u64_mod
      → IsInstance db s q
      → p ≢ q
      → (content db (Instance.insert db p k v s).1 q ≡ content db s q)
        × IsInstance db (Instance.insert db p k v s).1 q
  unfolding inserted
  insert-content_other s p q k v is room other ne =
      let w = written db s p k v in
      let known = is_some (Mapx.get (content db s p) k) in
      let same = content-written_other db s p q k v (is.eight ∙ sym other.eight) ne in
      let kept =
        counted_known db s w q (written-meta db s p k v q other.eight) (ap length same) other in
      rw (insert_lem s p k v is room) (
        if_either known (λ t. content db t q) _ _ _ same (content-counted_as db w p _ q ∙ same),
        if_elim (λ t. IsInstance db t q) known _ _ (λ _. kept)
            (λ _. counted_as_other db w p _ q ne kept),
      )
