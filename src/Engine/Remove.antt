-- ===== src/Engine/Remove.antt =====
-- `remove` on an instance of the engine is a removal from its ordered map, and touches no other
-- instance.
use vsdb.Prelude.{
  ℕ, ◌+◌, ◌≡◌, ◌≢◌, refl, sym, ap, ◌∙◌, true, false, ◌++◌, length, arith, if◌then◌else◌, is_some,
  if_elim,
}
use vsdb.Common.{RawKey}
use vsdb.Exec.{ok}
use vsdb.Mapx
use vsdb.Mapx.{Mapx, bytes_ord, eq_of_cmp_bytes, cmp_bytes_refl}
use vsdb.Mapx.Count.{length-remove}
use vsdb.Engine.{RocksDb, RocksEngine, PreBytes, engine_get, area_idx}
use vsdb.Engine.Content.{
  content, IsInstance, if_either, content-IsAscending, engine_get-content, erased, content-erased,
  content-erased_other,
}
use vsdb.Engine.Instance
use vsdb.Engine.Counter.{
  counted_as, content-counted_as, counted_as-IsInstance, counted_known, counted_as_other,
  erased-meta, decrease_lem, then_shrink, test_true, test_false,
}

module _ {S : Type 0} (db : RocksDb S) where
  -- The state after `remove`.
  unfoldable removed : RocksEngine S → PreBytes → RawKey → RocksEngine S
  removed s p k =
      let t = erased db s p k in
      if is_some (Mapx.get (content db s p) k)
      then counted_as db t p (length (Mapx.remove (content db s p) k))
      else t

  -- One entry less, if the key is there.
  one_less :
      (s : RocksEngine S) (p : PreBytes) (k : RawKey)
      → is_some (Mapx.get (content db s p) k) ≡ true
      → length (Mapx.remove (content db s p) k) + 1 ≡ length (content db s p)
  one_less s p k there =
      ap (λ (n : ℕ). length (Mapx.remove (content db s p) k) + n) (sym (test_true _ 1 0 there))
      ∙ length-remove (content db s p) k (content-IsAscending db s p)

  same_length :
      (s : RocksEngine S) (p : PreBytes) (k : RawKey)
      → is_some (Mapx.get (content db s p) k) ≡ false
      → length (Mapx.remove (content db s p) k) ≡ length (content db s p)
  same_length s p k absent =
      let none_more : ◌≡◌ {A = ℕ} (if is_some (Mapx.get (content db s p) k) then 1 else 0) 0 =
        test_false _ 1 0 absent in
      omega (arith, none_more, length-remove (content db s p) k (content-IsAscending db s p))

  remove_lem :
      (s : RocksEngine S) (p : PreBytes) (k : RawKey)
      → IsInstance db s p
      → Instance.remove db p k s ≡ (ok (Mapx.get (content db s p) k), removed s p k)
  unfolding Instance.remove removed engine_get erased
  remove_lem s p k is =
      let shrink = λ (there : is_some (Mapx.get (content db s p) k) ≡ true).
        decrease_lem db (erased db s p k) p (length (content db s p))
          (length (Mapx.remove (content db s p) k)) (erased-meta db s p k p ∙ is.counted)
          (one_less s p k there) is.in_range in
      let old : db.get_cf s.meta (area_idx p) (p ++ k) ≡ Mapx.get (content db s p) k =
        engine_get-content db s p k in
      rw old (then_shrink _ _ _ _ shrink)

  content-removed :
      (s : RocksEngine S) (p : PreBytes) (k : RawKey)
      → content db (removed s p k) p ≡ Mapx.remove (content db s p) k
  unfolding removed
  content-removed s p k =
      if_either (is_some (Mapx.get (content db s p) k)) (λ t. content db t p) _ _ _
        (content-counted_as db (erased db s p k) p _ p ∙ content-erased db s p k)
        (content-erased db s p k)

  removed-IsInstance :
      (s : RocksEngine S) (p : PreBytes) (k : RawKey)
      → IsInstance db s p
      → IsInstance db (removed s p k) p
  unfolding removed
  removed-IsInstance s p k is =
      let w = erased db s p k in
      let left = length (Mapx.remove (content db s p) k) in
      if_elim (λ t. IsInstance db t p) (is_some (Mapx.get (content db s p) k))
        (counted_as db w p left) w
        (λ there.
          counted_as-IsInstance db w p _ is.eight (ap length (content-erased db s p k))
            (omega (arith, one_less s p k there, is.in_range)))
        (λ absent.
          counted_known db s w p (erased-meta db s p k p)
            (ap length (content-erased db s p k) ∙ same_length s p k absent) is)

  -- In an instance, `remove` returns the value that the map had at the key, the map has none there
  -- and is otherwise as before, and the engine counts its entries again.
  pub remove-content :
      (s : RocksEngine S) (p : PreBytes) (k : RawKey)
      → IsInstance db s p
      → ((Instance.remove db p k s).0 ≡ ok (Mapx.get (content db s p) k))
        × (content db (Instance.remove db p k s).1 p ≡ Mapx.remove (content db s p) k)
        × IsInstance db (Instance.remove db p k s).1 p
  remove-content s p k is =
      rw (remove_lem s p k is) (refl, content-removed s p k, removed-IsInstance s p k is)

  -- It changes no other instance.
  remove-content_other :
      (s : RocksEngine S) (p q : PreBytes) (k : RawKey)
      → IsInstance db s p
      → IsInstance db s q
      → p ≢ q
      → (content db (Instance.remove db p k s).1 q ≡ content db s q)
        × IsInstance db (Instance.remove db p k s).1 q
  unfolding removed
  remove-content_other s p q k is other ne =
      let w = erased db s p k in
      let known = is_some (Mapx.get (content db s p) k) in
      let same = content-erased_other db s p q k (is.eight ∙ sym other.eight) ne in
      let kept = counted_known db s w q (erased-meta db s p k q) (ap length same) other in
      rw (remove_lem s p k is) (
        if_either known (λ t. content db t q) _ _ _ (content-counted_as db w p _ q ∙ same) same,
        if_elim (λ t. IsInstance db t q) known _ _ (λ _. counted_as_other db w p _ q ne kept)
            (λ _. kept),
      )
