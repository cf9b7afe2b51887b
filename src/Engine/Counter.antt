-- ===== src/Engine/Counter.antt =====
-- The number of entries that the engine keeps under the prefix of each instance.
use vsdb.Prelude.{
  ℕ, ◌+◌, ◌-◌, ◌%◌, ◌<◌, ◌≡◌, ◌≢◌, refl, sym, ap, ◌∙◌, Bool, true, false, not, Option, none, some,
  ◌++◌, length, arith, if◌then◌else◌, Bool-cases, inl, inr, is_some,
}
use vsdb.Common.{RawBytes, RawKey, RawValue, u64_mod}
use vsdb.Exec.{ok, Exec, pure, ◌>>◌}
use vsdb.Mapx.{bytes_ord, eq_of_cmp_bytes, cmp_bytes_refl}
use vsdb.Ende.Bytes.{to_be_bytes}
use vsdb.Engine.{
  RocksDb, RocksEngine, PreBytes, get_instance_len, set_instance_len, increase_instance_len,
  decrease_instance_len, same_bytes, area_idx,
}
use vsdb.Engine.Content.{content, IsInstance, read_int_lem, written, erased, grown, grown-meta}

eq_of_same : (q p : RawBytes) → same_bytes q p ≡ true → q ≡ p
eq_of_same q p h = ground (arith, eq_of_cmp_bytes q p)

same_key : {A : Type 0} (p : RawBytes) (x y : A) → (if same_bytes p p then x else y) ≡ x
same_key p x y = ground (arith, cmp_bytes_refl p)

pub other_key :
    {A : Type 0} (q p : RawBytes) (x y : A) → p ≢ q → (if same_bytes q p then x else y) ≡ y
other_key q p x y ne = elim (Bool-cases (same_bytes q p)) [
  | inl same ↦ absurd (ne (sym (eq_of_same q p same)))
  | inr differ ↦ rw differ refl
]

module _ {T : Type 0} where
  pub then_grow :
      (o : Option RawValue) (m : Exec T Unit) (w u : T)
      → m w ≡ (ok tt, u)
      → ((if not (is_some o) then m else pure tt) >> pure o) w ≡ (ok o, if is_some o then w else u)
  then_grow none m w u h = rw h refl
  then_grow (some v) m w u h = refl

  pub then_shrink :
      (o : Option RawValue) (m : Exec T Unit) (w u : T)
      → (is_some o ≡ true → m w ≡ (ok tt, u))
      → ((if is_some o then m else pure tt) >> pure o) w ≡ (ok o, if is_some o then u else w)
  then_shrink none m w u h = refl
  then_shrink (some v) m w u h = rw (h refl) refl

pub test_true : {A : Type 0} (t : Bool) (x y : A) → t ≡ true → (if t then x else y) ≡ x
test_true t x y h = rw h refl

pub test_false : {A : Type 0} (t : Bool) (x y : A) → t ≡ false → (if t then x else y) ≡ y
test_false t x y h = rw h refl

-- A length in range is what the engine counts.
pub no_wrap : (n : ℕ) → n + 1 < u64_mod → (n + 1) % u64_mod ≡ n + 1
no_wrap n h = omega arith

no_borrow : (n m : ℕ) → m + 1 ≡ n → n < u64_mod → (n + (u64_mod - 1)) % u64_mod ≡ m
no_borrow n m h k = omega arith

module _ {S : Type 0} (db : RocksDb S) where
  -- The engine after the length of an instance is set.
  unfoldable pub counted_as : RocksEngine S → PreBytes → ℕ → RocksEngine S
  counted_as s p n = record s { meta = db.put s.meta p (to_be_bytes 8 n) }

  pub content-counted_as :
      (s : RocksEngine S) (p : PreBytes) (n : ℕ) (q : PreBytes)
      → content db (counted_as s p n) q ≡ content db s q
  unfolding content counted_as
  content-counted_as s p n q = rw (db.put_entries s.meta p (to_be_bytes 8 n) (area_idx q)) refl

  pub counted_as-IsInstance :
      (s : RocksEngine S) (p : PreBytes) (n : ℕ)
      → length p ≡ 8
      → length (content db s p) ≡ n
      → n < u64_mod
      → IsInstance db (counted_as s p n) p
  unfolding counted_as
  counted_as-IsInstance s p n eight len small = record {
    eight = eight;
    counted =
        db.put_law s.meta p (to_be_bytes 8 n) p
        ∙ same_key p _ _
        ∙ ap (λ m. some (to_be_bytes 8 m)) (sym (ap length (content-counted_as s p n p) ∙ len));
    in_range = rw (content-counted_as s p n p, len) small;
  }

  -- The count stands if the number of entries does.
  pub counted_known :
      (s t : RocksEngine S) (p : PreBytes)
      → db.get t.meta p ≡ db.get s.meta p
      → length (content db t p) ≡ length (content db s p)
      → IsInstance db s p
      → IsInstance db t p
  counted_known s t p meta same is = record {
    eight = is.eight;
    counted = meta ∙ is.counted ∙ ap (λ n. some (to_be_bytes 8 n)) (sym same);
    in_range = rw same is.in_range;
  }

  pub counted_as_other :
      (s : RocksEngine S) (p : PreBytes) (n : ℕ) (q : PreBytes)
      → p ≢ q
      → IsInstance db s q
      → IsInstance db (counted_as s p n) q
  unfolding counted_as
  counted_as_other s p n q ne is = record {
    eight = is.eight;
    counted =
        db.put_law s.meta p (to_be_bytes 8 n) q
        ∙ other_key q p _ _ ne
        ∙ is.counted
        ∙ ap (λ m. some (to_be_bytes 8 (length m))) (sym (content-counted_as s p n q));
    in_range = rw (content-counted_as s p n q) is.in_range;
  }

  pub written-meta :
      (s : RocksEngine S) (p : PreBytes) (k : RawKey) (v : RawValue) (q : PreBytes)
      → length q ≡ 8
      → db.get (written db s p k v).meta q ≡ db.get s.meta q
  unfolding written
  written-meta s p k v q eight =
      db.put_cf_get (grown db s k).meta (area_idx p) (p ++ k) v q ∙ grown-meta db s k q eight

  pub erased-meta :
      (s : RocksEngine S) (p : PreBytes) (k : RawKey) (q : PreBytes)
      → db.get (erased db s p k).meta q ≡ db.get s.meta q
  unfolding erased
  erased-meta s p k q = db.delete_cf_get s.meta (area_idx p) (p ++ k) q

  pub increase_lem :
      (s : RocksEngine S) (p : PreBytes) (n : ℕ)
      → db.get s.meta p ≡ some (to_be_bytes 8 n)
      → n + 1 < u64_mod
      → increase_instance_len db p s ≡ (ok tt, counted_as s p (n + 1))
  unfolding increase_instance_len get_instance_len set_instance_len counted_as
  increase_lem s p n found small = ground (arith, read_int_lem db s p n found, no_wrap n small)

  pub decrease_lem :
      (s : RocksEngine S) (p : PreBytes) (n m : ℕ)
      → db.get s.meta p ≡ some (to_be_bytes 8 n)
      → m + 1 ≡ n
      → n < u64_mod
      → decrease_instance_len db p s ≡ (ok tt, counted_as s p m)
  unfolding decrease_instance_len get_instance_len set_instance_len counted_as
  decrease_lem s p n m found less small =
      ground (arith, read_int_lem db s p n found, no_borrow n m less small)
