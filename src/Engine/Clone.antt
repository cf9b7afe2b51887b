-- ===== src/Engine/Clone.antt =====
-- `clone` copies every entry into a new instance.
use Prim.Native.Nat.Ordering.{lt, gt}
use mathlib.Core.List.{append_assoc, append-nil}
use vsdb.Prelude.{
  ℕ, ◌+◌, ◌<◌, ◌≤◌, ◌≡◌, ◌≢◌, refl, sym, ap, ◌∙◌, some, [], ◌∷◌, ◌++◌, length, foldl, Bool, arith,
  is_some, if◌then◌else◌,
}
use vsdb.Common.{u64_mod, RawKey, RawValue}
use vsdb.Exec.{Exec, Result, ok, err, for_each, resume, pure, gets, ◌>>◌, ◌>>=◌}
use vsdb.Mapx
use vsdb.Mapx.{Mapx, bytes_ord, cmp_bytes}
use vsdb.Mapx.Ascending.{IsAscending, IsOver, cmp_bytes_trans, cmp_bytes_flip_lt}
use vsdb.Mapx.Count.{length-insert}
use vsdb.Ende.Bytes.{to_be_bytes}
use vsdb.Engine.{RocksDb, RocksEngine, PreBytes, Op, meta_key_prefix_allocator, iter_next}
use vsdb.Engine.Content.{content, IsInstance, content-IsAscending}
use vsdb.Engine.Insert.{insert-content, insert-content_other}
use vsdb.Engine.Range.{iter_next-content}
use vsdb.Engine.Create.{created, new_lem, new-content, created-content_other}
use vsdb.Engine.Instance

abbrev insert_all : Mapx RawKey RawValue → Mapx RawKey RawValue → Mapx RawKey RawValue
insert_all acc es = foldl (λ m e. Mapx.insert m e.0 e.1) acc es

before_later :
    (j k : RawKey) (v : RawValue) (acc es : Mapx RawKey RawValue)
    → IsOver j (acc ++ ((k, v) ∷ es))
    → IsAscending (acc ++ ((k, v) ∷ es))
    → cmp_bytes j k ≡ lt
before_later j k v [] es over asc = over
before_later j k v ((i, w) ∷ acc) es over asc =
    cmp_bytes_trans j i k over (before_later i k v acc es asc.0 asc.1)

-- A key above the others goes to the end.
insert-end :
    (k : RawKey) (v : RawValue) (acc es : Mapx RawKey RawValue)
    → IsAscending (acc ++ ((k, v) ∷ es))
    → Mapx.insert acc k v ≡ acc ++ ((k, v) ∷ [])
unfolding Mapx.insert
insert-end k v [] es asc = refl
insert-end k v ((j, w) ∷ acc) es asc =
    let above : cmp_bytes k j ≡ gt =
      cmp_bytes_flip_lt j k (before_later j k v acc es asc.0 asc.1) in
    rw (above, Mapx.insert) (ap (λ m. (j, w) ∷ m) (insert-end k v acc es asc.1))

-- Entries in order, inserted one after the other behind others, follow them.
insert_all-append :
    (acc es : Mapx RawKey RawValue) → IsAscending (acc ++ es) → insert_all acc es ≡ acc ++ es
insert_all-append acc [] asc = sym (append-nil acc)
insert_all-append acc ((k, v) ∷ es) asc =
    let e = append_assoc acc ((k, v) ∷ []) es in
    ap (λ m. insert_all m es) (insert-end k v acc es asc)
    ∙ insert_all-append (acc ++ ((k, v) ∷ [])) es (rw e asc)
    ∙ e

grows : (b : Bool) (n : ℕ) → (if b then n else n + 1) ≤ n + 1
grows b n = ground arith

bind_ok :
    {T A B : Type 0} (x : Result A × T) (f : A → Exec T B) {a : A} {w : T}
    → x ≡ (ok a, w)
    → resume x.0 f x.1 ≡ f a w
bind_ok x f h = rw h refl

after_ok :
    {T A B : Type 0} (x : Result A × T) (next : Exec T B) {a : A}
    → x.0 ≡ ok a
    → (resume x.0 (λ _. pure tt) >> next) x.1 ≡ next x.1
after_ok (ok b, w) next h = refl
after_ok (err e, w) next h = ground arith

module _ {S : Type 0} (db : RocksDb S) where
  -- The copies go into `p`; `q` is another instance.
  copy_entries :
      (es : Mapx RawKey RawValue) (s : RocksEngine S) (p q : PreBytes)
      → IsInstance db s p
      → IsInstance db s q
      → p ≢ q
      → length (content db s p) + length es < u64_mod
      → (t : RocksEngine S) × (for_each es (Instance.copy_entry db p) s ≡ (ok tt, t))
        × (content db t p ≡ insert_all (content db s p) es)
        × IsInstance db t p
        × (content db t q ≡ content db s q)
        × IsInstance db t q
  copy_entries [] s p q ip iq ne room = (s, refl, refl, ip, refl, iq)
  copy_entries ((k, v) ∷ es) s p q ip iq ne room =
      let s' = (Instance.insert db p k v s).1 in
      let (run, now, ip') = insert-content db s p k v ip (omega arith) in
      let (other, iq') = insert-content_other db s p q k v ip (omega arith) iq ne in
      let (t, run', now', ip'', other', iq'') = copy_entries es s' p q ip' iq' ne (
        omega (
          arith,
          ap length now,
          length-insert (content db s p) k v (content-IsAscending db s p),
          grows (is_some (Mapx.get (content db s p) k)) (length (content db s p)),
          room,
        )) in
      (
        t,
        after_ok (Instance.insert db p k v s) (for_each es (Instance.copy_entry db p)) run ∙ run',
        now' ∙ ap (λ m. insert_all m es) now,
        ip'',
        other' ∙ other,
        iq'',
      )

  abbrev copy_into : PreBytes → PreBytes → Op db PreBytes
  copy_into p q = do
    found ← gets (λ s. iter_next db s p)
    for_each found (Instance.copy_entry db q)
    pure q

  -- Where the next prefix is another one and has no entries, `clone` succeeds: it gives a new instance
  -- with the entries of the old one, which keeps its own; both are instances, with their lengths.
  pub clone-content :
      (s : RocksEngine S) (p : PreBytes) (n : ℕ)
      → IsInstance db s p
      → db.get s.meta meta_key_prefix_allocator ≡ some (to_be_bytes 8 n)
      → n < u64_mod
      → content db s (to_be_bytes 8 n) ≡ []
      → to_be_bytes 8 n ≢ p
      → (t : RocksEngine S) × (Instance.clone db p s ≡ (ok (to_be_bytes 8 n), t))
        × (content db t (to_be_bytes 8 n) ≡ content db s p)
        × IsInstance db t (to_be_bytes 8 n)
        × (content db t p ≡ content db s p)
        × IsInstance db t p
  unfolding Instance.clone
  clone-content s p n is found small fresh ne =
      let q = to_be_bytes 8 n in
      let s' = created db s n in
      let run = new_lem db s n found small fresh in
      let (given, empty, iq) = new-content db s n found small fresh in
      let (same, ip) = created-content_other db s n p is ne in
      let empty' : content db s' q ≡ [] = rw run at empty in
      let iq' : IsInstance db s' q = rw run at iq in
      let (t, run', now, iq'', other, ip') =
        copy_entries (content db s p) s' q p iq' ip ne
          (omega (arith, ap length empty', is.in_range)) in
      (
        t,
        bind_ok (Instance.new db s) (copy_into p) run
            ∙ ap (λ es. (for_each es (Instance.copy_entry db q) >> pure q) s')
                (iter_next-content db s' p is.eight ∙ same)
            ∙ bind_ok (for_each (content db s p) (Instance.copy_entry db q) s') (λ _. pure q) run',
        now
            ∙ ap (λ m. insert_all m (content db s p)) empty'
            ∙ insert_all-append [] (content db s p) (content-IsAscending db s p),
        iq'',
        other ∙ same,
        ip',
      )
