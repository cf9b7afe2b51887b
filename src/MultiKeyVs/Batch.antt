-- ===== src/MultiKeyVs/Batch.antt =====
-- The removal of all keys that start with a prefix.
use Prim.Native.Nat.Ordering.{eq}
use vsdb.Prelude.{
  ℕ, ◌<◌, ◌≡◌, ◌≢◌, refl, sym, ◌∙◌, true, false, Bool, Option, some, [], ◌∷◌, ◌&&◌, if◌then◌else◌,
  length, arith, ◌==◌,
}
use vsdb.Common.{RawValue, VersionId}
use vsdb.Exec.{ok, err, incorrect_key_size, for_each}
use vsdb.Mapx
use vsdb.Mapx.{Mapx, at, or_empty, nat_ord, bytes_ord, reaches_start, included, cmp_bytes}
use vsdb.Mapx.Laws.{get-insert}
use vsdb.Mapx.Sorted.{IsSorted, insert-IsAbove}
use vsdb.MultiKey
use vsdb.MultiKey.{MapxRawMk, insert_into, stored}
use vsdb.MultiKey.Keys.{RawKeys, keys_ord, cmp_keys, eq_of_cmp_keys, starts_with}
use vsdb.MultiKey.Laws.{insert-get}
use vsdb.MultiKey.Walk.{Entries}
use vsdb.MultiKey.Prefix.{All, IsTree}
use vsdb.MultiKey.Trees.{insert_into-IsTree}
use vsdb.Vecx.Steps.{then_ok}
use vsdb.MultiKeyVs.{MapxRawMkVs, Layers}
use vsdb.MultiKeyVs.Data.{erase_change, erase_layers, set_change_set}

-- A key that starts with a prefix is in the range from the prefix on.
reaches_prefix : (p j : RawKeys) → starts_with p j ≡ true → reaches_start (included p) j ≡ true
reaches_prefix [] [] h = ground arith
reaches_prefix [] (j ∷ js) h = ground arith
reaches_prefix (k ∷ p) [] h = ground arith
reaches_prefix (k ∷ p) (j ∷ js) h = ground (arith, reaches_prefix p js)

pub at-erase_layers :
    (p : RawKeys) (n : VersionId) (m : Layers) (j : RawKeys) (i : VersionId)
    → Mapx.get (at (erase_layers p n m) j) i ≡ (
        if starts_with p j && (i == n) && Mapx.contains_key m j
        then some []
        else Mapx.get (at m j) i)
unfolding erase_layers Mapx.get
at-erase_layers p n [] j i = ground arith
at-erase_layers p n ((k, vers) ∷ m) j i = ground (
  arith,
  at-erase_layers p n m j i,
  get-insert vers n [] i,
  eq_of_cmp_keys j k,
  reaches_prefix p k,
)

pub erase_layers-IsSorted :
    (p : RawKeys) (n : VersionId) (m : Layers) (j : RawKeys)
    → IsSorted (at m j)
    → IsSorted (at (erase_layers p n m) j)
unfolding erase_layers Mapx.get
erase_layers-IsSorted p n [] j h = h
erase_layers-IsSorted p n ((k, vers) ∷ m) j h =
    ground (arith, erase_layers-IsSorted p n m j, insert-IsAbove 0 vers n [])

-- The change sets after the loop that erases the entries of a list.
pub record Erased (s t : MapxRawMkVs) (n : VersionId) (cs : MapxRawMk) (xs : Entries) : Type 0 where
  pub changed : MapxRawMk
  pub same_size : changed.key_size ≡ cs.key_size
  pub tree : IsTree changed.key_size changed.inner
  pub here : Mapx.get t.ver_to_change_set n ≡ some changed
  pub others :
      (i : VersionId) → i ≢ n → Mapx.get t.ver_to_change_set i ≡ Mapx.get s.ver_to_change_set i
  pub sorted : IsSorted s.ver_to_change_set → IsSorted t.ver_to_change_set
  pub rest : t ≡ record s { ver_to_change_set = t.ver_to_change_set }
  pub reads :
      (key : RawKeys)
      → length key ≡ cs.key_size
      → MultiKey.get changed key
        ≡ (if Mapx.contains_key xs key then some [] else MultiKey.get cs key)

stored_if :
    (b : Bool) (cs : MapxRawMk) (key : RawKeys) (value : RawValue)
    → IsTree cs.key_size cs.inner
    → IsTree cs.key_size (insert_into cs.key_size key value cs.inner).1
    → let t =
        (if b
          then stored cs (insert_into cs.key_size key value cs.inner)
          else (err incorrect_key_size, cs)).1 in
      IsTree t.key_size t.inner
stored_if true cs key value tree done = done
stored_if false cs key value tree done = tree

pub insert-size :
    (cs : MapxRawMk) (key : RawKeys) (value : RawValue)
    → (MultiKey.insert key value cs).1.key_size ≡ cs.key_size
unfolding MultiKey.insert
insert-size cs key value = ground arith

-- Among keys of one size, a key starts with another only if it is that key.
pub starts_with-eq :
    (k j : RawKeys)
    → length k ≡ length j
    → starts_with k j ≡ elim (cmp_keys j k) [ eq ↦ true | _ ↦ false ]
starts_with-eq [] [] h = ground arith
starts_with-eq [] (j ∷ js) h = absurd (omega arith)
starts_with-eq (k ∷ ks) [] h = absurd (omega arith)
starts_with-eq (k ∷ ks) (j ∷ js) h = ground (arith, starts_with-eq ks js (omega arith))

erased_more :
    (k : RawKeys) (v : RawValue) (key : RawKeys) (xs : Entries) (size : ℕ)
    (old new : Option RawValue)
    → length k ≡ size
    → length key ≡ size
    → new ≡ (if length k == size && length key == size && starts_with k key then some [] else old)
    → (if Mapx.contains_key xs key then some [] else new)
      ≡ (if Mapx.contains_key ((k, v) ∷ xs) key then some [] else old)
unfolding Mapx.get
erased_more k v key xs size old new h g e = ground (arith, starts_with-eq k key, h, g, e)

pub insert-IsTree :
    (cs : MapxRawMk) (key : RawKeys) (value : RawValue)
    → IsTree cs.key_size cs.inner
    → IsTree (MultiKey.insert key value cs).1.key_size (MultiKey.insert key value cs).1.inner
unfolding MultiKey.insert
insert-IsTree cs key value tree =
    stored_if (length key == cs.key_size) cs key value tree
      (insert_into-IsTree cs.key_size key value cs.inner tree)

erase_change_lem :
    (s : MapxRawMkVs) (n : VersionId) (cs : MapxRawMk) (k : RawKeys) (v : RawValue)
    → Mapx.get s.ver_to_change_set n ≡ some cs
    → length k ≡ cs.key_size
    → erase_change n k v s ≡ (ok tt, set_change_set s n (MultiKey.insert k [] cs).1)
unfolding erase_change MultiKey.insert
erase_change_lem s n cs k v there size = ground (arith, there, size)

pub erase_entries :
    (xs : Entries) (s : MapxRawMkVs) (n : VersionId) (cs : MapxRawMk)
    → Mapx.get s.ver_to_change_set n ≡ some cs
    → 0 < cs.key_size
    → IsTree cs.key_size cs.inner
    → All (λ e. length e.0 ≡ cs.key_size) xs
    → (t : MapxRawMkVs) × (for_each xs (λ e. erase_change n e.0 e.1) s ≡ (ok tt, t))
      × Erased s t n cs xs
unfolding Mapx.get
erase_entries [] s n cs there pos tree sizes = (
  s,
  refl,
  record {
    changed = cs;
    same_size = refl;
    tree = tree;
    here = there;
    others = λ i ne. refl;
    sorted = λ h. h;
    rest = refl;
    reads = λ key h. refl;
  },
)
erase_entries ((k, v) ∷ xs) s n cs there pos tree sizes =
    let cs' = (MultiKey.insert k [] cs).1 in
    let s' = set_change_set s n cs' in
    let size' : cs'.key_size ≡ cs.key_size = insert-size cs k [] in
    let there' : Mapx.get s'.ver_to_change_set n ≡ some cs' =
      ground (arith, get-insert s.ver_to_change_set n cs' n) in
    let (t, run, e) =
      erase_entries xs s' n cs' there' (omega (arith, size', pos)) (insert-IsTree cs k [] tree)
        (rw size' sizes.1) in
    (
      t,
      then_ok (erase_change n k v) (for_each xs (λ e. erase_change n e.0 e.1))
            (erase_change_lem s n cs k v there sizes.0)
          ∙ run,
      record {
        changed = e.changed;
        same_size = e.same_size ∙ size';
        tree = e.tree;
        here = e.here;
        others = λ i ne. e.others i ne ∙ ground (arith, get-insert s.ver_to_change_set n cs' i);
        sorted = λ h. e.sorted (insert-IsAbove 0 s.ver_to_change_set n cs' (omega arith) h);
        rest = e.rest;
        reads = λ key h.
            e.reads key (h ∙ sym size')
            ∙ erased_more k v key xs cs.key_size (MultiKey.get cs key) (MultiKey.get cs' key)
                sizes.0 h (insert-get cs k [] key pos).1;
      },
    )
