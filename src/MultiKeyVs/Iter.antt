-- ===== src/MultiKeyVs/Iter.antt =====
-- The iteration over a branch and version: the value that it finds for a key, and what becomes of a
-- key that was removed.
use native.Mathlib.Decide.{dec_lt}
use vsdb.Prelude.{
  ℕ, suc, ◌≡◌, refl, sym, ap, ◌∙◌, true, Option, none, some, [], ◌∷◌, ◌>>=?◌, length, filter, arith,
}
use vsdb.Common.{RawValue, BranchId, VersionId}
use vsdb.Exec.{ok, Exec, pure, for_each, ◌>>◌}
use vsdb.Mapx
use vsdb.Mapx.{Mapx, at, included, unbounded, reaches_start, nat_ord, bytes_ord}
use vsdb.Mapx.Laws.{get-insert}
use vsdb.Mapx.Sorted.{
  newest, newest_ext, newest-none, newest_or, newest_then, IsAbove, IsSorted, get-IsAbove, snd?,
}
use vsdb.MultiKey
use vsdb.MultiKey.{MapxRawMk}
use vsdb.MultiKey.Keys.{RawKeys, keys_ord, cmp_keys_refl, starts_with}
use vsdb.MultiKey.Walk.{then_ext}
use vsdb.Backend.{VerMap}
use vsdb.Backend.Data.{non_empty}
use vsdb.MultiKeyVs.{MapxRawMkVs, Layers, put_layer}
use vsdb.MultiKeyVs.Data.{
  get_by_branch_version, remove_by_branch, write_by_branch_version, find_rev_entry, iter_value,
  visit, iter_op_with_key_prefix_by_branch_version,
}
use vsdb.MultiKeyVs.View.{
  visible, IsValid, IsLatest, read-eq-view, latest_on, latest_recorded, latest_version-latest,
}
use vsdb.MultiKeyVs.Write.{written, at-put_layer, put_layer-IsSorted, change_set_of, read_latest}

-- The value that one version of a branch shows to an iteration: an empty one is passed over.
abbrev shown : VerMap → VerMap → VersionId → Option RawValue
shown vers kvs n = visible vers kvs n >>=? non_empty

shown_empty : (vers : VerMap) (n : VersionId) → shown vers [] n ≡ none
unfolding Mapx.get
shown_empty vers n = ground arith

iter_value-newest :
    (b : ℕ) (vers kvs : VerMap) (k : VersionId)
    → IsAbove b kvs
    → snd? (iter_value vers k kvs) ≡ newest (shown vers kvs) k
unfolding Mapx.get find_rev_entry Mapx.range_to
iter_value-newest b vers [] k s = sym (newest-none _ k (λ n le. shown_empty vers n))
iter_value-newest b vers ((j, w) ∷ kvs) k s = elim (dec_lt k j) [
  | yes lt ↦ ground (
    arith,
    iter_value-newest (suc j) vers kvs k s.1,
    newest_ext (shown vers ((j, w) ∷ kvs)) (shown vers kvs) k (λ n le. ground arith),
  )
  | no ge ↦ ground (
    arith,
    iter_value-newest (suc j) vers kvs k s.1,
    newest_or (shown vers ((j, w) ∷ kvs)) (shown vers kvs) j k (omega arith) (λ n lt. ground arith)
        (λ n le. ground (arith, get-IsAbove (suc j) kvs n s.1))
        (λ n lt. ground (arith, get-IsAbove (suc j) kvs n s.1)),
  )
]

remove_some :
    (s : MapxRawMkVs) (key : RawKeys) (br : BranchId) (n : VersionId) (cs : MapxRawMk)
    (v : RawValue)
    → length key ≡ s.key_size
    → Mapx.get s.ver_to_change_set n ≡ some cs
    → cs.key_size ≡ s.key_size
    → get_by_branch_version s key br n ≡ some v
    → write_by_branch_version key none br n s ≡ (ok (some v), written s key n [] cs)
unfolding write_by_branch_version MultiKey.insert
remove_some s key br n cs v whole there size read = ground (arith, whole, there, size, read)

pub remove_by_branch-written :
    (s : MapxRawMkVs) (key : RawKeys) (br : BranchId) (n : VersionId) (cs : MapxRawMk)
    (v : RawValue)
    → IsValid s
    → IsLatest s br n
    → length key ≡ s.key_size
    → Mapx.get s.ver_to_change_set n ≡ some cs
    → get_by_branch_version s key br n ≡ some v
    → remove_by_branch key br s ≡ (ok (some v), written s key n [] cs)
unfolding remove_by_branch
remove_by_branch-written s key br n cs v valid l whole there read =
    rw (latest_version-latest s br n l)
      (remove_some s key br n cs v whole there (valid.change_sized n cs there) read)

keys_from_start : (k : RawKeys) → reaches_start (included []) k ≡ true
keys_from_start [] = refl
keys_from_start (p ∷ k) = refl

-- The empty prefix selects every key.
all_keys :
    (m : Layers) → filter (λ e. starts_with [] e.0) (Mapx.range m (included []) unbounded) ≡ m
unfolding Mapx.range
all_keys [] = refl
all_keys ((k, kvs) ∷ m) = rw (keys_from_start k) (ap (λ r. (k, kvs) ∷ r) (all_keys m))

-- The entries that the loop of an iteration hands to the operation.
abbrev with_value : Option RawValue → RawKeys → Mapx RawKeys RawValue → Mapx RawKeys RawValue
with_value none k rest = rest
with_value (some v) k rest = (k, v) ∷ rest

unfoldable handed : VerMap → VersionId → Layers → Mapx RawKeys RawValue
unfolding find_rev_entry
handed vers n [] = []
handed vers n ((k, kvs) ∷ m) = with_value (snd? (iter_value vers n kvs)) k (handed vers n m)

get-handed :
    (vers : VerMap) (n : VersionId) (m : Layers) (key : RawKeys) (kvs : VerMap) (v : RawValue)
    → Mapx.get m key ≡ some kvs
    → snd? (iter_value vers n kvs) ≡ some v
    → Mapx.get (handed vers n m) key ≡ some v
unfolding Mapx.get handed
get-handed vers n [] key kvs v there found = ground arith
get-handed vers n ((k, e) ∷ m) key kvs v there found = ground (arith, get-handed vers n m key kvs v)

module _ {S : Type 0} (op : RawKeys → RawValue → Exec S Unit) where
  visit-with_value :
      (o : Option (VersionId × RawValue)) (k : RawKeys) (g : Exec S Unit)
      (rest : Mapx RawKeys RawValue)
      → ((st : S) → g st ≡ for_each rest (λ e. op e.0 e.1) st)
      → (st : S)
      → (elim o [ some f ↦ op k f.1 | none ↦ pure tt ] >> g) st
        ≡ for_each (with_value (snd? o) k rest) (λ e. op e.0 e.1) st
  visit-with_value none k g rest h st = h st
  visit-with_value (some f) k g rest h st = then_ext (op k f.1) _ _ h st

  visit-handed :
      (vers : VerMap) (n : VersionId) (m : Layers) (st : S)
      → for_each m (visit vers n op) st ≡ for_each (handed vers n m) (λ e. op e.0 e.1) st
  unfolding handed
  visit-handed vers n [] st = refl
  visit-handed vers n ((k, kvs) ∷ m) st =
      visit-with_value (iter_value vers n kvs) k _ (handed vers n m) (visit-handed vers n m) st

iter_op-handed :
    {S : Type 0} (s : MapxRawMkVs) (br : BranchId) (n : VersionId) (vers : VerMap)
    (op : RawKeys → RawValue → Exec S Unit) (st : S)
    → Mapx.get s.br_to_its_vers br ≡ some vers
    → iter_op_with_key_prefix_by_branch_version s br n op [] st
      ≡ for_each (handed vers n s.layered_kv) (λ e. op e.0 e.1) st
unfolding iter_op_with_key_prefix_by_branch_version
iter_op-handed s br n vers op st found =
    rw found (rw (all_keys s.layered_kv) (visit-handed op vers n s.layered_kv st))

-- In a valid state, where a branch reads a value under a whole key that has none at its latest
-- version: a removal under that key returns the value, and the branch reads nothing there
-- afterwards; but an iteration over the branch and version calls the operation on a list of entries
-- that still holds the removed value under the key.
pub remove_by_branch-visited :
    {S : Type 0} (s : MapxRawMkVs) (key : RawKeys) (br : BranchId) (n : VersionId) (v : RawValue)
    → IsValid s
    → IsLatest s br n
    → length key ≡ s.key_size
    → get_by_branch_version s key br n ≡ some v
    → Mapx.get (at s.layered_kv key) n ≡ none
    → let t = remove_by_branch key br s in
      (t.0 ≡ ok (some v))
      × (get_by_branch_version t.1 key br n ≡ none)
      × (entries : Mapx RawKeys RawValue) × (Mapx.get entries key ≡ some v)
      × ((op : RawKeys → RawValue → Exec S Unit) (st : S)
          → iter_op_with_key_prefix_by_branch_version t.1 br n op [] st
            ≡ for_each entries (λ e. op e.0 e.1) st)
remove_by_branch-visited s key br n v valid l whole read unchanged =
    let (cs, there) = change_set_of s n (latest_recorded s br n valid l) in
    let done = remove_by_branch-written s key br n cs v valid l whole there read in
    let vers = at s.br_to_its_vers br in
    let kvs = at s.layered_kv key in
    let layers = put_layer key n [] s.layered_kv in
    let kvs' = at layers key in
    let sorted : IsSorted kvs' =
      put_layer-IsSorted s.layered_kv key n [] key (valid.kv_sorted key) (valid.kv_sorted key) in
    let read_as = sym (read-eq-view s key br n (valid.kv_sorted key)) ∙ read in
    let value_left : snd? (iter_value vers n kvs') ≡ some v =
      iter_value-newest 0 vers kvs' n sorted
      ∙ newest_ext _ _ n (λ i le.
        ground (arith, at-put_layer s.layered_kv key n [] key i, cmp_keys_refl key, unchanged))
      ∙ newest_then (visible vers kvs) non_empty n v read_as in
    rw done (
      refl,
      read-eq-view (written s key n [] cs) key br n sorted
          ∙ ap (λ o. o >>=? non_empty)
              (read_latest vers kvs' n [] (latest_on s br n valid l)
                (ground (arith, at-put_layer s.layered_kv key n [] key n, cmp_keys_refl key))),
      handed vers n layers,
      get-handed vers n layers key kvs' v
          (ground
            (arith, get-insert s.layered_kv key (Mapx.insert kvs n []) key, cmp_keys_refl key))
          value_left,
      λ op st. iter_op-handed (written s key n [] cs) br n vers op st (ground (arith, l.found)),
    )
