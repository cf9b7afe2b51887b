-- ===== src/MultiKeyVs/Remove.antt =====
-- A removal with a part of a key: what the branches read after it.
use vsdb.Prelude.{
  ℕ, zero, suc, ◌≤◌, ◌<◌, ◌≡◌, ◌⊎◌, refl, sym, ap, ◌∙◌, true, false, none, some, [], ◌∷◌, ◌++◌,
  ◌>>=?◌, length, arith, inl, inr, Option-cases,
}
use vsdb.Common.{RawKey, RawValue, BranchId, VersionId}
use vsdb.Exec.{ok}
use vsdb.Mapx
use vsdb.Mapx.{Mapx, at, or_empty, nat_ord, bytes_ord}
use vsdb.Mapx.Laws.{get-empty}
use vsdb.Mapx.Sorted.{newest, newest_ext, newest-none}
use vsdb.MultiKey.{MapxRawMk, Node, iter_op_with_key_prefix}
use vsdb.MultiKey.Keys.{RawKeys, keys_ord, starts_with}
use vsdb.MultiKey.Visits.{All-filter, visited, iter_op_with_key_prefix-visits}
use vsdb.MultiKey.Prefix.{All, with_prefix, blocks}
use vsdb.MultiKey.Walk.{Entries, entries, under}
use vsdb.Backend.Data.{non_empty}
use vsdb.MultiKeyVs.{MapxRawMkVs, Layers}
use vsdb.MultiKeyVs.Data.{
  get_by_branch_version, get_by_branch, erase_change, erase_layers, batch_remove_by_branch_version,
  remove_by_branch, insert_by_branch,
}
use vsdb.MultiKeyVs.View.{
  visible, IsValid, IsLatest, read-eq-view, latest_on, latest_recorded, latest_version-latest,
  get_by_branch-latest,
}
use vsdb.MultiKeyVs.Write.{frame, read_latest, change_set_of}
use vsdb.MultiKeyVs.Batch.{at-erase_layers, erase_layers-IsSorted, Erased, erase_entries}

-- The state after a batch removal, whose loop ends in `t`.
abbrev pub erased : MapxRawMkVs → RawKeys → VersionId → MapxRawMkVs → MapxRawMkVs
erased s p n t = record t { layered_kv = erase_layers p n s.layered_kv }

batch_remove-run :
    (s t : MapxRawMkVs) (p : RawKeys) (n : VersionId) (cs : MapxRawMk)
    → Mapx.get s.ver_to_change_set n ≡ some cs
    → iter_op_with_key_prefix cs (erase_change n) p s ≡ (ok tt, t)
    → t.layered_kv ≡ s.layered_kv
    → batch_remove_by_branch_version p n s ≡ (ok none, erased s p n t)
unfolding batch_remove_by_branch_version
batch_remove-run s t p n cs there run same =
    rw there
      (rw run (ap (λ (m : Layers). (ok none, record t { layered_kv = erase_layers p n m })) same))

-- All keys of a map have its number of parts.
sizes-cat :
    (n : ℕ) (xs ys : Entries)
    → All (λ e. length e.0 ≡ n) xs
    → All (λ e. length e.0 ≡ n) ys
    → All (λ e. length e.0 ≡ n) (xs ++ ys)
sizes-cat n [] ys a b = b
sizes-cat n (x ∷ xs) ys a b = (a.0, sizes-cat n xs ys a.1 b)

sizes-under :
    (n : ℕ) (k : RawKey) (es : Entries)
    → All (λ e. length e.0 ≡ n) es
    → All (λ e. length e.0 ≡ suc n) (under k es)
sizes-under n k [] a = tt
sizes-under n k (e ∷ es) a = (ap suc a.0, sizes-under n k es a.1)

sizes-blocks :
    (n : ℕ) (hdr : Mapx RawKey (Node n))
    → ((c : Node n) → All (λ e. length e.0 ≡ n) (entries n c))
    → All (λ e. length e.0 ≡ suc n) (blocks n hdr)
sizes-blocks n [] h = tt
sizes-blocks n ((k, c) ∷ hdr) h =
    sizes-cat (suc n) (under k (entries n c)) (blocks n hdr) (sizes-under n k (entries n c) (h c))
      (sizes-blocks n hdr h)

entries-sizes : (n : ℕ) (hdr : Node n) → All (λ e. length e.0 ≡ n) (entries n hdr)
unfolding entries
entries-sizes zero v = (refl, tt)
entries-sizes (suc n) hdr = sizes-blocks n hdr (entries-sizes n)

with_prefix-sizes :
    (p : RawKeys) (n : ℕ) (es : Entries)
    → All (λ e. length e.0 ≡ n) es
    → All (λ e. length e.0 ≡ n) (with_prefix p es)
with_prefix-sizes p n es a = All-filter (λ e. length e.0 ≡ n) (λ e. starts_with p e.0) es a

pub batch_remove-erased :
    (s : MapxRawMkVs) (p : RawKeys) (n : VersionId) (cs : MapxRawMk)
    → IsValid s
    → Mapx.get s.ver_to_change_set n ≡ some cs
    → length p ≤ s.key_size
    → (t : MapxRawMkVs) × (batch_remove_by_branch_version p n s ≡ (ok none, erased s p n t))
      × Erased s t n cs (visited cs p)
batch_remove-erased s p n cs valid there le =
    let size = valid.change_sized n cs there in
    let pos : 0 < cs.key_size = omega (arith, size, valid.sized) in
    let tree = valid.change_tree n cs there in
    let (t, run, e) = erase_entries (visited cs p) s n cs there pos tree (
      with_prefix-sizes p cs.key_size (entries cs.key_size cs.inner)
        (entries-sizes cs.key_size cs.inner)) in
    (
      t,
      batch_remove-run s t p n cs there
          ((iter_op_with_key_prefix-visits cs (erase_change n) p s pos tree
              (omega (arith, size, le))).0
            ∙ run)
          (ap (λ u. u.layered_kv) e.rest),
      e,
    )

-- A removal with a part of a key, and an insertion, which ignores its value.
pub remove_by_branch-short :
    (s : MapxRawMkVs) (p : RawKeys) (br : BranchId) (n : VersionId)
    → IsLatest s br n
    → length p < s.key_size
    → remove_by_branch p br s ≡ batch_remove_by_branch_version p n s
unfolding remove_by_branch
remove_by_branch-short s p br n l short =
    rw (latest_version-latest s br n l) (ground (arith, short))

-- With fewer parts than the keys have, an insertion does what a removal does, whatever its value.
pub insert_by_branch-short :
    (s : MapxRawMkVs) (p : RawKeys) (value : RawValue) (br : BranchId)
    → length p < s.key_size
    → insert_by_branch p value br s ≡ remove_by_branch p br s
unfolding insert_by_branch remove_by_branch
insert_by_branch-short s p value br short = ground (arith, short)

-- A state whose layers are erased reads like the old one where nothing was erased.
erased-reads :
    (s t : MapxRawMkVs) (p : RawKeys) (n : VersionId) (j : RawKeys) (other : BranchId)
    (ver : VersionId)
    → IsValid s
    → t.br_to_its_vers ≡ s.br_to_its_vers
    → (starts_with p j ≡ false) ⊎ (ver < n) ⊎ (Mapx.get (at s.br_to_its_vers other) n ≡ none)
    → get_by_branch_version (erased s p n t) j other ver ≡ get_by_branch_version s j other ver
erased-reads s t p n j other ver valid same apart =
    let kvs = at s.layered_kv j in
    let kvs' = at (erase_layers p n s.layered_kv) j in
    read-eq-view (erased s p n t) j other ver
      (erase_layers-IsSorted p n s.layered_kv j (valid.kv_sorted j))
    ∙ ap (λ m. newest (visible (at m other) kvs') ver >>=? non_empty) same
    ∙ ap (λ o. o >>=? non_empty)
        (elim apart [
          | inl outside ↦
              newest_ext _ _ ver
                (λ i le. ground (arith, at-erase_layers p n s.layered_kv j i, outside))
          | inr elsewhere ↦
              frame (at s.br_to_its_vers other) kvs kvs' n ver
                (λ i ne. ground (arith, at-erase_layers p n s.layered_kv j i)) elsewhere
        ])
    ∙ sym (read-eq-view s j other ver (valid.kv_sorted j))

erased-own :
    (s t : MapxRawMkVs) (p : RawKeys) (n : VersionId) (key : RawKeys) (br : BranchId)
    → IsValid s
    → IsLatest s br n
    → t.br_to_its_vers ≡ s.br_to_its_vers
    → starts_with p key ≡ true
    → get_by_branch_version (erased s p n t) key br n ≡ none
erased-own s t p n key br valid l same inside =
    let kvs' = at (erase_layers p n s.layered_kv) key in
    read-eq-view (erased s p n t) key br n
      (erase_layers-IsSorted p n s.layered_kv key (valid.kv_sorted key))
    ∙ ap (λ m. newest (visible (at m br) kvs') n >>=? non_empty) same
    ∙ elim (Option-cases (Mapx.get s.layered_kv key)) [
      | inl absent ↦
          ap (λ o. o >>=? non_empty)
            (newest-none _ n (λ i le.
              ground (
                arith,
                at-erase_layers p n s.layered_kv key i,
                absent,
                get-empty {V = RawValue} i,
              )))
      | inr (old, there) ↦
          ap (λ o. o >>=? non_empty)
            (read_latest (at s.br_to_its_vers br) kvs' n [] (latest_on s br n valid l)
              (ground (arith, at-erase_layers p n s.layered_kv key n, inside, there)))
    ]

-- In a valid state, a removal with fewer parts than the keys have, on a branch with a latest
-- version, succeeds and returns nothing; afterwards the branch reads nothing under each key that
-- starts with those parts; and no read changes of a key that does not, of an earlier version, or of
-- a branch without that version.
pub remove_by_branch-batch :
    (s : MapxRawMkVs) (p : RawKeys) (br : BranchId) (n : VersionId) (key : RawKeys) (j : RawKeys)
    (other : BranchId) (ver : VersionId)
    → IsValid s
    → IsLatest s br n
    → length p < s.key_size
    → starts_with p key ≡ true
    → (starts_with p j ≡ false) ⊎ (ver < n) ⊎ (Mapx.get (at s.br_to_its_vers other) n ≡ none)
    → ((remove_by_branch p br s).0 ≡ ok none)
      × (get_by_branch (remove_by_branch p br s).1 key br ≡ none)
      × (get_by_branch_version (remove_by_branch p br s).1 j other ver
          ≡ get_by_branch_version s j other ver)
remove_by_branch-batch s p br n key j other ver valid l short inside apart =
    let (cs, there) = change_set_of s n (latest_recorded s br n valid l) in
    let (t, run, e) = batch_remove-erased s p n cs valid there (omega arith) in
    let done = remove_by_branch-short s p br n l short ∙ run in
    let same = ap (λ u. u.br_to_its_vers) e.rest in
    (
      ap (λ r. r.0) done,
      ap (λ r. get_by_branch r.1 key br) done
          ∙ get_by_branch-latest (erased s p n t) key br n (record {
            vers = l.vers;
            mark = l.mark;
            found = ap (λ m. Mapx.get m br) same ∙ l.found;
            is_last = l.is_last;
          })
          ∙ erased-own s t p n key br valid l same inside,
      ap (λ r. get_by_branch_version r.1 j other ver) done
          ∙ erased-reads s t p n j other ver valid same apart,
    )
