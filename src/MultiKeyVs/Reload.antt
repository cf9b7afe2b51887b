-- ===== src/MultiKeyVs/Reload.antt =====
-- The reads after a version manager was written and read again: what whole-key writes leave comes
-- back, and so do values that a removal with a part of a key took out.
use native.Mathlib.Decide.{ℕ_discrete}
use vsdb.Prelude.{
  ℕ, suc, ◌≤◌, ◌<◌, ◌≡◌, refl, sym, ap, subst, ◌∙◌, Option, none, some, [], ◌∷◌, ◌>>=?◌,
  if◌then◌else◌, length, arith, or_else,
}
use vsdb.Common.{RawValue, BranchId, VersionId}
use vsdb.Mapx
use vsdb.Mapx.{Mapx, at, or_empty, nat_ord, bytes_ord}
use vsdb.Mapx.Sorted.{IsSorted, IsAbove, get-IsAbove, newest, newest_ext}
use vsdb.MultiKey
use vsdb.MultiKey.{MapxRawMk}
use vsdb.MultiKey.Keys.{RawKeys, keys_ord}
use vsdb.MultiKey.Prefix.{All}
use vsdb.Exec.{modify}
use vsdb.MultiKey.Visits.{visited, iter_op_with_key_prefix-visits}
use vsdb.Backend.Data.{non_empty}
use vsdb.MultiKeyVs.{MapxRawMkVs, Layers, restored}
use vsdb.MultiKeyVs.Data.{get_by_branch_version, remove_by_branch}
use vsdb.MultiKeyVs.View.{visible, IsValid, IsCoherent, IsLatest, read-eq-view}
use vsdb.MultiKeyVs.Batch.{Erased}
use vsdb.MultiKeyVs.Remove.{erased, batch_remove-erased, remove_by_branch-short}
use vsdb.MultiKeyVs.Keeps.{some_injective}
use vsdb.MultiKeyVs.Restore.{
  IsSound, put_all, put_all-IsSorted, put_versions, restore_versions, at-put_versions,
}

-- What the entries of a sorted map have by their keys, they have all.
All-get :
    (P : MapxRawMk → Type 0) (b : ℕ) (chg : Mapx VersionId MapxRawMk)
    → IsAbove b chg
    → ((n : VersionId) (cs : MapxRawMk) → Mapx.get chg n ≡ some cs → P cs)
    → All (λ e. P e.1) chg
unfolding Mapx.get
All-get P b [] above h = tt
All-get P b ((n, cs) ∷ chg) above h = (
  h n cs (ground arith),
  All-get P (suc n) chg above.1
      (λ m c there. h m c (ground (arith, there, get-IsAbove (suc n) chg m above.1))),
)

put_versions-IsSorted :
    (chg : Mapx VersionId MapxRawMk) (m : Layers)
    → ((j : RawKeys) → IsSorted (at m j))
    → (j : RawKeys) → IsSorted (at (put_versions chg m) j)
put_versions-IsSorted [] m h j = h j
put_versions-IsSorted ((n, cs) ∷ chg) m h j =
    put_versions-IsSorted chg (put_all n (visited cs []) m) (put_all-IsSorted n (visited cs []) m h)
      j

or_none : {o : Option RawValue} (p : Option RawValue) → o ≡ none → or_else p o ≡ p
or_none p h = ground (arith, h)

-- A state with sound change sets.
pub record IsStored (s : MapxRawMkVs) : Type 0 where
  pub sized : 0 < s.key_size
  pub versions_sorted : IsSorted s.ver_to_change_set
  pub sound :
      (n : VersionId) (cs : MapxRawMk)
      → Mapx.get s.ver_to_change_set n ≡ some cs
      → IsSound s.key_size cs

valid-IsStored : (s : MapxRawMkVs) → IsValid s → IsStored s
valid-IsStored s valid = record {
  sized = valid.sized;
  versions_sorted = valid.versions_sorted;
  sound = λ n cs there. (valid.change_sized n cs there, valid.change_tree n cs there);
}

module _ (s : MapxRawMkVs) (stored : IsStored s) where
  layers-restored : (restored s).layered_kv ≡ put_versions s.ver_to_change_set []
  unfolding restored
  layers-restored =
      ap (λ r. r.1)
        (restore_versions s.key_size stored.sized s.ver_to_change_set []
          (All-get (IsSound s.key_size) 0 s.ver_to_change_set stored.versions_sorted stored.sound))

  -- After the restoration the layers hold what the change sets hold.
  at-restored :
      (key : RawKeys) (i : VersionId)
      → length key ≡ s.key_size
      → Mapx.get (at (restored s).layered_kv key) i
        ≡ (Mapx.get s.ver_to_change_set i >>=? λ cs. MultiKey.get cs key)
  unfolding Mapx.get
  at-restored key i h =
      ap (λ m. Mapx.get (at m key) i) layers-restored
      ∙ at-put_versions s.key_size stored.sized 0 s.ver_to_change_set [] key i
          stored.versions_sorted
          (All-get (IsSound s.key_size) 0 s.ver_to_change_set stored.versions_sorted stored.sound) h
      ∙ or_none _ refl

  restored-IsSorted : (key : RawKeys) → IsSorted (at (restored s).layered_kv key)
  unfolding Mapx.get
  restored-IsSorted key =
      subst (λ m. IsSorted (at m key)) (sym layers-restored)
        (put_versions-IsSorted s.ver_to_change_set [] (λ j. tt) key)

  -- What a restored state reads, where its change sets hold what some layers hold.
  restored-reads :
      (t : MapxRawMkVs) (key : RawKeys) (br : BranchId) (ver : VersionId)
      → length key ≡ s.key_size
      → s.br_to_its_vers ≡ t.br_to_its_vers
      → IsSorted (at t.layered_kv key)
      → ((i : VersionId)
          → (Mapx.get s.ver_to_change_set i >>=? λ cs. MultiKey.get cs key)
            ≡ Mapx.get (at t.layered_kv key) i)
      → get_by_branch_version (restored s) key br ver ≡ get_by_branch_version t key br ver
  unfolding restored
  restored-reads t key br ver h same sorted agree =
      read-eq-view (restored s) key br ver (restored-IsSorted key)
      ∙ ap (λ m. newest (visible (at m br) (at (restored s).layered_kv key)) ver >>=? non_empty)
          same
      ∙ ap (λ o. o >>=? non_empty)
          (newest_ext _ _ ver (λ i le.
            ap (λ o. if Mapx.contains_key (at t.br_to_its_vers br) i then o else none)
              (at-restored key i h ∙ agree i)))
      ∙ sym (read-eq-view t key br ver sorted)

-- In a valid state whose layers hold what its change sets hold, every read under a whole key gives
-- the same after the map was written and read again.
pub get_by_branch_version-restored :
    (s : MapxRawMkVs) (key : RawKeys) (br : BranchId) (ver : VersionId)
    → IsValid s
    → IsCoherent s
    → length key ≡ s.key_size
    → get_by_branch_version (restored s) key br ver ≡ get_by_branch_version s key br ver
get_by_branch_version-restored s key br ver valid coherent whole =
    restored-reads s (valid-IsStored s valid) s key br ver whole refl (valid.kv_sorted key)
      (λ i. sym (coherent i key whole))

erased-IsStored :
    (s t : MapxRawMkVs) (p : RawKeys) (n : VersionId) (cs : MapxRawMk)
    → IsValid s
    → Mapx.get s.ver_to_change_set n ≡ some cs
    → Erased s t n cs (visited cs p)
    → IsStored (erased s p n t)
erased-IsStored s t p n cs valid there e =
    let size : t.key_size ≡ s.key_size = ap (λ u. u.key_size) e.rest in
    record {
      sized = omega (arith, size, valid.sized);
      versions_sorted = e.sorted valid.versions_sorted;
      sound = λ i c found. elim (ℕ_discrete i n) [
        | yes here ↦
            let same : e.changed ≡ c = some_injective (sym e.here ∙ rw here at found) in
            subst (IsSound t.key_size) same
              (e.same_size ∙ valid.change_sized n cs there ∙ sym size, e.tree)
        | no other ↦
            let old = sym (e.others i other) ∙ found in
            (valid.change_sized i c old ∙ sym size, valid.change_tree i c old)
      ];
    }

Erased-agrees :
    (s t : MapxRawMkVs) (p : RawKeys) (n : VersionId) (cs : MapxRawMk) (key : RawKeys)
    → IsValid s
    → IsCoherent s
    → Mapx.get s.ver_to_change_set n ≡ some cs
    → length p ≤ s.key_size
    → length key ≡ s.key_size
    → MultiKey.get cs key ≡ none
    → Erased s t n cs (visited cs p)
    → (i : VersionId)
    → (Mapx.get t.ver_to_change_set i >>=? λ c. MultiKey.get c key)
      ≡ Mapx.get (at s.layered_kv key) i
Erased-agrees s t p n cs key valid coherent there le whole unchanged e i =
    let size = valid.change_sized n cs there in
    let finds =
      (iter_op_with_key_prefix-visits cs (λ k v. modify {S = Unit} (λ u. u)) p tt
        (omega (arith, size, valid.sized)) (valid.change_tree n cs there)
        (omega (arith, size, le))).2 in
    elim (ℕ_discrete i n) [
      | yes here ↦ rw here (
          ground (
            arith,
            e.here,
            e.reads key (whole ∙ sym size),
            finds key (whole ∙ sym size),
            coherent n key whole,
            there,
            unchanged,
          ))
      | no other ↦
          ap (λ o. o >>=? λ c. MultiKey.get c key) (e.others i other) ∙ sym (coherent i key whole)
    ]

-- In a valid state whose layers hold what its change sets hold: what a branch reads under a whole
-- key without a change at the latest version is read again after a removal with a part of that key,
-- once the map was written and read again.
pub remove_by_branch-restored :
    (s : MapxRawMkVs) (p : RawKeys) (br : BranchId) (n : VersionId) (cs : MapxRawMk) (key : RawKeys)
    → IsValid s
    → IsCoherent s
    → IsLatest s br n
    → Mapx.get s.ver_to_change_set n ≡ some cs
    → length p < s.key_size
    → length key ≡ s.key_size
    → MultiKey.get cs key ≡ none
    → get_by_branch_version (restored (remove_by_branch p br s).1) key br n
      ≡ get_by_branch_version s key br n
remove_by_branch-restored s p br n cs key valid coherent l there short whole unchanged =
    let (t, run, e) = batch_remove-erased s p n cs valid there (omega arith) in
    let done = remove_by_branch-short s p br n l short ∙ run in
    let size : t.key_size ≡ s.key_size = ap (λ u. u.key_size) e.rest in
    ap (λ r. get_by_branch_version (restored r.1) key br n) done
    ∙ restored-reads (erased s p n t) (erased-IsStored s t p n cs valid there e) s key br n
        (whole ∙ sym size) (ap (λ u. u.br_to_its_vers) e.rest) (valid.kv_sorted key)
        (Erased-agrees s t p n cs key valid coherent there (omega arith) whole unchanged e)
