-- ===== src/Backend/Merge/Union.antt =====
-- The versions of a merge are the versions of both branches.
use native.Mathlib.Decide.{dec_le}
use vsdb.Prelude.{
  ℕ, suc, ◌+◌, ◌%◌, ◌≤◌, ◌<◌, ◌≡◌, refl, true, ◌||◌, Option, none, some, [], ◌∷◌, arith,
}
use vsdb.Common.{RawValue, VersionId, u64_mod}
use vsdb.Mapx
use vsdb.Mapx.{at, nat_ord, contains_key, last}
use vsdb.Mapx.Laws.{get-insert}
use vsdb.Mapx.Sorted.{
  IsAbove, IsSorted, insert-IsAbove, get-IsAbove, get-range_from, get_above-last, get-last-none,
}
use vsdb.Backend.{VerMap}
use vsdb.Backend.Merge.{insert_all, fork_point, merged, merge_prefix, merge_at}

contains-insert_all :
    (target vers : VerMap) (n : VersionId)
    → contains_key (insert_all target vers) n ≡ (contains_key target n || contains_key vers n)
unfolding insert_all Mapx.get
contains-insert_all target [] n = ground arith
contains-insert_all target ((ver, v) ∷ vers) n =
    ground
      (arith, contains-insert_all (Mapx.insert target ver []) vers n, get-insert target ver [] n)

insert_all-IsSorted : (target vers : VerMap) → IsSorted target → IsSorted (insert_all target vers)
unfolding insert_all
insert_all-IsSorted target [] s = s
insert_all-IsSorted target ((ver, v) ∷ vers) s =
    insert_all-IsSorted (Mapx.insert target ver []) vers
      (insert-IsAbove 0 target ver [] (omega arith) s)

-- Under the fork point the target has the versions of the branch.
fork_point-some :
    (b : ℕ) (vers target : VerMap) (f n : VersionId)
    → IsAbove b vers
    → fork_point vers target ≡ some f
    → contains_key vers n ≡ true
    → n < f
    → contains_key target n ≡ true
unfolding fork_point Mapx.get
fork_point-some b [] target f n s h on below = ground arith
fork_point-some b ((a, v) ∷ vers) [] f n s h on below = ground arith
fork_point-some b ((a, v) ∷ vers) ((c, w) ∷ target) f n s h on below =
    ground (arith, fork_point-some (suc a) vers target f n s.1, get-IsAbove (suc a) vers n s.1)

-- Without a fork point the target has them up to its latest version.
fork_point-none :
    (b : ℕ) (vers target : VerMap) (k : VersionId) (x : RawValue) (n : VersionId)
    → IsAbove b vers
    → fork_point vers target ≡ none
    → last target ≡ some (k, x)
    → contains_key vers n ≡ true
    → n ≤ k
    → contains_key target n ≡ true
unfolding fork_point Mapx.get last
fork_point-none b [] target k x n s h is_last on le = ground arith
fork_point-none b ((a, v) ∷ vers) [] k x n s h is_last on le = ground arith
fork_point-none b ((a, v) ∷ vers) ((c, w) ∷ []) k x n s h is_last on le =
    ground (arith, get-IsAbove (suc a) vers n s.1)
fork_point-none b ((a, v) ∷ vers) ((c, w) ∷ (d, y) ∷ target) k x n s h is_last on le =
    ground (arith, fork_point-none (suc a) vers ((d, y) ∷ target) k x n s.1)

-- Where the versions of the branch below `k` are in the target, the rest make the union.
insert_all-range_from :
    (vers target : VerMap) (k n : VersionId)
    → (contains_key vers n ≡ true → n < k → contains_key target n ≡ true)
    → contains_key (insert_all target (Mapx.range_from vers k)) n
      ≡ (contains_key target n || contains_key vers n)
insert_all-range_from vers target k n low =
    ground
      (arith, contains-insert_all target (Mapx.range_from vers k) n, get-range_from vers k n, low)

-- A target that has the versions of the branch is the union.
subset-union :
    (vers target : VerMap) (n : VersionId)
    → (contains_key vers n ≡ true → contains_key target n ≡ true)
    → contains_key target n ≡ (contains_key target n || contains_key vers n)
subset-union vers target n sub = ground (arith, sub)

le_last :
    (vers : VerMap) (k n : VersionId) (v : RawValue)
    → IsSorted vers
    → last vers ≡ some (k, v)
    → contains_key vers n ≡ true
    → n ≤ k
le_last vers k n v s h on = elim (dec_le n k) [
  | yes le ↦ le
  | no gt' ↦ ground (arith, get_above-last 0 vers k v n s h (omega arith))
]

module _ (vers target : VerMap) (sv : IsSorted vers) (n : VersionId) where
  merge_prefix-union :
      (vl tl : Option (VersionId × RawValue))
      → fork_point vers target ≡ none
      → last vers ≡ vl
      → last target ≡ tl
      → ((k : VersionId) (x : RawValue) → tl ≡ some (k, x) → k + 1 < u64_mod)
      → contains_key (merge_prefix vers target vl tl) n
        ≡ (contains_key target n || contains_key vers n)
  merge_prefix-union none tl h is_last target_last room =
      ground (arith, get-last-none vers n is_last)
  merge_prefix-union (some (a, v)) none h is_last target_last room =
      contains-insert_all target vers n
  merge_prefix-union (some (a, v)) (some (k, x)) h is_last target_last room =
      let low = λ (on : contains_key vers n ≡ true) (le : n ≤ k).
        fork_point-none 0 vers target k x n sv h target_last on le in
      let top = λ (on : contains_key vers n ≡ true). le_last vers a n v sv is_last on in
      let fits : (k + 1) % u64_mod ≡ k + 1 = omega (arith, room k x refl) in
      ground (
        arith,
        insert_all-range_from vers target ((k + 1) % u64_mod) n
            (λ on below. low on (omega (arith, fits))),
      )

  merge_at-union :
      (fork : Option VersionId)
      → fork_point vers target ≡ fork
      → ((k : VersionId) (x : RawValue) → last target ≡ some (k, x) → k + 1 < u64_mod)
      → contains_key (merge_at vers target fork) n ≡ (contains_key target n || contains_key vers n)
  merge_at-union none h room = merge_prefix-union (last vers) (last target) h refl refl room
  merge_at-union (some f) h room =
      insert_all-range_from vers target f n
        (λ on below. fork_point-some 0 vers target f n sv h on below)

-- A version is in the merge of two branches if it is in one of them; the branch's versions are in
-- order, and the target's latest version has a successor.
pub contains-merged :
    (vers target : VerMap) (n : VersionId)
    → IsSorted vers
    → ((k : VersionId) (x : RawValue) → last target ≡ some (k, x) → k + 1 < u64_mod)
    → contains_key (merged vers target) n ≡ (contains_key target n || contains_key vers n)
unfolding merged
contains-merged vers target n sv room =
    merge_at-union vers target sv n (fork_point vers target) refl room

merge_prefix-IsSorted :
    (vers target : VerMap) (vl tl : Option (VersionId × RawValue))
    → IsSorted target
    → IsSorted (merge_prefix vers target vl tl)
merge_prefix-IsSorted vers target none tl s = s
merge_prefix-IsSorted vers target (some latest) none s = insert_all-IsSorted target vers s
merge_prefix-IsSorted vers target (some latest) (some target_latest) s =
    let k = (target_latest.0 + 1) % u64_mod in
    ground (arith, insert_all-IsSorted target (Mapx.range_from vers k) s)

merge_at-IsSorted :
    (vers target : VerMap) (fork : Option VersionId)
    → IsSorted target
    → IsSorted (merge_at vers target fork)
merge_at-IsSorted vers target none s = merge_prefix-IsSorted vers target (last vers) (last target) s
merge_at-IsSorted vers target (some f) s = insert_all-IsSorted target (Mapx.range_from vers f) s

pub merged-IsSorted : (vers target : VerMap) → IsSorted target → IsSorted (merged vers target)
unfolding merged
merged-IsSorted vers target s = merge_at-IsSorted vers target (fork_point vers target) s
