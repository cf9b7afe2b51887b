-- ===== src/MultiKeyVs/Write.antt =====
-- A write under a whole key: what the branches read after it.
use Prim.Native.Nat.Ordering.{eq}
use native.Mathlib.Decide.{ℕ_discrete}
use vsdb.Prelude.{
  ◌<◌, ◌≡◌, ◌≢◌, ◌⊎◌, sym, ap, ◌∙◌, true, none, some, ◌>>=?◌, if◌then◌else◌, length, arith, inl,
  inr, ◌==◌, Option-cases,
}
use vsdb.Common.{RawValue, BranchId, VersionId}
use vsdb.Exec.{ok}
use vsdb.Mapx
use vsdb.Mapx.{Mapx, at, or_empty, nat_ord, bytes_ord}
use vsdb.Mapx.Laws.{get-insert}
use vsdb.Mapx.Sorted.{newest, newest_ext, newest_here, IsSorted, insert-IsAbove}
use vsdb.MultiKey
use vsdb.MultiKey.{MapxRawMk}
use vsdb.MultiKey.Keys.{RawKeys, keys_ord, cmp_keys, cmp_keys_refl, eq_of_cmp_keys}
use vsdb.Backend.{VerMap}
use vsdb.Backend.Data.{non_empty}
use vsdb.MultiKeyVs.{MapxRawMkVs, Layers, put_layer}
use vsdb.MultiKeyVs.Data.{
  get_by_branch_version, get_by_branch, write_by_branch_version, insert_by_branch, set_change_set,
}
use vsdb.MultiKeyVs.View.{
  visible, IsValid, IsLatest, read-eq-view, latest_on, latest_recorded, latest_version-latest,
  get_by_branch-latest,
}

pub at-put_layer :
    (m : Layers) (key : RawKeys) (n : VersionId) (value : RawValue) (j : RawKeys) (i : VersionId)
    → Mapx.get (at (put_layer key n value m) j) i ≡ elim (cmp_keys j key) [
      | eq ↦ if i == n then some value else Mapx.get (at m j) i
      | _ ↦ Mapx.get (at m j) i
    ]
at-put_layer m key n value j i = ground (
  arith,
  get-insert m key (Mapx.insert (at m key) n value) j,
  get-insert (at m key) n value i,
  eq_of_cmp_keys j key,
)

pub put_layer-IsSorted :
    (m : Layers) (key : RawKeys) (n : VersionId) (value : RawValue) (j : RawKeys)
    → IsSorted (at m key)
    → IsSorted (at m j)
    → IsSorted (at (put_layer key n value m) j)
put_layer-IsSorted m key n value j sk sj = ground (
  arith,
  get-insert m key (Mapx.insert (at m key) n value) j,
  insert-IsAbove 0 (at m key) n value,
)

-- Two layers of a key that agree but at one version.
pub frame :
    (vers kvs kvs' : VerMap) (n ver : VersionId)
    → ((i : VersionId) → i ≢ n → Mapx.get kvs' i ≡ Mapx.get kvs i)
    → (ver < n) ⊎ (Mapx.get vers n ≡ none)
    → newest (visible vers kvs') ver ≡ newest (visible vers kvs) ver
frame vers kvs kvs' n ver same apart = newest_ext _ _ ver (λ i le. elim (ℕ_discrete i n) [
  | no other ↦ ap (λ o. if Mapx.contains_key vers i then o else none) (same i other)
  | yes here ↦ elim apart [ inl earlier ↦ absurd (omega arith) | inr absent ↦ rw here (rw absent) ]
])

-- What the latest version of a branch holds is what the branch reads.
pub read_latest :
    (vers kvs : VerMap) (n : VersionId) (value : RawValue)
    → Mapx.contains_key vers n ≡ true
    → Mapx.get kvs n ≡ some value
    → newest (visible vers kvs) n ≡ some value
read_latest vers kvs n value on here = newest_here _ n value (ground arith)

-- The state after a write under a whole key.
abbrev pub written : MapxRawMkVs → RawKeys → VersionId → RawValue → MapxRawMk → MapxRawMkVs
written s key n value cs = record (set_change_set s n (MultiKey.insert key value cs).1) {
  layered_kv = put_layer key n value s.layered_kv;
}

write_some :
    (s : MapxRawMkVs) (key : RawKeys) (value : RawValue) (br : BranchId) (n : VersionId)
    (cs : MapxRawMk)
    → length key ≡ s.key_size
    → Mapx.get s.ver_to_change_set n ≡ some cs
    → cs.key_size ≡ s.key_size
    → write_by_branch_version key (some value) br n s
      ≡ (ok (get_by_branch_version s key br n), written s key n value cs)
unfolding write_by_branch_version MultiKey.insert
write_some s key value br n cs whole there size = ground (arith, whole, there, size)

-- A version that is recorded has a change set.
pub change_set_of :
    (s : MapxRawMkVs) (n : VersionId)
    → Mapx.contains_key s.ver_to_change_set n ≡ true
    → (cs : MapxRawMk) × (Mapx.get s.ver_to_change_set n ≡ some cs)
change_set_of s n h = elim (Option-cases (Mapx.get s.ver_to_change_set n)) [
  | inl gone ↦ ground arith
  | inr there ↦ there
]

pub insert_by_branch-latest :
    (s : MapxRawMkVs) (key : RawKeys) (value : RawValue) (br : BranchId) (n : VersionId)
    (cs : MapxRawMk)
    → IsValid s
    → IsLatest s br n
    → length key ≡ s.key_size
    → Mapx.get s.ver_to_change_set n ≡ some cs
    → insert_by_branch key value br s
      ≡ (ok (get_by_branch_version s key br n), written s key n value cs)
unfolding insert_by_branch
insert_by_branch-latest s key value br n cs valid l whole there =
    rw (latest_version-latest s br n l)
      (write_some s key value br n cs whole there (valid.change_sized n cs there))

written-reads :
    (s : MapxRawMkVs) (key : RawKeys) (value : RawValue) (n : VersionId) (cs : MapxRawMk)
    (j : RawKeys) (other : BranchId) (ver : VersionId)
    → IsValid s
    → (j ≢ key) ⊎ (ver < n) ⊎ (Mapx.get (at s.br_to_its_vers other) n ≡ none)
    → get_by_branch_version (written s key n value cs) j other ver
      ≡ get_by_branch_version s j other ver
written-reads s key value n cs j other ver valid apart =
    let before = read-eq-view s j other ver (valid.kv_sorted j) in
    let after =
      read-eq-view (written s key n value cs) j other ver
        (put_layer-IsSorted s.layered_kv key n value j (valid.kv_sorted key) (valid.kv_sorted j)) in
    after
    ∙ ap (λ o. o >>=? non_empty)
        (elim apart [
          | inl other_key ↦ newest_ext _ _ ver (λ i le.
              ground (arith, at-put_layer s.layered_kv key n value j i, eq_of_cmp_keys j key))
          | inr elsewhere ↦
              frame (at s.br_to_its_vers other) (at s.layered_kv j)
                (at (put_layer key n value s.layered_kv) j) n ver
                (λ i ne. ground (arith, at-put_layer s.layered_kv key n value j i)) elsewhere
        ])
    ∙ sym before

written-own :
    (s : MapxRawMkVs) (key : RawKeys) (value : RawValue) (br : BranchId) (n : VersionId)
    (cs : MapxRawMk)
    → IsValid s
    → IsLatest s br n
    → get_by_branch (written s key n value cs) key br ≡ non_empty value
written-own s key value br n cs valid l =
    get_by_branch-latest (written s key n value cs) key br n
      (record { vers = l.vers; mark = l.mark; found = l.found; is_last = l.is_last })
    ∙ read-eq-view (written s key n value cs) key br n (
        put_layer-IsSorted s.layered_kv key n value key (valid.kv_sorted key) (valid.kv_sorted key))
    ∙ ap (λ o. o >>=? non_empty)
        (read_latest (at s.br_to_its_vers br) (at (put_layer key n value s.layered_kv) key) n value
          (latest_on s br n valid l)
          (ground (arith, at-put_layer s.layered_kv key n value key n, cmp_keys_refl key)))

-- In a valid state, after an insertion under a whole key on a branch with a latest version, the
-- branch reads the inserted value, and none if it is empty; and no read changes of another key, of
-- an earlier version, or of a branch without that version.
pub insert_by_branch-reads :
    (s : MapxRawMkVs) (key : RawKeys) (value : RawValue) (br : BranchId) (n : VersionId)
    (j : RawKeys) (other : BranchId) (ver : VersionId)
    → IsValid s
    → IsLatest s br n
    → length key ≡ s.key_size
    → (j ≢ key) ⊎ (ver < n) ⊎ (Mapx.get (at s.br_to_its_vers other) n ≡ none)
    → (get_by_branch (insert_by_branch key value br s).1 key br ≡ non_empty value)
      × (get_by_branch_version (insert_by_branch key value br s).1 j other ver
          ≡ get_by_branch_version s j other ver)
insert_by_branch-reads s key value br n j other ver valid l whole apart =
    let (cs, there) = change_set_of s n (latest_recorded s br n valid l) in
    let done = ap (λ r. r.1) (insert_by_branch-latest s key value br n cs valid l whole there) in
    (
      ap (λ t. get_by_branch t key br) done ∙ written-own s key value br n cs valid l,
      ap (λ t. get_by_branch_version t j other ver) done
          ∙ written-reads s key value n cs j other ver valid apart,
    )
