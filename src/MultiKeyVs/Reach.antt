-- ===== src/MultiKeyVs/Reach.antt =====
-- The states that a new version manager reaches by operations under whole keys.
use vsdb.Prelude.{
  ℕ, ◌+◌, ◌<◌, ◌≡◌, ◌⊎◌, refl, sym, subst, Option, none, some, [], length, arith, Option-cases, inl,
  inr,
}
use vsdb.Common.{RawValue, RawBytes, BranchId, VersionId, u64_mod, Allocator}
use vsdb.Exec.{Error, err, no_version, branch_not_found}
use vsdb.Mapx
use vsdb.Mapx.{Mapx, at, or_empty, nat_ord, bytes_ord}
use vsdb.MultiKey.{MapxRawMk}
use vsdb.MultiKey.Keys.{RawKeys, keys_ord}
use vsdb.MultiKeyVs
use vsdb.MultiKeyVs.{MapxRawMkVs, Layers, init, restored}
use vsdb.MultiKeyVs.Data.{
  get_by_branch_version, insert_by_branch, remove_by_branch, latest_version,
  write_by_branch_version,
}
use vsdb.MultiKeyVs.Version.{version_create_by_branch, version_pop_by_branch}
use vsdb.MultiKeyVs.View.{IsLatest, latest_recorded, latest_version-latest}
use vsdb.MultiKeyVs.Write.{written, change_set_of, insert_by_branch-latest}
use vsdb.MultiKeyVs.Iter.{remove_by_branch-written}
use vsdb.MultiKeyVs.Reload.{get_by_branch_version-restored}
use vsdb.MultiKeyVs.Keeps.{IsKept, written-IsValid, written-IsCoherent}
use vsdb.MultiKeyVs.Version.Keeps.{version_pop_by_branch-IsKept, version_create_by_branch-IsKept}

IsLatest-cases :
    (s : MapxRawMkVs) (br : BranchId)
    → ((n : VersionId) × IsLatest s br n) ⊎ ((e : Error) × (latest_version br s ≡ (err e, s)))
unfolding latest_version
IsLatest-cases s br = elim (Option-cases (Mapx.get s.br_to_its_vers br)) [
  | inl gone ↦ inr (branch_not_found, rw gone refl)
  | inr (vs, found) ↦ elim (Option-cases (Mapx.last vs)) [
    | inl empty ↦ inr (no_version, rw found (rw empty refl))
    | inr ((n, v), is_last) ↦
        inl (n, record { vers = vs; mark = v; found = found; is_last = is_last })
  ]
]

written-IsKept :
    (s : MapxRawMkVs) (key : RawKeys) (n : VersionId) (value : RawValue) (cs : MapxRawMk)
    → IsKept s
    → Mapx.get s.ver_to_change_set n ≡ some cs
    → length key ≡ s.key_size
    → IsKept (written s key n value cs)
written-IsKept s key n value cs kept there whole = (
  written-IsValid s key n value cs kept.0 there,
  written-IsCoherent s key n value cs kept.0 there kept.1 whole,
)

insert_fails :
    (s : MapxRawMkVs) (key : RawKeys) (value : RawValue) (br : BranchId) (e : Error)
    → latest_version br s ≡ (err e, s)
    → ((insert_by_branch key value br s).1 ≡ s) × ((remove_by_branch key br s).1 ≡ s)
unfolding insert_by_branch remove_by_branch
insert_fails s key value br e h = (rw h refl, rw h refl)

insert_by_branch-IsKept :
    (s : MapxRawMkVs) (key : RawKeys) (value : RawValue) (br : BranchId)
    → IsKept s
    → length key ≡ s.key_size
    → IsKept (insert_by_branch key value br s).1
insert_by_branch-IsKept s key value br kept whole = elim (IsLatest-cases s br) [
  | inr (e, fails) ↦ subst IsKept (sym (insert_fails s key value br e fails).0) kept
  | inl (n, l) ↦
      let (cs, there) = change_set_of s n (latest_recorded s br n kept.0 l) in
      rw (insert_by_branch-latest s key value br n cs kept.0 l whole there)
        (written-IsKept s key n value cs kept there whole)
]

-- A removal of what is not there changes nothing.
remove_absent :
    (s : MapxRawMkVs) (key : RawKeys) (br : BranchId) (n : VersionId)
    → IsLatest s br n
    → length key ≡ s.key_size
    → get_by_branch_version s key br n ≡ none
    → (remove_by_branch key br s).1 ≡ s
unfolding remove_by_branch write_by_branch_version
remove_absent s key br n l whole gone =
    rw (latest_version-latest s br n l) (ground (arith, whole, gone))

remove_by_branch-IsKept :
    (s : MapxRawMkVs) (key : RawKeys) (br : BranchId)
    → IsKept s
    → length key ≡ s.key_size
    → IsKept (remove_by_branch key br s).1
remove_by_branch-IsKept s key br kept whole = elim (IsLatest-cases s br) [
  | inr (e, fails) ↦ subst IsKept (sym (insert_fails s key [] br e fails).1) kept
  | inl (n, l) ↦
      let (cs, there) = change_set_of s n (latest_recorded s br n kept.0 l) in
      elim (Option-cases (get_by_branch_version s key br n)) [
        | inl gone ↦ subst IsKept (sym (remove_absent s key br n l whole gone)) kept
        | inr (v, read) ↦
            rw (remove_by_branch-written s key br n cs v kept.0 l whole there read)
              (written-IsKept s key n [] cs kept there whole)
      ]
]

-- Nothing is found in the empty map.
absent : {P : Type 0} {cs : MapxRawMk} → none ≡ some cs → P
absent {P} h = subst (λ (o : Option MapxRawMk). elim o [ none ↦ Unit {0} | some c ↦ P ]) h tt

new-IsKept : (size : ℕ) (db : Allocator) → 0 < size → IsKept (MultiKeyVs.new size db)
unfolding MultiKeyVs.new init Mapx.get Mapx.insert
new-IsKept size db pos = (
  record {
    sized = pos;
    vers_sorted = λ b. ground arith;
    kv_sorted = λ key. tt;
    versions_sorted = tt;
    recorded = λ b n on. ground arith;
    change_sized = λ n cs there. ground arith;
    change_tree = λ n cs there. absent there;
    allocated = λ n le. refl;
  },
  λ n key size. refl,
)

-- The runs of a new version manager: writes under whole keys, creations and pops of versions.
pub data Reach (size : ℕ) (db : Allocator) : MapxRawMkVs → Type 0 where
  start : Reach size db (MultiKeyVs.new size db)
  insert :
      {s : MapxRawMkVs} (key : RawKeys) (value : RawValue) (br : BranchId)
      → Reach size db s
      → length key ≡ s.key_size
      → Reach size db (insert_by_branch key value br s).1
  remove :
      {s : MapxRawMkVs} (key : RawKeys) (br : BranchId)
      → Reach size db s
      → length key ≡ s.key_size
      → Reach size db (remove_by_branch key br s).1
  create :
      {s : MapxRawMkVs} (name : RawBytes) (br : BranchId)
      → Reach size db s
      → s.db.ver_id + 1 < u64_mod
      → Reach size db (version_create_by_branch name br s).1
  pop :
      {s : MapxRawMkVs} (br : BranchId)
      → Reach size db s
      → Reach size db (version_pop_by_branch br s).1

pub Reach-IsKept :
    (size : ℕ) (db : Allocator) (s : MapxRawMkVs) → 0 < size → Reach size db s → IsKept s
Reach-IsKept size db s pos start = new-IsKept size db pos
Reach-IsKept size db s pos (insert {s = t} key value br run whole) =
    insert_by_branch-IsKept t key value br (Reach-IsKept size db t pos run) whole
Reach-IsKept size db s pos (remove {s = t} key br run whole) =
    remove_by_branch-IsKept t key br (Reach-IsKept size db t pos run) whole
Reach-IsKept size db s pos (create {s = t} name br run room) =
    version_create_by_branch-IsKept t name br room (Reach-IsKept size db t pos run)
Reach-IsKept size db s pos (pop {s = t} br run) =
    version_pop_by_branch-IsKept t br (Reach-IsKept size db t pos run)

-- In every state that a new version manager, with keys of at least one part and while it has
-- identifiers left, reaches by insertions and removals under whole keys, creations and pops of
-- versions, with any results, every read under a whole key gives the same after the map was written
-- and read again.
pub Reach-restored :
    (size : ℕ) (db : Allocator) (s : MapxRawMkVs) (key : RawKeys) (br : BranchId) (ver : VersionId)
    → 0 < size
    → Reach size db s
    → length key ≡ s.key_size
    → get_by_branch_version (restored s) key br ver ≡ get_by_branch_version s key br ver
Reach-restored size db s key br ver pos run whole =
    let kept = Reach-IsKept size db s pos run in
    get_by_branch_version-restored s key br ver kept.0 kept.1 whole
