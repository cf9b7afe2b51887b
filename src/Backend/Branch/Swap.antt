-- ===== src/Backend/Branch/Swap.antt =====
-- `branch_swap`: the exchange of the names of two branches.
use Prim.Native.Nat.Ordering.{eq}
use vsdb.Prelude.{◌≡◌, refl, some, arith, Option-cases, inl, inr, ◌==◌, if◌then◌else◌}
use vsdb.Common.{RawBytes, RawKey, BranchId, VersionId}
use vsdb.Exec.{ok}
use vsdb.Mapx
use vsdb.Mapx.{at, nat_ord, bytes_ord}
use vsdb.Mapx.Laws.{get-insert}
use vsdb.Backend.{MapxRawVs}
use vsdb.Backend.Branch.{branch_swap, swap_default, branch_get_default_name, branch_get_id_by_name}
use vsdb.Backend.Data.{get_by_branch_version}
use vsdb.Backend.Invariant.{IsValid}

-- The state after two names are exchanged.
abbrev pub swapped : MapxRawVs → RawBytes → RawBytes → BranchId → BranchId → MapxRawVs
swapped s branch_1 branch_2 brid_1 brid_2 = record s {
  br_name_to_br_id = Mapx.insert (Mapx.insert s.br_name_to_br_id branch_1 brid_2) branch_2 brid_1;
  br_id_to_br_name = Mapx.insert (Mapx.insert s.br_id_to_br_name brid_1 branch_2) brid_2 branch_1;
  default_branch = swap_default brid_1 brid_2 s.default_branch;
}

-- In a valid state the exchange of the names of two branches that are there succeeds, exchanges the
-- names in both tables, and moves the default branch with them.
pub branch_swap-found :
    (s : MapxRawVs) (branch_1 branch_2 : RawBytes) (brid_1 brid_2 : BranchId)
    → IsValid s
    → Mapx.get s.br_name_to_br_id branch_1 ≡ some brid_1
    → Mapx.get s.br_name_to_br_id branch_2 ≡ some brid_2
    → branch_swap branch_1 branch_2 s ≡ (ok tt, swapped s branch_1 branch_2 brid_1 brid_2)
unfolding branch_swap
branch_swap-found s branch_1 branch_2 brid_1 brid_2 valid found_1 found_2 =
    let named_1 : Mapx.get s.br_id_to_br_name brid_1 ≡ some branch_1 =
      (valid.br_names branch_1 brid_1).0 found_1 in
    let named_2 : Mapx.get s.br_id_to_br_name brid_2 ≡ some branch_2 =
      (valid.br_names branch_2 brid_2).0 found_2 in
    ground (
      arith,
      found_1,
      found_2,
      named_1,
      named_2,
      get-insert s.br_id_to_br_name brid_1 branch_2 brid_2,
    )

module _ (s : MapxRawVs) (branch_1 branch_2 : RawBytes) (brid_1 brid_2 : BranchId)
    (valid : IsValid s) (found_1 : Mapx.get s.br_name_to_br_id branch_1 ≡ some brid_1)
    (found_2 : Mapx.get s.br_name_to_br_id branch_2 ≡ some brid_2) where
  ids-swapped :
      (b : BranchId)
      → Mapx.get (swapped s branch_1 branch_2 brid_1 brid_2).br_id_to_br_name b ≡ (
          if b == brid_2
          then some branch_1
          else if b == brid_1
          then some branch_2
          else Mapx.get s.br_id_to_br_name b)
  ids-swapped b = ground (
    arith,
    get-insert (Mapx.insert s.br_id_to_br_name brid_1 branch_2) brid_2 branch_1 b,
    get-insert s.br_id_to_br_name brid_1 branch_2 b,
  )

  names-swapped :
      (name : RawBytes)
      → Mapx.get (swapped s branch_1 branch_2 brid_1 brid_2).br_name_to_br_id name
        ≡ elim (Mapx.cmp_bytes name branch_2) [
          | eq ↦ some brid_1
          | _ ↦ elim (Mapx.cmp_bytes name branch_1) [
            | eq ↦ some brid_2
            | _ ↦ Mapx.get s.br_name_to_br_id name
          ]
        ]
  names-swapped name = ground (
    arith,
    get-insert (Mapx.insert s.br_name_to_br_id branch_1 brid_2) branch_2 brid_1 name,
    get-insert s.br_name_to_br_id branch_1 brid_2 name,
  )

  swapped-IsValid : IsValid (swapped s branch_1 branch_2 brid_1 brid_2)
  swapped-IsValid = record {
    consistent = record {
      vers_sorted = valid.vers_sorted;
      kv_sorted = valid.kv_sorted;
      keys_sorted = valid.keys_sorted;
      changes_sorted = valid.changes_sorted;
      versions_sorted = valid.versions_sorted;
      recorded = valid.recorded;
      allocated = valid.allocated;
      in_range = valid.in_range;
      changes = valid.changes;
    };
    named = record {
      ver_names = valid.ver_names;
      ver_named = valid.ver_named;
      br_names = λ name b. ground (
        arith,
        names-swapped name,
        ids-swapped b,
        valid.br_names name b,
        valid.br_names name brid_1,
        valid.br_names name brid_2,
        valid.br_names branch_1 brid_1,
        valid.br_names branch_2 brid_2,
        valid.br_names branch_1 b,
        valid.br_names branch_2 b,
        valid.br_names branch_1 brid_2,
        valid.br_names branch_2 brid_1,
        Mapx.eq_of_cmp_bytes name branch_2,
        Mapx.eq_of_cmp_bytes name branch_1,
        Mapx.cmp_bytes_refl name,
        Mapx.cmp_bytes_refl branch_1,
        Mapx.cmp_bytes_refl branch_2,
      );
      br_named = λ b. ground (
        arith,
        ids-swapped b,
        valid.br_named b,
        valid.br_names branch_1 brid_1,
        valid.br_names branch_2 brid_2,
      );
      br_allocated = valid.br_allocated;
    };
  }

-- The exchange of two names keeps the invariant, whether both are known or not.
pub branch_swap-IsValid :
    (s : MapxRawVs) (branch_1 branch_2 : RawBytes)
    → IsValid s
    → IsValid (branch_swap branch_1 branch_2 s).1
unfolding branch_swap
branch_swap-IsValid s branch_1 branch_2 valid =
    elim (Option-cases (Mapx.get s.br_name_to_br_id branch_1)) [
      | inl absent ↦ rw absent valid
      | inr (brid_1, found_1) ↦ elim (Option-cases (Mapx.get s.br_name_to_br_id branch_2)) [
        | inl absent ↦ rw (found_1, absent) valid
        | inr (brid_2, found_2) ↦
            rw (branch_swap-found s branch_1 branch_2 brid_1 brid_2 valid found_1 found_2)
              (swapped-IsValid s branch_1 branch_2 brid_1 brid_2 valid found_1 found_2)
      ]
    ]

default_name-swapped :
    (s : MapxRawVs) (branch_1 branch_2 : RawBytes) (brid_1 brid_2 : BranchId)
    → IsValid s
    → Mapx.get s.br_name_to_br_id branch_1 ≡ some brid_1
    → Mapx.get s.br_name_to_br_id branch_2 ≡ some brid_2
    → (branch_get_default_name (swapped s branch_1 branch_2 brid_1 brid_2)).0
      ≡ (branch_get_default_name s).0
unfolding branch_get_default_name
default_name-swapped s branch_1 branch_2 brid_1 brid_2 valid found_1 found_2 = ground (
  arith,
  valid.br_names branch_1 brid_1,
  valid.br_names branch_2 brid_2,
  found_1,
  found_2,
  ids-swapped s branch_1 branch_2 brid_1 brid_2 valid found_1 found_2
      (swap_default brid_1 brid_2 s.default_branch),
)

-- In a valid state the exchange of the names of two branches that are there succeeds and keeps the
-- state valid. Each name leads to what the other led to, each of the two branches has the name of
-- the other, and other names and branches are as before. Where one of the two is the default branch,
-- the other is afterwards, so the name of the default branch stays. No read of a branch changes.
pub branch_swap-exchanges :
    (s : MapxRawVs) (branch_1 branch_2 : RawBytes) (brid_1 brid_2 : BranchId)
    → IsValid s
    → Mapx.get s.br_name_to_br_id branch_1 ≡ some brid_1
    → Mapx.get s.br_name_to_br_id branch_2 ≡ some brid_2
    → let t = branch_swap branch_1 branch_2 s in
      (t.0 ≡ ok tt)
      × IsValid t.1
      × ((name : RawBytes)
          → branch_get_id_by_name t.1 name ≡ elim (Mapx.cmp_bytes name branch_2) [
            | eq ↦ some brid_1
            | _ ↦ elim (Mapx.cmp_bytes name branch_1) [
              | eq ↦ some brid_2
              | _ ↦ branch_get_id_by_name s name
            ]
          ])
      × ((b : BranchId)
          → Mapx.get t.1.br_id_to_br_name b ≡ (
              if b == brid_2
              then some branch_1
              else if b == brid_1
              then some branch_2
              else Mapx.get s.br_id_to_br_name b))
      × (t.1.default_branch ≡ (
          if s.default_branch == brid_1
          then brid_2
          else if s.default_branch == brid_2
          then brid_1
          else s.default_branch))
      × ((branch_get_default_name t.1).0 ≡ (branch_get_default_name s).0)
      × ((key : RawKey) (b : BranchId) (ver : VersionId)
          → get_by_branch_version t.1 key b ver ≡ get_by_branch_version s key b ver)
unfolding get_by_branch_version branch_get_default_name
branch_swap-exchanges s branch_1 branch_2 brid_1 brid_2 valid found_1 found_2 =
    rw (branch_swap-found s branch_1 branch_2 brid_1 brid_2 valid found_1 found_2) (
      refl,
      swapped-IsValid s branch_1 branch_2 brid_1 brid_2 valid found_1 found_2,
      names-swapped s branch_1 branch_2 brid_1 brid_2 valid found_1 found_2,
      ids-swapped s branch_1 branch_2 brid_1 brid_2 valid found_1 found_2,
      refl,
      default_name-swapped s branch_1 branch_2 brid_1 brid_2 valid found_1 found_2,
      λ key b ver. refl,
    )
