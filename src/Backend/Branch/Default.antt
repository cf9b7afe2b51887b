-- ===== src/Backend/Branch/Default.antt =====
-- `branch_set_default`: the default branch.
use vsdb.Prelude.{Option-cases, inl, inr}
use vsdb.Common.{BranchId}
use vsdb.Mapx
use vsdb.Mapx.{at, nat_ord, bytes_ord}
use vsdb.Backend.{MapxRawVs}
use vsdb.Backend.Branch.{branch_set_default}
use vsdb.Backend.Invariant.{IsValid}

-- A change of the default branch keeps the invariant, whether the branch is there or not.
pub branch_set_default-IsValid :
    (s : MapxRawVs) (br : BranchId) → IsValid s → IsValid (branch_set_default br s).1
unfolding branch_set_default
branch_set_default-IsValid s br valid = elim (Option-cases (Mapx.get s.br_id_to_br_name br)) [
  | inl absent ↦ rw absent valid
  | inr (name, found) ↦ rw found (record {
    consistent = record {
      vers_sorted = valid.vers_sorted;
      kv_sorted = valid.kv_sorted;
      keys_sorted = valid.keys_sorted;
      changes_sorted = valid.changes_sorted;
      versions_sorted = valid.versions_sorted;
      recorded = valid.recorded;
      allocated = valid.allocated;
      in_range = valid.in_range;
      changes = valid.changes;
    };
    named = record {
      ver_names = valid.ver_names;
      ver_named = valid.ver_named;
      br_names = valid.br_names;
      br_named = valid.br_named;
      br_allocated = valid.br_allocated;
    };
  })
]
