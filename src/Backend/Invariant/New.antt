-- ===== src/Backend/Invariant/New.antt =====
-- A new version manager, and a cleared one, meet the invariant.
use vsdb.Prelude.{◌<◌, refl, arith}
use vsdb.Common.{Allocator, u64_mod, initial_branch_name}
use vsdb.Mapx
use vsdb.Mapx.{nat_ord, bytes_ord}
use vsdb.Backend.{new}
use vsdb.Backend.Invariant.{IsValid}

-- A new version manager is valid, over allocators that have given out the initial branch.
pub new-IsValid : (db : Allocator) → 0 < db.br_id → db.ver_id < u64_mod → IsValid (new db)
unfolding new Mapx.get Mapx.insert
new-IsValid db br ver = record {
  consistent = record {
    vers_sorted = λ b. ground arith;
    kv_sorted = λ key. tt;
    keys_sorted = tt;
    changes_sorted = λ n. tt;
    versions_sorted = tt;
    recorded = λ b n on. ground arith;
    allocated = λ n le. refl;
    in_range = ver;
    changes = λ n key. refl;
  };
  named = record {
    ver_names = λ name n. (ground arith, ground arith);
    ver_named = λ n. refl;
    br_names = λ name b. (
      ground (arith, Mapx.eq_of_cmp_bytes name initial_branch_name),
      ground (arith, Mapx.cmp_bytes_refl name),
    );
    br_named = λ b. ground arith;
    br_allocated = λ b le. ground arith;
  };
}
