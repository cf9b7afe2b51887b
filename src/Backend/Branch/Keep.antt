-- ===== src/Backend/Branch/Keep.antt =====
-- `branch_keep_only`: the other branches are removed, then the versions that are left on no branch.
use vsdb.Prelude.{not, List, [], ◌∷◌, filter}
use vsdb.Common.{BranchId}
use vsdb.Exec.{Result, ok, err, resume, for_each}
use vsdb.Mapx
use vsdb.Backend.{MapxRawVs}
use vsdb.Backend.Invariant.{IsValid}
use vsdb.Backend.Branch.{branch_remove, branch_keep_only, contains}
use vsdb.Backend.Branch.Remove.{branch_remove-IsValid}
use vsdb.Backend.Prune.{Locks, version_clean_up_globally}
use vsdb.Backend.Prune.Clean.{version_clean_up_globally-IsValid}

-- What follows a removal runs if it succeeded.
then_IsValid :
    (r : Result Unit × MapxRawVs) (next : MapxRawVs → Result Unit × MapxRawVs)
    → IsValid r.1
    → ((s : MapxRawVs) → IsValid s → IsValid (next s).1)
    → IsValid (resume r.0 (λ _. next) r.1).1
then_IsValid (ok a, s) next valid keeps = keeps s valid
then_IsValid (err e, s) next valid keeps = valid

for_each-IsValid :
    (brs : List BranchId) (s : MapxRawVs) → IsValid s → IsValid (for_each brs branch_remove s).1
for_each-IsValid [] s valid = valid
for_each-IsValid (br ∷ brs) s valid =
    then_IsValid (branch_remove br s) (for_each brs branch_remove)
      (branch_remove-IsValid s br valid) (for_each-IsValid brs)

pub branch_keep_only-IsValid :
    (s : MapxRawVs) (locks : Locks) (br_ids : List BranchId)
    → IsValid s
    → IsValid (branch_keep_only locks br_ids s).1
unfolding branch_keep_only
branch_keep_only-IsValid s locks br_ids valid =
    let brs = filter (λ b. not (contains br_ids b)) (Mapx.keys s.br_id_to_br_name) in
    then_IsValid (for_each brs branch_remove s) (version_clean_up_globally locks)
      (for_each-IsValid brs s valid) (λ t. version_clean_up_globally-IsValid t locks)
