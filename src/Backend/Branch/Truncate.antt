-- ===== src/Backend/Branch/Truncate.antt =====
-- `branch_truncate`: the versions of a branch are taken away; and the removal of versions one by one,
-- which `branch_truncate_to` does.
pub mod To
use mathlib.Core.List.{reverse, reverse_aux}
use vsdb.Prelude.{
  ℕ, suc, ◌≤◌, Bool, false, ◌||◌, ◌==◌, leb, if◌then◌else◌, ◌<◌, ◌+◌, ◌%◌, ◌≡◌, ◌≢◌, ◌∙◌, refl, sym,
  subst, true, none, some, List, [], ◌∷◌, arith, Option-cases, ◌⊎◌, ap, ◌>>=?◌, inl, inr, is_some,
  is_some_of,
}
use vsdb.Common.{RawKey, RawValue, BranchId, VersionId, u64_mod}
use vsdb.Exec.{Result, ok, err, Exec, for_each, resume, branch_not_found, missing}
use vsdb.Mapx
use vsdb.Mapx.{Mapx, at, nat_ord, bytes_ord}
use vsdb.Mapx.Laws.{get-insert, get-remove, get-empty}
use vsdb.Mapx.Sorted.{
  mem, mem-keys, IsSorted, IsAbove, remove-IsAbove, range_from-IsAbove, get-range_from, newest_ext,
}
use vsdb.Backend.{MapxRawVs, VerMap}
use vsdb.Backend.Data.{non_empty, get_by_branch_version}
use vsdb.Backend.View.{visible, view, get_by_branch_version-eq-view}
use vsdb.Backend.Branch.{branch_truncate, branch_truncate_to, truncate_version}
use vsdb.Backend.Invariant.{IsValid}
use vsdb.Backend.Invariant.SetVersions.{
  set_versions, set_versions-IsValid, get_by_branch_version-set_versions_ne,
  get_by_branch_version-set_versions,
}

branch_truncate-found :
    (s : MapxRawVs) (br : BranchId) (vers : VerMap)
    → Mapx.get s.br_to_its_vers br ≡ some vers
    → branch_truncate br s ≡ (ok tt, set_versions s br [])
unfolding branch_truncate
branch_truncate-found s br vers found = rw found refl

branch_truncate-none :
    (s : MapxRawVs) (br : BranchId)
    → Mapx.get s.br_to_its_vers br ≡ none
    → branch_truncate br s ≡ (err branch_not_found, s)
unfolding branch_truncate
branch_truncate-none s br absent = rw absent refl

-- The truncation of a branch keeps the invariant, whether the branch is there or not.
pub branch_truncate-IsValid :
    (s : MapxRawVs) (br : BranchId) → IsValid s → IsValid (branch_truncate br s).1
branch_truncate-IsValid s br valid = elim (Option-cases (Mapx.get s.br_to_its_vers br)) [
  | inl absent ↦ rw (branch_truncate-none s br absent) valid
  | inr (vers, found) ↦ rw (branch_truncate-found s br vers found) (
      set_versions-IsValid s br [] valid (is_some_of _ found) tt
        (λ n on. ground (arith, get-empty {V = RawValue} n)))
]

pub mem-reverse_aux :
    (n : ℕ) (ks acc : List ℕ) → mem n (reverse_aux ks acc) ≡ (mem n ks || mem n acc)
mem-reverse_aux n [] acc = refl
mem-reverse_aux n (k ∷ ks) acc = ground (arith, mem-reverse_aux n ks (k ∷ acc))

-- Versions of a branch in descending order, from below a bound.
abbrev pub IsBelow : ℕ → VerMap → List ℕ → Type 0
IsBelow b vers [] = Unit
IsBelow b vers (k ∷ ks) = (k < b) × (Mapx.contains_key vers k ≡ true) × IsBelow k vers ks

IsBelow-remove :
    (b : ℕ) (vers : VerMap) (ks : List ℕ) (x : ℕ)
    → b ≤ x
    → IsBelow b vers ks
    → IsBelow b (Mapx.remove vers x) ks
IsBelow-remove b vers [] x le h = tt
IsBelow-remove b vers (k ∷ ks) x le h =
    (h.0, ground (arith, get-remove vers x k), IsBelow-remove k vers ks x (omega (arith, h.0)) h.2)

IsBelow-weaken :
    (b top : ℕ) (vers : VerMap) (ks : List ℕ) → b ≤ top → IsBelow b vers ks → IsBelow top vers ks
IsBelow-weaken b top vers [] le h = tt
IsBelow-weaken b top vers (k ∷ ks) le h = (omega (arith, h.0), h.1, h.2)

-- The keys of an ascending part of the versions, in reverse, before versions that are below it.
pub IsBelow-reverse :
    (b : ℕ) (vers m : VerMap) (acc : List ℕ) (top : ℕ)
    → IsAbove b m
    → ((n : ℕ) → Mapx.contains_key m n ≡ true → (Mapx.contains_key vers n ≡ true) × (n < top))
    → b ≤ top
    → IsBelow b vers acc
    → IsBelow top vers (reverse_aux (Mapx.keys m) acc)
unfolding Mapx.get
IsBelow-reverse b vers [] acc top above within le below = IsBelow-weaken b top vers acc le below
IsBelow-reverse b vers ((k, v) ∷ m) acc top above within le below =
    let here = within k (ground arith) in
    IsBelow-reverse (suc k) vers m (k ∷ acc) top above.1 (λ n on. within n (ground arith))
      (omega (arith, here.1)) (omega arith, here.0, IsBelow-weaken b k vers acc above.0 below)

-- What is left after removals.
unfoldable pub remove_all : List ℕ → VerMap → VerMap
remove_all [] vers = vers
remove_all (k ∷ ks) vers = remove_all ks (Mapx.remove vers k)

pub get-remove_all :
    (ks : List ℕ) (vers : VerMap) (n : ℕ)
    → Mapx.get (remove_all ks vers) n ≡ (if mem n ks then none else Mapx.get vers n)
unfolding remove_all
get-remove_all [] vers n = refl
get-remove_all (k ∷ ks) vers n =
    ground (arith, get-remove_all ks (Mapx.remove vers k) n, get-remove vers k n)

truncate_version-found :
    (s : MapxRawVs) (br : BranchId) (vers : VerMap) (k : VersionId)
    → Mapx.get s.br_to_its_vers br ≡ some vers
    → Mapx.contains_key vers k ≡ true
    → truncate_version br k s ≡ (ok tt, set_versions s br (Mapx.remove vers k))
truncate_version-found s br vers k found on = elim (Option-cases (Mapx.get vers k)) [
  | inl absent ↦ ground arith
  | inr (v, there) ↦ rw (found, there) refl
]

-- The state after the loop of `branch_truncate_to`, and that no step of it fails.
pub record Truncated (s t : MapxRawVs) (br : BranchId) (vers : VerMap) : Type 0 where
  pub same_but_vers : t ≡ record s { br_to_its_vers = t.br_to_its_vers }
  pub at_branch : Mapx.get t.br_to_its_vers br ≡ some vers
  pub elsewhere :
      (b : BranchId) → b ≢ br → Mapx.get t.br_to_its_vers b ≡ Mapx.get s.br_to_its_vers b

pub truncate_all :
    (ks : List VersionId) (b : ℕ) (s : MapxRawVs) (br : BranchId) (vers : VerMap)
    → Mapx.get s.br_to_its_vers br ≡ some vers
    → IsBelow b vers ks
    → (t : MapxRawVs) × (for_each ks (truncate_version br) s ≡ (ok tt, t))
      × Truncated s t br (remove_all ks vers)
unfolding remove_all
truncate_all [] b s br vers found below =
    (s, refl, record { same_but_vers = refl; at_branch = found; elsewhere = λ b other. refl })
truncate_all (k ∷ ks) b s br vers found below =
    let (t, run, h) =
      truncate_all ks k (set_versions s br (Mapx.remove vers k)) br (Mapx.remove vers k)
        (ground (arith, get-insert s.br_to_its_vers br (Mapx.remove vers k) br))
        (IsBelow-remove k vers ks k (omega arith) below.2) in
    (
      t,
      rw (truncate_version-found s br vers k found below.1) run,
      record {
        same_but_vers = h.same_but_vers;
        at_branch = h.at_branch;
        elsewhere = λ b other.
            h.elsewhere b other
            ∙ ground (arith, get-insert s.br_to_its_vers br (Mapx.remove vers k) b);
      },
    )

module _ (s t : MapxRawVs) (br : BranchId) (vers : VerMap) (valid : IsValid s)
    (h : Truncated s t br vers) (found : is_some (Mapx.get s.br_to_its_vers br) ≡ true)
    (in_order : IsSorted vers)
    (known : (n : VersionId)
      → Mapx.contains_key vers n ≡ true
      → Mapx.contains_key s.ver_to_change_set n ≡ true) where
  vers-Truncated :
      (b : BranchId)
      → Mapx.get t.br_to_its_vers b ≡ (if b == br then some vers else Mapx.get s.br_to_its_vers b)
  vers-Truncated b = ground (arith, h.at_branch, h.elsewhere b)

  pub Truncated-IsValid : IsValid t
  Truncated-IsValid = subst IsValid (sym h.same_but_vers) (record {
    consistent = record {
      vers_sorted = λ b. ground (arith, vers-Truncated b, valid.vers_sorted b);
      kv_sorted = valid.kv_sorted;
      keys_sorted = valid.keys_sorted;
      changes_sorted = valid.changes_sorted;
      versions_sorted = valid.versions_sorted;
      recorded = λ b n on. ground (arith, vers-Truncated b, valid.recorded b n, known n);
      allocated = valid.allocated;
      in_range = valid.in_range;
      changes = valid.changes;
    };
    named = record {
      ver_names = valid.ver_names;
      ver_named = valid.ver_named;
      br_names = valid.br_names;
      br_named = λ b. ground (arith, vers-Truncated b, valid.br_named b);
      br_allocated = λ b le. ground (arith, vers-Truncated b, valid.br_allocated b);
    };
  })
