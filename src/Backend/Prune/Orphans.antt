-- ===== src/Backend/Prune/Orphans.antt =====
-- `version_clean_up_globally`: the versions that are on no branch go, with their values, change sets
-- and names.
use vsdb.Prelude.{
  ℕ, suc, ◌≡◌, refl, sym, ap, subst, ◌∙◌, Bool, true, false, not, ◌&&◌, ◌||◌, Option, none, List,
  [], ◌∷◌, arith, if◌then◌else◌, is_some, foldl,
}
use vsdb.Common.{RawKey, BranchId, VersionId}
use vsdb.Exec.{ok}
use vsdb.Mapx
use vsdb.Mapx.{Mapx, at, or_empty, nat_ord, bytes_ord}
use vsdb.Mapx.Laws.{get-insert}
use vsdb.Mapx.Sorted.{IsSorted, IsAbove, mem, mem-keys, get-filter, filter-IsAbove, get-IsAbove}
use vsdb.Mapx.Ascending.{IsAscending}
use vsdb.Backend.{MapxRawVs, VerMap, ChangeSet}
use vsdb.Backend.Invariant.{IsValid}
use vsdb.Backend.Prune.{valid_vers, orphan_change_sets, clean_orphans}
use vsdb.Backend.Prune.Drop.{Dropped}
use vsdb.Backend.Prune.Drop.Sets.{drop_orphan_keys-all}
use vsdb.Backend.Prune.Forget.{Forgotten, HasTables, AreOnce, drop_orphan_version-all}

pub contains-foldl :
    (ks : List VersionId) (acc : Mapx VersionId (Unit {0})) (n : VersionId)
    → Mapx.contains_key (foldl (λ a ver. Mapx.insert a ver tt) acc ks) n
      ≡ (mem n ks || Mapx.contains_key acc n)
contains-foldl [] acc n = refl
contains-foldl (k ∷ ks) acc n =
    contains-foldl ks (Mapx.insert acc k tt) n ∙ ground (arith, get-insert acc k tt n)

-- A version on a branch is valid.
valid-on_branch :
    (m : Mapx BranchId VerMap) (br : BranchId) (n : VersionId)
    → Mapx.contains_key (at m br) n ≡ true
    → Mapx.contains_key (valid_vers m) n ≡ true
unfolding valid_vers Mapx.get
valid-on_branch [] br n on = ground arith
valid-on_branch ((b, vers) ∷ m) br n on = ground (
  arith,
  contains-foldl (Mapx.keys vers) (valid_vers m) n,
  mem-keys vers n,
  valid-on_branch m br n,
)

AreOnce-keys : {V : Type 0} (b : ℕ) (m : Mapx ℕ V) → IsAbove b m → AreOnce (Mapx.keys m)
AreOnce-keys b [] h = tt
AreOnce-keys b ((k, v) ∷ m) h = (
  mem-keys m k ∙ ap is_some (get-IsAbove (suc k) m k h.1 (omega arith)),
  AreOnce-keys (suc k) m h.1,
)

no_other :
    (b : Bool) (c : ChangeSet) (j : RawKey)
    → Mapx.contains_key (if b then c else []) j ≡ (b && Mapx.contains_key c j)
unfolding Mapx.get
no_other true c j = refl
no_other false c j = refl

if_IsAscending : (b : Bool) (c : ChangeSet) → IsAscending c → IsAscending (if b then c else [])
if_IsAscending true c h = h
if_IsAscending false c h = tt

of_and : (a b : Bool) → (a && b) ≡ true → b ≡ true
of_and a b h = ground arith

of_filtered :
    (b : Bool) (c : Option ChangeSet) → is_some (if b then c else none) ≡ true → is_some c ≡ true
of_filtered b c h = ground arith

if_kept_IsAscending : (b : Bool) (c : ChangeSet) → IsAscending c → IsAscending (if b then [] else c)
if_kept_IsAscending true c h = tt
if_kept_IsAscending false c h = h

kept_changes :
    {V : Type 0} (b : Bool) (c : ChangeSet) (j : RawKey) (v : Option V)
    → Mapx.contains_key c j ≡ is_some v
    → Mapx.contains_key (if b then [] else c) j
      ≡ is_some (if b && Mapx.contains_key c j then none else v)
unfolding Mapx.get
kept_changes true c j v h = ground arith
kept_changes false c j v h = h

-- What a filtered table holds.
or_empty-filtered :
    {V : Type 0} (b : Bool) (c : Option (Mapx RawKey V))
    → or_empty (if b then none else c) ≡ (if b then [] else or_empty c)
or_empty-filtered b c = ground arith

module _ (s : MapxRawVs) (valid : IsValid s) where
  -- The change sets that go.
  unfoldable pub orphans : Mapx VersionId ChangeSet
  unfolding orphan_change_sets
  orphans = orphan_change_sets (valid_vers s.br_to_its_vers) s.ver_to_change_set

  -- What is on a branch stays.
  unfoldable pub is_orphan : VersionId → Bool
  unfolding orphans
  is_orphan n = Mapx.contains_key orphans n

  pub get-orphans :
      (n : VersionId)
      → Mapx.get orphans n ≡ (
          if not (Mapx.contains_key (valid_vers s.br_to_its_vers) n)
          then Mapx.get s.ver_to_change_set n
          else none)
  unfolding orphans
  get-orphans n =
      get-filter (λ v. not (Mapx.contains_key (valid_vers s.br_to_its_vers) v)) s.ver_to_change_set
        n

  at-orphans :
      (n : VersionId) → at orphans n ≡ (if is_orphan n then at s.ver_to_change_set n else [])
  unfolding is_orphan
  at-orphans n = ground (arith, get-orphans n)

  pub on_branch-is_orphan :
      (br : BranchId) (n : VersionId)
      → Mapx.contains_key (at s.br_to_its_vers br) n ≡ true
      → is_orphan n ≡ false
  unfolding is_orphan
  on_branch-is_orphan br n on = ground (arith, get-orphans n, valid-on_branch s.br_to_its_vers br n)

  orphan_has :
      (n : VersionId) (j : RawKey)
      → Mapx.contains_key (at orphans n) j
        ≡ (is_orphan n && Mapx.contains_key (at s.ver_to_change_set n) j)
  orphan_has n j = rw (at-orphans n) (no_other (is_orphan n) (at s.ver_to_change_set n) j)

  orphans-IsAscending : (n : VersionId) → IsAscending (at orphans n)
  orphans-IsAscending n =
      rw (at-orphans n) (if_IsAscending (is_orphan n) _ (valid.changes_sorted n))

  orphan_there :
      (n : VersionId) (j : RawKey)
      → Mapx.contains_key (at orphans n) j ≡ true
      → Mapx.contains_key (at s.layered_kv j) n ≡ true
  orphan_there n j on = sym (valid.changes n j) ∙ of_and (is_orphan n) _ (sym (orphan_has n j) ∙ on)

  orphans-IsSorted : IsSorted orphans
  unfolding orphans
  orphans-IsSorted =
      filter-IsAbove 0 (λ v. not (Mapx.contains_key (valid_vers s.br_to_its_vers) v))
        s.ver_to_change_set valid.versions_sorted

  orphan_known :
      (n : VersionId)
      → mem n (Mapx.keys orphans) ≡ true
      → Mapx.contains_key s.ver_to_change_set n ≡ true
  orphan_known n m =
      of_filtered (not (Mapx.contains_key (valid_vers s.br_to_its_vers) n))
        (Mapx.get s.ver_to_change_set n)
        (ap is_some (sym (get-orphans n)) ∙ sym (mem-keys orphans n) ∙ m)

  -- The state after the clean-up: first the values of orphan versions go, then their tables.
  pub record Cleaned (u t : MapxRawVs) : Type 0 where
    values_gone : Dropped (λ m j. Mapx.contains_key (at orphans m) j) s u
    tables_gone : Forgotten (λ n. mem n (Mapx.keys orphans)) u t

  -- No step of the clean-up fails.
  pub run-clean_orphans :
      (u : MapxRawVs) × (t : MapxRawVs) × (clean_orphans s ≡ (ok tt, t)) × Cleaned u t
  unfolding clean_orphans orphans
  run-clean_orphans =
      let (u, run, h) =
        drop_orphan_keys-all orphans 0 s orphans-IsSorted orphans-IsAscending valid.kv_sorted
          valid.keys_sorted orphan_there in
      let (t, run', h') =
        drop_orphan_version-all (Mapx.keys orphans) u (AreOnce-keys 0 orphans orphans-IsSorted)
          (subst HasTables (sym h.same_but_kv) (record {
            names = valid.ver_names;
            named = valid.ver_named;
            sorted = valid.versions_sorted;
          }))
          (λ n m. rw h.same_but_kv (orphan_known n m)) in
      (u, t, rw run run', record { values_gone = h; tables_gone = h' })

  module _ (u t : MapxRawVs) (h : Cleaned u t) where
    same_tables : u.ver_to_change_set ≡ s.ver_to_change_set
    same_tables = ap (λ (x : MapxRawVs). x.ver_to_change_set) h.values_gone.same_but_kv

    pub cleaned_change_sets :
        (n : VersionId)
        → Mapx.get t.ver_to_change_set n
          ≡ (if is_orphan n then none else Mapx.get s.ver_to_change_set n)
    unfolding is_orphan
    cleaned_change_sets n = h.tables_gone.change_sets n ∙ rw (mem-keys orphans n, same_tables) refl

    pub cleaned_values :
        (m : VersionId) (j : RawKey)
        → Mapx.get (at u.layered_kv j) m ≡ (
            if is_orphan m && Mapx.contains_key (at s.ver_to_change_set m) j
            then none
            else Mapx.get (at s.layered_kv j) m)
    cleaned_values m j = h.values_gone.values m j ∙ rw (orphan_has m j) refl

    cleaned_set :
        (n : VersionId)
        → at t.ver_to_change_set n ≡ (if is_orphan n then [] else at s.ver_to_change_set n)
    cleaned_set n =
        ap or_empty (cleaned_change_sets n)
        ∙ or_empty-filtered (is_orphan n) (Mapx.get s.ver_to_change_set n)

    cleaned_set-IsAscending : (n : VersionId) → IsAscending (at t.ver_to_change_set n)
    cleaned_set-IsAscending n =
        rw (cleaned_set n) (if_kept_IsAscending (is_orphan n) _ (valid.changes_sorted n))

    cleaned_changes :
        (n : VersionId) (j : RawKey)
        → Mapx.contains_key (at t.ver_to_change_set n) j ≡ Mapx.contains_key (at u.layered_kv j) n
    cleaned_changes n j =
        rw (cleaned_set n, cleaned_values n j)
          (kept_changes (is_orphan n) _ j (Mapx.get (at s.layered_kv j) n) (valid.changes n j))

    pub cleaned_state : t ≡ record s {
      layered_kv = u.layered_kv;
      ver_name_to_ver_id = t.ver_name_to_ver_id;
      ver_id_to_ver_name = t.ver_id_to_ver_name;
      ver_to_change_set = t.ver_to_change_set;
    }
    cleaned_state =
        h.tables_gone.same_but_tables
        ∙ ap
            (λ (x : MapxRawVs). record x {
              ver_name_to_ver_id = t.ver_name_to_ver_id;
              ver_id_to_ver_name = t.ver_id_to_ver_name;
              ver_to_change_set = t.ver_to_change_set;
            })
            h.values_gone.same_but_kv

    pub cleaned-IsValid : IsValid t
    cleaned-IsValid = subst IsValid (sym cleaned_state) (record {
      consistent = record {
        vers_sorted = valid.vers_sorted;
        kv_sorted = h.values_gone.in_order;
        keys_sorted = h.values_gone.keys_in_order;
        changes_sorted = λ n. cleaned_set-IsAscending n;
        versions_sorted = h.tables_gone.tables.sorted;
        recorded = λ br n on.
            ground (arith, cleaned_change_sets n, valid.recorded br n, on_branch-is_orphan br n);
        allocated = λ n le. ground (arith, cleaned_change_sets n, valid.allocated n);
        in_range = valid.in_range;
        changes = cleaned_changes;
      };
      named = record {
        ver_names = h.tables_gone.tables.names;
        ver_named = h.tables_gone.tables.named;
        br_names = valid.br_names;
        br_named = valid.br_named;
        br_allocated = valid.br_allocated;
      };
    })
