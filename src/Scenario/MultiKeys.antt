-- ===== src/Scenario/MultiKeys.antt =====
-- Maps with keys of two parts: one as it is, and one with versions.
use vsdb.Prelude.{
  ℕ, ◌+◌, ◌≡◌, refl, sym, inl, inr, none, some, [], ◌∷◌, ◌&&◌, ◌==◌, not, is_empty, length, ltb,
  arith, if◌then◌else◌,
}
use vsdb.Common.{RawValue, new_allocator, alloc_ver_id}
use vsdb.Exec.{ok, err, incorrect_key_size, Exec, for_each, modify}
use vsdb.Mapx
use vsdb.Mapx.{Mapx, at, nat_ord, bytes_ord}
use vsdb.MultiKey
use vsdb.MultiKey.{MapxRawMk, iter_op_with_key_prefix}
use vsdb.MultiKey.Keys.{RawKeys, keys_ord, starts_with}
use vsdb.MultiKey.Laws.{insert-get, remove-get}
use vsdb.MultiKey.Visits.{visited, IsOrdered, iter_op_with_key_prefix-visits}
use vsdb.Backend.Data.{non_empty}
use vsdb.MultiKeyVs
use vsdb.MultiKeyVs.{MapxRawMkVs, restored}
use vsdb.MultiKeyVs.Data.{
  get_by_branch, get_by_branch_version, insert_by_branch, remove_by_branch, latest_version,
  iter_op_with_key_prefix_by_branch_version, insert_by_branch_version, write_by_branch_version,
}
use vsdb.MultiKeyVs.Version.{version_create_by_branch, versions_of, new_version_id}
use vsdb.MultiKeyVs.View.{IsValid, IsCoherent, IsLatest}
use vsdb.MultiKeyVs.Write.{insert_by_branch-reads}
use vsdb.MultiKeyVs.Remove.{remove_by_branch-batch, insert_by_branch-short}
use vsdb.MultiKeyVs.Reload.{remove_by_branch-restored}
use vsdb.MultiKeyVs.Iter.{remove_by_branch-visited}
use vsdb.MultiKeyVs.Reach.{Reach, Reach-IsKept, Reach-restored}

abbrev pub part : RawKeys
part = (1 ∷ []) ∷ []

abbrev pub whole : RawKeys
whole = (1 ∷ []) ∷ (2 ∷ []) ∷ []

abbrev pair : MapxRawMk
pair = record { key_size = 2; inner = (1 ∷ [], (2 ∷ [], 7 ∷ []) ∷ []) ∷ [] }

insert-get_example :
    (MultiKey.insert whole (8 ∷ []) pair ≡ (
      if length whole == 2
      then (ok (MultiKey.get pair whole), (MultiKey.insert whole (8 ∷ []) pair).1)
      else (err incorrect_key_size, pair)))
    × (MultiKey.get (MultiKey.insert whole (8 ∷ []) pair).1 whole ≡ (
        if length whole == 2 && length whole == 2 && starts_with whole whole
        then some (8 ∷ [])
        else MultiKey.get pair whole))
insert-get_example = insert-get pair whole (8 ∷ []) whole (omega arith)

remove-get_example :
    (MultiKey.remove part pair ≡ (
      if ltb 2 (length part)
      then (err incorrect_key_size, pair)
      else (ok (MultiKey.get pair part), (MultiKey.remove part pair).1)))
    × (MultiKey.get (MultiKey.remove part pair).1 whole ≡ (
        if not (ltb 2 (length part)) && not (is_empty part) && starts_with part whole
        then none
        else MultiKey.get pair whole))
remove-get_example = remove-get pair part whole (omega arith)

-- An operation that counts its calls.
abbrev count : RawKeys → RawValue → Exec ℕ Unit
count k v = modify (λ n. n + 1)

iter_op_with_key_prefix-visits_example :
    (iter_op_with_key_prefix pair count part 0
      ≡ for_each (visited pair part) (λ e. count e.0 e.1) 0)
    × IsOrdered (visited pair part)
    × ((key : RawKeys)
        → length key ≡ 2
        → Mapx.get (visited pair part) key
          ≡ (if starts_with part key then MultiKey.get pair key else none))
iter_op_with_key_prefix-visits_example =
    iter_op_with_key_prefix-visits pair count part 0 (omega arith) (omega arith) (omega arith)

-- One version with a value, and a version after it.
abbrev started : MapxRawMkVs
started = MultiKeyVs.new 2 new_allocator

abbrev first : MapxRawMkVs
first = (version_create_by_branch (1 ∷ []) 0 started).1

abbrev filled : MapxRawMkVs
filled = (insert_by_branch whole (7 ∷ []) 0 first).1

abbrev pub second : MapxRawMkVs
second = (version_create_by_branch (2 ∷ []) 0 filled).1

filled-run : Reach 2 new_allocator filled
unfolding MultiKeyVs.new MultiKeyVs.init version_create_by_branch versions_of new_version_id
    alloc_ver_id Mapx.get Mapx.insert Mapx.last insert_by_branch latest_version
    insert_by_branch_version write_by_branch_version get_by_branch_version MultiKey.insert
    MultiKey.insert_into MultiKey.new Mapx.range_to Mapx.find_rev
filled-run = Reach.insert whole (7 ∷ []) 0 (Reach.create (1 ∷ []) 0 Reach.start (omega arith)) refl

second-run : Reach 2 new_allocator second
unfolding MultiKeyVs.new MultiKeyVs.init version_create_by_branch versions_of new_version_id
    alloc_ver_id Mapx.get Mapx.insert Mapx.last insert_by_branch latest_version
    insert_by_branch_version write_by_branch_version get_by_branch_version MultiKey.insert
    MultiKey.insert_into MultiKey.new Mapx.range_to Mapx.find_rev
second-run = Reach.create (2 ∷ []) 0 filled-run (omega arith)

-- The latest version of the branch is the second one.
second-IsLatest : IsLatest second 0 1
unfolding MultiKeyVs.new MultiKeyVs.init version_create_by_branch versions_of new_version_id
    alloc_ver_id Mapx.get Mapx.insert Mapx.last insert_by_branch latest_version
    insert_by_branch_version write_by_branch_version get_by_branch_version MultiKey.insert
    MultiKey.insert_into MultiKey.new Mapx.range_to Mapx.find_rev
second-IsLatest = record { vers = (0, []) ∷ (1, []) ∷ []; mark = []; found = refl; is_last = refl }

second_size : second.key_size ≡ 2
unfolding MultiKeyVs.new MultiKeyVs.init version_create_by_branch versions_of new_version_id
    alloc_ver_id Mapx.get Mapx.insert Mapx.last insert_by_branch latest_version
    insert_by_branch_version write_by_branch_version get_by_branch_version MultiKey.insert
    MultiKey.insert_into MultiKey.new Mapx.range_to Mapx.find_rev
second_size = refl

abbrev unchanged : MapxRawMk
unchanged = record { key_size = 2; inner = [] }

second_unchanged : Mapx.get second.ver_to_change_set 1 ≡ some unchanged
unfolding MultiKeyVs.new MultiKeyVs.init version_create_by_branch versions_of new_version_id
    alloc_ver_id Mapx.get Mapx.insert Mapx.last insert_by_branch latest_version
    insert_by_branch_version write_by_branch_version get_by_branch_version MultiKey.insert
    MultiKey.insert_into MultiKey.new Mapx.range_to Mapx.find_rev
second_unchanged = refl

unchanged-whole : MultiKey.get unchanged whole ≡ none
unfolding MultiKey.get MultiKey.get_from Mapx.get
unchanged-whole = refl

second_read : get_by_branch_version second whole 0 1 ≡ some (7 ∷ [])
unfolding MultiKeyVs.new MultiKeyVs.init version_create_by_branch versions_of new_version_id
    alloc_ver_id Mapx.get Mapx.insert Mapx.last insert_by_branch latest_version
    insert_by_branch_version write_by_branch_version get_by_branch_version MultiKey.insert
    MultiKey.insert_into MultiKey.new Mapx.range_to Mapx.find_rev
second_read = refl

second_layer : Mapx.get (at second.layered_kv whole) 1 ≡ none
unfolding MultiKeyVs.new MultiKeyVs.init version_create_by_branch versions_of new_version_id
    alloc_ver_id Mapx.get Mapx.insert Mapx.last insert_by_branch latest_version
    insert_by_branch_version write_by_branch_version get_by_branch_version MultiKey.insert
    MultiKey.insert_into MultiKey.new Mapx.range_to Mapx.find_rev
second_layer = refl

second-IsValid : IsValid second
second-IsValid = (Reach-IsKept 2 new_allocator second (omega arith) second-run).0

second-IsCoherent : IsCoherent second
second-IsCoherent = (Reach-IsKept 2 new_allocator second (omega arith) second-run).1

insert_by_branch-reads_example :
    (get_by_branch (insert_by_branch whole (9 ∷ []) 0 second).1 whole 0 ≡ non_empty (9 ∷ []))
    × (get_by_branch_version (insert_by_branch whole (9 ∷ []) 0 second).1 whole 0 0
        ≡ get_by_branch_version second whole 0 0)
insert_by_branch-reads_example =
    insert_by_branch-reads second whole (9 ∷ []) 0 1 whole 0 0 second-IsValid second-IsLatest
      (sym second_size) (inr (inl (omega arith)))

remove_by_branch-batch_example :
    ((remove_by_branch part 0 second).0 ≡ ok none)
    × (get_by_branch (remove_by_branch part 0 second).1 whole 0 ≡ none)
    × (get_by_branch_version (remove_by_branch part 0 second).1 whole 0 0
        ≡ get_by_branch_version second whole 0 0)
remove_by_branch-batch_example =
    remove_by_branch-batch second part 0 1 whole whole 0 0 second-IsValid second-IsLatest
      (omega (arith, second_size)) refl (inr (inl (omega arith)))

insert_by_branch-short_example :
    insert_by_branch part (9 ∷ []) 0 second ≡ remove_by_branch part 0 second
insert_by_branch-short_example =
    insert_by_branch-short second part (9 ∷ []) 0 (omega (arith, second_size))

Reach-restored_example :
    get_by_branch_version (restored second) whole 0 1 ≡ get_by_branch_version second whole 0 1
Reach-restored_example =
    Reach-restored 2 new_allocator second whole 0 1 (omega arith) second-run (sym second_size)

remove_by_branch-restored_example :
    get_by_branch_version (restored (remove_by_branch part 0 second).1) whole 0 1
    ≡ get_by_branch_version second whole 0 1
remove_by_branch-restored_example =
    remove_by_branch-restored second part 0 1 unchanged whole second-IsValid second-IsCoherent
      second-IsLatest second_unchanged (omega (arith, second_size)) (sym second_size)
      unchanged-whole

-- A removed key, which an iteration still visits.
remove_by_branch-visited_example :
    ((remove_by_branch whole 0 second).0 ≡ ok (some (7 ∷ [])))
    × (get_by_branch_version (remove_by_branch whole 0 second).1 whole 0 1 ≡ none)
    × (entries : Mapx RawKeys RawValue) × (Mapx.get entries whole ≡ some (7 ∷ []))
    × ((op : RawKeys → RawValue → Exec ℕ Unit) (st : ℕ)
        → iter_op_with_key_prefix_by_branch_version (remove_by_branch whole 0 second).1 0 1 op [] st
          ≡ for_each entries (λ e. op e.0 e.1) st)
remove_by_branch-visited_example =
    remove_by_branch-visited second whole 0 1 (7 ∷ []) second-IsValid second-IsLatest
      (sym second_size) second_read second_layer
