-- ===== src/MultiKeyVs/Version/Keeps.antt =====
-- The creation and the pop of a version keep a state valid, and its layers what its change sets hold.
use vsdb.Prelude.{
  ℕ, zero, suc, ◌+◌, ◌%◌, ◌<◌, ◌≡◌, ◌⊎◌, refl, sym, subst, ◌∙◌, true, none, some, [], ◌>>=?◌, arith,
  Option-cases, inl, inr,
}
use vsdb.Common.{RawValue, RawBytes, BranchId, VersionId, u64_mod, alloc_ver_id}
use vsdb.Mapx
use vsdb.Mapx.{Mapx, at, or_empty, nat_ord, bytes_ord}
use vsdb.Mapx.Laws.{get-insert, get-remove}
use vsdb.Mapx.Sorted.{IsSorted, insert-IsAbove, remove-IsAbove}
use vsdb.MultiKey
use vsdb.MultiKey.{MapxRawMk, Node, empty_node, get_from}
use vsdb.MultiKey.Keys.{RawKeys, keys_ord}
use vsdb.MultiKey.Laws.{get_from-empty}
use vsdb.MultiKey.Prefix.{IsTree}
use vsdb.MultiKey.Trees.{empty-IsTree}
use vsdb.Backend.{VerMap}
use vsdb.MultiKeyVs.{MapxRawMkVs}
use vsdb.MultiKeyVs.Version.{
  version_create_by_branch, version_pop_by_branch, versions_of, new_version_id,
}
use vsdb.MultiKeyVs.Keeps.{IsKept, put_change-all}

abbrev popped : MapxRawMkVs → BranchId → VerMap → VersionId → MapxRawMkVs
popped s br vs n = record s { br_to_its_vers = Mapx.insert s.br_to_its_vers br (Mapx.remove vs n) }

popped-IsKept :
    (s : MapxRawMkVs) (br : BranchId) (vs : VerMap) (n : VersionId)
    → Mapx.get s.br_to_its_vers br ≡ some vs
    → IsKept s
    → IsKept (popped s br vs n)
popped-IsKept s br vs n found kept =
    let valid = kept.0 in
    let in_order : IsSorted vs = rw found at (valid.vers_sorted br) in
    (
      record {
        sized = valid.sized;
        vers_sorted = λ b. ground (
          arith,
          valid.vers_sorted b,
          get-insert s.br_to_its_vers br (Mapx.remove vs n) b,
          remove-IsAbove 0 vs n in_order,
        );
        kv_sorted = valid.kv_sorted;
        versions_sorted = valid.versions_sorted;
        recorded = λ b i on. ground (
          arith,
          on,
          found,
          valid.recorded b i,
          get-insert s.br_to_its_vers br (Mapx.remove vs n) b,
          get-remove vs n i,
        );
        change_sized = valid.change_sized;
        change_tree = valid.change_tree;
        allocated = valid.allocated;
      },
      kept.1,
    )

pop_unchanged :
    (s : MapxRawMkVs) (br : BranchId)
    → (Mapx.get s.br_to_its_vers br >>=? λ vs. Mapx.last vs >>=? λ e. Mapx.get vs e.0) ≡ none
    → (version_pop_by_branch br s).1 ≡ s
unfolding version_pop_by_branch versions_of
pop_unchanged s br h = ground (arith, h)

pop_popped :
    (s : MapxRawMkVs) (br : BranchId) (vs : VerMap) (n : VersionId) (v w : RawValue)
    → Mapx.get s.br_to_its_vers br ≡ some vs
    → Mapx.last vs ≡ some (n, v)
    → Mapx.get vs n ≡ some w
    → (version_pop_by_branch br s).1 ≡ popped s br vs n
unfolding version_pop_by_branch versions_of
pop_popped s br vs n v w found is_last there = ground (arith, found, is_last, there)

pub version_pop_by_branch-IsKept :
    (s : MapxRawMkVs) (br : BranchId) → IsKept s → IsKept (version_pop_by_branch br s).1
version_pop_by_branch-IsKept s br kept = elim (Option-cases (Mapx.get s.br_to_its_vers br)) [
  | inl gone ↦ subst IsKept (sym (pop_unchanged s br (ground (arith, gone)))) kept
  | inr (vs, found) ↦ elim (Option-cases (Mapx.last vs)) [
    | inl empty ↦ subst IsKept (sym (pop_unchanged s br (ground (arith, found, empty)))) kept
    | inr ((n, v), is_last) ↦ elim (Option-cases (Mapx.get vs n)) [
      | inl lost ↦
          subst IsKept (sym (pop_unchanged s br (ground (arith, found, is_last, lost)))) kept
      | inr (w, there) ↦
          subst IsKept (sym (pop_popped s br vs n v w found is_last there))
            (popped-IsKept s br vs n found kept)
    ]
  ]
]

abbrev new_change_set : ℕ → MapxRawMk
new_change_set size = record { key_size = size; inner = empty_node size }

-- The state after a version is created on a branch that is there.
abbrev created : MapxRawMkVs → RawBytes → BranchId → VerMap → MapxRawMkVs
created s name br vs = record s {
  br_to_its_vers = Mapx.insert s.br_to_its_vers br (Mapx.insert vs s.db.ver_id []);
  ver_name_to_ver_id = Mapx.insert s.ver_name_to_ver_id name s.db.ver_id;
  ver_id_to_ver_name = Mapx.insert s.ver_id_to_ver_name s.db.ver_id name;
  ver_to_change_set = Mapx.insert s.ver_to_change_set s.db.ver_id (new_change_set s.key_size);
  db = (alloc_ver_id s.db).1;
}

create_created :
    (s : MapxRawMkVs) (name : RawBytes) (br : BranchId) (vs : VerMap)
    → 0 < s.key_size
    → Mapx.get s.ver_name_to_ver_id name ≡ none
    → Mapx.get s.br_to_its_vers br ≡ some vs
    → (version_create_by_branch name br s).1 ≡ created s name br vs
unfolding version_create_by_branch versions_of new_version_id MultiKey.new alloc_ver_id
create_created s name br vs pos unused found = ground (arith, pos, unused, found)

create_unchanged :
    (s : MapxRawMkVs) (name : RawBytes) (br : BranchId)
    → (Mapx.contains_key s.ver_name_to_ver_id name ≡ true) ⊎ (Mapx.get s.br_to_its_vers br ≡ none)
    → (version_create_by_branch name br s).1 ≡ s
unfolding version_create_by_branch versions_of
create_unchanged s name br h = ground (arith, h)

get-new_change_set :
    (size : ℕ) (key : RawKeys) → 0 < size → MultiKey.get (new_change_set size) key ≡ none
unfolding MultiKey.get
get-new_change_set zero key pos = absurd (omega arith)
get-new_change_set (suc n) key pos = ground (arith, get_from-empty n key)

created-IsKept :
    (s : MapxRawMkVs) (name : RawBytes) (br : BranchId) (vs : VerMap)
    → Mapx.get s.br_to_its_vers br ≡ some vs
    → s.db.ver_id + 1 < u64_mod
    → IsKept s
    → IsKept (created s name br vs)
unfolding alloc_ver_id
created-IsKept s name br vs found room kept =
    let valid = kept.0 in
    let n = s.db.ver_id in
    let c = new_change_set s.key_size in
    let in_order : IsSorted vs = rw found at (valid.vers_sorted br) in
    let next : (1 + n) % u64_mod ≡ suc n = omega arith in
    (
      record {
        sized = valid.sized;
        vers_sorted = λ b. ground (
          arith,
          valid.vers_sorted b,
          get-insert s.br_to_its_vers br (Mapx.insert vs n []) b,
          insert-IsAbove 0 vs n [] (omega arith) in_order,
        );
        kv_sorted = valid.kv_sorted;
        versions_sorted =
            insert-IsAbove 0 s.ver_to_change_set n c (omega arith) valid.versions_sorted;
        recorded = λ b i on. ground (
          arith,
          on,
          found,
          valid.recorded b i,
          get-insert s.br_to_its_vers br (Mapx.insert vs n []) b,
          get-insert vs n [] i,
          get-insert s.ver_to_change_set n c i,
        );
        change_sized =
            put_change-all (λ d. d.key_size ≡ s.key_size) s.ver_to_change_set n c refl
              valid.change_sized;
        change_tree =
            put_change-all (λ d. IsTree d.key_size d.inner) s.ver_to_change_set n c
              (empty-IsTree s.key_size) valid.change_tree;
        allocated = λ i le.
            ground (arith, next, le, valid.allocated i, get-insert s.ver_to_change_set n c i);
      },
      λ i key size.
          kept.1 i key size
          ∙ ground (
            arith,
            get-insert s.ver_to_change_set n c i,
            valid.allocated n (omega arith),
            get-new_change_set s.key_size key valid.sized,
          ),
    )

pub version_create_by_branch-IsKept :
    (s : MapxRawMkVs) (name : RawBytes) (br : BranchId)
    → s.db.ver_id + 1 < u64_mod
    → IsKept s
    → IsKept (version_create_by_branch name br s).1
version_create_by_branch-IsKept s name br room kept =
    elim (Option-cases (Mapx.get s.ver_name_to_ver_id name)) [
      | inr (n, known) ↦
          subst IsKept (sym (create_unchanged s name br (inl (ground (arith, known))))) kept
      | inl unused ↦ elim (Option-cases (Mapx.get s.br_to_its_vers br)) [
        | inl gone ↦ subst IsKept (sym (create_unchanged s name br (inr gone))) kept
        | inr (vs, found) ↦
            subst IsKept (sym (create_created s name br vs kept.0.sized unused found))
              (created-IsKept s name br vs found room kept)
      ]
    ]
