-- ===== src/Backend/Prune/Forget.antt =====
-- `do_prune`, the removal of orphan versions: their change sets and their names.
use vsdb.Prelude.{
  ◌≡◌, ◌↔◌, refl, Bool, true, false, none, some, List, [], ◌∷◌, arith, if◌then◌else◌, Option-cases,
  inl, inr,
}
use vsdb.Common.{RawBytes, VersionId}
use vsdb.Exec.{ok, for_each}
use vsdb.Mapx
use vsdb.Mapx.{Mapx, at, nat_ord, bytes_ord}
use vsdb.Mapx.Laws.{get-remove}
use vsdb.Mapx.Sorted.{IsSorted, remove-IsAbove, mem}
use vsdb.Backend.{MapxRawVs}
use vsdb.Backend.Prune.{drop_orphan_version}

-- The tables of versions: names and identifiers are inverse, and the change sets are in order.
pub record HasTables (s : MapxRawVs) : Type 0 where
  pub names :
      (name : RawBytes) (n : VersionId)
      → (Mapx.get s.ver_name_to_ver_id name ≡ some n)
        ↔ (Mapx.get s.ver_id_to_ver_name n ≡ some name)
  pub named :
      (n : VersionId)
      → Mapx.contains_key s.ver_id_to_ver_name n ≡ Mapx.contains_key s.ver_to_change_set n
  pub sorted : IsSorted s.ver_to_change_set

-- The state `t` is `s` without the marked versions.
pub record Forgotten (p : VersionId → Bool) (s t : MapxRawVs) : Type 0 where
  pub same_but_tables : t ≡ record s {
    ver_name_to_ver_id = t.ver_name_to_ver_id;
    ver_id_to_ver_name = t.ver_id_to_ver_name;
    ver_to_change_set = t.ver_to_change_set;
  }
  pub change_sets :
      (n : VersionId)
      → Mapx.get t.ver_to_change_set n ≡ (if p n then none else Mapx.get s.ver_to_change_set n)
  pub tables : HasTables t

abbrev forgotten : MapxRawVs → VersionId → RawBytes → MapxRawVs
forgotten s ver name = record s {
  ver_to_change_set = Mapx.remove s.ver_to_change_set ver;
  ver_id_to_ver_name = Mapx.remove s.ver_id_to_ver_name ver;
  ver_name_to_ver_id = Mapx.remove s.ver_name_to_ver_id name;
}

drop_orphan_version_lem :
    (s : MapxRawVs) (ver : VersionId) (name : RawBytes)
    → HasTables s
    → Mapx.contains_key s.ver_to_change_set ver ≡ true
    → Mapx.get s.ver_id_to_ver_name ver ≡ some name
    → drop_orphan_version ver s ≡ (ok tt, forgotten s ver name)
unfolding drop_orphan_version
drop_orphan_version_lem s ver name h on named =
    let known : Mapx.get s.ver_name_to_ver_id name ≡ some ver = (h.names name ver).1 named in
    ground (arith, named, known)

forgotten-HasTables :
    (s : MapxRawVs) (ver : VersionId) (name : RawBytes)
    → HasTables s
    → Mapx.get s.ver_id_to_ver_name ver ≡ some name
    → HasTables (forgotten s ver name)
forgotten-HasTables s ver name h named = record {
  names = λ other n. (
    ground (
      arith,
      get-remove s.ver_name_to_ver_id name other,
      get-remove s.ver_id_to_ver_name ver n,
      h.names other n,
      h.names other ver,
      Mapx.eq_of_cmp_bytes other name,
      Mapx.cmp_bytes_refl other,
    ),
    ground (
      arith,
      get-remove s.ver_name_to_ver_id name other,
      get-remove s.ver_id_to_ver_name ver n,
      h.names other n,
      h.names name ver,
      h.names name n,
      Mapx.eq_of_cmp_bytes other name,
    ),
  );
  named = λ n. ground (
    arith,
    get-remove s.ver_id_to_ver_name ver n,
    get-remove s.ver_to_change_set ver n,
    h.named n,
  );
  sorted = remove-IsAbove 0 s.ver_to_change_set ver h.sorted;
}

-- A list of versions, each once.
abbrev pub AreOnce : List VersionId → Type 0
AreOnce [] = Unit
AreOnce (n ∷ ns) = (mem n ns ≡ false) × AreOnce ns

find_name :
    (s : MapxRawVs) (ver : VersionId)
    → HasTables s
    → Mapx.contains_key s.ver_to_change_set ver ≡ true
    → (name : RawBytes) × (Mapx.get s.ver_id_to_ver_name ver ≡ some name)
find_name s ver h on = elim (Option-cases (Mapx.get s.ver_id_to_ver_name ver)) [
  | inl absent ↦ ground (arith, h.named ver)
  | inr (name, found) ↦ (name, found)
]

-- No step of the loop over versions that have change sets fails, and they are gone afterwards.
pub drop_orphan_version-all :
    (ns : List VersionId) (s : MapxRawVs)
    → AreOnce ns
    → HasTables s
    → ((n : VersionId) → mem n ns ≡ true → Mapx.contains_key s.ver_to_change_set n ≡ true)
    → (t : MapxRawVs) × (for_each ns drop_orphan_version s ≡ (ok tt, t))
      × Forgotten (λ n. mem n ns) s t
drop_orphan_version-all [] s once h there =
    (s, refl, record { same_but_tables = refl; change_sets = λ n. refl; tables = h })
drop_orphan_version-all (ver ∷ ns) s once h there =
    let on = there ver (ground arith) in
    let (name, named) = find_name s ver h on in
    let s' = forgotten s ver name in
    let (t, run, h') =
      drop_orphan_version-all ns s' once.1 (forgotten-HasTables s ver name h named)
        (λ n m. ground (arith, there n, once.0, get-remove s.ver_to_change_set ver n)) in
    (
      t,
      rw (drop_orphan_version_lem s ver name h on named) run,
      record {
        same_but_tables = h'.same_but_tables;
        change_sets = λ n. ground (arith, h'.change_sets n, get-remove s.ver_to_change_set ver n);
        tables = h'.tables;
      },
    )
