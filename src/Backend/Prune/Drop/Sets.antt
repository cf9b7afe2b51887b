-- ===== src/Backend/Prune/Drop/Sets.antt =====
-- `do_prune`: the loop over the change sets of all orphan versions.
use native.Mathlib.Decide.{dec_lt}
use vsdb.Prelude.{
  subst, ◌<◌, ◌≤◌, suc, ℕ, ◌≡◌, refl, sym, ◌∙◌, true, ◌&&◌, ◌||◌, [], ◌∷◌, arith, ◌==◌,
  if◌then◌else◌,
}
use vsdb.Common.{RawKey, VersionId}
use vsdb.Exec.{ok, for_each}
use vsdb.Mapx
use vsdb.Mapx.{Mapx, at, or_empty, nat_ord, bytes_ord}
use vsdb.Mapx.Sorted.{IsSorted, IsAbove, get-IsAbove}
use vsdb.Mapx.Ascending.{IsAscending}
use vsdb.Backend.{MapxRawVs, ChangeSet}
use vsdb.Backend.Prune.{drop_orphan_keys}
use vsdb.Backend.Prune.Drop.{
  Dropped, Dropped-trans, drop_orphan_key-all, still_there, other_version, no_key, either,
}

module _ (ver : VersionId) (c : ChangeSet) (o : Mapx VersionId ChangeSet) where
  at-cons : (n : VersionId) → at ((ver, c) ∷ o) n ≡ (if n == ver then c else at o n)
  unfolding Mapx.get
  at-cons n = ground arith

  at_self : at ((ver, c) ∷ o) ver ≡ c
  at_self = at-cons ver ∙ ground arith

  at-IsAbove : (n : VersionId) → IsAbove (suc ver) o → n ≤ ver → at o n ≡ []
  at-IsAbove n above le = rw (get-IsAbove (suc ver) o n above (omega arith)) refl

  at_later : (n : VersionId) → ver < n → at ((ver, c) ∷ o) n ≡ at o n
  at_later n lt = at-cons n ∙ ground arith

  rest-IsAscending :
      (n : VersionId)
      → IsAbove (suc ver) o
      → IsAscending (at ((ver, c) ∷ o) n)
      → IsAscending (at o n)
  rest-IsAscending n above asc = elim (dec_lt ver n) [
    | yes later ↦ subst IsAscending (at_later n later) asc
    | no le ↦ subst IsAscending (sym (at-IsAbove n above (omega arith))) tt
  ]

  later_version :
      (n : VersionId) (j : RawKey)
      → IsAbove (suc ver) o
      → Mapx.contains_key (at o n) j ≡ true
      → ver < n
  later_version n j above on = elim (dec_lt ver n) [
    | yes later ↦ later
    | no le ↦
        let e : Mapx.contains_key {V = Unit {0}} [] j ≡ true =
          subst (λ x. Mapx.contains_key x j ≡ true) (at-IsAbove n above (omega arith)) on in
        absurd (no_key j e)
  ]

  contains-cons :
      (n : VersionId) (j : RawKey)
      → IsAbove (suc ver) o
      → Mapx.contains_key (at ((ver, c) ∷ o) n) j
        ≡ (n == ver && Mapx.contains_key c j || Mapx.contains_key (at o n) j)
  contains-cons n j above = elim (dec_lt ver n) [
    | yes later ↦ rw (at_later n later) (ground arith)
    | no le ↦ rw (at-cons n, at-IsAbove n above (omega arith)) (either (n == ver) c j)
  ]

-- All change sets of a list of orphans, in the order of their versions.
pub drop_orphan_keys-all :
    (o : Mapx VersionId ChangeSet) (b : ℕ) (s : MapxRawVs)
    → IsAbove b o
    → ((n : VersionId) → IsAscending (at o n))
    → ((j : RawKey) → IsSorted (at s.layered_kv j))
    → IsAscending s.layered_kv
    → ((n : VersionId) (j : RawKey)
        → Mapx.contains_key (at o n) j ≡ true
        → Mapx.contains_key (at s.layered_kv j) n ≡ true)
    → (t : MapxRawVs) × (for_each o drop_orphan_keys s ≡ (ok tt, t))
      × Dropped (λ m j. Mapx.contains_key (at o m) j) s t
unfolding Mapx.get drop_orphan_keys
drop_orphan_keys-all [] b s above asc sorted kasc there = (
  s,
  refl,
  record { same_but_kv = refl; values = λ m j. refl; in_order = sorted; keys_in_order = kasc },
)
drop_orphan_keys-all ((ver, c) ∷ o) b s above asc sorted kasc there =
    let asc_c : IsAscending c = subst IsAscending (at_self ver c o) (asc ver) in
    let (t, run, h) = drop_orphan_key-all c s ver asc_c sorted kasc (λ j on.
      there ver j (subst (λ x. Mapx.contains_key x j ≡ true) (sym (at_self ver c o)) on)) in
    let (u, run', h') =
      drop_orphan_keys-all o (suc ver) t above.1 (λ n. rest-IsAscending ver c o n above.1 (asc n))
        h.in_order h.keys_in_order
        (λ n j on.
          let later = later_version ver c o n j above.1 on in
          still_there (λ m i. m == ver && Mapx.contains_key c i) s t n j h
            (other_version ver n _ later)
            (there n j
              (subst (λ x. Mapx.contains_key x j ≡ true) (sym (at_later ver c o n later)) on))) in
    (
      u,
      rw run run',
      Dropped-trans (λ m j. m == ver && Mapx.contains_key c j) (λ m j. Mapx.contains_key (at o m) j)
          (λ m j. Mapx.contains_key (at ((ver, c) ∷ o) m) j) s t u
          (λ m j. contains-cons ver c o m j above.1) h h',
    )
