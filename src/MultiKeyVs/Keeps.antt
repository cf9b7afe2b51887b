-- ===== src/MultiKeyVs/Keeps.antt =====
-- What the operations keep: a valid state whose layers hold what its change sets hold.
use native.Mathlib.Decide.{ℕ_discrete}
use vsdb.Prelude.{◌≡◌, sym, ap, subst, ◌∙◌, some, length, arith}
use vsdb.Common.{RawValue, VersionId}
use vsdb.Mapx
use vsdb.Mapx.{Mapx, at, or_empty, nat_ord, bytes_ord}
use vsdb.Mapx.Laws.{get-insert}
use vsdb.Mapx.Sorted.{insert-IsAbove}
use vsdb.MultiKey
use vsdb.MultiKey.{MapxRawMk}
use vsdb.MultiKey.Keys.{RawKeys, keys_ord}
use vsdb.MultiKey.Laws.{insert-get}
use vsdb.MultiKey.Prefix.{IsTree, value_or}
use vsdb.MultiKeyVs.{MapxRawMkVs}
use vsdb.MultiKeyVs.View.{IsValid, IsCoherent}
use vsdb.MultiKeyVs.Write.{written, at-put_layer, put_layer-IsSorted}
use vsdb.MultiKeyVs.Batch.{insert-IsTree, insert-size, starts_with-eq}

abbrev pub IsKept : MapxRawMkVs → Type 0
IsKept s = IsValid s × IsCoherent s

pub some_injective : {a b : MapxRawMk} → some a ≡ some b → a ≡ b
some_injective {a} h = ap (value_or a) h

-- A property of all change sets, after one of them is put in.
pub put_change-all :
    (P : MapxRawMk → Type 0) (chg : Mapx VersionId MapxRawMk) (n : VersionId) (c : MapxRawMk)
    → P c
    → ((i : VersionId) (cs : MapxRawMk) → Mapx.get chg i ≡ some cs → P cs)
    → (i : VersionId) (cs : MapxRawMk) → Mapx.get (Mapx.insert chg n c) i ≡ some cs
    → P cs
put_change-all P chg n c own all i cs found = elim (ℕ_discrete i n) [
  | yes here ↦
      let same : some c ≡ some cs = ground (arith, found, get-insert chg n c i) in
      subst P (some_injective same) own
  | no other ↦ all i cs (ground (arith, found, get-insert chg n c i))
]

module _ (s : MapxRawMkVs) (key : RawKeys) (n : VersionId) (value : RawValue) (cs : MapxRawMk)
    (valid : IsValid s) (there : Mapx.get s.ver_to_change_set n ≡ some cs) where
  cs' : MapxRawMk
  cs' = (MultiKey.insert key value cs).1

  pub written-IsValid : IsValid (written s key n value cs)
  unfolding cs'
  written-IsValid = record {
    sized = valid.sized;
    vers_sorted = valid.vers_sorted;
    kv_sorted = λ j.
        put_layer-IsSorted s.layered_kv key n value j (valid.kv_sorted key) (valid.kv_sorted j);
    versions_sorted =
        insert-IsAbove 0 s.ver_to_change_set n cs' (omega arith) valid.versions_sorted;
    recorded =
        λ br i on. ground (arith, valid.recorded br i on, get-insert s.ver_to_change_set n cs' i);
    change_sized =
        put_change-all (λ c. c.key_size ≡ s.key_size) s.ver_to_change_set n cs'
          (insert-size cs key value ∙ valid.change_sized n cs there) valid.change_sized;
    change_tree =
        put_change-all (λ c. IsTree c.key_size c.inner) s.ver_to_change_set n cs'
          (insert-IsTree cs key value (valid.change_tree n cs there)) valid.change_tree;
    allocated =
        λ i le. ground (arith, valid.allocated i le, there, get-insert s.ver_to_change_set n cs' i);
  }

  pub written-IsCoherent :
      IsCoherent s → length key ≡ s.key_size → IsCoherent (written s key n value cs)
  unfolding cs'
  written-IsCoherent coherent whole i j size = ground (
    arith,
    at-put_layer s.layered_kv key n value j i,
    get-insert s.ver_to_change_set n cs' i,
    (insert-get cs key value j (omega (arith, valid.sized, valid.change_sized n cs there))).1,
    coherent i j size,
    starts_with-eq key j (whole ∙ sym size),
    valid.change_sized n cs there,
    there,
    whole,
    size,
  )
