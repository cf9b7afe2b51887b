-- ===== src/MultiKeyVs/Restore.antt =====
-- What a version manager reads when it comes back from its serialized form.
use Prim.Native.Nat.Ordering.{lt, eq}
use vsdb.Prelude.{
  ℕ, suc, ◌<◌, ◌≡◌, refl, sym, ap, ◌∙◌, Option, none, some, [], ◌∷◌, ◌>>=?◌, if◌then◌else◌, length,
  arith, ◌==◌, or_else,
}
use vsdb.Common.{RawValue, VersionId}
use vsdb.Exec.{ok, for_each, modify}
use vsdb.Mapx
use vsdb.Mapx.{Mapx, at, or_empty, nat_ord, bytes_ord}
use vsdb.Mapx.Sorted.{IsSorted, IsAbove, get-IsAbove}
use vsdb.MultiKey
use vsdb.MultiKey.{MapxRawMk, iter_op}
use vsdb.MultiKey.Keys.{RawKeys, keys_ord, cmp_keys, eq_of_cmp_keys}
use vsdb.MultiKey.Prefix.{All, IsTree}
use vsdb.MultiKey.Walk.{Entries}
use vsdb.MultiKey.Visits.{visited, IsOrdered, iter_op_with_key_prefix-visits}
use vsdb.MultiKeyVs.{Layers, put_layer, restore_version}
use vsdb.MultiKeyVs.Write.{at-put_layer, put_layer-IsSorted}
use vsdb.Vecx.Steps.{then_ok}

-- A change set as the restoration wants it.
abbrev pub IsSound : ℕ → MapxRawMk → Type 0
IsSound size cs = (cs.key_size ≡ size) × IsTree cs.key_size cs.inner

abbrev pub put_all : VersionId → Entries → Layers → Layers
put_all n [] m = m
put_all n (e ∷ xs) m = put_all n xs (put_layer e.0 n e.1 m)

put_each :
    (n : VersionId) (xs : Entries) (m : Layers)
    → for_each xs (λ e. modify (put_layer e.0 n e.1)) m ≡ (ok tt, put_all n xs m)
put_each n [] m = refl
put_each n (e ∷ xs) m = put_each n xs (put_layer e.0 n e.1 m)

-- A key before all keys of a list is not in it.
get_before :
    (key : RawKeys) (xs : Entries) → All (λ f. cmp_keys key f.0 ≡ lt) xs → Mapx.get xs key ≡ none
unfolding Mapx.get
get_before key [] h = refl
get_before key (x ∷ xs) h = ground (arith, get_before key xs h.1, h.0)

put_first :
    (k key : RawKeys) (i n : VersionId) (v : RawValue) (later put old : Option RawValue)
    → put ≡ elim (cmp_keys key k) [ eq ↦ if i == n then some v else old | _ ↦ old ]
    → (key ≡ k → later ≡ none)
    → (if i == n then or_else later put else put)
      ≡ (if i == n then or_else (elim (cmp_keys key k) [ eq ↦ some v | _ ↦ later ]) old else old)
put_first k key i n v later put old e last = ground (arith, e, last, eq_of_cmp_keys key k)

at-put_all :
    (n : VersionId) (xs : Entries) (m : Layers) (key : RawKeys) (i : VersionId)
    → IsOrdered xs
    → Mapx.get (at (put_all n xs m) key) i ≡ (
        if i == n then or_else (Mapx.get xs key) (Mapx.get (at m key) i) else Mapx.get (at m key) i)
unfolding Mapx.get
at-put_all n [] m key i o = ground arith
at-put_all n ((k, v) ∷ xs) m key i o =
    at-put_all n xs (put_layer k n v m) key i o.1
    ∙ put_first k key i n v (Mapx.get xs key) (Mapx.get (at (put_layer k n v m) key) i)
        (Mapx.get (at m key) i) (at-put_layer m k n v key i)
        (λ e. ap (Mapx.get xs) e ∙ get_before k xs o.0)

pub put_all-IsSorted :
    (n : VersionId) (xs : Entries) (m : Layers)
    → ((j : RawKeys) → IsSorted (at m j))
    → (j : RawKeys) → IsSorted (at (put_all n xs m) j)
put_all-IsSorted n [] m h j = h j
put_all-IsSorted n (e ∷ xs) m h j =
    put_all-IsSorted n xs (put_layer e.0 n e.1 m)
      (λ i. put_layer-IsSorted m e.0 n e.1 i (h e.0) (h i)) j

abbrev pub put_versions : Mapx VersionId MapxRawMk → Layers → Layers
put_versions [] m = m
put_versions ((n, cs) ∷ chg) m = put_versions chg (put_all n (visited cs []) m)

module _ (size : ℕ) (pos : 0 < size) where
  restore_version_lem :
      (n : VersionId) (cs : MapxRawMk) (m : Layers)
      → IsSound size cs
      → restore_version (n, cs) m ≡ (ok tt, put_all n (visited cs []) m)
  unfolding restore_version iter_op
  restore_version_lem n cs m sound =
      (iter_op_with_key_prefix-visits cs (λ k v. modify (put_layer k n v)) [] m
        (omega (arith, sound.0, pos)) sound.1 (omega arith)).0
      ∙ put_each n (visited cs []) m

  pub restore_versions :
      (chg : Mapx VersionId MapxRawMk) (m : Layers)
      → All (λ e. IsSound size e.1) chg
      → for_each chg restore_version m ≡ (ok tt, put_versions chg m)
  restore_versions [] m all = refl
  restore_versions ((n, cs) ∷ chg) m all =
      then_ok (restore_version (n, cs)) (for_each chg restore_version)
        (restore_version_lem n cs m all.0)
      ∙ restore_versions chg (put_all n (visited cs []) m) all.1

  pub at-put_versions :
      (b : ℕ) (chg : Mapx VersionId MapxRawMk) (m : Layers) (key : RawKeys) (i : VersionId)
      → IsAbove b chg
      → All (λ e. IsSound size e.1) chg
      → length key ≡ size
      → Mapx.get (at (put_versions chg m) key) i
        ≡ or_else (Mapx.get chg i >>=? λ cs. MultiKey.get cs key) (Mapx.get (at m key) i)
  unfolding Mapx.get
  at-put_versions b [] m key i above all h = refl
  at-put_versions b ((n, cs) ∷ chg) m key i above all h =
      let (walk, order, finds) =
        iter_op_with_key_prefix-visits cs (λ k v. modify (put_layer k n v)) [] m
          (omega (arith, all.0.0, pos)) all.0.1 (omega arith) in
      at-put_versions (suc n) chg (put_all n (visited cs []) m) key i above.1 all.1 h
      ∙ ap (or_else (Mapx.get chg i >>=? λ cs. MultiKey.get cs key))
          (at-put_all n (visited cs []) m key i order)
      ∙ ground (arith, finds key (h ∙ sym all.0.0), get-IsAbove (suc n) chg i above.1)
