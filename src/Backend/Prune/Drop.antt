-- ===== src/Backend/Prune/Drop.antt =====
-- `do_prune`, the removal of the values of orphan versions: the loops over their change sets.
pub mod Sets
use Prim.Native.Nat.Ordering.{eq, gt}
use native.Mathlib.Decide.{dec_lt}
use vsdb.Prelude.{
  subst, ◌<◌, ◌≤◌, suc, ℕ, ◌≡◌, ◌≢◌, refl, sym, ap, ◌∙◌, Bool, true, false, ◌&&◌, ◌||◌, Option,
  none, some, List, [], ◌∷◌, arith, ◌==◌, if◌then◌else◌, Option-cases, Bool-cases, inl, inr,
  is_some, is_empty,
}
use vsdb.Common.{RawKey, RawValue, VersionId}
use vsdb.Exec.{ok, err, for_each}
use vsdb.Mapx
use vsdb.Mapx.{Mapx, at, or_empty, nat_ord, bytes_ord}
use vsdb.Mapx.Laws.{get-insert, get-remove, get-empty}
use vsdb.Mapx.Sorted.{IsSorted, IsAbove, remove-IsAbove, get-IsAbove}
use vsdb.Mapx.Ascending.{
  IsAscending, insert-IsAscending, remove-IsAscending, lt_of_get, cmp_bytes_flip_lt,
}
use vsdb.Backend.{MapxRawVs, VerMap, ChangeSet}
use vsdb.Backend.Prune.{drop_if_empty, drop_orphan_key, drop_orphan_keys}

abbrev key_eq : RawKey → RawKey → Bool
key_eq j k = elim (Mapx.cmp_bytes j k) [ eq ↦ true | _ ↦ false ]

-- The state `t` is `s` without the values at the marked versions and keys.
pub record Dropped (p : VersionId → RawKey → Bool) (s t : MapxRawVs) : Type 0 where
  pub same_but_kv : t ≡ record s { layered_kv = t.layered_kv }
  pub values :
      (m : VersionId) (j : RawKey)
      → Mapx.get (at t.layered_kv j) m ≡ (if p m j then none else Mapx.get (at s.layered_kv j) m)
  pub in_order : (j : RawKey) → IsSorted (at t.layered_kv j)
  pub keys_in_order : IsAscending t.layered_kv

-- A nested map is put back, or taken out with its key if it is empty.
abbrev pub stored : Mapx RawKey VerMap → RawKey → VerMap → Mapx RawKey VerMap
stored kv k r = let kv' = Mapx.insert kv k r in if is_empty r then Mapx.remove kv' k else kv'

at-stored :
    (kv : Mapx RawKey VerMap) (k : RawKey) (r : VerMap) (j : RawKey)
    → at (stored kv k r) j ≡ (if key_eq j k then r else at kv j)
at-stored kv k [] j = ground (arith, get-remove (Mapx.insert kv k []) k j, get-insert kv k [] j)
at-stored kv k (e ∷ r) j = ground (arith, get-insert kv k (e ∷ r) j)

stored-IsAscending :
    (kv : Mapx RawKey VerMap) (k : RawKey) (r : VerMap)
    → IsAscending kv
    → IsAscending (stored kv k r)
stored-IsAscending kv k [] h =
    remove-IsAscending (Mapx.insert kv k []) k (insert-IsAscending kv k [] h)
stored-IsAscending kv k (e ∷ r) h = insert-IsAscending kv k (e ∷ r) h

-- The state after a key loses its value at a version, and goes if that was its last.
abbrev dropped : MapxRawVs → VersionId → RawKey → VerMap → MapxRawVs
dropped s ver k lkv = record s { layered_kv = stored s.layered_kv k (Mapx.remove lkv ver) }

drop_orphan_key_lem :
    (s : MapxRawVs) (ver : VersionId) (k : RawKey) (lkv : VerMap) (v : RawValue)
    → Mapx.get s.layered_kv k ≡ some lkv
    → Mapx.get lkv ver ≡ some v
    → drop_orphan_key ver k s ≡ (ok tt, dropped s ver k lkv)
unfolding drop_orphan_key
drop_orphan_key_lem s ver k lkv v found there =
    ground (arith, get-insert s.layered_kv k (Mapx.remove lkv ver) k, Mapx.cmp_bytes_refl k)

dropped-Dropped :
    (s : MapxRawVs) (ver : VersionId) (k : RawKey) (lkv : VerMap)
    → Mapx.get s.layered_kv k ≡ some lkv
    → ((j : RawKey) → IsSorted (at s.layered_kv j))
    → IsAscending s.layered_kv
    → Dropped (λ m j. m == ver && key_eq j k) s (dropped s ver k lkv)
dropped-Dropped s ver k lkv found sorted asc = record {
  same_but_kv = refl;
  values = λ m j. ground (
    arith,
    at-stored s.layered_kv k (Mapx.remove lkv ver) j,
    get-remove lkv ver m,
    Mapx.eq_of_cmp_bytes j k,
  );
  in_order = λ j. ground (
    arith,
    at-stored s.layered_kv k (Mapx.remove lkv ver) j,
    remove-IsAbove 0 lkv ver (rw found at (sorted k)),
    sorted j,
  );
  keys_in_order = stored-IsAscending s.layered_kv k (Mapx.remove lkv ver) asc;
}

-- Removals one after the other are a removal of both.
pub Dropped-trans :
    (p q r : VersionId → RawKey → Bool) (s t u : MapxRawVs)
    → ((m : VersionId) (j : RawKey) → r m j ≡ (p m j || q m j))
    → Dropped p s t
    → Dropped q t u
    → Dropped r s u
Dropped-trans p q r s t u both h k = record {
  same_but_kv =
      k.same_but_kv ∙ ap (λ (x : MapxRawVs). record x { layered_kv = u.layered_kv }) h.same_but_kv;
  values = λ m j. ground (arith, both m j, h.values m j, k.values m j);
  in_order = k.in_order;
  keys_in_order = k.keys_in_order;
}

find_value :
    (s : MapxRawVs) (k : RawKey) (ver : VersionId)
    → Mapx.contains_key (at s.layered_kv k) ver ≡ true
    → (lkv : VerMap) × (v : RawValue) × (Mapx.get s.layered_kv k ≡ some lkv)
      × (Mapx.get lkv ver ≡ some v)
find_value s k ver there = elim (Option-cases (Mapx.get s.layered_kv k)) [
  | inl absent ↦ ground (arith, get-empty {V = RawValue} ver)
  | inr (lkv, found) ↦ elim (Option-cases (Mapx.get lkv ver)) [
    | inl absent ↦ ground arith
    | inr (v, here) ↦ (lkv, v, found, here)
  ]
]

later_key :
    (c : ChangeSet) (k j : RawKey)
    → Mapx.contains_key c j ≡ true
    → Mapx.cmp_bytes j k ≡ gt
    → (key_eq j k ≡ false) × (Mapx.contains_key ((k, tt) ∷ c) j ≡ true)
unfolding Mapx.get
later_key c k j on after = ground arith

-- A later key of a change set is another key.
other_key :
    (c : ChangeSet) (k j : RawKey)
    → IsAscending ((k, tt) ∷ c)
    → Mapx.contains_key c j ≡ true
    → (key_eq j k ≡ false) × (Mapx.contains_key ((k, tt) ∷ c) j ≡ true)
unfolding Mapx.get
other_key c k j asc on = elim (Option-cases (Mapx.get c j)) [
  | inl absent ↦ let e : false ≡ true = rw absent at on in cc
  | inr (x, there) ↦
      later_key c k j on (cmp_bytes_flip_lt k j (lt_of_get c k j x asc.0 asc.1 there))
]

same_version : (ver : VersionId) (b : Bool) → b ≡ false → (ver == ver && b) ≡ false
same_version ver b h = ground arith

pub other_version : (ver n : VersionId) (b : Bool) → ver < n → (n == ver && b) ≡ false
other_version ver n b later = ground arith

pub no_key : (j : RawKey) → Mapx.contains_key {V = Unit {0}} [] j ≢ true
unfolding Mapx.get
no_key j h = ground arith

pub either :
    (b : Bool) (c : ChangeSet) (j : RawKey)
    → Mapx.contains_key (if b then c else []) j
      ≡ (b && Mapx.contains_key c j || Mapx.contains_key {V = Unit {0}} [] j)
unfolding Mapx.get
either true c j = ground arith
either false c j = refl

pub still_there :
    (p : VersionId → RawKey → Bool) (s t : MapxRawVs) (n : VersionId) (j : RawKey)
    → Dropped p s t
    → p n j ≡ false
    → Mapx.contains_key (at s.layered_kv j) n ≡ true
    → Mapx.contains_key (at t.layered_kv j) n ≡ true
still_there p s t n j h other there = rw (h.values n j, other) there

-- The keys of one change set: no step fails, and each key loses its value at the version.
pub drop_orphan_key-all :
    (c : ChangeSet) (s : MapxRawVs) (ver : VersionId)
    → IsAscending c
    → ((j : RawKey) → IsSorted (at s.layered_kv j))
    → IsAscending s.layered_kv
    → ((j : RawKey)
        → Mapx.contains_key c j ≡ true
        → Mapx.contains_key (at s.layered_kv j) ver ≡ true)
    → (t : MapxRawVs) × (for_each (Mapx.keys c) (drop_orphan_key ver) s ≡ (ok tt, t))
      × Dropped (λ m j. m == ver && Mapx.contains_key c j) s t
unfolding Mapx.get
drop_orphan_key-all [] s ver asc sorted kasc there = (
  s,
  refl,
  record {
    same_but_kv = refl;
    values = λ m j. ground arith;
    in_order = sorted;
    keys_in_order = kasc;
  },
)
drop_orphan_key-all ((k, tt) ∷ c) s ver asc sorted kasc there =
    let (lkv, v, found, here) =
      find_value s k ver (there k (ground (arith, Mapx.cmp_bytes_refl k))) in
    let s' = dropped s ver k lkv in
    let h = dropped-Dropped s ver k lkv found sorted kasc in
    let (t, run, h') = drop_orphan_key-all c s' ver asc.1 h.in_order h.keys_in_order (λ j on.
      let (other, on') = other_key c k j asc on in
      still_there (λ m j'. m == ver && key_eq j' k) s s' ver j h
        (same_version ver (key_eq j k) other) (there j on')) in
    (
      t,
      rw (drop_orphan_key_lem s ver k lkv v found here) run,
      Dropped-trans (λ m j. m == ver && key_eq j k) (λ m j. m == ver && Mapx.contains_key c j) _ s
          s' t (λ m j. ground arith) h h',
    )
