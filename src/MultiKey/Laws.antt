-- ===== src/MultiKey/Laws.antt =====
-- What a map with keys of several parts reads after a change.
use Prim.Native.Nat.Ordering.{eq}
use vsdb.Prelude.{
  ℕ, zero, suc, ◌≤◌, ◌<◌, ◌≡◌, refl, ◌∙◌, Bool, false, Option, none, some, [], ◌∷◌, length, arith,
  ltb, ◌==◌, not, ◌&&◌, is_empty, if◌then◌else◌, ◌>>=?◌, Option-cases, inl, inr,
}
use vsdb.Common.{RawKey, RawValue}
use vsdb.Mapx
use vsdb.Mapx.{Mapx, bytes_ord, cmp_bytes, eq_of_cmp_bytes, cmp_bytes_refl}
use vsdb.Mapx.Laws.{get-insert, get-remove}
use vsdb.Exec.{ok, err, incorrect_key_size}
use vsdb.MultiKey
use vsdb.MultiKey.{MapxRawMk, stored, Node, empty_node, or_new, get_from, insert_into, remove_from}
use vsdb.MultiKey.Keys.{RawKeys, starts_with}

pub get_from-empty : (n : ℕ) (key : RawKeys) → get_from (suc n) (empty_node (suc n)) key ≡ none
unfolding get_from Mapx.get
get_from-empty n [] = refl
get_from-empty n (k ∷ key) = refl

-- A missing map reads like an empty one.
get_from-or_new :
    (n : ℕ) (h : Option (Node (suc n))) (key : RawKeys)
    → get_from (suc n) (or_new (suc n) h) key ≡ (h >>=? λ hdr. get_from (suc n) hdr key)
get_from-or_new n none key = get_from-empty n key
get_from-or_new n (some hdr) key = refl

-- An insertion under a key of the right size changes what is read under that key, and nothing else.
get_from-insert_into :
    (n : ℕ) (key : RawKeys) (value : RawValue) (hdr : Node n) (other : RawKeys)
    → length key ≡ n
    → length other ≡ n
    → 0 < n
    → get_from n (insert_into n key value hdr).1 other
      ≡ (if starts_with key other then some value else get_from n hdr other)
unfolding get_from insert_into
get_from-insert_into zero key value hdr other h g p = absurd (omega arith)
get_from-insert_into (suc n) [] value hdr other h g p = absurd (omega arith)
get_from-insert_into (suc n) (k ∷ key) value hdr [] h g p = absurd (omega arith)
get_from-insert_into (suc zero) (k ∷ []) value hdr (j ∷ []) h g p =
    ground (arith, get-insert hdr k value j)
get_from-insert_into (suc zero) (k ∷ []) value hdr (j ∷ i ∷ other) h g p = absurd (omega arith)
get_from-insert_into (suc zero) (k ∷ l ∷ key) value hdr (j ∷ other) h g p = absurd (omega arith)
get_from-insert_into (suc (suc n)) (k ∷ key) value hdr (j ∷ other) h g p =
    let below = or_new (suc n) (Mapx.get hdr k) in
    ground (
      arith,
      get-insert hdr k (insert_into (suc n) key value below).1 j,
      get_from-insert_into (suc n) key value below other (omega arith) (omega arith) (omega arith),
      get_from-or_new n (Mapx.get hdr k) other,
      eq_of_cmp_bytes j k,
    )

-- A nested map that loses some keys, and is put back.
replaced :
    {V : Type 0} (hdr : Mapx RawKey V) (k j : RawKey) (c d : V) (f : V → Option RawValue) (b : Bool)
    → Mapx.get hdr k ≡ some c
    → f d ≡ (if b then none else f c)
    → (Mapx.get (Mapx.insert hdr k d) j >>=? f)
      ≡ (if elim (cmp_bytes j k) [ eq ↦ b | _ ↦ false ] then none else (Mapx.get hdr j >>=? f))
replaced hdr k j c d f b there h = ground (arith, there, get-insert hdr k d j, eq_of_cmp_bytes j k)

-- A removal takes out every key that starts with the given one, and no other; the empty key takes
-- out nothing.
get_from-remove_from :
    (n : ℕ) (key : RawKeys) (hdr : Node n) (other : RawKeys)
    → length key ≤ n
    → length other ≡ n
    → get_from n (remove_from n key hdr).1 other
      ≡ (if not (is_empty key) && starts_with key other then none else get_from n hdr other)
unfolding get_from remove_from
get_from-remove_from zero [] hdr other h g = refl
get_from-remove_from zero (k ∷ key) hdr other h g = absurd (omega arith)
get_from-remove_from (suc n) [] hdr other h g = refl
get_from-remove_from (suc n) (k ∷ key) hdr [] h g = absurd (omega arith)
get_from-remove_from (suc n) (k ∷ []) hdr (j ∷ other) h g =
    ground (arith, get-remove hdr k j, eq_of_cmp_bytes j k)
get_from-remove_from (suc n) (k ∷ l ∷ key) hdr (j ∷ other) h g =
    elim (Option-cases (Mapx.get hdr k)) [
      | inl gone ↦ rw (gone, remove_from) (ground (arith, gone, eq_of_cmp_bytes j k))
      | inr (c, there) ↦
          rw (there, remove_from)
            (replaced hdr k j c (remove_from n (l ∷ key) c).1 (λ r. get_from n r other)
              (starts_with (l ∷ key) other) there
              (get_from-remove_from n (l ∷ key) c other (omega arith) (omega arith)))
    ]

-- An insertion returns the value that was there.
returned-insert_into :
    (n : ℕ) (key : RawKeys) (value : RawValue) (hdr : Node n)
    → length key ≡ n
    → 0 < n
    → (insert_into n key value hdr).0 ≡ get_from n hdr key
unfolding get_from insert_into
returned-insert_into zero key value hdr h p = absurd (omega arith)
returned-insert_into (suc n) [] value hdr h p = refl
returned-insert_into (suc zero) (k ∷ key) value hdr h p = ground arith
returned-insert_into (suc (suc n)) (k ∷ key) value hdr h p =
    returned-insert_into (suc n) key value (or_new (suc n) (Mapx.get hdr k)) (omega arith)
      (omega arith)
    ∙ get_from-or_new n (Mapx.get hdr k) key

-- A removal of a whole key returns the value that was there, of a part of a key nothing.
returned-remove_from :
    (n : ℕ) (key : RawKeys) (hdr : Node (suc n))
    → length key ≤ suc n
    → (remove_from (suc n) key hdr).0
      ≡ (if length key == suc n then get_from (suc n) hdr key else none)
unfolding get_from remove_from
returned-remove_from n [] hdr h = ground arith
returned-remove_from zero (k ∷ []) hdr h = ground arith
returned-remove_from (suc n) (k ∷ []) hdr h = ground arith
returned-remove_from zero (k ∷ l ∷ key) hdr h = absurd (omega arith)
returned-remove_from (suc n) (k ∷ l ∷ key) hdr h = elim (Option-cases (Mapx.get hdr k)) [
  | inl gone ↦ rw (gone, remove_from) (ground arith)
  | inr (c, there) ↦
      rw (there, remove_from) (returned-remove_from n (l ∷ key) c (omega arith) ∙ ground (arith))
]

returned-remove_from_positive :
    (n : ℕ) (key : RawKeys) (hdr : Node n)
    → 0 < n
    → length key ≤ n
    → (remove_from n key hdr).0 ≡ (if length key == n then get_from n hdr key else none)
returned-remove_from_positive zero key hdr p h = absurd (omega arith)
returned-remove_from_positive (suc n) key hdr p h = returned-remove_from n key hdr h

-- In a map with keys of at least one part: an insertion under a key of the right size returns the
-- value that was there, and afterwards the key has the new value and every other key what it had;
-- under a key of another size it fails and changes nothing.
pub insert-get :
    (m : MapxRawMk) (key : RawKeys) (value : RawValue) (other : RawKeys)
    → 0 < m.key_size
    → (MultiKey.insert key value m ≡ (
        if length key == m.key_size
        then (ok (MultiKey.get m key), (MultiKey.insert key value m).1)
        else (err incorrect_key_size, m)))
      × (MultiKey.get (MultiKey.insert key value m).1 other ≡ (
          if length key == m.key_size && length other == m.key_size && starts_with key other
          then some value
          else MultiKey.get m other))
unfolding MultiKey.insert MultiKey.get
insert-get m key value other p = (
  ground (arith, returned-insert_into m.key_size key value m.inner),
  ground (arith, get_from-insert_into m.key_size key value m.inner other),
)

-- In a map with keys of at least one part: a removal under a key of at most the right size returns
-- the value of a whole key and nothing for a part of one, and takes out all keys that start with the
-- given one and no other, and nothing if the given one is empty; under a longer key it fails and
-- changes nothing.
pub remove-get :
    (m : MapxRawMk) (key other : RawKeys)
    → 0 < m.key_size
    → (MultiKey.remove key m ≡ (
        if ltb m.key_size (length key)
        then (err incorrect_key_size, m)
        else (ok (MultiKey.get m key), (MultiKey.remove key m).1)))
      × (MultiKey.get (MultiKey.remove key m).1 other ≡ (
          if not (ltb m.key_size (length key)) && not (is_empty key) && starts_with key other
          then none
          else MultiKey.get m other))
unfolding MultiKey.remove MultiKey.get
remove-get m key other p = (
  ground (arith, returned-remove_from_positive m.key_size key m.inner),
  ground (arith, get_from-remove_from m.key_size key m.inner other),
)
