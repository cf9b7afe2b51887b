-- ===== src/Engine/Strip.antt =====
-- The entries of one prefix, with the prefix cut off: what an instance sees of its column family.
use Prim.Native.Nat.Ordering.{eq}
use vsdb.Prelude.{
  ℕ, ◌≡◌, ◌≢◌, refl, sym, ap, ◌∙◌, true, Option, none, some, [], ◌∷◌, ◌++◌, length, arith, ◌==◌,
  if◌then◌else◌, Option-cases, Bool-cases, inl, inr,
}
use vsdb.Common.{RawBytes}
use vsdb.Mapx.{Mapx, bytes_ord, cmp_bytes, eq_of_cmp_bytes, get, insert, remove}
use vsdb.Mapx.Ascending.{IsAscending, IsOver, IsOver-weaken}

abbrev pub strip_key : RawBytes → RawBytes → Option RawBytes
strip_key [] k = some k
strip_key (a ∷ p) [] = none
strip_key (a ∷ p) (b ∷ k) = let rest = strip_key p k in if a == b then rest else none

module _ {V : Type 0} where
  abbrev add_entry : Option RawBytes → V → Mapx RawBytes V → Mapx RawBytes V
  add_entry none v m = m
  add_entry (some k) v m = (k, v) ∷ m

  unfoldable pub strip : RawBytes → Mapx RawBytes V → Mapx RawBytes V
  strip p [] = []
  strip p ((j, v) ∷ m) = add_entry (strip_key p j) v (strip p m)

strip_key-append : (p k : RawBytes) → strip_key p (p ++ k) ≡ some k
strip_key-append [] k = refl
strip_key-append (a ∷ p) k = ground (arith, strip_key-append p k)

pub strip_key-some : (p j k : RawBytes) → strip_key p j ≡ some k → j ≡ p ++ k
strip_key-some [] j k h = ground arith
strip_key-some (a ∷ p) [] k h = ground arith
strip_key-some (a ∷ p) (b ∷ j) k h = ground (arith, strip_key-some p j k)

pub cmp_bytes-prefix : (p a b : RawBytes) → cmp_bytes (p ++ a) (p ++ b) ≡ cmp_bytes a b
cmp_bytes-prefix [] a b = refl
cmp_bytes-prefix (x ∷ p) a b = ground (arith, cmp_bytes-prefix p a b)

cons_eq : (b a : ℕ) (p q : RawBytes) → (b == a) ≡ true → p ≡ q → ◌≡◌ {A = RawBytes} (a ∷ p) (b ∷ q)
cons_eq b a p q same e = ground arith

-- Another prefix of the same length is no prefix of the key.
pub strip_key-other : (p q k : RawBytes) → length p ≡ length q → p ≢ q → strip_key q (p ++ k) ≡ none
strip_key-other [] [] k len ne = absurd (ne refl)
strip_key-other [] (b ∷ q) k len ne = absurd (omega arith)
strip_key-other (a ∷ p) [] k len ne = absurd (omega arith)
strip_key-other (a ∷ p) (b ∷ q) k len ne = elim (Bool-cases (b == a)) [
  | inl same ↦ rw same (strip_key-other p q k (omega arith) (λ e. ne (cons_eq b a p q same e)))
  | inr differ ↦ rw differ refl
]

cmp_found : (p k j j' : RawBytes) → strip_key p j ≡ some j' → cmp_bytes (p ++ k) j ≡ cmp_bytes k j'
cmp_found p k j j' h =
    ap (λ i. cmp_bytes (p ++ k) i) (strip_key-some p j j' h) ∙ cmp_bytes-prefix p k j'

cmp_out : (p k j : RawBytes) → strip_key p j ≡ none → cmp_bytes (p ++ k) j ≢ eq
cmp_out p k j out same =
    let e : strip_key p j ≡ some k =
      ap (strip_key p) (sym (eq_of_cmp_bytes (p ++ k) j same)) ∙ strip_key-append p k in
    ground arith

module _ {V : Type 0} where
  -- A look-up under the prefix.
  pub get-strip : (p k : RawBytes) (m : Mapx RawBytes V) → get (strip p m) k ≡ get m (p ++ k)
  unfolding strip get
  get-strip p k [] = refl
  get-strip p k ((j, v) ∷ m) = elim (Option-cases (strip_key p j)) [
    | inl out ↦ ground (arith, out, cmp_out p k j out, get-strip p k m)
    | inr (j', found) ↦ ground (arith, found, cmp_found p k j j' found, get-strip p k m)
  ]

  pub strip-remove :
      (p k : RawBytes) (m : Mapx RawBytes V) → strip p (remove m (p ++ k)) ≡ remove (strip p m) k
  unfolding strip remove
  strip-remove p k [] = refl
  strip-remove p k ((j, v) ∷ m) = elim (Option-cases (strip_key p j)) [
    | inl out ↦ ground (arith, out, cmp_out p k j out, strip-remove p k m)
    | inr (j', found) ↦ ground (arith, found, cmp_found p k j j' found, strip-remove p k m)
  ]

  insert-front :
      (p k : RawBytes) (v : V) (m : Mapx RawBytes V)
      → IsOver (p ++ k) m
      → IsAscending m
      → insert (strip p m) k v ≡ (k, v) ∷ strip p m
  unfolding strip insert
  insert-front p k v [] over asc = refl
  insert-front p k v ((j, w) ∷ m) over asc =
      let ih = insert-front p k v m (IsOver-weaken m (p ++ k) j over asc.0) asc.1 in
      elim (Option-cases (strip_key p j)) [
        | inl out ↦ ground (arith, out, ih)
        | inr (j', found) ↦ ground (arith, found, cmp_found p k j j' found)
      ]

  pub strip-insert :
      (p k : RawBytes) (v : V) (m : Mapx RawBytes V)
      → IsAscending m
      → strip p (insert m (p ++ k) v) ≡ insert (strip p m) k v
  unfolding strip insert
  strip-insert p k v [] asc = ground (arith, strip_key-append p k)
  strip-insert p k v ((j, w) ∷ m) asc =
      let ih = strip-insert p k v m asc.1 in
      elim (Option-cases (strip_key p j)) [
        | inl out ↦ ground (
          arith,
          out,
          cmp_out p k j out,
          strip_key-append p k,
          ih,
          insert-front p k v m,
          IsOver-weaken m (p ++ k) j,
        )
        | inr (j', found) ↦
            ground (arith, found, cmp_found p k j j' found, strip_key-append p k, ih)
      ]

  IsOver-strip :
      (p j j' : RawBytes) (m : Mapx RawBytes V)
      → strip_key p j ≡ some j'
      → IsOver j m
      → IsAscending m
      → IsOver j' (strip p m)
  unfolding strip
  IsOver-strip p j j' [] h over asc = tt
  IsOver-strip p j j' ((i, w) ∷ m) h over asc = elim (Option-cases (strip_key p i)) [
    | inl out ↦ rw out (IsOver-strip p j j' m h (IsOver-weaken m j i over asc.0) asc.1)
    | inr (i', found) ↦ rw found (
        sym (cmp_found p j' i i' found)
        ∙ ap (λ t. cmp_bytes t i) (sym (strip_key-some p j j' h))
        ∙ over)
  ]

  pub strip-IsAscending :
      (p : RawBytes) (m : Mapx RawBytes V) → IsAscending m → IsAscending (strip p m)
  unfolding strip
  strip-IsAscending p [] asc = tt
  strip-IsAscending p ((j, w) ∷ m) asc = elim (Option-cases (strip_key p j)) [
    | inl out ↦ rw out (strip-IsAscending p m asc.1)
    | inr (j', found) ↦
        rw found (IsOver-strip p j j' m found asc.0 asc.1, strip-IsAscending p m asc.1)
  ]

  -- The entries of other prefixes of the same length stay.
  pub strip-insert_other :
      (p q k : RawBytes) (v : V) (m : Mapx RawBytes V)
      → strip_key q (p ++ k) ≡ none
      → strip q (insert m (p ++ k) v) ≡ strip q m
  unfolding strip insert
  strip-insert_other p q k v [] out = ground arith
  strip-insert_other p q k v ((j, w) ∷ m) out =
      ground (arith, strip-insert_other p q k v m out, eq_of_cmp_bytes (p ++ k) j)

  pub strip-remove_other :
      (p q k : RawBytes) (m : Mapx RawBytes V)
      → strip_key q (p ++ k) ≡ none
      → strip q (remove m (p ++ k)) ≡ strip q m
  unfolding strip remove
  strip-remove_other p q k [] out = refl
  strip-remove_other p q k ((j, w) ∷ m) out =
      ground (arith, strip-remove_other p q k m out, eq_of_cmp_bytes (p ++ k) j)
