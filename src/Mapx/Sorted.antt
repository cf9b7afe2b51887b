-- ===== src/Mapx/Sorted.antt =====
-- Maps keyed by numbers (branch and version identifiers) in ascending order, and the search from a
-- version downwards: `.range(..=v).rev().find(..)` meets a search over numbers.
mod Newest
pub use Newest.*
use native.Mathlib.Decide.{dec_lt}
use vsdb.Prelude.{
  List, ◌||◌, ◌==◌, filter, ℕ, zero, suc, ◌+◌, ◌≤◌, ◌<◌, ◌≡◌, refl, sym, ap, ◌∙◌, Bool, true, false,
  Option, none, some, [], ◌∷◌, arith, or_else, leb, if◌then◌else◌, Option-cases, inl, inr,
}
use vsdb.Mapx.{
  eq_of_compare, keys, contains_key, Mapx, nat_ord, get, insert, remove, last, find_rev, range_to,
  range_from,
}

module _ {V : Type 0} where
  abbrev pub snd? : Option (ℕ × V) → Option V
  snd? none = none
  snd? (some (n, v)) = some v

  -- Ascending, with no key under the bound.
  abbrev pub IsAbove : ℕ → Mapx ℕ V → Type 0
  IsAbove b [] = Unit
  IsAbove b ((k, v) ∷ m) = b ≤ k × IsAbove (suc k) m

  abbrev pub IsSorted : Mapx ℕ V → Type 0
  IsSorted m = IsAbove 0 m

  IsAbove-weaken : (a b : ℕ) (m : Mapx ℕ V) → a ≤ b → IsAbove b m → IsAbove a m
  IsAbove-weaken a b [] h s = tt
  IsAbove-weaken a b ((k, v) ∷ m) h s = (omega arith, s.1)

  pub get-IsAbove : (b : ℕ) (m : Mapx ℕ V) (n : ℕ) → IsAbove b m → n < b → get m n ≡ none
  unfolding get
  get-IsAbove b [] n s h = refl
  get-IsAbove b ((k, v) ∷ m) n s h = ground (arith, get-IsAbove (suc k) m n)

  pub insert-IsAbove :
      (b : ℕ) (m : Mapx ℕ V) (k : ℕ) (v : V) → b ≤ k → IsAbove b m → IsAbove b (insert m k v)
  unfolding insert
  insert-IsAbove b [] k v h s = (h, tt)
  insert-IsAbove b ((j, w) ∷ m) k v h s = ground (arith, insert-IsAbove (suc j) m k v)

  pub remove-IsAbove : (b : ℕ) (m : Mapx ℕ V) (k : ℕ) → IsAbove b m → IsAbove b (remove m k)
  unfolding remove
  remove-IsAbove b [] k s = tt
  remove-IsAbove b ((j, w) ∷ m) k s =
      ground (arith, remove-IsAbove (suc j) m k, IsAbove-weaken b (suc j) (remove m k))

  pub range_to-IsAbove : (b : ℕ) (m : Mapx ℕ V) (k : ℕ) → IsAbove b m → IsAbove b (range_to m k)
  unfolding range_to
  range_to-IsAbove b [] k s = tt
  range_to-IsAbove b ((j, w) ∷ m) k s =
      ground (arith, range_to-IsAbove (suc j) m k, IsAbove-weaken b (suc j) (range_to m k))

  pub range_from-IsAbove : (b : ℕ) (m : Mapx ℕ V) (k : ℕ) → IsAbove b m → IsAbove b (range_from m k)
  unfolding range_from
  range_from-IsAbove b [] k s = tt
  range_from-IsAbove b ((j, w) ∷ m) k s =
      ground (arith, range_from-IsAbove (suc j) m k, IsAbove-weaken b (suc j) (range_from m k))

  -- What a range up to a key reads.
  pub get-range_to :
      (m : Mapx ℕ V) (k n : ℕ) → get (range_to m k) n ≡ (if leb n k then get m n else none)
  unfolding get range_to
  get-range_to [] k n = ground arith
  get-range_to ((j, w) ∷ m) k n = ground (arith, get-range_to m k n)

  pub get-range_from :
      (m : Mapx ℕ V) (k n : ℕ) → get (range_from m k) n ≡ (if leb k n then get m n else none)
  unfolding get range_from
  get-range_from [] k n = ground arith
  get-range_from ((j, w) ∷ m) k n = ground (arith, get-range_from m k n)

  -- The last entry is in the map, and the map has nothing above it.
  last-ge : (b : ℕ) (m : Mapx ℕ V) (k : ℕ) (v : V) → IsAbove b m → last m ≡ some (k, v) → b ≤ k
  unfolding last
  last-ge b [] k v s h = ground arith
  last-ge b ((j, w) ∷ []) k v s h = ground arith
  last-ge b ((j, w) ∷ (i, x) ∷ m) k v s h = omega (arith, last-ge (suc j) ((i, x) ∷ m) k v s.1 h)

  pub get-last :
      (b : ℕ) (m : Mapx ℕ V) (k : ℕ) (v : V) → IsAbove b m → last m ≡ some (k, v) → get m k ≡ some v
  unfolding get last
  get-last b [] k v s h = ground arith
  get-last b ((j, w) ∷ []) k v s h = ground arith
  get-last b ((j, w) ∷ (i, x) ∷ m) k v s h =
      ground
        (arith, get-last (suc j) ((i, x) ∷ m) k v s.1 h, last-ge (suc j) ((i, x) ∷ m) k v s.1 h)

  pub get-last-none : (m : Mapx ℕ V) (n : ℕ) → last m ≡ none → get m n ≡ none
  unfolding get last
  get-last-none [] n h = refl
  get-last-none ((j, w) ∷ []) n h = ground arith
  get-last-none ((j, w) ∷ (i, x) ∷ m) n h = ground (
    arith,
    get-last-none ((i, x) ∷ m) j h,
    get-last-none ((i, x) ∷ m) n h,
    get-last-none ((i, x) ∷ m) i h,
  )

  pub get_above-last :
      (b : ℕ) (m : Mapx ℕ V) (k : ℕ) (v : V) (n : ℕ)
      → IsAbove b m
      → last m ≡ some (k, v)
      → k < n
      → get m n ≡ none
  unfolding get last
  get_above-last b [] k v n s h lt = ground arith
  get_above-last b ((j, w) ∷ []) k v n s h lt = ground arith
  get_above-last b ((j, w) ∷ (i, x) ∷ m) k v n s h lt = ground (
    arith,
    get_above-last (suc j) ((i, x) ∷ m) k v n s.1 h,
    last-ge (suc j) ((i, x) ∷ m) k v s.1 h,
  )

  -- An entry with nothing above it is the last.
  pub last_of :
      (b : ℕ) (m : Mapx ℕ V) (k : ℕ) (v : V)
      → IsAbove b m
      → get m k ≡ some v
      → ((n : ℕ) → k < n → get m n ≡ none)
      → last m ≡ some (k, v)
  unfolding get last
  last_of b [] k v s h above = ground arith
  last_of b ((j, w) ∷ []) k v s h above = ground arith
  last_of b ((j, w) ∷ (i, x) ∷ m) k v s h above =
      last_of (suc j) ((i, x) ∷ m) k v s.1 (ground (arith, above i))
        (λ n lt. ground (arith, above n lt, get-IsAbove (suc j) ((i, x) ∷ m) n s.1))

  -- The search of `get_by_branch_version` is a search downwards over numbers.
  pub find_rev-range_to :
      (b : ℕ) (m : Mapx ℕ V) (p : ℕ → Bool) (k : ℕ)
      → IsAbove b m
      → snd? (find_rev p (range_to m k)) ≡ newest (λ n. if p n then get m n else none) k
  unfolding get find_rev range_to
  find_rev-range_to b [] p k s = sym (newest-none _ k (λ n le. ground arith))
  find_rev-range_to b ((j, w) ∷ m) p k s = elim (dec_lt k j) [
    | yes lt ↦ ground (
      arith,
      find_rev-range_to (suc j) m p k s.1,
      newest_ext (λ n. if p n then get ((j, w) ∷ m) n else none)
          (λ n. if p n then get m n else none) k (λ n le. ground arith),
    )
    | no ge ↦ ground (
      arith,
      find_rev-range_to (suc j) m p k s.1,
      newest_or (λ n. if p n then get ((j, w) ∷ m) n else none) (λ n. if p n then get m n else none)
          j k (omega arith) (λ n lt. ground arith)
          (λ n le. ground (arith, get-IsAbove (suc j) m n s.1))
          (λ n lt. ground (arith, get-IsAbove (suc j) m n s.1)),
    )
  ]

abbrev pub mem : ℕ → List ℕ → Bool
mem n [] = false
mem n (k ∷ ks) = n == k || mem n ks

module _ {V : Type 0} where
  pub mem-keys : (m : Mapx ℕ V) (n : ℕ) → mem n (keys m) ≡ contains_key m n
  unfolding get
  mem-keys [] n = refl
  mem-keys ((k, v) ∷ m) n = ground (arith, mem-keys m n)

  -- A filter by keys.
  pub get-filter :
      (p : ℕ → Bool) (m : Mapx ℕ V) (n : ℕ)
      → get (filter (λ e. p e.0) m) n ≡ (if p n then get m n else none)
  unfolding get
  get-filter p [] n = ground arith
  get-filter p ((k, v) ∷ m) n = ground (arith, get-filter p m n, eq_of_compare n k)

  pub filter-IsAbove :
      (b : ℕ) (p : ℕ → Bool) (m : Mapx ℕ V) → IsAbove b m → IsAbove b (filter (λ e. p e.0) m)
  filter-IsAbove b p [] h = tt
  filter-IsAbove b p ((k, v) ∷ m) h =
      ground
        (arith, filter-IsAbove (suc k) p m h.1, IsAbove-weaken b (suc k) (filter (λ e. p e.0) m))
