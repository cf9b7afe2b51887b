-- ===== src/Engine/Range.antt =====
-- The iterators of an instance yield the entries of its map, in order, and a range the entries
-- between its bounds.
use Prim.Native.Nat.Ordering.{lt, gt}
use mathlib.Core.List.{append_assoc, append-nil}
use vsdb.Prelude.{
  ◌≡◌, refl, sym, ap, ◌∙◌, Bool, true, false, ◌&&◌, none, some, [], ◌∷◌, ◌++◌, length, take, map,
  filter, arith, if◌then◌else◌, Option-cases, inl, inr,
}
use vsdb.Common.{RawBytes, RawKey, RawValue}
use vsdb.Mapx
use vsdb.Mapx.{
  Mapx, Bound, included, excluded, unbounded, bytes_ord, cmp_bytes, cmp_bytes_refl, reaches_start,
  within_end,
}
use vsdb.Ende.{drop}
use vsdb.Engine.{
  RocksDb, RocksEngine, PreBytes, area_idx, prefix_size, is_prefix, at_least, below, within,
  cut_prefix, iter_next, range_next, range_options, lower_bound, upper_bound, or_else_bytes,
}
use vsdb.Engine.Strip.{strip, strip_key, strip_key-some, cmp_bytes-prefix}
use vsdb.Engine.Content.{content}

take_prefix : (p x : RawBytes) → take (length p) (p ++ x) ≡ p
take_prefix [] x = refl
take_prefix (a ∷ p) x = ap (λ t. a ∷ t) (take_prefix p x)

drop_prefix : (p x : RawBytes) → drop (length p) (p ++ x) ≡ x
drop_prefix [] x = refl
drop_prefix (a ∷ p) x = drop_prefix p x

is_prefix-append : (p x : RawBytes) → is_prefix p (p ++ x) ≡ true
is_prefix-append [] x = refl
is_prefix-append (a ∷ p) x = ground (arith, is_prefix-append p x)

is_prefix-none : (p j : RawBytes) → strip_key p j ≡ none → is_prefix p j ≡ false
is_prefix-none [] j h = ground arith
is_prefix-none (a ∷ p) [] h = refl
is_prefix-none (a ∷ p) (b ∷ j) h = ground (arith, is_prefix-none p j)

at_least-prefix : (p x : RawBytes) → at_least p (p ++ x) ≡ true
at_least-prefix [] [] = refl
at_least-prefix [] (b ∷ x) = refl
at_least-prefix (a ∷ p) x = ground (arith, at_least-prefix p x)

-- The least key above another is that key with a zero byte behind it.
at_least-next :
    (lo k : RawBytes)
    → at_least (lo ++ (0 ∷ [])) k ≡ elim (cmp_bytes k lo) [ gt ↦ true | _ ↦ false ]
at_least-next [] [] = refl
at_least-next [] (b ∷ []) = ground arith
at_least-next [] (b ∷ c ∷ k) = ground arith
at_least-next (a ∷ lo) [] = refl
at_least-next (a ∷ lo) (b ∷ k) = ground (arith, at_least-next lo k)

below-next :
    (hi k : RawBytes) → below (hi ++ (0 ∷ [])) k ≡ elim (cmp_bytes k hi) [ gt ↦ false | _ ↦ true ]
below-next [] [] = refl
below-next [] (b ∷ []) = ground arith
below-next [] (b ∷ c ∷ k) = ground arith
below-next (a ∷ hi) [] = refl
below-next (a ∷ hi) (b ∷ k) = ground (arith, below-next hi k)

at_least_within : (p lo k : RawBytes) → at_least (p ++ lo) (p ++ k) ≡ at_least lo k
at_least_within p lo k = ap (λ o. elim o [ lt ↦ false | _ ↦ true ]) (cmp_bytes-prefix p k lo)

below_within : (p hi k : RawBytes) → below (p ++ hi) (p ++ k) ≡ below hi k
below_within p hi k = ap (λ o. elim o [ lt ↦ true | _ ↦ false ]) (cmp_bytes-prefix p k hi)

-- What the options ask of a key with the prefix.
starts :
    (p k : RawBytes) (l : Bound RawKey)
    → (at_least (or_else_bytes (lower_bound p l) p) (p ++ k)
        && elim (lower_bound p l) [ none ↦ true | some b ↦ at_least b (p ++ k) ])
      ≡ reaches_start l k
starts p k (included lo) = ground (arith, at_least_within p lo k)
starts p k (excluded lo) =
    ground
      (arith, append_assoc p lo (0 ∷ []), at_least_within p (lo ++ (0 ∷ [])) k, at_least-next lo k)
starts p k unbounded = ground (arith, at_least-prefix p k)

ends :
    (p k : RawBytes) (h : Bound RawKey)
    → elim (upper_bound p h) [ none ↦ true | some b ↦ below b (p ++ k) ] ≡ within_end h k
ends p k (included hi) =
    ground (arith, append_assoc p hi (0 ∷ []), below_within p (hi ++ (0 ∷ [])) k, below-next hi k)
ends p k (excluded hi) = ground (arith, below_within p hi k)
ends p k unbounded = refl

and_assoc : (a b c : Bool) → (a && (b && c)) ≡ ((a && b) && c)
and_assoc a b c = ground arith

in_bounds :
    (p k : RawBytes) (l h : Bound RawKey)
    → (at_least (or_else_bytes (lower_bound p l) p) (p ++ k)
        && within (range_options p l h) (p ++ k))
      ≡ (reaches_start l k && within_end h k)
in_bounds p k l h =
    and_assoc (at_least (or_else_bytes (lower_bound p l) p) (p ++ k))
      (elim (lower_bound p l) [ none ↦ true | some b ↦ at_least b (p ++ k) ])
      (elim (upper_bound p h) [ none ↦ true | some b ↦ below b (p ++ k) ])
    ∙ ap (λ b. b && elim (upper_bound p h) [ none ↦ true | some b ↦ below b (p ++ k) ])
        (starts p k l)
    ∙ ap (λ b. reaches_start l k && b) (ends p k h)

rw_eight : (p x : RawBytes) → length p ≡ 8 → take 8 (p ++ x) ≡ p
rw_eight p x eight = ap (λ n. take n (p ++ x)) (sym eight) ∙ take_prefix p x

starts_with :
    (p : RawBytes) (l : Bound RawKey)
    → length p ≡ 8
    → take prefix_size (or_else_bytes (lower_bound p l) p) ≡ p
starts_with p (included lo) eight = rw_eight p lo eight
starts_with p (excluded lo) eight =
    rw (append_assoc p lo (0 ∷ [])) (rw_eight p (lo ++ (0 ∷ [])) eight)
starts_with p unbounded eight = ap (take 8) (sym (append-nil p)) ∙ rw_eight p [] eight

module _ {V : Type 0} where
  range-filter :
      (m : Mapx RawBytes V) (l h : Bound RawBytes)
      → Mapx.range m l h ≡ filter (λ e. reaches_start l e.0 && within_end h e.0) m
  unfolding Mapx.range
  range-filter [] l h = refl
  range-filter ((k, v) ∷ m) l h =
      ap (λ r. if reaches_start l k && within_end h k then (k, v) ∷ r else r) (range-filter m l h)

  keep_step :
      (p k : RawBytes) (v : V) (test test' : RawBytes → Bool) (m m' : Mapx RawBytes V)
      → test (p ++ k) ≡ test' k
      → map (λ (e : RawBytes × V). (drop (length p) e.0, e.1)) m ≡ m'
      → map
          (λ (e : RawBytes × V). (drop (length p) e.0, e.1))
          (if is_prefix p (p ++ k) && test (p ++ k) then (p ++ k, v) ∷ m else m)
        ≡ (if test' k then (k, v) ∷ m' else m')
  keep_step p k v test test' m m' agree ih =
      ground (arith, agree, ih, is_prefix-append p k, drop_prefix p k)

  -- The keys with the prefix that pass a test, with the prefix cut off.
  filter-strip :
      (p : RawBytes) (test test' : RawBytes → Bool) (m : Mapx RawBytes V)
      → ((k : RawBytes) → test (p ++ k) ≡ test' k)
      → map
          (λ (e : RawBytes × V). (drop (length p) e.0, e.1))
          (filter (λ e. is_prefix p e.0 && test e.0) m)
        ≡ filter (λ e. test' e.0) (strip p m)
  unfolding strip
  filter-strip p test test' [] agree = refl
  filter-strip p test test' ((j, v) ∷ m) agree =
      let ih = filter-strip p test test' m agree in
      elim (Option-cases (strip_key p j)) [
        | inl out ↦ rw (out, is_prefix-none p j out) ih
        | inr (k, found) ↦
            rw (found, strip_key-some p j k found) (keep_step p k v test test' _ _ (agree k) ih)
      ]

module _ {S : Type 0} (db : RocksDb S) where
  -- For a prefix of 8 bytes, the iterator of a range yields, in order, the entries of the instance
  -- that lie between the two bounds, whichever of them is included, excluded or absent.
  pub range_next-content :
      (s : RocksEngine S) (p : PreBytes) (l h : Bound RawKey)
      → length p ≡ 8
      → range_next db s p l h ≡ Mapx.range (content db s p) l h
  unfolding range_next content
  range_next-content s p l h eight =
      let start = or_else_bytes (lower_bound p l) p in
      let test = λ (k : RawBytes). at_least start k && within (range_options p l h) k in
      let m = db.entries s.meta (area_idx p) in
      ap cut_prefix (
        db.forward_law s.meta (area_idx p) (range_options p l h) start
        ∙ ap (λ (q : RawBytes). filter (λ e. is_prefix q e.0 && test e.0) m)
            (starts_with p l eight))
      ∙ rw eight at (
          filter-strip p test (λ k. reaches_start l k && within_end h k) m (λ k. in_bounds p k l h))
      ∙ sym (range-filter (strip p m) l h)

  range_all : (m : Mapx RawKey RawValue) → Mapx.range m unbounded unbounded ≡ m
  unfolding Mapx.range
  range_all [] = refl
  range_all ((k, v) ∷ m) = ap (λ r. (k, v) ∷ r) (range_all m)

  -- For a prefix of 8 bytes, the iterator yields the entries of the instance in order.
  pub iter_next-content :
      (s : RocksEngine S) (p : PreBytes) → length p ≡ 8 → iter_next db s p ≡ content db s p
  unfolding iter_next range_next
  iter_next-content s p eight =
      range_next-content s p unbounded unbounded eight ∙ range_all (content db s p)
