-- ===== src/Mapx/Sorted/Newest.antt =====
-- The search from a number downwards for the first value of a partial function on numbers.
use native.Mathlib.Decide.{dec_lt}
use vsdb.Prelude.{ℕ, zero, suc, ◌≤◌, ◌<◌, ◌≡◌, Option, none, some, arith, or_else, ◌>>=?◌}

module _ {V : Type 0} where
  unfoldable pub newest : (ℕ → Option V) → ℕ → Option V
  newest g zero = g zero
  newest g (suc n) = elim (g (suc n)) [ some v ↦ some v | none ↦ newest g n ]

  -- It reads nothing above its start.
  pub newest_ext :
      (g h : ℕ → Option V) (b : ℕ) → ((n : ℕ) → n ≤ b → g n ≡ h n) → newest g b ≡ newest h b
  unfolding newest
  newest_ext g h zero e = e zero (omega arith)
  newest_ext g h (suc b) e =
      ground (arith, e (suc b) (omega arith), newest_ext g h b (λ n le. e n (omega arith)))

  -- Where there is nothing down to a lower start, the search may begin there.
  pub newest_skip :
      (g : ℕ → Option V) (c b : ℕ)
      → c ≤ b
      → ((n : ℕ) → c < n → n ≤ b → g n ≡ none)
      → newest g b ≡ newest g c
  unfolding newest
  newest_skip g c zero le e = let at_zero : c ≡ 0 = omega arith in rw at_zero
  newest_skip g c (suc b) le e = elim (dec_lt c (suc b)) [
    | yes lt ↦
        rw (e (suc b) lt (omega arith), newest)
          (newest_skip g c b (omega arith) (λ n above below. e n above (omega arith)))
    | no ge ↦ let at_top : c ≡ suc b = omega arith in rw at_top
  ]

  -- The value at the start is found at once.
  pub newest_here : (g : ℕ → Option V) (b : ℕ) (v : V) → g b ≡ some v → newest g b ≡ some v
  unfolding newest
  newest_here g zero v h = h
  newest_here g (suc b) v h = ground arith

  pub newest-none : (g : ℕ → Option V) (b : ℕ) → ((n : ℕ) → n ≤ b → g n ≡ none) → newest g b ≡ none
  unfolding newest
  newest-none g zero e = e zero (omega arith)
  newest-none g (suc b) e =
      ground (arith, e (suc b) (omega arith), newest-none g b (λ n le. e n (omega arith)))

  -- One more value below all others is found where nothing above it is.
  pub newest_or :
      (g h : ℕ → Option V) (j b : ℕ)
      → j ≤ b
      → ((n : ℕ) → j < n → g n ≡ h n)
      → ((n : ℕ) → n ≤ j → h n ≡ none)
      → ((n : ℕ) → n < j → g n ≡ none)
      → newest g b ≡ or_else (newest h b) (g j)
  unfolding newest
  newest_or g h zero zero le same low none_below = rw (low zero le)
  newest_or g h (suc j) zero le same low none_below = absurd (omega arith)
  newest_or g h j (suc b) le same low none_below = elim (dec_lt j (suc b)) [
    | yes lt ↦ ground (arith, same (suc b) lt, newest_or g h j b (omega arith) same low none_below)
    | no ge ↦
        let top : j ≡ suc b = omega arith in
        rw top (
          ground (
            arith,
            low (suc b) (omega arith),
            newest-none h b (λ n below. low n (omega arith)),
            newest-none g b (λ n below. none_below n (omega arith)),
          ))
  ]

  -- What is found and passes a step at last is found where each value passes it first.
  pub newest_then :
      (g : ℕ → Option V) (f : V → Option V) (b : ℕ) (v : V)
      → (newest g b >>=? f) ≡ some v
      → newest (λ n. g n >>=? f) b ≡ some v
  unfolding newest
  newest_then g f zero v h = h
  newest_then g f (suc b) v h = ground (arith, newest_then g f b v)
