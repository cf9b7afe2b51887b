-- ===== src/MultiKey/Walk.antt =====
-- `iter_op` and `iter_op_with_key_prefix`: what they call the operation on.
use mathlib.Core.List.{append_assoc}
use vsdb.Prelude.{ℕ, zero, suc, ◌≡◌, refl, sym, ap, ◌∙◌, List, [], ◌∷◌, ◌++◌, map, arith}
use vsdb.Common.{RawKey, RawValue}
use vsdb.Exec.{Exec, resume, for_each, ◌>>◌}
use vsdb.Mapx.{Mapx, bytes_ord}
use vsdb.MultiKey.{Node, recursive_walk}
use vsdb.MultiKey.Keys.{RawKeys, keys_ord}

abbrev pub Entries : Type 0
Entries = Mapx RawKeys RawValue

abbrev pub under : RawKey → Entries → Entries
under k es = map (λ e. (k ∷ e.0, e.1)) es

module _ {A B : Type 0} where
  abbrev pub flat_map : (A → List B) → List A → List B
  flat_map f [] = []
  flat_map f (x ∷ xs) = f x ++ flat_map f xs

-- The entries below a map, with their whole keys.
unfoldable pub entries : (n : ℕ) → Node n → Entries
entries zero v = ([], v) ∷ []
entries (suc n) hdr = flat_map (λ e. under e.0 (entries n e.1)) hdr

module _ {S : Type 0} where
  -- A step in front of two that are alike.
  pub then_ext : (f g h : Exec S Unit) → ((s : S) → g s ≡ h s) → (s : S) → (f >> g) s ≡ (f >> h) s
  then_ext f g h e s = ground (arith, e (f s).1)

  then_assoc : (f g h : Exec S Unit) (s : S) → (f >> (g >> h)) s ≡ ((f >> g) >> h) s
  then_assoc f g h s = ground arith

  for_each-cat :
      {A : Type 0} (f : A → Exec S Unit) (xs ys : List A) (s : S)
      → for_each (xs ++ ys) f s ≡ (for_each xs f >> for_each ys f) s
  for_each-cat f [] ys s = refl
  for_each-cat f (x ∷ xs) ys s =
      then_ext (f x) _ _ (for_each-cat f xs ys) s
      ∙ then_assoc (f x) (for_each xs f) (for_each ys f) s

  for_each-map :
      {A B : Type 0} (g : A → B) (f : B → Exec S Unit) (xs : List A) (s : S)
      → for_each (map g xs) f s ≡ for_each xs (λ x. f (g x)) s
  for_each-map g f [] s = refl
  for_each-map g f (x ∷ xs) s = then_ext (f (g x)) _ _ (for_each-map g f xs) s

  for_each_ext :
      {A : Type 0} (f g : A → Exec S Unit) (xs : List A)
      → ((x : A) (s : S) → f x s ≡ g x s)
      → (s : S) → for_each xs f s ≡ for_each xs g s
  for_each_ext f g [] e s = refl
  for_each_ext f g (x ∷ xs) e s =
      then_ext (f x) _ _ (for_each_ext f g xs e) s
      ∙ ap (λ (r : _). resume r.0 (λ _. for_each xs g) r.1) (e x s)

  for_each-flat_map :
      {A B : Type 0} (g : A → List B) (f : B → Exec S Unit) (xs : List A) (s : S)
      → for_each (flat_map g xs) f s ≡ for_each xs (λ x. for_each (g x) f) s
  for_each-flat_map g f [] s = refl
  for_each-flat_map g f (x ∷ xs) s =
      for_each-cat f (g x) (flat_map g xs) s
      ∙ then_ext (for_each (g x) f) _ _ (for_each-flat_map g f xs) s

  abbrev pub at_path :
      RawKeys → (RawKeys → RawValue → Exec S Unit) → RawKeys × RawValue → Exec S Unit
  at_path path op e = op (path ++ e.0) e.1

  -- The entries below a part of the key.
  pub for_each-under :
      (k : RawKey) (path : RawKeys) (op : RawKeys → RawValue → Exec S Unit) (es : Entries) (s : S)
      → for_each (under k es) (at_path path op) s ≡ for_each es (at_path (path ++ (k ∷ [])) op) s
  for_each-under k path op es s =
      for_each-map (λ e. (k ∷ e.0, e.1)) (at_path path op) es s
      ∙ for_each_ext _ _ es (λ e s. ap (λ p. op p e.1 s) (sym (append_assoc path (k ∷ []) e.0))) s

  -- The walk calls the operation on the entries, one after the other.
  pub recursive_walk-entries :
      (n : ℕ) (hdr : Node (suc n)) (path : RawKeys) (op : RawKeys → RawValue → Exec S Unit) (s : S)
      → recursive_walk (suc n) hdr path op s ≡ for_each (entries (suc n) hdr) (at_path path op) s
  unfolding recursive_walk entries
  recursive_walk-entries zero hdr path op s = sym (
      for_each-flat_map (λ e. under e.0 (entries zero e.1)) (at_path path op) hdr s
      ∙ for_each_ext _ _ hdr (λ e s. ground arith) s)
  recursive_walk-entries (suc n) hdr path op s =
      for_each_ext _ _ hdr
        (λ e s.
          recursive_walk-entries n e.1 (path ++ (e.0 ∷ [])) op s
          ∙ sym (for_each-under e.0 path op (entries (suc n) e.1) s))
        s
      ∙ sym (for_each-flat_map (λ e. under e.0 (entries (suc n) e.1)) (at_path path op) hdr s)
