-- ===== src/MapReduce/Order.antt =====
-- The order of keys by which mr/worker.go sorts.
use mit_6_824_distributed_sy.Prelude.{ℕ, ◌≡◌, refl, sym, ◌∙◌, String, false, arith, string_key}
use Prim.Native.Nat.{Ordering, compare as compare_ℕ}
use Prim.Native.Char.{code}
use Prim.Native.String.{compare, then as then_by, [] as []ˢ, ◌∷◌ as ◌∷ˢ◌}
use Prim.Native.String.compare as text_compare
use native.Mathlib.Omega.{compare-lt, compare-eq, compare-gt}
use text.Mathlib.TextEquality.{path_by_compare}
use mit_6_824_distributed_sy.MapReduce.Worker.{KeyValue, less}

flip_ℕ : (m n : ℕ) → compare_ℕ m n ≡ Ordering.gt → compare_ℕ n m ≡ Ordering.lt
flip_ℕ m n e = go (compare_ℕ n m) refl
  where
    go : (o : Ordering) → compare_ℕ n m ≡ o → compare_ℕ n m ≡ Ordering.lt
    go Ordering.lt h = h
    go Ordering.eq h = absurd (omega (arith, compare-gt m n e, compare-eq n m h))
    go Ordering.gt h = absurd (omega (arith, compare-gt m n e, compare-gt n m h))

same_ℕ : (m n : ℕ) → compare_ℕ m n ≡ Ordering.eq → compare_ℕ n m ≡ Ordering.eq
same_ℕ m n e = go (compare_ℕ n m) refl
  where
    go : (o : Ordering) → compare_ℕ n m ≡ o → compare_ℕ n m ≡ Ordering.eq
    go Ordering.lt h = absurd (omega (arith, compare-eq m n e, compare-lt n m h))
    go Ordering.eq h = h
    go Ordering.gt h = absurd (omega (arith, compare-eq m n e, compare-gt n m h))

-- A text that is above another has the other below it.
flip : (s t : String) → compare s t ≡ Ordering.gt → compare t s ≡ Ordering.lt
flip []ˢ []ˢ e = absurd (ground (arith, e))
flip []ˢ (d ∷ˢ t) e = absurd (ground (arith, sym (text_compare.nil-cons d t) ∙ e))
flip (c ∷ˢ s) []ˢ e = text_compare.nil-cons c s
flip (c ∷ˢ s) (d ∷ˢ t) e =
    text_compare.cons-cons d c t s
    ∙ go (compare_ℕ (code c) (code d)) refl (sym (text_compare.cons-cons c d s t) ∙ e) (flip s t)
  where
    go :
        (o : Ordering)
        → compare_ℕ (code c) (code d) ≡ o
        → then_by (compare_ℕ (code c) (code d)) (compare s t) ≡ Ordering.gt
        → (compare s t ≡ Ordering.gt → compare t s ≡ Ordering.lt)
        → then_by (compare_ℕ (code d) (code c)) (compare t s) ≡ Ordering.lt
    go Ordering.lt h g ih = absurd (ground (arith, h, g))
    go Ordering.eq h g ih = rw (same_ℕ (code c) (code d) h) (ih (rw h at g))
    go Ordering.gt h g ih = rw (flip_ℕ (code c) (code d) h) refl

-- Keys of which neither is below the other are equal.
pub same_key : (a b : KeyValue) → less a b ≡ false → less b a ≡ false → a.key ≡ b.key
same_key a b p q = go (compare a.key b.key) refl
  where
    go : (o : Ordering) → compare a.key b.key ≡ o → a.key ≡ b.key
    go Ordering.lt h = absurd (ground (arith, h, p))
    go Ordering.eq h = path_by_compare a.key b.key h
    go Ordering.gt h = absurd (ground (arith, flip a.key b.key h, q))
