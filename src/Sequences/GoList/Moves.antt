-- ===== src/Sequences/GoList/Moves.antt =====
-- collectionx/list/list.go: what the moves within a slice come to.
use mathlib.Core.Path.{ap₂}
use arcgo.Prelude.{
  ℕ, zero, suc, ◌≤◌, ◌≡◌, refl, ap, ◌∙◌, List, [], ◌∷◌, ◌++◌, length, take, drop, arith,
}
use arcgo.Sequences.GoList.{overlay, copy_at}

module _ {ℓ} {T : Type ℓ} where
  pub take-front : (xs ys : List T) → take (length xs) (xs ++ ys) ≡ xs
  take-front [] ys = refl
  take-front (x ∷ xs) ys = ap (◌∷◌ x) (take-front xs ys)

  pub drop-front : (xs ys : List T) → drop (length xs) (xs ++ ys) ≡ ys
  drop-front [] ys = refl
  drop-front (x ∷ xs) ys = drop-front xs ys

  pub take-drop : (n : ℕ) (xs : List T) → take n xs ++ drop n xs ≡ xs
  take-drop zero xs = refl
  take-drop (suc n) [] = refl
  take-drop (suc n) (x ∷ xs) = ap (◌∷◌ x) (take-drop n xs)

  pub length-take_le : (n : ℕ) (xs : List T) → n ≤ length xs → length (take n xs) ≡ n
  length-take_le zero xs h = refl
  length-take_le (suc n) [] h = elim h [ ]
  length-take_le (suc n) (x ∷ xs) h = ap suc (length-take_le n xs (omega arith))

  overlay-front :
      (old new ys : List T) → length old ≡ length new → overlay (old ++ ys) new ≡ new ++ ys
  unfolding overlay
  overlay-front [] [] [] h = refl
  overlay-front [] [] (y ∷ ys) h = refl
  overlay-front [] (n ∷ new) ys h = absurd (omega arith)
  overlay-front (o ∷ old) [] ys h = absurd (omega arith)
  overlay-front (o ∷ old) (n ∷ new) ys h = ap (◌∷◌ n) (overlay-front old new ys (omega arith))

  -- A copy over as many items, behind the first ones and before the last ones.
  pub copy_at-middle :
      (front old new back : List T)
      → length old ≡ length new
      → copy_at (front ++ (old ++ back)) (length front) new ≡ front ++ (new ++ back)
  unfolding copy_at
  copy_at-middle front old new back h =
      ap₂ ◌++◌ (take-front front (old ++ back))
        (ap (λ xs. overlay xs new) (drop-front front (old ++ back)) ∙ overlay-front old new back h)
