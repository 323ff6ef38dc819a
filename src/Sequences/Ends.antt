-- ===== src/Sequences/Ends.antt =====
-- The two ends of the list of items that collectionx/list/ring_buffer.go and deque.go hold.
use mathlib.Core.List.{reverse}
use arcgo.Prelude.{List, [], ◌∷◌, Option, none, some}

module _ {ℓ} {A : Type ℓ} where
  abbrev pub oldest : List A → Option A
  oldest [] = none
  oldest (x ∷ xs) = some x

  abbrev pub rest : List A → List A
  rest [] = []
  rest (x ∷ xs) = xs

  abbrev pub newest : List A → Option A
  newest xs = oldest (reverse xs)

  abbrev pub but_newest : List A → List A
  but_newest xs = reverse (rest (reverse xs))
