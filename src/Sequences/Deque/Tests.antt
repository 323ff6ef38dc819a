-- ===== src/Sequences/Deque/Tests.antt =====
-- collectionx/list/deque.go on concrete deques of numbers.
use mathlib.Core.List.{reverse}
use arcgo.Prelude.{ℕ, ◌≡◌, refl, List, [], ◌∷◌, ◌++◌, none, some, arith}
use arcgo.Prelude.Classes.{nat_zero}
use arcgo.Prelude.Int.{pos, negsuc}
use arcgo.Sequences.Deque
use arcgo.Sequences.Deque.{
  Deque, new_deque, push_front, push_back, pop_front, pop_back, ensure_capacity,
}
use arcgo.Sequences.Deque.Grow.{IsValid, contents}
use arcgo.Sequences.Deque.Refine.{Holds, push_front_lem}
use arcgo.Sequences.Deque.Run.{Op, run, replay, deque_refines}

-- 7, 8, 9, round the end of a full slice.
abbrev full : Deque ℕ
full = record { buf = 8 ∷ 9 ∷ 7 ∷ []; head = 2; size = 3 }

full-IsValid : IsValid full
full-IsValid = omega arith

abbrev calls : List (Op ℕ)
calls =
    Op.push_front (1 ∷ 2 ∷ [])
    ∷ Op.pop_front
    ∷ Op.push_back (4 ∷ 5 ∷ 6 ∷ [])
    ∷ Op.pop_back
    ∷ Op.get (pos 1)
    ∷ Op.get (negsuc 0)
    ∷ []

run_grows : run calls (new_deque (3 ∷ [])) ≡ none ∷ some 2 ∷ none ∷ some 6 ∷ some 3 ∷ none ∷ []
unfolding run new_deque push_front push_back pop_front pop_back Deque.get Deque.push_front_one
    Deque.push_back_one Deque.put_front Deque.put_back ensure_capacity Deque.double_until
    Deque.copy_loop
run_grows = refl

push_front_example : Holds (reverse (1 ∷ 2 ∷ []) ++ contents full) (push_front full (1 ∷ 2 ∷ []))
push_front_example = push_front_lem full (1 ∷ 2 ∷ []) full-IsValid

deque_refines_example : run calls (new_deque (3 ∷ [])) ≡ replay calls (3 ∷ [])
deque_refines_example = deque_refines (3 ∷ []) calls
