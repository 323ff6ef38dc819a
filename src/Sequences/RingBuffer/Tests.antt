-- ===== src/Sequences/RingBuffer/Tests.antt =====
-- collectionx/list/ring_buffer.go on concrete buffers of numbers.
use arcgo.Prelude.{ℕ, ◌≡◌, refl, List, [], ◌∷◌, none, some, arith}
use arcgo.Prelude.Classes.{nat_zero}
use arcgo.Prelude.Int.{pos, clamp}
use arcgo.Sequences.RingBuffer
use arcgo.Sequences.RingBuffer.{RingBuffer, new_ring_buffer, push, pop, capacity}
use arcgo.Sequences.RingBuffer.Refine.{IsValid}
use arcgo.Sequences.RingBuffer.Run.{Op, run, replay, ring_refines}

-- 8, then 9, round the end of the slice.
abbrev wrapped : RingBuffer ℕ
wrapped = record { buf = 9 ∷ 7 ∷ 8 ∷ []; head = 2; size = 2 }

wrapped-IsValid : IsValid wrapped
wrapped-IsValid = omega arith

abbrev calls : List (Op ℕ)
calls = Op.push 1 ∷ Op.push 2 ∷ Op.push 3 ∷ Op.pop ∷ Op.peek ∷ Op.clear ∷ Op.pop ∷ []

run_overwrites :
    run calls (new_ring_buffer (pos 2)) ≡ none ∷ none ∷ some 1 ∷ some 2 ∷ some 3 ∷ none ∷ none ∷ []
unfolding run new_ring_buffer push pop RingBuffer.peek RingBuffer.clear
run_overwrites = refl

ring_refines_example : run calls (new_ring_buffer (pos 2)) ≡ replay (clamp (pos 2)) calls []
ring_refines_example = ring_refines (pos 2) calls
