-- ===== src/Sequences/GoList/Tests.antt =====
-- collectionx/list/list.go on concrete lists of numbers.
use arcgo.Prelude.{ℕ, ◌-◌, ◌≡◌, Bool, [], ◌∷◌, ltb, length}
use arcgo.Prelude.Classes.{nat_zero}
use arcgo.Prelude.Cache.{no_cache}
use arcgo.Sequences.GoList.{GoList, remove_if}
use arcgo.Sequences.GoList.Compact.{refused}
use arcgo.Sequences.GoList.Laws.{remove_if_lem}

abbrev four : GoList ℕ
four = record { items = 5 ∷ 1 ∷ 7 ∷ 2 ∷ []; json = no_cache }

abbrev is_small : ℕ → Bool
is_small n = ltb n 3

remove_if_example :
    ((remove_if four is_small).0 ≡ length four.items - length (refused is_small four.items))
    × ((remove_if four is_small).1.items ≡ refused is_small four.items)
remove_if_example = remove_if_lem four is_small
