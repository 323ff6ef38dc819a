-- ===== src/Paging/Tests.antt =====
-- dbx/paging/pagination.go on concrete requests.
use arcgo.Prelude.{ℕ, ◌-◌, ◌*◌, ◌+◌, ◌≤◌, ◌≡◌, refl, [], ◌∷◌, ltb, arith}
use Prim.Native.Nat.{min}
use arcgo.Prelude.Int.{pos, clamp}
use arcgo.Paging.{Request, max_int, int_lt, normalize, safe_offset, offset, new_result}
use arcgo.Paging.Bounds.{offset_lem, new_result_lem}

-- The third page of at most 10.
abbrev third : Request
third = record { page = pos 3; page_size = pos 50; max_page_size = pos 10 }

third_offset : offset third ≡ 20
unfolding offset safe_offset normalize int_lt
third_offset = refl

offset_example :
    offset third
    ≡ min ((clamp (normalize third).page - 1) * clamp (normalize third).page_size) max_int
offset_example = offset_lem third

new_result_example :
    (35
      ≤ (new_result {E = ℕ} (7 ∷ []) (pos 35) third).total_pages
        * clamp (normalize third).page_size)
    × ((new_result {E = ℕ} (7 ∷ []) (pos 35) third).total_pages * clamp (normalize third).page_size
        ≤ 35 + (clamp (normalize third).page_size - 1))
    × ((new_result {E = ℕ} (7 ∷ []) (pos 35) third).total_pages ≤ max_int)
    × ((new_result {E = ℕ} (7 ∷ []) (pos 35) third).has_next
        ≡ ltb (clamp (normalize third).page * clamp (normalize third).page_size) 35)
new_result_example = new_result_lem {E = ℕ} (7 ∷ []) 35 third (omega arith)
