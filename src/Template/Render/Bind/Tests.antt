-- ===== src/Template/Render/Bind/Tests.antt =====
-- Placeholders over numbers, with `$n` for the n-th bind variable, and a text without any.
use arcgo.Prelude.{ℕ, ◌+◌, ◌≡◌, refl, [], ◌∷◌, Option, none, some, nat_eqb, if◌then◌else◌}
use arcgo.Template.Text.{
  Str, ok, err, parameter_not_found, missing_literal, split_at, trim_left, trim_right, str_eqb,
}
use arcgo.Template.Render.Sample.{
  skip_while, quoted_loop, skip_balanced, skip_loop, cast_loop, skip_expr_suffixes,
  skip_scalar_token, skip_placeholder_sample,
}
use arcgo.Template.Render.Bind.Placed.{Placed, bind_text-Placed}
use arcgo.Template.Render.Skips.{Below, skip_placeholder_sample-Below}
use arcgo.Template.Render.Bind.{
  View, other_kind, sequence, pointer, State, is_param_path, bind_comment_placeholder, bind_loop,
  bind_text,
}

abbrev pub dollar : ℕ → Str
dollar n = 36 ∷ (48 + n) ∷ []

-- 100 stands for a pointer to the slice of two numbers.
abbrev pub number_view : ℕ → View ℕ
number_view n = if nat_eqb n 100 then pointer (sequence (1 ∷ 2 ∷ [])) else other_kind

-- The parameter `a` is 7, and `l` is the slice.
abbrev pub by_name : Str → Option ℕ
by_name s = if str_eqb s (97 ∷ []) then some 7 else if str_eqb s (108 ∷ []) then some 100 else none

abbrev pub start : State ℕ
start = record { args = []; bind_n = 0 }

-- "x=/*a*/1 "
abbrev pub scalar_text : Str
scalar_text = 120 ∷ 61 ∷ 47 ∷ 42 ∷ 97 ∷ 42 ∷ 47 ∷ 49 ∷ 32 ∷ []

scalar :
    bind_text dollar number_view by_name scalar_text start
    ≡ ok (120 ∷ 61 ∷ 36 ∷ 49 ∷ 32 ∷ [], record { args = 7 ∷ []; bind_n = 1 })
unfolding bind_text bind_loop bind_comment_placeholder split_at trim_left trim_right is_param_path
    skip_placeholder_sample skip_scalar_token skip_while skip_expr_suffixes skip_loop
scalar = refl

-- "/*l*/(0)"
spread :
    bind_text dollar number_view by_name (47 ∷ 42 ∷ 108 ∷ 42 ∷ 47 ∷ 40 ∷ 48 ∷ 41 ∷ []) start
    ≡ ok (36 ∷ 49 ∷ 44 ∷ 32 ∷ 36 ∷ 50 ∷ [], record { args = 1 ∷ 2 ∷ []; bind_n = 2 })
unfolding bind_text bind_loop bind_comment_placeholder split_at trim_left trim_right is_param_path
    skip_placeholder_sample skip_balanced skip_while skip_expr_suffixes skip_loop
spread = refl

-- "/*b*/1" and "/*a*/" without a literal
not_found :
    bind_text dollar number_view by_name (47 ∷ 42 ∷ 98 ∷ 42 ∷ 47 ∷ 49 ∷ []) start
    ≡ err parameter_not_found
unfolding bind_text bind_loop bind_comment_placeholder split_at trim_left trim_right is_param_path
not_found = refl

no_literal :
    bind_text dollar number_view by_name (47 ∷ 42 ∷ 97 ∷ 42 ∷ 47 ∷ []) start ≡ err missing_literal
unfolding bind_text bind_loop bind_comment_placeholder split_at trim_left trim_right is_param_path
no_literal = refl

-- "'a''b'::int[] c" leaves " c"
suffixes :
    skip_placeholder_sample
      (39 ∷ 97 ∷ 39 ∷ 39 ∷ 98 ∷ 39 ∷ 58 ∷ 58 ∷ 105 ∷ 110 ∷ 116 ∷ 91 ∷ 93 ∷ 32 ∷ 99 ∷ [])
    ≡ ok (32 ∷ 99 ∷ [])
unfolding skip_placeholder_sample quoted_loop skip_expr_suffixes skip_loop trim_left cast_loop
suffixes = refl

skip_placeholder_sample-Below_example : Below 3 (skip_placeholder_sample (40 ∷ 49 ∷ 41 ∷ []))
skip_placeholder_sample-Below_example = skip_placeholder_sample-Below (40 ∷ 49 ∷ 41 ∷ [])

bind_text-Placed_example :
    Placed dollar number_view by_name
      (47 ∷ 42 ∷ 108 ∷ 42 ∷ 47 ∷ 40 ∷ 48 ∷ 41 ∷ [])
      start
      (36 ∷ 49 ∷ 44 ∷ 32 ∷ 36 ∷ 50 ∷ [])
      (record { args = 1 ∷ 2 ∷ []; bind_n = 2 })
bind_text-Placed_example = bind_text-Placed dollar number_view by_name _ _ start _ spread
