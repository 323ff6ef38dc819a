-- ===== src/Template/Render/Bind.antt =====
-- dbx/sqltmplx/render/bind.go: the placeholders of a text become bind variables. Parameter values
-- are of any type: `lookup` is `lookupValue` on the parameters at hand, `view` what reflection
-- says of a value, and `bind_var` the dialect's `BindVar`.
pub mod Ends
pub mod Given
pub mod Placed
pub mod Tests
use arcgo.Prelude.{
  ℕ, zero, suc, ◌+◌, ◌-◌, Bool, true, false, ◌&&◌, ◌||◌, not, List, [], ◌∷◌, ◌++◌, Option, none,
  some, if◌then◌else◌, leb, nat_eqb, is_nil, is_some, length,
}
use arcgo.Template.Text.{
  Str, Result, ok, err, stuck, ◌>>=◌, is_space, trim_left, trim_space, split_at, cut_prefix,
  unterminated_sql_comment, missing_literal, parameter_not_found, spread_empty, spread_type,
}
use arcgo.Template.Scan.{percent}
use arcgo.Template.Render.Sample.{
  is_letter, is_digit, skip_placeholder_sample, looks_like_collection_sample,
}

-- A value as reflection shows it: invalid, a pointer, a slice or array, or something else.
pub data View {ℓ} (A : Type ℓ) : Type ℓ where
  invalid nil_pointer other_kind : View A
  pointer : View A → View A
  sequence : List A → View A

pub record State {ℓ} (A : Type ℓ) : Type ℓ where
  pub args : List A
  pub bind_n : ℕ

-- On bytes; a letter or digit beyond Latin-1, which the source takes as a rune, is refused here.
abbrev is_param_char : Bool → Bool → ℕ → Bool
is_param_char first last c =
    if nat_eqb c 46 then not first && not last else nat_eqb c 95 || is_letter c || is_digit c

abbrev param_path_loop : Bool → Str → Bool
param_path_loop first [] = true
param_path_loop first (c ∷ s) = is_param_char first (is_nil s) c && param_path_loop false s

unfoldable pub is_param_path : Str → Bool
is_param_path s = not (is_nil s) && param_path_loop true s

abbrev starts_spread : Str → Bool
starts_spread [] = false
starts_spread (c ∷ s) = nat_eqb c 40

module _ {ℓ} {A : Type ℓ} where
  abbrev pub spread_value : View A → Result (List A)
  spread_value invalid = err spread_empty
  spread_value nil_pointer = err spread_empty
  spread_value other_kind = err spread_type
  spread_value (pointer v) = spread_value v
  spread_value (sequence []) = err spread_empty
  spread_value (sequence (a ∷ as')) = ok (a ∷ as')

  abbrev pub found_param : Option A → Result A
  found_param none = err parameter_not_found
  found_param (some a) = ok a

  abbrev pub bind_next :
      Str
      → ℕ
      → Str
      → State A
      → Option (Str × Str × State A)
      → (Str → Str → State A → Result (Str × State A))
      → Result (Str × State A)
  bind_next out c s st none go = go (out ++ (c ∷ [])) s st
  bind_next out c s st (some (text, rest, st')) go = go (out ++ text) rest st'

module _ {ℓ} {A : Type ℓ} (bind_var : ℕ → Str) where
  -- `nextBind`, and the argument for it.
  abbrev pub bind_one : A → State A → Str × State A
  bind_one a st =
      let n = st.bind_n + 1 in (bind_var n, record { args = st.args ++ (a ∷ []); bind_n = n })

  abbrev pub bind_items : Bool → List A → State A → Str × State A
  bind_items first [] st = ([], st)
  bind_items first (a ∷ items) st =
      let (bind, st') = bind_one a st in
      let (rest, st'') = bind_items false items st' in
      ((if first then bind else 44 ∷ 32 ∷ bind) ++ rest, st'')

module _ {ℓ} {A : Type ℓ} (bind_var : ℕ → Str) (view : A → View A) (lookup : Str → Option A) where
  abbrev pub bind_value : A → Bool → State A → Result (Str × State A)
  bind_value a false st = ok (bind_one bind_var a st)
  bind_value a true st = do items ← spread_value (view a); ok (bind_items bind_var true items st)

  abbrev pub bind_param : Str → Bool → State A → Result (Str × State A)
  bind_param name spread st = do a ← found_param (lookup name); bind_value a spread st

  -- The literal is at `start`, behind the comment and some spaces.
  abbrev pub bind_sample : Str → Str → State A → Result (Option (Str × Str × State A))
  bind_sample raw [] st = err missing_literal
  bind_sample raw (c ∷ s) st =
      let start = c ∷ s in
      do
        (text, st') ← bind_param raw (starts_spread start || looks_like_collection_sample start) st
        rest ← skip_placeholder_sample start
        ok (some (text, rest, st'))

  abbrev pub bind_comment : Option (Str × Str) → State A → Result (Option (Str × Str × State A))
  bind_comment none st = err unterminated_sql_comment
  bind_comment (some (body, rest)) st =
      let raw = trim_space body in
      if is_nil raw || is_some (cut_prefix percent raw) || not (is_param_path raw)
      then ok none
      else bind_sample raw (trim_left rest) st

  -- `bindCommentPlaceholder`, from behind `/*` on; `none` where the comment is not handled.
  unfoldable pub bind_comment_placeholder : Str → State A → Result (Option (Str × Str × State A))
  bind_comment_placeholder s st = bind_comment (split_at 42 47 s) st

  unfoldable pub bind_loop : ℕ → Str → Str → State A → Result (Str × State A)
  bind_loop fuel out [] st = ok (out, st)
  bind_loop zero out (c ∷ s) st = stuck
  bind_loop (suc fuel) out (c ∷ []) st = ok (out ++ (c ∷ []), st)
  bind_loop (suc fuel) out (c ∷ d ∷ s) st =
      if nat_eqb c 47 && nat_eqb d 42
      then (do
        handled ← bind_comment_placeholder s st
        bind_next out c (d ∷ s) st handled (bind_loop fuel))
      else bind_loop fuel (out ++ (c ∷ [])) (d ∷ s) st

  -- A round takes a byte at least.
  unfoldable pub bind_text : Str → State A → Result (Str × State A)
  bind_text input st = bind_loop (length input) [] input st
