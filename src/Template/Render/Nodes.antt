-- ===== src/Template/Render/Nodes.antt =====
-- dbx/sqltmplx/render/renderer.go: the nodes of a template in their order. `run` is what running a
-- compiled expression on the parameters gives.
pub mod Rendered
mod Tests
use arcgo.Prelude.{ℕ, Bool, true, false, List, [], ◌∷◌, ◌++◌, Option, if◌then◌else◌, is_nil}
use arcgo.Template.Text.{Str, Result, ok, err, stuck, ◌>>=◌, run_failed, not_bool}
use arcgo.Template.Parse.{Node, text_node, if_node, where_node, set_node, Nodes, no_nodes, node}
use arcgo.Template.Render.Bind.{View, State, bind_text}
use arcgo.Template.Render.Clean.{cleanup_where, cleanup_set, compact_whitespace}

pub data Ran : Type 0 where
  failed other_value : Ran
  bool_value : Bool → Ran

abbrev pub eval_if : Ran → Result Bool
eval_if failed = err run_failed
eval_if other_value = err not_bool
eval_if (bool_value b) = ok b

-- `renderCleanedBlock`, behind the rendering of the body.
abbrev pub spaced : Str → Str
spaced cleaned = if is_nil cleaned then [] else 32 ∷ (cleaned ++ (32 ∷ []))

module _ {ℓ} {A : Type ℓ} where
  abbrev pub cleaned_block : (Str → Str) → Result (Str × State A) → Result (Str × State A)
  cleaned_block cleanup r = do (text, st) ← r; ok (spaced (cleanup text), st)

  -- `if` a block is on, its body is what is rendered.
  abbrev pub if_block : Result Bool → State A → Result (Str × State A) → Result (Str × State A)
  if_block (ok true) st body = body
  if_block (ok false) st body = ok ([], st)
  if_block (err e) st body = err e
  if_block stuck st body = stuck

module _ {ℓ} {A : Type ℓ} {P : Type 0} (bind_var : ℕ → Str) (view : A → View A)
    (lookup : Str → Option A) (run : P → Ran) where
  unfoldable mutual
    pub render_nodes : Nodes P → State A → Result (Str × State A)
    render_nodes no_nodes st = ok ([], st)
    render_nodes (node n ns) st = do
      (text, st') ← render_node n st
      (rest, st'') ← render_nodes ns st'
      ok (text ++ rest, st'')

    pub render_node : Node P → State A → Result (Str × State A)
    render_node (text_node s) st = bind_text bind_var view lookup s st
    render_node (if_node s p body) st = if_block (eval_if (run p)) st (render_nodes body st)
    render_node (where_node body) st = cleaned_block cleanup_where (render_nodes body st)
    render_node (set_node body) st = cleaned_block cleanup_set (render_nodes body st)

  -- The query with its arguments.
  unfoldable pub render_list : Nodes P → Result (Str × List A)
  render_list nodes = do
    (query, st) ← render_nodes nodes (record { args = []; bind_n = 0 })
    ok (compact_whitespace query, st.args)
