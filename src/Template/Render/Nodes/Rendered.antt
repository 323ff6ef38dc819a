-- ===== src/Template/Render/Nodes/Rendered.antt =====
-- dbx/sqltmplx/render/renderer.go: what holds of every query that a template renders to.
use arcgo.Prelude.{ℕ, true, false, ◌++◌, Option}
use arcgo.Template.Text.{Str, Result, ok, err, stuck, ◌>>=◌}
use arcgo.Template.Parse.{Node, text_node, if_node, where_node, set_node, Nodes, no_nodes, node}
use arcgo.Template.Render.Bind.{View, State}
use arcgo.Template.Render.Bind.Ends.{IsCounted, Bound, bind_text-Bound}
use arcgo.Template.Render.Clean.{cleanup_where, cleanup_set}
use arcgo.Template.Render.Nodes.{
  Ran, failed, other_value, bool_value, eval_if, cleaned_block, if_block, render_nodes, render_node,
}

module _ {ℓ} {A : Type ℓ} where
  cleaned_block-Bound :
      (f : Str → Str) (r : Result (Str × State A)) → Bound r → Bound (cleaned_block f r)
  cleaned_block-Bound f (ok (text, st)) h = h
  cleaned_block-Bound f (err e) h = tt
  cleaned_block-Bound f stuck h = h

  if_block-Bound :
      (r : Ran) (st : State A) (body : Result (Str × State A))
      → IsCounted st
      → Bound body
      → Bound (if_block (eval_if r) st body)
  if_block-Bound failed st body h k = tt
  if_block-Bound other_value st body h k = tt
  if_block-Bound (bool_value true) st body h k = k
  if_block-Bound (bool_value false) st body h k = h

  -- One part behind another.
  abbrev then_rest : Str → Result (Str × State A) → Result (Str × State A)
  then_rest text r = r >>= (λ (b : Str × State A). ok (text ++ b.0, b.1))

  then_rest-Bound : (text : Str) (r : Result (Str × State A)) → Bound r → Bound (then_rest text r)
  then_rest-Bound text (ok (rest, st)) h = h
  then_rest-Bound text (err e) h = tt
  then_rest-Bound text stuck h = h

  both-Bound :
      (r : Result (Str × State A)) (go : State A → Result (Str × State A))
      → Bound r
      → ((st : State A) → IsCounted st → Bound (go st))
      → Bound (r >>= (λ (b : Str × State A). then_rest b.0 (go b.1)))
  both-Bound (ok (text, st)) go h k = then_rest-Bound text (go st) (k st h)
  both-Bound (err e) go h k = tt
  both-Bound stuck go h k = h

module _ {ℓ} {A : Type ℓ} {P : Type 0} (bind_var : ℕ → Str) (view : A → View A)
    (lookup : Str → Option A) (run : P → Ran) where
  mutual
    unfolding render_nodes render_node

    Nodes-Bound :
        (ns : Nodes P) (st : State A)
        → IsCounted st
        → Bound (render_nodes bind_var view lookup run ns st)
    Nodes-Bound no_nodes st h = h
    Nodes-Bound (node n ns) st h =
        both-Bound _ (render_nodes bind_var view lookup run ns) (Node-Bound n st h)
          (λ st' h'. Nodes-Bound ns st' h')

    Node-Bound :
        (n : Node P) (st : State A)
        → IsCounted st
        → Bound (render_node bind_var view lookup run n st)
    Node-Bound (text_node s) st h = bind_text-Bound bind_var view lookup s st h
    Node-Bound (if_node s p body) st h = if_block-Bound (run p) st _ h (Nodes-Bound body st h)
    Node-Bound (where_node body) st h = cleaned_block-Bound cleanup_where _ (Nodes-Bound body st h)
    Node-Bound (set_node body) st h = cleaned_block-Bound cleanup_set _ (Nodes-Bound body st h)

  -- Rendering the nodes of a template ends, and keeps the number of arguments equal to the number
  -- of the last bind variable.
  pub render_nodes-Bound :
      (ns : Nodes P) (st : State A)
      → IsCounted st
      → Bound (render_nodes bind_var view lookup run ns st)
  render_nodes-Bound ns st h = Nodes-Bound ns st h
