-- ===== src/Template/Render/Nodes/Tests.antt =====
-- A template with a condition and a block, and spaces in a string literal.
use arcgo.Prelude.{◌≡◌, refl, true, false, Bool, [], ◌∷◌, ◌++◌}
use arcgo.Template.Text.{Str, ok, trim_left, trim_right}
use arcgo.Template.Parse.{Nodes, no_nodes, node, text_node, if_node, where_node}
use arcgo.Template.Render.Bind.{bind_loop, bind_text}
use arcgo.Template.Render.Bind.Ends.{Bound}
use arcgo.Template.Render.Bind.Tests.{dollar, number_view, by_name, start}
use arcgo.Template.Render.Clean.{
  cut_leading_bool, where_prefix, cleanup_where, fields, fields_loop, compact_whitespace,
}
use arcgo.Template.Render.Clean.Words.{IsTidy, compact_whitespace_lem}
use arcgo.Template.Render.Nodes.{Ran, bool_value, render_nodes, render_node, render_list}
use arcgo.Template.Render.Nodes.Rendered.{render_nodes-Bound}

abbrev run_flag : Bool → Ran
run_flag b = bool_value b

-- "%where" with " and y" if false, and " AND  z" if true
abbrev block : Nodes Bool
block =
    node
      (where_node (
        node
          (if_node (120 ∷ []) false
            (node (text_node (32 ∷ 97 ∷ 110 ∷ 100 ∷ 32 ∷ 121 ∷ [])) no_nodes))
          (node
            (if_node (120 ∷ []) true
              (node (text_node (32 ∷ 65 ∷ 78 ∷ 68 ∷ 32 ∷ 32 ∷ 122 ∷ [])) no_nodes))
            no_nodes)))
      no_nodes

-- "WHERE z"
rendered :
    render_list dollar number_view by_name run_flag block ≡ ok (where_prefix ++ (122 ∷ []), [])
unfolding render_list render_nodes render_node bind_text bind_loop cleanup_where cut_leading_bool
    trim_left trim_right compact_whitespace fields_loop
rendered = refl

-- The spaces in "'a  b'" are compacted too.
literal_changed :
    compact_whitespace (39 ∷ 97 ∷ 32 ∷ 32 ∷ 98 ∷ 39 ∷ []) ≡ 39 ∷ 97 ∷ 32 ∷ 98 ∷ 39 ∷ []
unfolding compact_whitespace fields_loop
literal_changed = refl

render_nodes-Bound_example : Bound (render_nodes dollar number_view by_name run_flag block start)
render_nodes-Bound_example = render_nodes-Bound dollar number_view by_name run_flag block start refl

-- " 'a\n  b' " : the literal is compacted with the rest.
abbrev literal : Str
literal = 32 ∷ 39 ∷ 97 ∷ 10 ∷ 32 ∷ 32 ∷ 98 ∷ 39 ∷ 32 ∷ []

compact_whitespace_example :
    IsTidy (compact_whitespace literal) × (fields (compact_whitespace literal) ≡ fields literal)
compact_whitespace_example = compact_whitespace_lem literal
