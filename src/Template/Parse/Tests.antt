-- ===== src/Template/Parse/Tests.antt =====
-- Blocks, an end without a block, and a block without an end. A program is its text.
use arcgo.Prelude.{◌≡◌, refl, List, [], ◌∷◌, ◌↔◌, Option, some}
use arcgo.Template.Text.{
  Str, ok, err, unexpected_end, unclosed_block, missing_expression, trim_left, trim_right,
}
use arcgo.Template.Scan.{Token, token, text, directive}
use arcgo.Template.Parse.{
  parse_directive, Nodes, no_nodes, node, text_node, if_node, where_node, append_at, append_in,
  consume_all, build_list,
}
use arcgo.Template.Parse.Trees.{Reads}
use arcgo.Template.Parse.Complete.{build_list_iff}

abbrev pub compile_text : Str → Option Str
compile_text s = some s

abbrev end_token : Token
end_token = token directive (37 ∷ 101 ∷ 110 ∷ 100 ∷ [])

-- "%where", "%if x", "y", "%end", "%end", "z"
abbrev pub nested : List Token
nested =
    token directive (37 ∷ 119 ∷ 104 ∷ 101 ∷ 114 ∷ 101 ∷ [])
    ∷ token directive (37 ∷ 105 ∷ 102 ∷ 32 ∷ 120 ∷ [])
    ∷ token text (121 ∷ [])
    ∷ end_token
    ∷ end_token
    ∷ token text (122 ∷ [])
    ∷ []

abbrev pub nested_tree : Nodes Str
nested_tree =
    node
      (where_node
        (node (if_node (120 ∷ []) (120 ∷ []) (node (text_node (121 ∷ [])) no_nodes)) no_nodes))
      (node (text_node (122 ∷ [])) no_nodes)

pub nested_builds : build_list compile_text nested ≡ ok nested_tree
unfolding build_list consume_all append_at append_in parse_directive trim_left trim_right
nested_builds = refl

lone_end : build_list compile_text (end_token ∷ []) ≡ err unexpected_end
unfolding build_list consume_all append_at append_in parse_directive trim_left trim_right
lone_end = refl

no_end :
    build_list compile_text (token directive (37 ∷ 115 ∷ 101 ∷ 116 ∷ []) ∷ []) ≡ err unclosed_block
unfolding build_list consume_all append_at append_in parse_directive trim_left trim_right
no_end = refl

no_expression : parse_directive (37 ∷ 105 ∷ 102 ∷ []) ≡ err missing_expression
unfolding parse_directive trim_left trim_right
no_expression = refl

build_list_iff_example :
    (build_list compile_text nested ≡ ok nested_tree) ↔ Reads compile_text nested nested_tree
build_list_iff_example = build_list_iff compile_text nested nested_tree
