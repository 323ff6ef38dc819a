-- ===== src/Template/Parse.antt =====
-- dbx/sqltmplx/parse: the tokens of a template become a tree. `expr.Compile` is a parameter, from
-- the text of an expression to its program, if it compiles.
pub mod Directives
pub mod Trees
pub mod Build
pub mod Complete
pub mod Tests
use arcgo.Prelude.{
  ℕ, zero, suc, ◌+◌, ◌-◌, Bool, true, false, List, [], ◌∷◌, ◌++◌, Option, none, some, if◌then◌else◌,
  is_nil, length, nat_eqb, take,
}
use arcgo.Template.Text.{
  Str, Result, ok, err, stuck, ◌>>=◌, not_a_directive, missing_expression, unsupported_directive,
  not_compiled, unexpected_end, unclosed_block, trim_space, cut_prefix, str_eqb,
}
use arcgo.Template.Scan.{
  Token, token, text, directive, percent, if_word, where_word, set_word, end_word,
}

-- A `Directive` with the one pointer that is not nil.
pub data Directive : Type 0 where
  if_directive : Str → Directive
  where_directive set_directive end_directive : Directive

-- The regular expression puts `nil` in the place of each word `nil`, which changes nothing.
abbrev pub normalize_expr : Str → Str
normalize_expr s = trim_space s

abbrev pub if_expr : Option Str → Result Directive
if_expr none = err unsupported_directive
if_expr (some rest) =
    let expr_text = trim_space rest in
    if is_nil expr_text
    then err missing_expression
    else ok (if_directive (normalize_expr expr_text))

abbrev pub parse_word : Option Str → Result Directive
parse_word none = err not_a_directive
parse_word (some rest) =
    let normalized = trim_space rest in
    if str_eqb normalized where_word
    then ok where_directive
    else if str_eqb normalized set_word
    then ok set_directive
    else if str_eqb normalized end_word
    then ok end_directive
    else if_expr (cut_prefix if_word normalized)

unfoldable pub parse_directive : Str → Result Directive
parse_directive input = parse_word (cut_prefix percent (trim_space input))

-- A block's body is a list of its own; a nil list is the empty one.
mutual
  pub data Node (P : Type 0) : Type 0 where
    text_node : Str → Node P
    if_node : Str → P → Nodes P → Node P
    where_node set_node : Nodes P → Node P

  pub data Nodes (P : Type 0) : Type 0 where
    no_nodes : Nodes P
    node : Node P → Nodes P → Nodes P

pub data FrameKind : Type 0 where
  frame_root frame_if frame_where frame_set : FrameKind

-- The tree so far, with the stack of frames. The list that a frame's `out` points to is the body
-- of the last node in the list of the frame below, and the tree itself for the first frame.
pub record Building (P : Type 0) : Type 0 where
  pub nodes : Nodes P
  pub stack : List FrameKind

module _ {P : Type 0} where
  -- The last node in the list of the frame `depth` above the first one.
  unfoldable mutual
    pub append_at : ℕ → Nodes P → Node P → Nodes P
    append_at zero no_nodes n = node n no_nodes
    append_at zero (node m ms) n = node m (append_at zero ms n)
    append_at (suc depth) no_nodes n = no_nodes
    append_at (suc depth) (node m no_nodes) n = node (append_in depth m n) no_nodes
    append_at (suc depth) (node m (node m' ms)) n = node m (append_at (suc depth) (node m' ms) n)

    pub append_in : ℕ → Node P → Node P → Node P
    append_in depth (text_node s) n = text_node s
    append_in depth (if_node s p body) n = if_node s p (append_at depth body n)
    append_in depth (where_node body) n = where_node (append_at depth body n)
    append_in depth (set_node body) n = set_node (append_at depth body n)

  abbrev pub append_frame_node : Building P → Node P → Building P
  append_frame_node b n = record b { nodes = append_at (length b.stack - 1) b.nodes n }

  -- A node without a body yet, and the frame that fills it.
  abbrev pub push_block : Building P → Node P → FrameKind → Building P
  push_block b n kind =
      let b' = append_frame_node b n in record b' { stack = b'.stack ++ (kind ∷ []) }

  abbrev pub pop_frame : Building P → Result (Building P)
  pop_frame b =
      if nat_eqb (length b.stack) 1
      then err unexpected_end
      else ok (record b { stack = take (length b.stack - 1) b.stack })

  abbrev pub push_if : Building P → Str → Option P → Result (Building P)
  push_if b s none = err not_compiled
  push_if b s (some p) = ok (push_block b (if_node s p no_nodes) frame_if)

  abbrev pub closed : Building P → Result (Nodes P)
  closed b = if nat_eqb (length b.stack) 1 then ok b.nodes else err unclosed_block

module _ {P : Type 0} (compile : Str → Option P) where
  abbrev pub consume_directive : Building P → Directive → Result (Building P)
  consume_directive b (if_directive s) = push_if b s (compile s)
  consume_directive b where_directive = ok (push_block b (where_node no_nodes) frame_where)
  consume_directive b set_directive = ok (push_block b (set_node no_nodes) frame_set)
  consume_directive b end_directive = pop_frame b

  abbrev pub consume_token : Building P → Token → Result (Building P)
  consume_token b (token text v) = ok (append_frame_node b (text_node v))
  consume_token b (token directive v) = do d ← parse_directive v; consume_directive b d

  unfoldable pub consume_all : Building P → List Token → Result (Building P)
  consume_all b [] = ok b
  consume_all b (t ∷ ts) = do b' ← consume_token b t; consume_all b' ts

  unfoldable pub build_list : List Token → Result (Nodes P)
  build_list tokens = do
    b ← consume_all (record { nodes = no_nodes; stack = frame_root ∷ [] }) tokens
    closed b
