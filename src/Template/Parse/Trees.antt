-- ===== src/Template/Parse/Trees.antt =====
-- dbx/sqltmplx/parse/build.go: the trees that tokens spell, and nodes put into the open block.
use arcgo.Prelude.{ℕ, suc, ◌≡◌, refl, ap, List, [], ◌∷◌, ◌++◌, Option, some}
use arcgo.Template.Text.{Str, ok}
use arcgo.Template.Scan.{Token, token, text, directive}
use arcgo.Template.Parse.{
  if_directive, where_directive, set_directive, end_directive, parse_directive, Node, text_node,
  if_node, where_node, set_node, Nodes, no_nodes, node, FrameKind, frame_if, frame_where, frame_set,
  append_at, append_in,
}

-- What opens a block.
pub data Block (P : Type 0) : Type 0 where
  if_block : Str → P → Block P
  where_block set_block : Block P

module _ {P : Type 0} where
  abbrev pub wrap : Block P → Nodes P → Node P
  wrap (if_block s p) body = if_node s p body
  wrap where_block body = where_node body
  wrap set_block body = set_node body

  abbrev pub frame_of : Block P → FrameKind
  frame_of (if_block s p) = frame_if
  frame_of where_block = frame_where
  frame_of set_block = frame_set

  abbrev pub join : Nodes P → Nodes P → Nodes P
  join no_nodes ms = ms
  join (node n ns) ms = node n (join ns ms)

  pub join-no_nodes : (ns : Nodes P) → join ns no_nodes ≡ ns
  join-no_nodes no_nodes = refl
  join-no_nodes (node n ns) = ap (λ (t : Nodes P). node n t) (join-no_nodes ns)

  pub join_assoc : (ns ms ks : Nodes P) → join (join ns ms) ks ≡ join ns (join ms ks)
  join_assoc no_nodes ms ks = refl
  join_assoc (node n ns) ms ks = ap (λ (t : Nodes P). node n t) (join_assoc ns ms ks)

  append_in-wrap :
      (d : ℕ) (k : Block P) (body : Nodes P) (n : Node P)
      → append_in d (wrap k body) n ≡ wrap k (append_at d body n)
  unfolding append_in
  append_in-wrap d (if_block s p) body n = refl
  append_in-wrap d where_block body n = refl
  append_in-wrap d set_block body n = refl

  -- In the first frame a node goes behind the others, and in a deeper one into the last block.
  pub append_at_first : (ns : Nodes P) (n : Node P) → append_at 0 ns n ≡ join ns (node n no_nodes)
  unfolding append_at
  append_at_first no_nodes n = refl
  append_at_first (node m ns) n = ap (λ (t : Nodes P). node m t) (append_at_first ns n)

  pub append_at_last :
      (d : ℕ) (ns : Nodes P) (k : Block P) (body : Nodes P) (n : Node P)
      → append_at (suc d) (join ns (node (wrap k body) no_nodes)) n
        ≡ join ns (node (wrap k (append_at d body n)) no_nodes)
  unfolding append_at
  append_at_last d no_nodes k body n =
      ap (λ (t : Node P). node t no_nodes) (append_in-wrap d k body n)
  append_at_last d (node m no_nodes) k body n =
      ap (λ (t : Nodes P). node m t) (append_at_last d no_nodes k body n)
  append_at_last d (node m (node m' ns)) k body n =
      ap (λ (t : Nodes P). node m t) (append_at_last d (node m' ns) k body n)

module _ {P : Type 0} (compile : Str → Option P) where
  -- A directive that opens a block, and one that ends it.
  abbrev pub Opens : Str → Block P → Type 0
  Opens v (if_block s p) = (parse_directive v ≡ ok (if_directive s)) × (compile s ≡ some p)
  Opens v where_block = parse_directive v ≡ ok where_directive
  Opens v set_block = parse_directive v ≡ ok set_directive

  abbrev pub Ends : Str → Type 0
  Ends v = parse_directive v ≡ ok end_directive

  -- The tokens of a tree: texts, and blocks between the directive that opens one and the next end.
  pub data Reads : List Token → Nodes P → Type 0 where
    nothing : Reads [] no_nodes
    text_first :
        {ts : List Token} {ns : Nodes P} (v : Str)
        → Reads ts ns
        → Reads (token text v ∷ ts) (node (text_node v) ns)
    block_first :
        {us ts : List Token} {body ns : Nodes P} (v w : Str) (k : Block P)
        → Opens v k
        → Ends w
        → Reads us body
        → Reads ts ns
        → Reads (token directive v ∷ (us ++ (token directive w ∷ ts))) (node (wrap k body) ns)
