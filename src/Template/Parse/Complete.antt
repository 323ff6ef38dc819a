-- ===== src/Template/Parse/Complete.antt =====
-- dbx/sqltmplx/parse/build.go: BuildList accepts what spells a tree.
use mathlib.Core.List.{append_assoc, append-nil}
use arcgo.Prelude.{
  ℕ, zero, suc, ◌-◌, ◌≡◌, refl, sym, ap, ◌∙◌, ◌↔◌, false, List, [], ◌∷◌, ◌++◌, Option, arith,
  length, length-append, take, nat_eqb,
}
use arcgo.Template.Text.{Str, ok}
use arcgo.Template.Scan.{Token, token, text, directive}
use arcgo.Template.Parse.{
  Node, text_node, if_node, where_node, set_node, Nodes, no_nodes, node, Building, FrameKind,
  frame_root, append_at, append_in, consume_all, build_list,
}
use arcgo.Template.Parse.Trees.{
  Block, if_block, where_block, set_block, wrap, frame_of, join, join-no_nodes, join_assoc,
  append_at_first, append_at_last, Opens, Ends, Reads, nothing, text_first, block_first,
}
use arcgo.Template.Parse.Build.{build_sound}

take_snoc : (st : List FrameKind) (f : FrameKind) → take (length st) (st ++ (f ∷ [])) ≡ st
take_snoc [] f = refl
take_snoc (g ∷ st) f = ap (λ (t : List FrameKind). g ∷ t) (take_snoc st f)

module _ {P : Type 0} where
  abbrev append_all : ℕ → Nodes P → Nodes P → Nodes P
  append_all d root no_nodes = root
  append_all d root (node n ns) = append_all d (append_at d root n) ns

  append_all_first : (ns ms : Nodes P) → append_all 0 ns ms ≡ join ns ms
  append_all_first ns no_nodes = sym (join-no_nodes ns)
  append_all_first ns (node m ms) =
      rw append_at_first
        (append_all_first (join ns (node m no_nodes)) ms ∙ join_assoc ns (node m no_nodes) ms)

  -- A node that goes into the block that was put last.
  mutual
    unfolding append_at append_in

    append_inside :
        (d : ℕ) (root : Nodes P) (k : Block P) (ns : Nodes P) (n : Node P)
        → append_at (suc d) (append_at d root (wrap k ns)) n
          ≡ append_at d root (wrap k (append_at 0 ns n))
    append_inside zero root k ns n = rw (append_at_first, append_at_first, append_at_last) refl
    append_inside (suc d) no_nodes k ns n = refl
    append_inside (suc d) (node m no_nodes) k ns n =
        ap (λ (t : Node P). node t no_nodes) (append_inside_node d m k ns n)
    append_inside (suc d) (node m (node m' no_nodes)) k ns n =
        ap (λ (t : Nodes P). node m t) (append_inside (suc d) (node m' no_nodes) k ns n)
    append_inside (suc d) (node m (node m' (node m'' ms))) k ns n =
        ap (λ (t : Nodes P). node m t) (append_inside (suc d) (node m' (node m'' ms)) k ns n)

    append_inside_node :
        (d : ℕ) (m : Node P) (k : Block P) (ns : Nodes P) (n : Node P)
        → append_in (suc d) (append_in d m (wrap k ns)) n
          ≡ append_in d m (wrap k (append_at 0 ns n))
    append_inside_node d (text_node s) k ns n = refl
    append_inside_node d (if_node s p body) k ns n =
        ap (λ (t : Nodes P). if_node s p t) (append_inside d body k ns n)
    append_inside_node d (where_node body) k ns n =
        ap (λ (t : Nodes P). where_node t) (append_inside d body k ns n)
    append_inside_node d (set_node body) k ns n =
        ap (λ (t : Nodes P). set_node t) (append_inside d body k ns n)

  append_block :
      (d : ℕ) (root : Nodes P) (k : Block P) (ns body : Nodes P)
      → append_all (suc d) (append_at d root (wrap k ns)) body
        ≡ append_at d root (wrap k (append_all 0 ns body))
  append_block d root k ns no_nodes = refl
  append_block d root k ns (node m body) =
      rw (append_inside d root k ns m) (append_block d root k (append_at 0 ns m) body)

module _ {P : Type 0} (compile : Str → Option P) where
  abbrev building : Nodes P → List FrameKind → Building P
  building ns st = record { nodes = ns; stack = st }

  consume_open :
      (ns : Nodes P) (st : List FrameKind) (d : ℕ) (v : Str) (k : Block P) (ts : List Token)
      → length st ≡ suc d
      → Opens compile v k
      → consume_all compile (building ns st) (token directive v ∷ ts)
        ≡ consume_all compile
            (building (append_at d ns (wrap k no_nodes)) (st ++ (frame_of k ∷ [])))
            ts
  unfolding consume_all
  consume_open ns st d v (if_block s p) ts e (h, c) =
      let depth : length st - 1 ≡ d = omega (arith, e) in rw (h, c, depth) refl
  consume_open ns st d v where_block ts e h =
      let depth : length st - 1 ≡ d = omega (arith, e) in rw (h, depth) refl
  consume_open ns st d v set_block ts e h =
      let depth : length st - 1 ≡ d = omega (arith, e) in rw (h, depth) refl

  consume_text :
      (ns : Nodes P) (st : List FrameKind) (d : ℕ) (v : Str) (ts : List Token)
      → length st ≡ suc d
      → consume_all compile (building ns st) (token text v ∷ ts)
        ≡ consume_all compile (building (append_at d ns (text_node v)) st) ts
  unfolding consume_all
  consume_text ns st d v ts e = let depth : length st - 1 ≡ d = omega (arith, e) in rw depth refl

  consume_end :
      (ns : Nodes P) (st : List FrameKind) (d : ℕ) (w : Str) (f : FrameKind) (ts : List Token)
      → length st ≡ suc d
      → Ends compile w
      → consume_all compile (building ns (st ++ (f ∷ []))) (token directive w ∷ ts)
        ≡ consume_all compile (building ns st) ts
  unfolding consume_all
  consume_end ns st d w f ts e h =
      let size = length-append st (f ∷ []) in
      let inner : nat_eqb (length (st ++ (f ∷ []))) 1 ≡ false = ground (arith, e, size) in
      let below : length (st ++ (f ∷ [])) - 1 ≡ length st = omega (arith, size) in
      rw (h, inner, below, take_snoc st f) refl

  consume_read :
      {ts : List Token} {ms : Nodes P} (ns : Nodes P) (st : List FrameKind) (d : ℕ)
      (rest : List Token)
      → length st ≡ suc d
      → Reads compile ts ms
      → consume_all compile (building ns st) (ts ++ rest)
        ≡ consume_all compile (building (append_all d ns ms) st) rest
  consume_read ns st d rest e nothing = refl
  consume_read ns st d rest e (text_first {ts} v h) =
      consume_text ns st d v (ts ++ rest) e
      ∙ consume_read (append_at d ns (text_node v)) st d rest e h
  consume_read ns st d rest e (block_first {us} {ts} {body} v w k o end h hs) =
      let size = length-append st (frame_of k ∷ []) in
      rw append_assoc (
        consume_open ns st d v k _ e o
        ∙ consume_read (append_at d ns (wrap k no_nodes)) (st ++ (frame_of k ∷ [])) (suc d)
            (token directive w ∷ (ts ++ rest)) (omega (arith, e, size)) h
        ∙ consume_end _ st d w (frame_of k) (ts ++ rest) e end
        ∙ rw (append_block d ns k no_nodes body, append_all_first no_nodes body)
            (consume_read (append_at d ns (wrap k body)) st d rest e hs))

  build_complete :
      (ts : List Token) (ns : Nodes P) → Reads compile ts ns → build_list compile ts ≡ ok ns
  unfolding build_list
  build_complete ts ns h =
      let read = consume_read no_nodes (frame_root ∷ []) 0 [] refl h in
      rw (rw append-nil at read, append_all_first no_nodes ns) (unfold consume_all in refl)

  -- BuildList accepts exactly the tokens that spell a tree, with each block closed by an end, and
  -- returns that tree.
  pub build_list_iff :
      (ts : List Token) (ns : Nodes P) → (build_list compile ts ≡ ok ns) ↔ Reads compile ts ns
  build_list_iff ts ns = (build_sound compile ts ns, build_complete ts ns)
