-- ===== src/Template/Parse/Build.antt =====
-- dbx/sqltmplx/parse/build.go: the loop of BuildList over the tokens, in both directions.
use mathlib.Core.Path.{subst}
use mathlib.Core.List.{append_assoc, append-nil}
use arcgo.Prelude.{
  ℕ, zero, suc, ◌-◌, ◌≡◌, refl, true, false, List, [], ◌∷◌, ◌++◌, Option, none, some, arith, length,
  length-append, length-take, nat_eqb,
}
use arcgo.Template.Text.{Str, ok, bind_ok, ok_inj}
use arcgo.Template.Scan.{Token, token, text, directive}
use arcgo.Template.Parse.{
  Directive, if_directive, where_directive, set_directive, end_directive, parse_directive,
  text_node, Nodes, no_nodes, node, Building, append_at, push_block, pop_frame, push_if,
  consume_directive, consume_token, consume_all, closed, build_list,
}
use arcgo.Template.Parse.Trees.{
  Block, if_block, where_block, set_block, wrap, frame_of, join, append_at_first, append_at_last,
  Opens, Ends, Reads, nothing, text_first, block_first,
}

module _ {P : Type 0} (compile : Str → Option P) where
  Reads-append :
      {ts us : List Token} {ns ms : Nodes P}
      → Reads compile ts ns
      → Reads compile us ms
      → Reads compile (ts ++ us) (join ns ms)
  Reads-append nothing k = k
  Reads-append (text_first v h) k = text_first v (Reads-append h k)
  Reads-append (block_first v w b o e body h) k =
      rw append_assoc (block_first v w b o e body (Reads-append h k))

  -- The tokens read so far, with some blocks still open.
  data Spells : ℕ → List Token → Nodes P → Type 0 where
    no_open : {ts : List Token} {ns : Nodes P} → Reads compile ts ns → Spells 0 ts ns
    open_block :
        {d : ℕ} {ts us : List Token} {ns body : Nodes P} (v : Str) (k : Block P)
        → Reads compile ts ns
        → Opens compile v k
        → Spells d us body
        → Spells (suc d) (ts ++ (token directive v ∷ us)) (join ns (node (wrap k body) no_nodes))

  Spells-text :
      {d : ℕ} {ts : List Token} {ns : Nodes P} (v : Str)
      → Spells d ts ns
      → Spells d (ts ++ (token text v ∷ [])) (append_at d ns (text_node v))
  Spells-text v (no_open h) = rw append_at_first (no_open (Reads-append h (text_first v nothing)))
  Spells-text v (open_block w k h o s) =
      rw (append_at_last, append_assoc) (open_block w k h o (Spells-text v s))

  Spells-open :
      {d : ℕ} {ts : List Token} {ns : Nodes P} (v : Str) (k : Block P)
      → Opens compile v k
      → Spells d ts ns
      → Spells (suc d) (ts ++ (token directive v ∷ [])) (append_at d ns (wrap k no_nodes))
  Spells-open v k o (no_open h) = rw append_at_first (open_block v k h o (no_open nothing))
  Spells-open v k o (open_block w j h p s) =
      rw (append_at_last, append_assoc) (open_block w j h p (Spells-open v k o s))

  Spells-end :
      (d : ℕ) {ts : List Token} {ns : Nodes P} (w : Str)
      → Ends compile w
      → Spells (suc d) ts ns
      → Spells d (ts ++ (token directive w ∷ [])) ns
  Spells-end zero w e (open_block v k h o (no_open s)) =
      rw append_assoc (no_open (Reads-append h (block_first v w k o e s nothing)))
  Spells-end (suc d) w e (open_block v k h o s) =
      rw append_assoc (open_block v k h o (Spells-end d w e s))

  -- The frames count the open blocks.
  abbrev Holds : List Token → Building P → Type 0
  Holds ts b = (d : ℕ) × (length b.stack ≡ suc d) × Spells d ts b.nodes

  push_block-Holds :
      (ts : List Token) (b : Building P) (v : Str) (k : Block P)
      → Opens compile v k
      → Holds ts b
      → Holds (ts ++ (token directive v ∷ [])) (push_block b (wrap k no_nodes) (frame_of k))
  push_block-Holds ts b v k o (d, e, s) =
      let depth : length b.stack - 1 ≡ d = omega (arith, e) in
      (
        suc d,
        omega (arith, e, length-append b.stack (frame_of k ∷ [])),
        rw depth (Spells-open v k o s),
      )

  push_if-Holds :
      (ts : List Token) (b : Building P) (v s : Str) (o : Option P) {b' : Building P}
      → compile s ≡ o
      → parse_directive v ≡ ok (if_directive s)
      → Holds ts b
      → push_if b s o ≡ ok b'
      → Holds (ts ++ (token directive v ∷ [])) b'
  push_if-Holds ts b v s none c p h e = cc
  push_if-Holds ts b v s (some q) c p h e =
      subst (Holds _) (ok_inj e) (push_block-Holds ts b v (if_block s q) (p, c) h)

  pop_frame-Holds :
      (ts : List Token) (b : Building P) (w : Str) {b' : Building P}
      → Ends compile w
      → Holds ts b
      → pop_frame b ≡ ok b'
      → Holds (ts ++ (token directive w ∷ [])) b'
  pop_frame-Holds ts b w {b'} end (zero, e, s) h =
      let root : nat_eqb (length b.stack) 1 ≡ true = ground (arith, e) in cc (rw root at h)
  pop_frame-Holds ts b w {b'} end (suc d, e, s) h =
      let inner : nat_eqb (length b.stack) 1 ≡ false = ground (arith, e) in
      let depth : length b.stack - 1 ≡ suc d = omega (arith, e) in
      subst (Holds _) (ok_inj (rw inner at h))
        (d, omega (arith, e, length-take (length b.stack - 1) b.stack), Spells-end d w end s)

  consume_directive-Holds :
      (ts : List Token) (b : Building P) (v : Str) (d : Directive) {b' : Building P}
      → parse_directive v ≡ ok d
      → Holds ts b
      → consume_directive compile b d ≡ ok b'
      → Holds (ts ++ (token directive v ∷ [])) b'
  consume_directive-Holds ts b v (if_directive s) p h e =
      push_if-Holds ts b v s (compile s) refl p h e
  consume_directive-Holds ts b v where_directive p h e =
      subst (Holds _) (ok_inj e) (push_block-Holds ts b v where_block p h)
  consume_directive-Holds ts b v set_directive p h e =
      subst (Holds _) (ok_inj e) (push_block-Holds ts b v set_block p h)
  consume_directive-Holds ts b v end_directive p h e = pop_frame-Holds ts b v p h e

  consume_token-Holds :
      (ts : List Token) (b : Building P) (t : Token) {b' : Building P}
      → Holds ts b
      → consume_token compile b t ≡ ok b'
      → Holds (ts ++ (t ∷ [])) b'
  consume_token-Holds ts b (token text v) (d, e, s) h =
      let depth : length b.stack - 1 ≡ d = omega (arith, e) in
      subst (Holds _) (ok_inj h) (d, e, rw depth (Spells-text v s))
  consume_token-Holds ts b (token directive v) h e =
      let (d, p, e') = bind_ok (parse_directive v) (consume_directive compile b) e in
      consume_directive-Holds ts b v d p h e'

  consume_all-Holds :
      (ts us : List Token) (b : Building P) {b' : Building P}
      → Holds ts b
      → consume_all compile b us ≡ ok b'
      → Holds (ts ++ us) b'
  unfolding consume_all
  consume_all-Holds ts [] b h e = rw append-nil (subst (Holds ts) (ok_inj e) h)
  consume_all-Holds ts (u ∷ us) b {b' = c} h e =
      let (b', e1, e2) = bind_ok (consume_token compile b u) (λ b'. consume_all compile b' us) e in
      subst (λ t. Holds t c) (append_assoc ts (u ∷ []) us)
        (consume_all-Holds (ts ++ (u ∷ [])) us b' (consume_token-Holds ts b u h e1) e2)

  Spells-none : {ts : List Token} {ns : Nodes P} → Spells 0 ts ns → Reads compile ts ns
  Spells-none (no_open h) = h

  closed-Holds :
      (ts : List Token) (b : Building P) {ns : Nodes P}
      → Holds ts b
      → closed b ≡ ok ns
      → Reads compile ts ns
  closed-Holds ts b (zero, e, s) h =
      let root : nat_eqb (length b.stack) 1 ≡ true = ground (arith, e) in
      subst (Reads compile ts) (ok_inj (rw root at h)) (Spells-none s)
  closed-Holds ts b (suc d, e, s) h =
      let inner : nat_eqb (length b.stack) 1 ≡ false = ground (arith, e) in cc (rw inner at h)

  pub build_sound :
      (ts : List Token) (ns : Nodes P) → build_list compile ts ≡ ok ns → Reads compile ts ns
  unfolding build_list
  build_sound ts ns e =
      let (b, e1, e2) = bind_ok (consume_all compile _ ts) closed e in
      closed-Holds ts b (consume_all-Holds [] ts _ (0, refl, no_open nothing) e1) e2
