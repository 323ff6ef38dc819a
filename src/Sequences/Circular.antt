-- ===== src/Sequences/Circular.antt =====
-- The slices that collectionx/list/ring_buffer.go and deque.go use as circular arrays: logical
-- index `i` stands at `i % len(buf)`.
use native.Mathlib.Nat.{mod-add-mod, mod-eq_of_lt, mod-eq-sub-mod, mod-lt, mod-mod}
use native.Mathlib.Decide.{dec_lt}
use arcgo.Prelude.{
  ℕ, zero, suc, ◌+◌, ◌-◌, ◌%◌, ◌≤◌, ◌<◌, ◌≡◌, ◌≢◌, refl, sym, ap, ◌∙◌, List, [], ◌∷◌, ◌++◌, arith,
  length, get_or, set, length-set, get_or-set_self, get_or-set_ne,
}
use arcgo.Prelude.Classes.{Zero}
use mathlib.Core.Path.{ap₂}

-- A step of less than a round leaves the index.
step_ne : (r d c : ℕ) → r < c → 0 < d → d < c → (r + d) % c ≢ r
step_ne r d c h p q e = elim (dec_lt (r + d) c) [
  | yes k ↦ omega (arith, mod-eq_of_lt k)
  | no k ↦
      let past : c ≤ r + d = omega arith in
      let rest : r + d - c < c = omega arith in
      omega (arith, mod-eq-sub-mod past, mod-eq_of_lt rest)
]

pub mod_ne : (j k c : ℕ) → j < k → k < j + c → j % c ≢ k % c
mod_ne j k c h q e =
    let wraps : (j % c + (k - j)) % c ≡ j % c =
      mod-add-mod j c (k - j) ∙ ap (λ i. i % c) (omega arith) ∙ sym e in
    step_ne (j % c) (k - j) c (mod-lt j (omega arith)) (omega arith) (omega arith) wraps

module _ {ℓ} {A : Type ℓ} ⦃z : Zero A⦄ where
  -- `buf[i % len(buf)]`
  abbrev pub cell : List A → ℕ → A
  cell buf i = get_or buf (i % length buf) z.zero_value

  -- The `n` entries from logical index `h` on.
  unfoldable pub window : List A → ℕ → ℕ → List A
  window buf h zero = []
  window buf h (suc n) = cell buf h ∷ window buf (h + 1) n

  -- `for i := range n { out[i] = buf[(head+i)%len(buf)] }`, with `i` counting up.
  unfoldable pub read_loop : List A → ℕ → ℕ → ℕ → List A
  read_loop buf head i zero = []
  read_loop buf head i (suc n) = cell buf (head + i) ∷ read_loop buf head (suc i) n

  -- `for i := range n { buf[(head+i)%len(buf)] = zero }`
  unfoldable pub wipe_loop : List A → ℕ → ℕ → ℕ → List A
  wipe_loop buf head i zero = buf
  wipe_loop buf head i (suc n) =
      wipe_loop (set buf ((head + i) % length buf) z.zero_value) head (suc i) n

  pub read_loop-eq-window :
      (buf : List A) (head i n : ℕ) → read_loop buf head i n ≡ window buf (head + i) n
  unfolding read_loop window
  read_loop-eq-window buf head i zero = refl
  read_loop-eq-window buf head i (suc n) =
      ap (◌∷◌ (cell buf (head + i)))
        (read_loop-eq-window buf head (suc i) n ∙ ap (λ k. window buf k n) (omega arith))

  pub length-wipe_loop :
      (buf : List A) (head i n : ℕ) → length (wipe_loop buf head i n) ≡ length buf
  unfolding wipe_loop
  length-wipe_loop buf head i zero = refl
  length-wipe_loop buf head i (suc n) =
      length-wipe_loop (set buf ((head + i) % length buf) z.zero_value) head (suc i) n
      ∙ length-set buf _ z.zero_value

  pub window-none : (buf : List A) (h n : ℕ) → n ≡ 0 → window buf h n ≡ []
  unfolding window
  window-none buf h n e = ap (window buf h) e

  pub length-window : (buf : List A) (h n : ℕ) → length (window buf h n) ≡ n
  unfolding window
  length-window buf h zero = refl
  length-window buf h (suc n) = ap suc (length-window buf (h + 1) n)

  -- A whole round moves nothing.
  pub window-congr :
      (buf : List A) (h k n : ℕ) → h % length buf ≡ k % length buf → window buf h n ≡ window buf k n
  unfolding window
  window-congr buf h k zero e = refl
  window-congr buf h k (suc n) e = ap₂ ◌∷◌ (ap (λ i. get_or buf i z.zero_value) e) (
      window-congr buf (h + 1) (k + 1) n (
        sym (mod-add-mod h (length buf) 1)
        ∙ ap (λ i. (i + 1) % length buf) e
        ∙ mod-add-mod k (length buf) 1))

  pub window-suc_last :
      (buf : List A) (h n : ℕ) → window buf h (suc n) ≡ window buf h n ++ cell buf (h + n) ∷ []
  unfolding window
  window-suc_last buf h zero = ap (λ i. cell buf i ∷ []) (omega arith)
  window-suc_last buf h (suc n) = ap (◌∷◌ (cell buf h)) (
      window-suc_last buf (h + 1) n
      ∙ ap (λ i. window buf (h + 1) n ++ cell buf i ∷ []) (omega arith))

  -- A write outside the window changes nothing in it.
  pub window-set_ne :
      (buf : List A) (p h n : ℕ) (v : A)
      → ((j : ℕ) → h ≤ j → j < h + n → p ≢ j % length buf)
      → window (set buf p v) h n ≡ window buf h n
  unfolding window
  window-set_ne buf p h zero v f = refl
  window-set_ne buf p h (suc n) v f =
      ap₂ ◌∷◌
        (ap (λ c. get_or (set buf p v) (h % c) z.zero_value) (length-set buf p v)
          ∙ get_or-set_ne buf p (h % length buf) v z.zero_value (f h (omega arith) (omega arith)))
        (window-set_ne buf p (h + 1) n v (λ j a b. f j (omega arith) (omega arith)))

  -- The entry that was just written, at a position within the slice.
  pub cell-set_self :
      (buf : List A) (h : ℕ) (v : A) → 0 < length buf → cell (set buf (h % length buf) v) h ≡ v
  cell-set_self buf h v p =
      ap (λ c. get_or (set buf (h % length buf) v) (h % c) z.zero_value) (length-set buf _ v)
      ∙ get_or-set_self buf (h % length buf) v z.zero_value (mod-lt h p)

  -- Writing the entry behind the window appends it.
  pub window-push_back :
      (buf : List A) (h n : ℕ) (v : A)
      → n < length buf
      → window (set buf ((h + n) % length buf) v) h (suc n) ≡ window buf h n ++ v ∷ []
  window-push_back buf h n v p =
      window-suc_last _ h n
      ∙ ap₂ (λ xs x. xs ++ x ∷ [])
          (window-set_ne buf _ h n v
            (λ j a b e. mod_ne j (h + n) (length buf) b (omega arith) (sym e)))
          (cell-set_self buf (h + n) v (omega arith))

  -- Writing the entry in front of the window prepends it.
  pub window-push_front :
      (buf : List A) (h k n : ℕ) (v : A)
      → n < length buf
      → (k + 1) % length buf ≡ h % length buf
      → window (set buf (k % length buf) v) k (suc n) ≡ v ∷ window buf h n
  window-push_front buf h k n v p e =
      unfold window in
      ap₂ ◌∷◌ (cell-set_self buf k v (omega arith)) (
        window-set_ne buf _ (k + 1) n v
          (λ j a b f. mod_ne k j (length buf) (omega arith) (omega arith) f)
        ∙ window-congr buf (k + 1) h n e)

  -- Wiping the first entry leaves the others.
  pub window-pop_front :
      (buf : List A) (h n : ℕ) (v : A)
      → h < length buf
      → n < length buf
      → window (set buf h v) ((h + 1) % length buf) n ≡ window buf (h + 1) n
  window-pop_front buf h n v p q =
      window-congr (set buf h v) ((h + 1) % length buf) (h + 1) n
        (rw length-set (mod-mod (h + 1) (length buf)))
      ∙ window-set_ne buf h (h + 1) n v
          (λ j a b e. mod_ne h j (length buf) (omega arith) (omega arith) (mod-eq_of_lt p ∙ e))
