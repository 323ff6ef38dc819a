-- ===== src/Mapping/BiMap/Laws.antt =====
-- collectionx/mapping/bimap.go: the two maps stay inverse to each other, and what each method does
-- to the pairs.
use arcgo.Prelude.{
  ◌≡◌, refl, sym, ◌∙◌, Option, none, some, Bool, false, if◌then◌else◌, is_some, Option-cases, inl,
  inr, arith,
}
use arcgo.Prelude.Classes.{Comparable}
use arcgo.Mapping.GoMap.{IsMap, lookup}
use arcgo.Mapping.Map
use arcgo.Mapping.Map.{Map}
use arcgo.Mapping.Map.Laws.{set_lem, delete_lem}
use arcgo.Mapping.BiMap.{
  BiMap, new_bi_map, put, get_by_key, get_by_value, delete_by_key, delete_by_value, forget,
}

module _ {ℓ} {K : Type ℓ} ⦃c : Comparable K⦄ where
  -- Whether an optional entry is there and is the one.
  abbrev pub holds : Option K → K → Bool
  holds none x = false
  holds (some k) x = c.same k x

  forget_lem {κ} :
      {V : Type κ} (m : Map K V) (old : Option K)
      → IsMap m.items
      → IsMap (forget m old).items
        × ((x : K) → Map.get (forget m old) x ≡ (if holds old x then none else Map.get m x))
  unfolding forget
  forget_lem m none h = (h, λ x. refl)
  forget_lem m (some k) h = let (r, valid, acts) = delete_lem m k h in (valid, acts)

module _ {ℓ κ} {K : Type ℓ} {V : Type κ} ⦃c : Comparable K⦄ ⦃d : Comparable V⦄ where
  -- Each map holds exactly the pairs of the other, turned round.
  pub record IsOneToOne (m : BiMap K V) : Type (ℓ ⊔ κ) where
    pub keys_once : IsMap m.kv.items
    pub values_once : IsMap m.vk.items
    pub forth : (k : K) (v : V) → get_by_key m k ≡ some v → get_by_value m v ≡ some k
    pub back : (k : K) (v : V) → get_by_value m v ≡ some k → get_by_key m k ≡ some v

  -- What Put makes of the two partial functions.
  module _ (f : K → Option V) (g : V → Option K) (k : K) (v : V) where
    abbrev g1 : V → Option K
    g1 y = if holds (f k) y then none else g y

    abbrev f1 : K → Option V
    f1 x = if holds (g1 v) x then none else f x

  module _ (f : K → Option V) (g : V → Option K) (k : K) (v : V)
      (forth : (x : K) (y : V) → f x ≡ some y → g y ≡ some x)
      (back : (x : K) (y : V) → g y ≡ some x → f x ≡ some y) where
    forth_put :
        (x : K) (y : V)
        → (if c.same k x then some v else f1 f g k v x) ≡ some y
        → (if d.same v y then some k else g1 f g k v y) ≡ some x
    forth_put x y e = grind (
      arith,
      forth x y,
      forth k v,
      forth k y,
      c.same_sound k x,
      d.same_sound v y,
      c.same_refl,
      d.same_refl,
    )

    back_put :
        (x : K) (y : V)
        → (if d.same v y then some k else g1 f g k v y) ≡ some x
        → (if c.same k x then some v else f1 f g k v x) ≡ some y
    back_put x y e = grind (
      arith,
      back x y,
      back x v,
      back k y,
      forth k v,
      c.same_sound k x,
      d.same_sound v y,
      c.same_refl,
      d.same_refl,
    )

    drops :
        (x : K)
        → (if c.same k x then some v else f1 f g k v x)
          ≡ (if c.same k x then some v else if holds (f x) v then none else f x)
    drops x = grind (
      arith,
      back x v,
      forth x v,
      back k v,
      forth k v,
      c.same_sound k x,
      c.same_refl,
      d.same_refl,
      d.same_sound,
    )

  -- On a one-to-one map, Put keeps the map one-to-one, binds the key to the value, drops whichever
  -- key had the value, and leaves every other pair.
  pub put_pair_lem :
      (m : BiMap K V) (k : K) (v : V)
      → IsOneToOne m
      → IsOneToOne (put m k v)
        × ((x : K)
            → get_by_key (put m k v) x ≡ (
                if c.same k x
                then some v
                else if holds (get_by_key m x) v
                then none
                else get_by_key m x))
  unfolding put get_by_key get_by_value
  put_pair_lem m k v h =
      let (valid_vk, acts_vk) = forget_lem m.vk (Map.get m.kv k) h.values_once in
      let vk = forget m.vk (Map.get m.kv k) in
      let (valid_kv, acts_kv) = forget_lem m.kv (Map.get vk v) h.keys_once in
      let kv = forget m.kv (Map.get vk v) in
      let (valid_vk', acts_vk') = set_lem vk v k valid_vk in
      let (valid_kv', acts_kv') = set_lem kv k v valid_kv in
      let f = Map.get m.kv in
      let g = Map.get m.vk in
      let value : (x : K)
          → Map.get (Map.set kv k v) x ≡ (if c.same k x then some v else f1 f g k v x) =
        λ x. rw (acts_kv' x, acts_kv x, acts_vk v) refl in
      let key : (y : V)
          → Map.get (Map.set vk v k) y ≡ (if d.same v y then some k else g1 f g k v y) =
        λ y. rw (acts_vk' y, acts_vk y) refl in
      (
        record {
          keys_once = valid_kv';
          values_once = valid_vk';
          forth = λ x y e. key y ∙ forth_put f g k v h.forth h.back x y (sym (value x) ∙ e);
          back = λ x y e. value x ∙ back_put f g k v h.forth h.back x y (sym (key y) ∙ e);
        },
        λ x. value x ∙ drops f g k v h.forth h.back x,
      )

  pub new_bi_map-IsOneToOne : IsOneToOne new_bi_map
  unfolding get_by_key get_by_value Map.get lookup
  new_bi_map-IsOneToOne = record {
    keys_once = tt;
    values_once = tt;
    forth = λ k v e. cc;
    back = λ k v e. cc;
  }

  -- Both deletes take the pair out of both maps.
  deleted :
      (m : BiMap K V) (k : K) (v : V)
      → IsOneToOne m
      → get_by_key m k ≡ some v
      → let m' : BiMap K V = record { kv = (Map.delete m.kv k).0; vk = (Map.delete m.vk v).0 } in
        IsOneToOne m'
        × ((x : K) → get_by_key m' x ≡ (if c.same k x then none else get_by_key m x))
        × ((y : V) → get_by_value m' y ≡ (if d.same v y then none else get_by_value m y))
  unfolding get_by_key get_by_value
  deleted m k v h e =
      let (r, valid_kv, acts_kv) = delete_lem m.kv k h.keys_once in
      let (q, valid_vk, acts_vk) = delete_lem m.vk v h.values_once in
      let f = Map.get m.kv in
      let g = Map.get m.vk in
      (
        record {
          keys_once = valid_kv;
          values_once = valid_vk;
          forth = λ x y p. grind (
            arith,
            acts_kv x,
            acts_vk y,
            h.forth x y,
            h.forth k v,
            h.back k v,
            h.back x v,
            h.back k y,
            c.same_sound k x,
            d.same_sound v y,
            c.same_refl,
            d.same_refl,
          );
          back = λ x y p. grind (
            arith,
            acts_kv x,
            acts_vk y,
            h.back x y,
            h.forth x y,
            h.forth k v,
            h.forth k y,
            h.back x v,
            c.same_sound k x,
            d.same_sound v y,
            c.same_refl,
            d.same_refl,
          );
        },
        acts_kv,
        acts_vk,
      )

  -- On a one-to-one map, DeleteByKey keeps the map one-to-one, reports whether the key was there,
  -- and takes out its pair and no other.
  pub delete_by_key_lem :
      (m : BiMap K V) (k : K)
      → IsOneToOne m
      → ((delete_by_key m k).1 ≡ is_some (get_by_key m k))
        × IsOneToOne (delete_by_key m k).0
        × ((x : K)
            → get_by_key (delete_by_key m k).0 x ≡ (if c.same k x then none else get_by_key m x))
  unfolding delete_by_key get_by_key
  delete_by_key_lem m k h = elim (Option-cases (get_by_key m k)) [
    | inl e ↦ simp (e, delete_by_key) (refl, h, λ x. grind (arith, e, c.same_sound k x))
    | inr (v, e) ↦
        let (valid, acts, others) = deleted m k v h e in simp (e, delete_by_key) (refl, valid, acts)
  ]

  -- On a one-to-one map, DeleteByValue keeps the map one-to-one, reports whether the value was
  -- there, and takes out its pair and no other.
  pub delete_by_value_lem :
      (m : BiMap K V) (v : V)
      → IsOneToOne m
      → ((delete_by_value m v).1 ≡ is_some (get_by_value m v))
        × IsOneToOne (delete_by_value m v).0
        × ((y : V)
            → get_by_value (delete_by_value m v).0 y
              ≡ (if d.same v y then none else get_by_value m y))
  unfolding delete_by_value get_by_value
  delete_by_value_lem m v h = elim (Option-cases (get_by_value m v)) [
    | inl e ↦ simp (e, delete_by_value) (refl, h, λ x. grind (arith, e, d.same_sound v x))
    | inr (k, e) ↦
        let (valid, others, acts) = deleted m k v h (h.back k v e) in
        simp (e, delete_by_value) (refl, valid, acts)
  ]
