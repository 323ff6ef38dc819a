-- ===== src/Mapping/Map/Json.antt =====
-- collectionx/mapping/json.go, the methods of Map. `json.Marshal` of the entries is the parameter
-- `marshal`, with `none` for an error; the wrapping of an error's text is left out.
use arcgo.Prelude.{
  ◌≡◌, refl, sym, ap, ◌∙◌, not, ◌&&◌, Option, none, some, List, if◌then◌else◌, is_nil, not_nil→cons,
  Bool-cases, Option-cases, inl, inr,
}
use arcgo.Prelude.Cache.{Bytes, cached, text_of, IsFresh, cached-IsFresh}
use arcgo.Mapping.Map.{Map}

module _ {ℓ κ} {K : Type ℓ} {V : Type κ} (marshal : List (K × V) → Option Bytes) where
  -- What ToJSON does where the cache does not serve: an empty map marshals as the empty one.
  unfoldable pub encode : Map K V → Option Bytes × Map K V
  encode m = elim (marshal m.items) [
    | none ↦ (none, m)
    | some d ↦ (some d, record m { json = cached d })
  ]

  unfoldable pub to_json : Map K V → Option Bytes × Map K V
  to_json m = elim m.json.json_cache [
    | none ↦ encode m
    | some d ↦ if not m.json.json_dirty then (some d, m) else encode m
  ]

  -- `String`, with the fallback ("{}") where marshalling fails.
  unfoldable pub string : Bytes → Map K V → Bytes × Map K V
  string fallback m =
      if not m.json.json_dirty && not (is_nil m.json.string_cache)
      then (m.json.string_cache, m)
      else (text_of fallback (to_json m).0, (to_json m).1)

  -- A map whose cache, where it is in use, holds what its entries marshal to.
  abbrev pub IsCoherent : Map K V → Type 0
  IsCoherent m = IsFresh (marshal m.items) m.json

  encode_lem :
      (m : Map K V)
      → IsCoherent m
      → ((encode m).0 ≡ marshal m.items) × ((encode m).1.items ≡ m.items) × IsCoherent (encode m).1
  unfolding encode
  encode_lem m c = elim (Option-cases (marshal m.items)) [
    | inl e ↦ rw (e, encode) (refl, refl, c)
    | inr (d, e) ↦ rw (e, encode) (refl, refl, rw e (cached-IsFresh d))
  ]

  -- ToJSON returns what marshalling the entries gives now, whatever the cache holds, and keeps the
  -- cache coherent.
  pub map_to_json_lem :
      (m : Map K V)
      → IsCoherent m
      → ((to_json m).0 ≡ marshal m.items)
        × ((to_json m).1.items ≡ m.items)
        × IsCoherent (to_json m).1
  unfolding to_json
  map_to_json_lem m c = elim (Option-cases m.json.json_cache) [
    | inl e ↦ simp (e, to_json) (encode_lem m c)
    | inr (d, e) ↦ elim (Bool-cases m.json.json_dirty) [
      | inl h ↦ simp (e, h, to_json) (encode_lem m c)
      | inr h ↦ simp (e, h, to_json) (sym (c.json_fresh d h e), refl, c)
    ]
  ]

  -- String returns the text of what marshalling the entries gives now, or the fallback.
  pub map_string_lem :
      (fallback : Bytes) (m : Map K V)
      → IsCoherent m
      → ((string fallback m).0 ≡ text_of fallback (marshal m.items))
        × ((string fallback m).1.items ≡ m.items)
        × IsCoherent (string fallback m).1
  unfolding string
  map_string_lem fallback m c = elim (Bool-cases m.json.json_dirty) [
    | inl h ↦ simp h computed
    | inr h ↦ elim (Bool-cases (is_nil m.json.string_cache)) [
      | inl k ↦ simp (h, k) computed
      | inr k ↦
          let (b, d, e) = not_nil→cons m.json.string_cache k in
          simp (h, k) (e ∙ sym (ap (text_of fallback) (c.string_fresh b d h e)), refl, c)
    ]
  ]
    where
      computed :
          (text_of fallback (to_json m).0 ≡ text_of fallback (marshal m.items))
          × ((to_json m).1.items ≡ m.items)
          × IsCoherent (to_json m).1
      computed = let (r, kept, c') = map_to_json_lem m c in (ap (text_of fallback) r, kept, c')
