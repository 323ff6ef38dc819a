-- ===== src/Interval/RangeSet/Json.antt =====
-- collectionx/interval/json.go, the methods of RangeSet. `json.Marshal` of the ranges is the
-- parameter `marshal`, with `none` for an error; the wrapping of an error's text is left out.
use arcgo.Prelude.{◌≡◌, not, ◌&&◌, Option, none, some, List, if◌then◌else◌, is_nil}
use arcgo.Prelude.Cache.{Bytes, cached, text_of}
use arcgo.Interval.Range.{Range}
use arcgo.Interval.RangeSet.{RangeSet, get_ranges}

module _ {ℓ} {T : Type ℓ} (marshal : List (Range T) → Option Bytes) where
  -- What ToJSON does where the cache does not serve.
  unfoldable pub encode : RangeSet T → Option Bytes × RangeSet T
  encode s =
      let (ranges, s') = get_ranges s in
      elim (marshal ranges) [ none ↦ (none, s') | some d ↦ (some d, record s' { json = cached d }) ]

  -- `MarshalJSON` hands on the same bytes.
  unfoldable pub to_json : RangeSet T → Option Bytes × RangeSet T
  to_json s = elim s.json.json_cache [
    | none ↦ encode s
    | some d ↦ if not s.json.json_dirty then (some d, s) else encode s
  ]

  -- `String`, with a fallback ("[]") where marshalling fails.
  unfoldable pub string : Bytes → RangeSet T → Bytes × RangeSet T
  string fallback s =
      if not s.json.json_dirty && not (is_nil s.json.string_cache)
      then (s.json.string_cache, s)
      else (text_of fallback (to_json s).0, (to_json s).1)

  pub encode-fails :
      (s : RangeSet T) → marshal (get_ranges s).0 ≡ none → encode s ≡ (none, (get_ranges s).1)
  unfolding encode
  encode-fails s h = rw (h, encode)

  pub encode-stores :
      (s : RangeSet T) (d : Bytes)
      → marshal (get_ranges s).0 ≡ some d
      → encode s ≡ (some d, record (get_ranges s).1 { json = cached d })
  unfolding encode
  encode-stores s d h = rw (h, encode)
