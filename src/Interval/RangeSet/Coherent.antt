-- ===== src/Interval/RangeSet/Coherent.antt =====
-- collectionx/interval/range_set.go: the caches hold what they stand for, through every
-- call that reads them.
use arcgo.Prelude.{
  ◌≡◌, refl, sym, ap, ◌∙◌, Bool, false, List, Option, some, is_nil, is_nil→nil, not_nil→cons,
  Bool-cases, Option-cases, inl, inr,
}
use arcgo.Prelude.Cache.{
  Bytes, IsFresh, no_cache-IsFresh, invalidated-IsFresh, cached-IsFresh, text_of,
}
use arcgo.Prelude.Classes.{Ordered, ◌<?◌}
use arcgo.Interval.Range.{Range}
use arcgo.Interval.RangeSet
use arcgo.Interval.RangeSet.{RangeSet, new_range_set, get_ranges, remove_range_from_set}
use arcgo.Interval.RangeSet.Json.{encode, to_json, string, encode-fails, encode-stores}
use arcgo.Interval.RangeSet.Spec.{IsNormal}
use arcgo.Interval.RangeSet.Methods.{add_lem, remove_lem}

module _ {ℓ} {T : Type ℓ} ⦃o : Ordered T⦄ (marshal : List (Range T) → Option Bytes) where
  -- The ranges are normal, and a cache that is in use holds what it stands for.
  pub record IsCoherent (s : RangeSet T) : Type ℓ where
    pub normal : IsNormal s.ranges
    pub ranges_fresh :
        s.ranges_dirty ≡ false → is_nil s.ranges_cache ≡ false → s.ranges_cache ≡ s.ranges
    pub json_fresh : IsFresh (marshal s.ranges) s.json

  pub new_range_set-IsCoherent : IsCoherent new_range_set
  unfolding new_range_set
  new_range_set-IsCoherent = record {
    normal = tt;
    ranges_fresh = λ h k. refl;
    json_fresh = no_cache-IsFresh _;
  }

  pub clear-IsCoherent : (s : RangeSet T) → IsCoherent (RangeSet.clear s)
  unfolding RangeSet.clear
  clear-IsCoherent s = record {
    normal = tt;
    ranges_fresh = λ h k. refl;
    json_fresh = no_cache-IsFresh _;
  }

  -- Ranges returns the ranges, whatever the cache holds, and keeps the caches coherent.
  pub get_ranges_lem :
      (s : RangeSet T)
      → IsCoherent s
      → ((get_ranges s).0 ≡ s.ranges)
        × ((get_ranges s).1.ranges ≡ s.ranges)
        × IsCoherent (get_ranges s).1
  unfolding get_ranges
  get_ranges_lem s c = elim (Bool-cases (is_nil s.ranges)) [
    | inl e ↦ rw e (sym (is_nil→nil s.ranges e), refl, c)
    | inr e ↦ elim (Bool-cases s.ranges_dirty) [
      | inl d ↦ simp (e, d) (refl, refl, filled)
      | inr d ↦ elim (Bool-cases (is_nil s.ranges_cache)) [
        | inl k ↦ simp (e, d, k) (refl, refl, filled)
        | inr k ↦ simp (e, d, k) (c.ranges_fresh d k, refl, c)
      ]
    ]
  ]
    where
      filled : IsCoherent (record s { ranges_cache = s.ranges; ranges_dirty = false })
      filled = record { normal = c.normal; ranges_fresh = λ h k. refl; json_fresh = c.json_fresh }

  encode_lem :
      (s : RangeSet T)
      → IsCoherent s
      → ((encode marshal s).0 ≡ marshal s.ranges)
        × ((encode marshal s).1.ranges ≡ s.ranges)
        × IsCoherent (encode marshal s).1
  encode_lem s c =
      let (r, kept, c') = get_ranges_lem s c in
      elim (Option-cases (marshal (get_ranges s).0)) [
        | inl e ↦ rw (encode-fails marshal s e) (sym e ∙ ap marshal r, kept, c')
        | inr (d, e) ↦
            let fresh : marshal (get_ranges s).1.ranges ≡ some d = ap marshal (kept ∙ sym r) ∙ e in
            rw (encode-stores marshal s d e) (
              sym e ∙ ap marshal r,
              kept,
              record {
                normal = c'.normal;
                ranges_fresh = c'.ranges_fresh;
                json_fresh = rw fresh (cached-IsFresh d);
              },
            )
      ]

  -- ToJSON returns what marshalling the ranges gives now, whatever the cache holds, and keeps the
  -- caches coherent.
  pub to_json_lem :
      (s : RangeSet T)
      → IsCoherent s
      → ((to_json marshal s).0 ≡ marshal s.ranges)
        × ((to_json marshal s).1.ranges ≡ s.ranges)
        × IsCoherent (to_json marshal s).1
  unfolding to_json
  to_json_lem s c = elim (Option-cases s.json.json_cache) [
    | inl e ↦ simp (e, to_json) (encode_lem s c)
    | inr (d, e) ↦ elim (Bool-cases s.json.json_dirty) [
      | inl h ↦ simp (e, h, to_json) (encode_lem s c)
      | inr h ↦ simp (e, h, to_json) (sym (c.json_fresh.json_fresh d h e), refl, c)
    ]
  ]

  -- String returns the text of what marshalling the ranges gives now, or the fallback.
  pub string_lem :
      (fallback : Bytes) (s : RangeSet T)
      → IsCoherent s
      → ((string marshal fallback s).0 ≡ text_of fallback (marshal s.ranges))
        × ((string marshal fallback s).1.ranges ≡ s.ranges)
        × IsCoherent (string marshal fallback s).1
  unfolding string
  string_lem fallback s c = elim (Bool-cases s.json.json_dirty) [
    | inl h ↦ simp h computed
    | inr h ↦ elim (Bool-cases (is_nil s.json.string_cache)) [
      | inl k ↦ simp (h, k) computed
      | inr k ↦
          let (b, d, e) = not_nil→cons s.json.string_cache k in
          simp (h, k) (e ∙ sym (ap (text_of fallback) (c.json_fresh.string_fresh b d h e)), refl, c)
    ]
  ]
    where
      computed :
          (text_of fallback (to_json marshal s).0 ≡ text_of fallback (marshal s.ranges))
          × ((to_json marshal s).1.ranges ≡ s.ranges)
          × IsCoherent (to_json marshal s).1
      computed = let (r, kept, c') = to_json_lem s c in (ap (text_of fallback) r, kept, c')

  -- Add and Remove drop the caches where they change the ranges.
  pub add-IsCoherent : (s : RangeSet T) (a b : T) → IsCoherent s → IsCoherent (RangeSet.add s a b).0
  unfolding RangeSet.add RangeSet.add_range
  add-IsCoherent s a b c =
      let n = (add_lem s a b c.normal a).1 in
      elim (Bool-cases (a <? b)) [
        | inr v ↦ simp (v, RangeSet.add) c
        | inl v ↦
            simp (v, RangeSet.add)
              (record {
                normal = simp (v, RangeSet.add) at n;
                ranges_fresh = λ h k. cc;
                json_fresh = invalidated-IsFresh _;
              })
      ]

  abbrev changed : RangeSet T → T → T → Bool
  changed s a b = (remove_range_from_set s.ranges (record { start = a; end = b })).1

  pub remove-IsCoherent :
      (s : RangeSet T) (a b : T) → IsCoherent s → IsCoherent (RangeSet.remove s a b).0
  unfolding RangeSet.remove
  remove-IsCoherent s a b c =
      let n = (remove_lem s a b c.normal a).1 in
      elim (Bool-cases (is_nil s.ranges)) [
        | inl e ↦ simp (e, RangeSet.remove) c
        | inr e ↦ elim (Bool-cases (a <? b)) [
          | inr v ↦ simp (e, v, RangeSet.remove) c
          | inl v ↦ elim (Bool-cases (changed s a b)) [
            | inr k ↦ simp (e, v, k, RangeSet.remove) c
            | inl k ↦
                simp (e, v, k, RangeSet.remove)
                  (record {
                    normal = simp (e, v, k, RangeSet.remove) at n;
                    ranges_fresh = λ h k. cc;
                    json_fresh = invalidated-IsFresh _;
                  })
          ]
        ]
      ]
