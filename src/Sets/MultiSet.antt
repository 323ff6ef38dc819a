-- ===== src/Sets/MultiSet.antt =====
-- collectionx/set/multiset.go: a bag with the number of each item and of all. The methods take and
-- return the state. Counts are exact: no more items are added than an `int` counts.
pub mod Counts
pub mod Laws
mod Tests
use arcgo.Prelude.{
  ℕ, zero, suc, ◌+◌, ◌-◌, ◌≤◌, Bool, List, [], ◌∷◌, ◌++◌, Option, none, some, if◌then◌else◌, leb,
  ltb, nat_eqb, replicate,
}
use Prim.Native.Nat.{min}
use arcgo.Prelude.Classes.{Comparable}
use arcgo.Prelude.Int.{ℤ, pos, negsuc}
use arcgo.Mapping.Map
use arcgo.Mapping.Map.{Map, new_map}

pub record MultiSet {ℓ} (T : Type ℓ) : Type ℓ where
  pub counts : Map T ℕ
  pub size : ℕ

-- `current, _ := s.counts.Get(item)`
abbrev pub or_none : Option ℕ → ℕ
or_none none = 0
or_none (some n) = n

module _ {ℓ} {T : Type ℓ} where
  pub len : MultiSet T → ℕ
  len s = s.size

  pub unique_len : MultiSet T → ℕ
  unique_len s = Map.len s.counts

  pub is_empty : MultiSet T → Bool
  is_empty s = nat_eqb (len s) 0

  pub clear : MultiSet T → MultiSet T
  clear s = record { counts = Map.clear s.counts; size = 0 }

  pub distinct : MultiSet T → List T
  distinct s = if nat_eqb (Map.len s.counts) 0 then [] else Map.keys s.counts

  -- The loops of `Elements`.
  pub elements_loop : List (T × ℕ) → List T
  elements_loop [] = []
  elements_loop ((item, count) ∷ m) = replicate count item ++ elements_loop m

  pub elements : MultiSet T → List T
  elements s = if nat_eqb s.size 0 then [] else elements_loop s.counts.items

  pub all_counts : MultiSet T → List (T × ℕ)
  all_counts s = if nat_eqb (Map.len s.counts) 0 then [] else Map.all s.counts

module _ {ℓ} {T : Type ℓ} ⦃c : Comparable T⦄ where
  pub count : MultiSet T → T → ℕ
  count s item = or_none (Map.get s.counts item)

  pub contains : MultiSet T → T → Bool
  contains s item = ltb 0 (count s item)

  pub add : MultiSet T → List T → MultiSet T
  add s [] = s
  add s (item ∷ items) =
      let current = or_none (Map.get s.counts item) in
      add (record { counts = Map.set s.counts item (current + 1); size = s.size + 1 }) items

  pub new_multi_set : List T → MultiSet T
  new_multi_set items = add (record { counts = new_map; size = 0 }) items

  pub add_n : MultiSet T → T → ℤ → MultiSet T
  add_n s item (pos n) =
      let current = or_none (Map.get s.counts item) in
      if leb n 0
      then s
      else record { counts = Map.set s.counts item (current + n); size = s.size + n }
  add_n s item (negsuc n) = s

  -- From `removed := min(n, current)` on.
  pub take_out : MultiSet T → T → ℕ → ℕ → ℕ × MultiSet T
  take_out s item n current =
      let removed = min n current in
      let remain = current - removed in
      (
        removed,
        record {
          counts =
              if nat_eqb remain 0
              then (Map.delete s.counts item).0
              else Map.set s.counts item remain;
          size = s.size - removed;
        },
      )

  pub remove_n : MultiSet T → T → ℤ → ℕ × MultiSet T
  remove_n s item (pos n) = if leb n 0 then (0, s) else elim (Map.get s.counts item) [
    | none ↦ (0, s)
    | some current ↦ if leb current 0 then (0, s) else take_out s item n current
  ]
  remove_n s item (negsuc n) = (0, s)

  pub remove : MultiSet T → T → Bool × MultiSet T
  remove s item = let (n, s') = remove_n s item (pos 1) in (ltb 0 n, s')
