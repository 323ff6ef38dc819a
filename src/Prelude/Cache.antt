-- ===== src/Prelude/Cache.antt =====
-- The serialization cache that the collections embed: `jsonCache`, `stringCache`, `jsonDirty`,
-- and the helpers of collectionx/internal that fill it. A `nil` cache is `none`.
use Prim.Native.Nat.{ℕ}
use mathlib.Core.Path.{◌≡◌, ap}
use mathlib.Core.Bool.{Bool, true, false}
use mathlib.Core.Option.{Option, none, some}
use mathlib.Core.List.{List, [], ◌∷◌}

abbrev pub Bytes : Type 0
Bytes = List ℕ

pub record JsonCache : Type 0 where
  pub json_cache : Option Bytes
  pub string_cache : Bytes
  pub json_dirty : Bool

-- A fresh or cleared collection.
abbrev pub no_cache : JsonCache
no_cache = record { json_cache = none; string_cache = []; json_dirty = false }

-- `invalidateSerializationCache`
abbrev pub invalidated : JsonCache
invalidated = record { json_cache = none; string_cache = []; json_dirty = true }

-- `cacheSerializationData`
abbrev pub cached : Bytes → JsonCache
cached d = record { json_cache = some d; string_cache = d; json_dirty = false }

-- What a cache that is in use may hold, when the collection marshals to `encoded`.
pub record IsFresh (encoded : Option Bytes) (c : JsonCache) : Type 0 where
  pub json_fresh : (d : Bytes) → c.json_dirty ≡ false → c.json_cache ≡ some d → encoded ≡ some d
  pub string_fresh :
      (b : ℕ) (d : Bytes) → c.json_dirty ≡ false → c.string_cache ≡ b ∷ d → encoded ≡ some (b ∷ d)

pub no_cache-IsFresh : (e : Option Bytes) → IsFresh e no_cache
no_cache-IsFresh e = record { json_fresh = λ d h k. cc; string_fresh = λ b d h k. cc }

pub invalidated-IsFresh : (e : Option Bytes) → IsFresh e invalidated
invalidated-IsFresh e = record { json_fresh = λ d h k. cc; string_fresh = λ b d h k. cc }

pub cached-IsFresh : (d : Bytes) → IsFresh (some d) (cached d)
cached-IsFresh d = record { json_fresh = λ d' h k. k; string_fresh = λ b d' h k. ap some k }

-- `JSONResultString`: the text of marshalled bytes, or the fallback for an error (`none`).
abbrev pub text_of : Bytes → Option Bytes → Bytes
text_of fallback none = fallback
text_of fallback (some d) = d
