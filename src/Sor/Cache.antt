-- ===== src/Sor/Cache.antt =====
-- src/exchange/internal/sor/cache.go: the entries of CachingAdapter. Times and durations are in
-- nanoseconds; the zero time is 0.
use reference_implementation.Common.{
  ℕ, ◌+◌, Bool, Option, none, some, Text, ltb, if◌then◌else◌, ℤ, pos, negsuc, Map, put, empty,
}

abbrev pub default_cache_ttl : ℕ
default_cache_ttl = 30000000000

-- A lifetime that is not positive selects the default.
unfoldable pub cache_ttl : ℤ → ℕ
cache_ttl (negsuc n) = default_cache_ttl
cache_ttl (pos n) = if ltb 0 n then n else default_cache_ttl

pub record CacheEntry : Type 0 where
  pub active : Bool
  pub expires_at : ℕ

pub record Cache : Type 0 where
  pub entries : Map CacheEntry
  pub next_sweep : ℕ

unfoldable pub new_cache : Cache
new_cache = record { entries = empty; next_sweep = 0 }

-- An entry, unless its time has run out.
abbrev pub live_at : ℕ → Option CacheEntry → Option CacheEntry
live_at now none = none
live_at now (some e) = if ltb now e.expires_at then some e else none

abbrev pub flag_of : Option CacheEntry → Option Bool
flag_of none = none
flag_of (some e) = some e.active

-- The first half of IsActive: `none` is a miss.
unfoldable pub cached : ℕ → Text → Cache → Option Bool
cached now ref c = flag_of (live_at now (c.entries ref))

unfoldable pub sweep_locked : ℕ → ℕ → Cache → Cache
sweep_locked ttl now c =
    if ltb now c.next_sweep
    then c
    else record { entries = λ ref. live_at now (c.entries ref); next_sweep = now + ttl }

-- The second half: the answer of the inner adapter, for a call that began at `now`.
unfoldable pub store : ℕ → ℕ → Text → Bool → Cache → Cache
unfolding sweep_locked
store ttl now ref active c =
    sweep_locked ttl now (record c {
      entries = put c.entries ref (record { active = active; expires_at = now + ttl });
    })
