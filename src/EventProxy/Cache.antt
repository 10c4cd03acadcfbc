-- ===== src/EventProxy/Cache.antt =====
-- The cache of proxylab-handout/proxy.c, as `clread` looks into it.
use multiplexing_proxy.Prelude.{
  ℕ, ◌≡◌, refl, List, [], ◌∷◌, Option, none, some, Result, done, ◌>>=◌, if◌then◌else◌,
}
use multiplexing_proxy.Memory.{Bytes, c_str, strcpy, equal}
use multiplexing_proxy.EventProxy.Action.{Pointer, object}

-- `cachentry`: `request` is `char[1024]`.
pub record Entry : Type 0 where
  pub object_size : ℕ
  pub time_last_accessed : ℕ
  pub request : Bytes
  pub content : Pointer

-- `cache[MAX_CACHE_SIZE]`, with `none` for NULL.
abbrev pub Cache : Type 0
Cache = List (Option Entry)

-- What the search leaves in `inCache`, `n` and `buf2`.
pub record Found : Type 0 where
  pub size : ℕ
  pub copy : Bytes

-- The loop over the cache: the first entry whose request is `wanted` is copied into `buf2`, and its
-- time is set.
unfoldable pub search_cache : Bytes → Bytes → ℕ → Cache → Result (Option Found × Cache)
unfolding object
search_cache wanted buf2 now [] = done (none, [])
search_cache wanted buf2 now (none ∷ cache) = do
  (found, rest) ← search_cache wanted buf2 now cache
  done (found, none ∷ rest)
search_cache wanted buf2 now (some e ∷ cache) = do
  key ← c_str e.request
  let hit = do
    content ← object e.content
    copy ← strcpy buf2 content
    done (
      some (record { size = e.object_size; copy = copy }),
      some (record e { time_last_accessed = now }) ∷ cache,
    )
  let miss = do (found, rest) ← search_cache wanted buf2 now cache; done (found, some e ∷ rest)
  if equal key wanted then hit else miss

-- No entry at all, as `main` leaves the cache.
abbrev pub IsEmpty : Cache → Type 0
IsEmpty [] = Unit
IsEmpty (none ∷ cache) = IsEmpty cache
IsEmpty (some e ∷ cache) = ⊥

-- A search in an empty cache finds nothing and changes nothing.
pub search_cache-IsEmpty :
    (wanted buf2 : Bytes) (now : ℕ) (cache : Cache)
    → IsEmpty cache
    → search_cache wanted buf2 now cache ≡ done (none, cache)
unfolding search_cache
search_cache-IsEmpty wanted buf2 now [] h = refl
search_cache-IsEmpty wanted buf2 now (none ∷ cache) h =
    rw (search_cache-IsEmpty wanted buf2 now cache h)
search_cache-IsEmpty wanted buf2 now (some e ∷ cache) h = absurd h
