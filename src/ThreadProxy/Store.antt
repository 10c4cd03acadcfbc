-- ===== src/ThreadProxy/Store.antt =====
-- The cache of httpProxy-master/proxylab-handout/proxy.c: search, and storing with eviction. Each
-- of the two runs under its lock; they are modelled as one step.
pub mod Oldest
pub mod Account
pub mod Found
pub mod Evict
pub mod History
use multiplexing_proxy.Prelude.{
  ℕ, zero, suc, ◌+◌, ◌-◌, Bool, true, false, List, [], ◌∷◌, ◌++◌, length, Option, none, some,
  Result, done, fault, ◌>>=◌, ltb, if◌then◌else◌,
}
use multiplexing_proxy.Memory.{Bytes, c_str, strcpy, strlen, calloc, equal}

abbrev pub max_cache_size : ℕ
max_cache_size = 1049000

abbrev pub max_object_size : ℕ
max_object_size = 102400

abbrev pub wirelen : ℕ
wirelen = 2000

-- `cachentry`: `request` is `char[WIRELEN]`, `content` (the field `data`) is
-- `char[MAX_OBJECT_SIZE]`.
pub record Entry : Type 0 where
  pub object_size : ℕ
  pub time_last_accessed : ℕ
  pub request : Bytes
  pub content : Bytes

-- `cache`, with `none` for NULL, and `currentCacheSize`.
pub record Store : Type 0 where
  pub entries : List (Option Entry)
  pub current : ℕ

-- The search: the first entry with this request is copied into `buf2`, and its time is set.
unfoldable pub search :
    Bytes → Bytes → ℕ → List (Option Entry) → Result (Option (ℕ × Bytes) × List (Option Entry))
search wanted buf2 now [] = done (none, [])
search wanted buf2 now (none ∷ entries) = do
  (found, rest) ← search wanted buf2 now entries
  done (found, none ∷ rest)
search wanted buf2 now (some e ∷ entries) = do
  key ← c_str e.request
  let hit = do
    copy ← strcpy buf2 e.content
    done (some (e.object_size, copy), some (record e { time_last_accessed = now }) ∷ entries)
  let miss = do (found, rest) ← search wanted buf2 now entries; done (found, some e ∷ rest)
  if equal key wanted then hit else miss

-- The fields of an entry as the code fills them: `strcpy` into both arrays, and `strlen`. `old` is
-- what `malloc` returned, or the entry that is replaced.
unfoldable pub fill : Entry → Bytes → Bytes → ℕ → Result Entry
fill old cache_data req_wire now = do
  content ← strcpy old.content cache_data
  size ← strlen cache_data
  request ← strcpy old.request req_wire
  done (record {
    object_size = size;
    time_last_accessed = now;
    request = request;
    content = content;
  })

-- The loop that puts the entry into the first free slot; `blank` is the block of `malloc`. The
-- entries, and the size that was added: none where no slot is free.
unfoldable pub place :
    Entry → Bytes → Bytes → ℕ → List (Option Entry) → Result (List (Option Entry) × ℕ)
unfolding fill
place blank cache_data req_wire now [] = done ([], 0)
place blank cache_data req_wire now (none ∷ entries) = do
  e ← fill blank cache_data req_wire now
  done (some e ∷ entries, e.object_size)
place blank cache_data req_wire now (some e ∷ entries) = do
  (rest, added) ← place blank cache_data req_wire now entries
  done (some e ∷ rest, added)

-- The loops that look for the oldest entry: its index, and the entry. `best` is the one so far.
unfoldable pub oldest_from : ℕ → ℕ × Entry → List (Option Entry) → ℕ × Entry
oldest_from i best [] = best
oldest_from i best (none ∷ entries) = oldest_from (i + 1) best entries
oldest_from i (j, b) (some e ∷ entries) =
    oldest_from (i + 1) (if ltb e.time_last_accessed b.time_last_accessed then (i, e) else (j, b))
      entries

-- `while (!cache[lastCache]) lastCache++;` runs past the array if there is no entry.
unfoldable pub oldest : ℕ → List (Option Entry) → Result (ℕ × Entry)
unfolding oldest_from
oldest i [] = fault
oldest i (none ∷ entries) = oldest (i + 1) entries
oldest i (some e ∷ entries) = done (oldest_from (i + 1) (i, e) entries)

unfoldable pub replace_entry : List (Option Entry) → ℕ → Entry → List (Option Entry)
replace_entry [] i e = []
replace_entry (x ∷ entries) zero e = some e ∷ entries
replace_entry (x ∷ entries) (suc i) e = x ∷ replace_entry entries i e

-- The entry is cleared by `memset` and filled anew. While the total is then too large, the code
-- calls `free` on the address of a slot of the array, which no allocator returned. The counter is
-- an `int`; the subtraction is meant for a counter that is no less than the entry's size.
unfoldable pub replace_oldest : Store → Bytes → Bytes → ℕ → Result Store
unfolding replace_entry
replace_oldest st cache_data req_wire now = do
  (i, old) ← oldest 0 st.entries
  let cleared = record old { content = calloc max_object_size; request = calloc wirelen }
  e ← fill cleared cache_data req_wire now
  let current = st.current - old.object_size + e.object_size
  if ltb max_cache_size current
      then fault
      else done (record { entries = replace_entry st.entries i e; current = current })

-- Storing a response that was not too big.
unfoldable pub store : Store → Entry → Bytes → Bytes → ℕ → Result Store
store st blank cache_data req_wire now = do
  size ← strlen cache_data
  let fresh = place blank cache_data req_wire now st.entries >>= λ r.
      done (record { entries = r.0; current = st.current + r.1 })
  let evicting = replace_oldest st cache_data req_wire now
  if ltb (st.current + size) max_cache_size then fresh else evicting
