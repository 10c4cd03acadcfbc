-- ===== src/ThreadProxy/Relay.antt =====
-- The relay of the response in `thread` of httpProxy-master/proxylab-handout/proxy.c.
pub mod Copies
use multiplexing_proxy.Prelude.{
  ℕ, zero, suc, ◌+◌, ◌-◌, ◌^◌, Bool, true, false, not, ◌&&◌, List, [], ◌∷◌, ◌++◌, length, take,
  drop, Result, done, fault, starved, ◌>>=◌, ltb, if◌then◌else◌, add64,
}
use multiplexing_proxy.Memory.{Bytes, put, strcat, terminated}
use multiplexing_proxy.ThreadProxy.Store.{max_object_size}

-- What `Rio_readlineb` answers: a line, whose bytes it stores with a NUL behind them; nothing left
-- (0); or -1, with what it has stored of a line by then.
pub data Line : Type 0 where
  line : (c : ℕ) (cs : Bytes) → Line
  nothing : Line
  failed : (stored : Bytes) → Line

-- What the loop leaves: the bytes sent to the client, `cacheData`, `offset` and `tooBig`.
pub record Relayed : Type 0 where
  pub sent : Bytes
  pub cache_data : Bytes
  pub offset : ℕ
  pub too_big : Bool

-- `strcat(&cacheData[offset], buf2)`
unfoldable pub append_at : Bytes → ℕ → Bytes → Result Bytes
append_at cache_data offset buf2 =
    strcat (drop offset cache_data) buf2 >>= λ tail. done (take offset cache_data ++ tail)

-- One line: it is kept for the cache while it fits, and sent on. `buf2` holds the line.
unfoldable pub relay_line : Bytes → ℕ → Relayed → Result Relayed
unfolding append_at
relay_line buf2 n r = do
  let keep = append_at r.cache_data r.offset buf2 >>= λ longer.
      done (record r { sent = r.sent ++ take n buf2; cache_data = longer; offset = r.offset + n })
  let skip = done (record r { sent = r.sent ++ take n buf2; too_big = true })
  if not r.too_big && ltb (add64 r.offset n) max_object_size then keep else skip

-- A failed read. `n` is a `size_t`: -1 is 2^64 - 1, so that the test `n < 0` does not hold, and what
-- `buf2` holds is kept where it fits, at an offset that goes back by one. `write` refuses as many
-- bytes as that, `Rio_writen` sends nothing, and its answer is not looked at.
unfoldable pub relay_failed : Bytes → Relayed → Result Relayed
unfolding append_at
relay_failed buf2 r = do
  let back = add64 r.offset (2 ^ 64 - 1)
  let keep = append_at r.cache_data r.offset buf2 >>= λ longer.
      done (record r { cache_data = longer; offset = back })
  let skip = done (record r { too_big = true })
  if not r.too_big && ltb back max_object_size then keep else skip

-- The loop: only a read that finds nothing left ends it.
unfoldable pub relay : Bytes → Relayed → List Line → Result Relayed
unfolding relay_line relay_failed
relay buf2 r [] = starved
relay buf2 r (nothing ∷ lines) = done r
relay buf2 r (failed stored ∷ lines) = do
  buf2' ← put buf2 stored
  r' ← relay_failed buf2' r
  relay buf2' r' lines
relay buf2 r (line c cs ∷ lines) = do
  buf2' ← put buf2 (terminated (c ∷ cs))
  r' ← relay_line buf2' (length (c ∷ cs)) r
  relay buf2' r' lines
