-- ===== src/ThreadProxy/Log.antt =====
-- The log of httpProxy-master/proxylab-handout/proxy.c: the buffers that the threads read request
-- lines into, the entries, which point into those buffers, and `logThread`.
pub mod Lines
pub mod Stale
use multiplexing_proxy.Prelude.{
  ℕ, List, [], ◌∷◌, ◌++◌, length, set, Result, done, fault, ◌>>=◌, ltb, if◌then◌else◌,
}
use multiplexing_proxy.Memory.{Bytes, c_str, put, calloc, terminated}
use multiplexing_proxy.ThreadProxy.Sbuf.{Sbuf, insert, take_log, load_elem, store_elem}
use multiplexing_proxy.ThreadProxy.Worker.{bufmax}

-- `buf` of each thread, `logEntries` (an entry is the number of the thread whose `buf` it points
-- to), and what was written to proxyLog.txt.
pub record Logging : Type 0 where
  pub buffers : List Bytes
  pub entries : Sbuf ℕ
  pub file : Bytes

-- The statements that reach the log: `memset(buf, ...)`, `Rio_readlineb` with a line into the
-- cleared `buf`, and the entry, all three of a thread; and one round of `logThread`.
pub data Event : Type 0 where
  clears : ℕ → Event
  reads : ℕ → Bytes → Event
  enters : ℕ → Event
  logs : Event

abbrev pub clear_buffer : Logging → ℕ → Result Logging
clear_buffer s i = do
  buffers ← store_elem s.buffers i (calloc bufmax)
  done (record s { buffers = buffers })

abbrev pub read_line : Logging → ℕ → Bytes → Result Logging
read_line s i line = do
  buf ← load_elem s.buffers i
  filled ← put buf (terminated line)
  buffers ← store_elem s.buffers i filled
  done (record s { buffers = buffers })

abbrev pub enter : Logging → ℕ → Result Logging
enter s i = do entries ← insert s.entries i; done (record s { entries = entries })

abbrev pub log_round : Logging → Result Logging
log_round s = do
  (i, entries) ← take_log s.entries
  buf ← load_elem s.buffers i
  entry ← c_str buf
  done (record s { entries = entries; file = s.file ++ entry })

unfoldable pub step : Logging → Event → Result Logging
step s (clears i) = clear_buffer s i
step s (reads i line) = read_line s i line
step s (enters i) = enter s i
step s logs = log_round s

unfoldable pub steps : Logging → List Event → Result Logging
unfolding step
steps s [] = done s
steps s (e ∷ events) = step s e >>= λ t. steps t events
