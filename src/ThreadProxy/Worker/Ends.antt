-- ===== src/ThreadProxy/Worker/Ends.antt =====
-- When the rounds of `thread` end.
use multiplexing_proxy.Prelude.{
  ℕ, ◌+◌, ◌-◌, ◌^◌, ◌&&◌, not, List, [], ◌∷◌, length, drop, Option, none, some, ltb, add64, Ends,
  returns, faults, Ends->>=, if-Ends,
}
use multiplexing_proxy.Memory.{
  Bytes, equal, terminated, c_str-Ends, put-Ends, slice-Ends, strlen-Ends, strcpy-Ends, strcat-Ends,
}
use multiplexing_proxy.EventProxy.Clread.Ends.{locate-Ends, choose_port-Ends, assemble-Ends}
use multiplexing_proxy.ThreadProxy.Store.{
  Entry, Store, search, fill, place, oldest, replace_oldest, store, max_cache_size, max_object_size,
}
use multiplexing_proxy.ThreadProxy.Relay.{
  Line, line, nothing, failed, Relayed, append_at, relay_line, relay_failed, relay,
}
use multiplexing_proxy.ThreadProxy.Worker.{
  Round, thread_constants, vet, fetch, deliver, answer, reply, serve,
}
use multiplexing_proxy.ThreadProxy.Worker.Session.{serve_all}

-- At some point the server's descriptor has nothing left. Reads that fail may come before.
abbrev pub LinesStop : List Line → Type 0
LinesStop [] = ⊥
LinesStop (nothing ∷ lines) = Unit
LinesStop (failed stored ∷ lines) = LinesStop lines
LinesStop (line c cs ∷ lines) = LinesStop lines

abbrev pub AllLinesStop : List Round → Type 0
AllLinesStop [] = Unit
AllLinesStop (env ∷ rounds) = LinesStop env.lines × AllLinesStop rounds

-- The relay.
relay_line-Ends : (buf2 : Bytes) (n : ℕ) (r : Relayed) → Ends (relay_line buf2 n r)
unfolding relay_line append_at
relay_line-Ends buf2 n r =
    if-Ends (not r.too_big && ltb (add64 r.offset n) max_object_size)
      (Ends->>= (Ends->>= (strcat-Ends (drop r.offset r.cache_data) buf2) λ tail. returns)
        λ longer. returns)
      returns

relay_failed-Ends : (buf2 : Bytes) (r : Relayed) → Ends (relay_failed buf2 r)
unfolding relay_failed append_at
relay_failed-Ends buf2 r =
    if-Ends (not r.too_big && ltb (add64 r.offset (2 ^ 64 - 1)) max_object_size)
      (Ends->>= (Ends->>= (strcat-Ends (drop r.offset r.cache_data) buf2) λ tail. returns)
        λ longer. returns)
      returns

relay-Ends :
    (buf2 : Bytes) (r : Relayed) (lines : List Line) → LinesStop lines → Ends (relay buf2 r lines)
unfolding relay
relay-Ends buf2 r [] h = absurd h
relay-Ends buf2 r (nothing ∷ lines) h = returns
relay-Ends buf2 r (failed stored ∷ lines) h =
    Ends->>= (put-Ends buf2 stored)
      λ buf2'. Ends->>= (relay_failed-Ends buf2' r) λ r'. relay-Ends buf2' r' lines h
relay-Ends buf2 r (line c cs ∷ lines) h =
    Ends->>= (put-Ends buf2 (terminated (c ∷ cs))) λ buf2'.
      Ends->>= (relay_line-Ends buf2' (length (c ∷ cs)) r) λ r'. relay-Ends buf2' r' lines h

-- The cache.
search-Ends :
    (wanted buf2 : Bytes) (now : ℕ) (entries : List (Option Entry))
    → Ends (search wanted buf2 now entries)
unfolding search
search-Ends wanted buf2 now [] = returns
search-Ends wanted buf2 now (none ∷ entries) =
    Ends->>= (search-Ends wanted buf2 now entries) λ r. returns
search-Ends wanted buf2 now (some e ∷ entries) = Ends->>= (c_str-Ends e.request) λ key.
    if-Ends (equal key wanted) (Ends->>= (strcpy-Ends buf2 e.content) λ copy. returns)
      (Ends->>= (search-Ends wanted buf2 now entries) λ r. returns)

fill-Ends :
    (old : Entry) (cache_data req_wire : Bytes) (now : ℕ) → Ends (fill old cache_data req_wire now)
unfolding fill
fill-Ends old cache_data req_wire now = Ends->>= (strcpy-Ends old.content cache_data) λ content.
    Ends->>= (strlen-Ends cache_data)
      λ size. Ends->>= (strcpy-Ends old.request req_wire) λ request. returns

place-Ends :
    (blank : Entry) (cache_data req_wire : Bytes) (now : ℕ) (entries : List (Option Entry))
    → Ends (place blank cache_data req_wire now entries)
unfolding place
place-Ends blank cache_data req_wire now [] = returns
place-Ends blank cache_data req_wire now (none ∷ entries) =
    Ends->>= (fill-Ends blank cache_data req_wire now) λ e. returns
place-Ends blank cache_data req_wire now (some e ∷ entries) =
    Ends->>= (place-Ends blank cache_data req_wire now entries) λ r. returns

oldest-Ends : (i : ℕ) (entries : List (Option Entry)) → Ends (oldest i entries)
unfolding oldest
oldest-Ends i [] = faults
oldest-Ends i (none ∷ entries) = oldest-Ends (i + 1) entries
oldest-Ends i (some e ∷ entries) = returns

store-Ends :
    (st : Store) (blank : Entry) (cache_data req_wire : Bytes) (now : ℕ)
    → Ends (store st blank cache_data req_wire now)
unfolding store replace_oldest
store-Ends st blank cache_data req_wire now = Ends->>= (strlen-Ends cache_data) λ size.
    if-Ends (ltb (st.current + size) max_cache_size)
      (Ends->>= (place-Ends blank cache_data req_wire now st.entries) λ r. returns)
      (Ends->>= (oldest-Ends 0 st.entries) λ (i, old).
        Ends->>= (fill-Ends _ cache_data req_wire now) λ e.
          if-Ends (ltb max_cache_size (st.current - old.object_size + e.object_size)) faults
            returns)

-- The round.
vet-Ends : (buf : Bytes) → Ends (vet buf)
unfolding vet
vet-Ends buf = Ends->>= (slice-Ends buf 0 3) λ m. Ends->>= (c_str-Ends (terminated m)) λ method.
    Ends->>= (slice-Ends buf 4 5) λ b. Ends->>= (c_str-Ends (terminated b)) λ scheme. returns

fetch-Ends :
    (env : Round) (cache : Store) (target : Bytes × Bytes × Bytes) (wire : Bytes)
    → LinesStop env.lines
    → Ends (fetch env cache target wire)
unfolding fetch
fetch-Ends env cache target wire h = if-Ends (not env.server_opens) returns (
    if-Ends (not env.server_takes) returns (
      Ends->>= (relay-Ends env.buf2 _ env.lines h) λ r.
        Ends->>= (if-Ends r.too_big returns (store-Ends cache env.blank r.cache_data wire env.now))
          λ cache'. returns))

deliver-Ends :
    (env : Round) (cache : Store) (target : Bytes × Bytes × Bytes) (wire : Bytes)
    (found : Option (ℕ × Bytes))
    → LinesStop env.lines
    → Ends (deliver env cache target wire found)
unfolding deliver
deliver-Ends env cache target wire none h = fetch-Ends env cache target wire h
deliver-Ends env cache target wire (some (size, copy)) h =
    Ends->>= (slice-Ends copy 0 size) λ sent. returns

answer-Ends :
    (env : Round) (cache : Store) (buf : Bytes) → LinesStop env.lines → Ends (answer env cache buf)
unfolding answer
answer-Ends env cache buf h = Ends->>= (locate-Ends buf) λ request.
    Ends->>= (assemble-Ends thread_constants env.wire_stack request) λ wire.
      Ends->>= (choose_port-Ends request) λ port_number.
        Ends->>= (c_str-Ends request.base_url) λ host. Ends->>= (c_str-Ends port_number) λ port.
          Ends->>= (c_str-Ends wire) λ wanted.
            Ends->>= (search-Ends wanted env.buf2 env.now cache.entries) λ (found, entries).
              deliver-Ends env (record cache { entries = entries }) (host, port, wanted) wire found
                h

reply-Ends :
    (env : Round) (cache : Store) (buf : Bytes) (status : Option Bytes)
    → LinesStop env.lines
    → Ends (reply env cache buf status)
unfolding reply
reply-Ends env cache buf none h = answer-Ends env cache buf h
reply-Ends env cache buf (some status) h = returns

-- From any cache: if in each round the server's descriptor has nothing left at some point, whatever
-- lines and failed reads come before that, then no round goes on for ever: each returns, or has a
-- fault.
pub serve_all-Ends :
    (cache : Store) (rounds : List Round) → AllLinesStop rounds → Ends (serve_all cache rounds)
unfolding serve_all serve
serve_all-Ends cache [] h = returns
serve_all-Ends cache (env ∷ rounds) h =
    Ends->>=
      (Ends->>= (put-Ends _ (terminated env.request_line))
        λ buf. Ends->>= (vet-Ends buf) λ status. reply-Ends env cache buf status h.0)
      λ r. Ends->>= (serve_all-Ends r.cache rounds h.1) λ replies. returns
