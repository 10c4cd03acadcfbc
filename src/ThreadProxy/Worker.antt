-- ===== src/ThreadProxy/Worker.antt =====
-- One round of `thread` in httpProxy-master/proxylab-handout/proxy.c: one connection, from its
-- request line to the close. The parsing and assembling code is that of proxylab-handout/proxy.c.
pub mod Replies
pub mod Page
pub mod Twice
pub mod Genuine
pub mod Origins
pub mod Session
pub mod Ends
use multiplexing_proxy.Prelude.{
  ℕ, Bool, false, not, ◌&&◌, List, [], Option, none, some, Result, done, ◌>>=◌, if◌then◌else◌,
}
use multiplexing_proxy.Memory.{Bytes, c_str, slice, put, calloc, equal, terminated}
use multiplexing_proxy.EventProxy.Wire.{Constants, codes, assemble}
use multiplexing_proxy.EventProxy.Request.{locate, choose_port, https}
use multiplexing_proxy.ThreadProxy.Store.{Entry, Store, search, store, max_object_size}
use multiplexing_proxy.ThreadProxy.Relay.{Line, relay}

-- `BUFMAX` of this file.
abbrev pub bufmax : ℕ
bufmax = 1049000

abbrev pub thread_constants : Constants
thread_constants = record {
  user_agent =
      codes
        "\r\nUser-Agent: Mozilla/5.0 (X11; Linux x86_64; rv:10.0.3) Gecko/20120305 Firefox/10.0.3\r\n";
  connection = codes "\r\nConnection: close";
  proxy_connection = codes "\r\nProxy-Connection: close";
}

-- The answers of the system to one round, and what the stack and `malloc` hold.
pub record Round : Type 0 where
  -- The request line that `Rio_readlineb` stores.
  pub request_line : Bytes
  pub now : ℕ
  -- `open_clientfd` gives a descriptor; `Rio_writen` to the server succeeds.
  pub server_opens : Bool
  pub server_takes : Bool
  pub lines : List Line
  pub wire_stack : Bytes
  pub buf2 : Bytes
  pub blank : Entry

-- What a round does: the bytes that the client gets before its descriptor is closed, the host, port
-- and request that the server gets, and the cache.
pub record Reply : Type 0 where
  pub sent : Bytes
  pub server : Option (Bytes × Bytes × Bytes)
  pub cache : Store

abbrev pub status_405 : Bytes
status_405 = codes "HTTP/1.0 405 Method Not Allowed\r\n\r\n"

abbrev pub status_400 : Bytes
status_400 = codes "HTTP/1.0 400 Bad Request\r\n\r\n"

abbrev pub status_404 : Bytes
status_404 = codes "HTTP/1.0 404 Not Found\r\n\r\n"

abbrev pub status_500 : Bytes
status_500 = codes "HTTP/1.0 500 Internal Server Error\r\n\r\n"

-- The checks on the first nine bytes: a status to refuse with.
unfoldable pub vet : Bytes → Result (Option Bytes)
vet buf = do
  method_bytes ← slice buf 0 3
  method ← c_str (terminated method_bytes)
  scheme_bytes ← slice buf 4 5
  scheme ← c_str (terminated scheme_bytes)
  done (
      if not (equal method (codes "GET"))
        && (not (equal method (codes "get")) && not (equal method (codes "Get")))
      then some status_405
      else if not (equal scheme (codes "http:")) && not (equal scheme https)
      then some status_400
      else none)

-- The response comes from the server.
unfoldable pub fetch : Round → Store → Bytes × Bytes × Bytes → Bytes → Result Reply
fetch env cache target wire = do
  let refused : Bytes → Result Reply =
      λ status. done (record { sent = status; server = some target; cache = cache })
  let relayed =
      relay env.buf2
        (record { sent = []; cache_data = calloc max_object_size; offset = 0; too_big = false })
        env.lines
      >>= λ r.
          let kept = store cache env.blank r.cache_data wire env.now in
          (if r.too_big then done cache else kept) >>= λ cache'.
          done (record { sent = r.sent; server = some target; cache = cache' })
  if not env.server_opens
      then refused status_404
      else if not env.server_takes
      then refused status_500
      else relayed

-- The response comes from the cache, where the search has found a size and a copy, or else from
-- the server.
unfoldable pub deliver :
    Round → Store → Bytes × Bytes × Bytes → Bytes → Option (ℕ × Bytes) → Result Reply
deliver env cache target wire none = fetch env cache target wire
deliver env cache target wire (some (size, copy)) =
    slice copy 0 size >>= λ sent. done (record { sent = sent; server = none; cache = cache })

-- A request that passed the checks.
unfoldable pub answer : Round → Store → Bytes → Result Reply
answer env cache buf = do
  request ← locate buf
  wire ← assemble thread_constants env.wire_stack request
  port_number ← choose_port request
  host ← c_str request.base_url
  port ← c_str port_number
  wanted ← c_str wire
  (found, entries) ← search wanted env.buf2 env.now cache.entries
  deliver env (record cache { entries = entries }) (host, port, wanted) wire found

-- With the status that refuses the request, or none.
unfoldable pub reply : Round → Store → Bytes → Option Bytes → Result Reply
reply env cache buf none = answer env cache buf
reply env cache buf (some status) = done (record { sent = status; server = none; cache = cache })

unfoldable pub serve : Round → Store → Result Reply
serve env cache = do
  buf ← put (calloc bufmax) (terminated env.request_line)
  status ← vet buf
  reply env cache buf status
