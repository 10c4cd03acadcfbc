-- ===== src/EventProxy/Clread.antt =====
-- `clread` of proxylab-handout/proxy.c: reading the request, and acting on it when it is complete.
pub mod Connect
pub mod Miss
pub mod Whole
pub mod Ends
pub mod Feed
pub mod Pieces
use multiplexing_proxy.Prelude.{
  ℕ, ◌≡◌, refl, Bool, true, false, not, List, [], ◌∷◌, ◌++◌, length, Option, none, some, Result,
  done, fault, ◌>>=◌, if◌then◌else◌, ℤ, is_negative,
}
use multiplexing_proxy.Memory.{Bytes, c_str, strcpy, strlen, calloc}
use multiplexing_proxy.Platform.{Platform}
use multiplexing_proxy.EventProxy.Action.{
  Callback, Pointer, null, wild, block, EventAction, Interest, writing, Call, Handled,
}
use multiplexing_proxy.EventProxy.Read.{
  Read, Leaving, ended, paused, broken, ReadEnd, read_loop, bufmax,
}
use multiplexing_proxy.EventProxy.Srvread.{or_calloc}
use multiplexing_proxy.EventProxy.Request.{Request, locate, choose_port}
use multiplexing_proxy.EventProxy.Wire.{Constants, event_constants, assemble}
use multiplexing_proxy.EventProxy.Cache.{Cache, Found, search_cache}

-- What the system answers for one address of the server's list.
pub data Address : Type 0 where
  no_socket : Address
  connected : ℤ → Address
  refused : ℤ → (closed : Bool) → Address

-- The loop over the list: a descriptor, or `none` where `clread` returns -1.
unfoldable pub connect_first : List Address → List Call → Option ℤ × List Call
connect_first [] calls = (none, calls)
connect_first (no_socket ∷ list) calls = connect_first list calls
connect_first (connected fd ∷ list) calls = (some fd, calls)
connect_first (refused fd true ∷ list) calls = connect_first list (calls ++ Call.close fd ∷ [])
connect_first (refused fd false ∷ list) calls = (none, calls ++ Call.close fd ∷ [])

-- The answers of the system to one run of `clread`.
pub record ClientAnswers : Type 0 where
  pub reads : List Read
  pub now : ℕ
  -- `getaddrinfo`: `none` where it fails.
  pub addresses : Option (List Address)
  pub nonblocking : ℤ
  pub epoll_first : ℤ
  pub epoll_second : ℤ

-- What the stack holds in the objects that `clread` does not clear: `tempBuf`, the second half of
-- `reqWire`, and `buf2`.
pub record Stack : Type 0 where
  pub temp : Bytes
  pub wire : Bytes
  pub buf2 : Bytes

-- What `clread` leaves: as other handlers, and the cache.
pub record Served : Type 0 where
  pub handled : Handled
  pub cache : Cache

unfoldable pub quiet : EventAction → Bool → List Call → Handled
quiet a ends calls = record { action = a; ends = ends; calls = calls; spawned = []; sent = [] }

-- The response is in the cache: turn to writing it to the client. `free` leaves `URL` without a
-- value, until it is set to NULL.
unfoldable pub serve_cached :
    Platform → ClientAnswers → EventAction → Bytes → Found → Result Handled
unfolding quiet
serve_cached os env a url found = do
  copy ← strcpy (os.malloc found.size) found.copy
  let freed = record a { data_buf = block copy; total_data_size = found.size; url = Pointer.wild }
  done (
      quiet (record freed { url = null; callback = Callback.clwrite }) (is_negative env.epoll_first)
        (Call.free url ∷ Call.epoll_mod a.clientfd writing ∷ []))

-- The server's descriptor is there: turn to writing the request to it.
unfoldable pub start_server :
    Platform → ClientAnswers → EventAction → Bytes → ℤ → List Call → Result Handled
unfolding quiet
start_server os env a wire fd calls = do
  size ← strlen wire
  copy ← strcpy (os.malloc size) wire
  let next = record a {
    serverfd = fd;
    callback = Callback.srvwrite;
    data_buf = block copy;
    total_data_size = size;
  }
  let added = calls ++ Call.set_nonblocking fd ∷ Call.epoll_add fd writing ∷ []
  done (
      if is_negative env.epoll_first
      then quiet next true added
      else quiet next (is_negative env.epoll_second) (added ++ Call.epoll_del a.clientfd ∷ []))

-- Behind the loop over the addresses: the descriptor is made non-blocking.
unfoldable pub use_connection :
    Platform → ClientAnswers → EventAction → Bytes → Option ℤ × List Call → Result Handled
unfolding quiet
use_connection os env a wire (none, calls) = done (quiet a true calls)
use_connection os env a wire (some fd, calls) =
    let start = start_server os env a wire fd calls in
    if is_negative env.nonblocking
    then done (quiet a false (calls ++ Call.set_nonblocking fd ∷ []))
    else start

-- What `getaddrinfo` gives.
unfoldable pub use_addresses :
    Platform
    → ClientAnswers
    → EventAction
    → Bytes
    → List Call
    → Option (List Address)
    → Result Handled
unfolding quiet use_connection connect_first
use_addresses os env a wire asked none = done (quiet a true asked)
use_addresses os env a wire asked (some list) =
    use_connection os env a wire (connect_first list asked)

-- The response is not in the cache: connect to the server. Every `return -1` is `true`.
unfoldable pub contact_server :
    Platform → ClientAnswers → EventAction → Request → Bytes → Result Handled
unfolding use_addresses
contact_server os env a request wire = do
  port_number ← choose_port request
  host ← c_str request.base_url
  port ← c_str port_number
  use_addresses os env a wire (Call.resolve host port ∷ []) env.addresses

-- Whether the response is in the cache.
unfoldable pub act_on_search :
    Platform → ClientAnswers → EventAction → Bytes → Request → Bytes → Option Found → Result Handled
unfolding serve_cached contact_server
act_on_search os env a url request wire none = contact_server os env a request wire
act_on_search os env a url request wire (some f) = serve_cached os env a url f

-- The body of `if (endOfReading)`, with the text of the request in `url`.
unfoldable pub act_on_request :
    Platform → ClientAnswers → Stack → Cache → EventAction → Bytes → Result Served
unfolding act_on_search
act_on_request os env stack cache a url = do
  buf ← strcpy (calloc bufmax) url
  entry ← c_str url
  request ← locate buf
  wire ← assemble event_constants stack.wire request
  wanted ← c_str wire
  (found, cache') ← search_cache wanted stack.buf2 env.now cache
  let ready = record a { total_bytes_passed = 0; url = block url }
  h ← act_on_search os env ready url request wire found
  done (record { handled = record h { calls = Call.log entry ∷ h.calls }; cache = cache' })

unfoldable pub after_reading :
    Platform → ClientAnswers → Stack → Cache → EventAction → ReadEnd → Leaving → Result Served
unfolding act_on_request quiet
after_reading os env stack cache a r ended = act_on_request os env stack cache a r.text
after_reading os env stack cache a r paused = done (record {
  handled = quiet (record a { total_bytes_passed = r.passed; url = block r.text }) false [];
  cache = cache;
})
after_reading os env stack cache a r broken = done (record {
  handled = quiet (record a { total_bytes_passed = r.passed; url = block r.text }) true [];
  cache = cache;
})

unfoldable pub clread : Platform → ClientAnswers → Stack → Cache → EventAction → Result Served
unfolding or_calloc after_reading
clread os env stack cache a = do
  url ← or_calloc a.url
  r ← read_loop os url stack.temp bufmax a.total_bytes_passed env.reads
  after_reading os env stack cache a r r.leaving
