-- ===== src/EventProxy/MainLoop.antt =====
-- The epoll loop in `main` of proxylab-handout/proxy.c: one turn on what `epoll_wait` returns.
pub mod Turns
pub mod Uncached
pub mod Events
pub mod Parties
pub mod Exchange
pub mod States
pub mod Callbacks
pub mod Heap
pub mod Quiet
pub mod Watch
pub mod Tracked
pub mod Registered
pub mod Connection
pub mod Stops
pub mod Ends
pub mod Effects
pub mod Commute
use multiplexing_proxy.Prelude.{
  ℕ, zero, suc, ◌+◌, ◌-◌, ◌^◌, Bool, true, false, List, [], ◌∷◌, ◌++◌, map, length, get_elem?, set,
  Option, none, some, Result, done, fault, ◌>>=◌, ◌==◌, if◌then◌else◌, ℤ, pos, negsuc, replicate,
}
use multiplexing_proxy.Memory.{Bytes}
use multiplexing_proxy.Platform.{Platform}
use multiplexing_proxy.EventProxy.Action.{
  Callback, handle_new_client, clread, srvwrite, srvread, clwrite, EventAction, Call, Handled,
  free_event_action, free_pointer, listen_action,
}
use multiplexing_proxy.EventProxy.Write.{Write, ServerAnswers}
use multiplexing_proxy.EventProxy.Write
use multiplexing_proxy.EventProxy.Read.{Read}
use multiplexing_proxy.EventProxy.Srvread
use multiplexing_proxy.EventProxy.Cache.{Cache, Entry}
use multiplexing_proxy.EventProxy.Clread
use multiplexing_proxy.EventProxy.Clread.{ClientAnswers, Stack, Served}
use multiplexing_proxy.EventProxy.Accept
use multiplexing_proxy.EventProxy.Accept.{Accepted}

-- What the system answers, and the stack holds, during one callback, whichever it is. The bytes left
-- on the stack and errno come from the callbacks before; they are given for each event anew, so
-- that what holds for all of them holds for those that a run leaves.
pub record Answers : Type 0 where
  pub accepts : List Accepted
  pub client : ClientAnswers
  pub stack : Stack
  pub server : ServerAnswers
  pub temp : Bytes
  pub reads : List Read
  pub added : ℤ
  pub errno : ℕ
  pub writes : List Write

with_cache : Cache → Handled → Served
with_cache cache h = record { handled = h; cache = cache }

-- `eventAction->callback(eventAction)`
unfoldable pub call_back : Platform → Answers → Callback → EventAction → Cache → Result Served
unfolding with_cache
call_back os ans handle_new_client a cache =
    Accept.handle_new_client ans.accepts a >>= λ h. done (with_cache cache h)
call_back os ans clread a cache = Clread.clread os ans.client ans.stack cache a
call_back os ans srvwrite a cache =
    Write.srvwrite os ans.server a >>= λ h. done (with_cache cache h)
call_back os ans srvread a cache =
    Srvread.srvread os ans.temp ans.reads ans.added a >>= λ h. done (with_cache cache h)
call_back os ans clwrite a cache =
    Write.clwrite os ans.errno ans.writes a >>= λ h. done (with_cache cache h)

-- The actions by address (`none` once freed), the cache, the calls made so far, and what each
-- callback wrote to a socket.
pub record World : Type 0 where
  pub heap : List (Option EventAction)
  pub cache : Cache
  pub calls : List Call
  pub sent : List Bytes

-- One element of `events`: whether EPOLLERR, EPOLLHUP or EPOLLRDHUP is set, the pointer in `data`,
-- and the answers that its callback will get, with the leftover bytes and the errno that it finds.
pub record Slot : Type 0 where
  pub error : Bool
  pub target : Option ℕ
  pub answers : Answers

-- The action at an address: past the heap, or freed, is a fault.
unfoldable pub standing : ℕ → Option (Option EventAction) → Result (ℕ × EventAction)
standing i none = fault
standing i (some none) = fault
standing i (some (some a)) = done (i, a)

-- Following a pointer to an action: NULL, or an action that was freed, is a fault.
unfoldable pub fetch : List (Option EventAction) → Option ℕ → Result (ℕ × EventAction)
unfolding standing
fetch heap none = fault
fetch heap (some i) = standing i (get_elem? heap i)

-- What becomes of the action behind its callback.
unfoldable pub settle : World → ℕ → Served → Result World
settle w i s = do
  let kept = record w {
    heap = set w.heap i (some s.handled.action) ++ map some s.handled.spawned;
    cache = s.cache;
    calls = w.calls ++ s.handled.calls;
    sent = w.sent ++ s.handled.sent ∷ [];
  }
  let dropped = free_event_action s.handled.action >>= λ freed. done (record w {
    heap = set w.heap i none ++ map some s.handled.spawned;
    cache = s.cache;
    calls = w.calls ++ (s.handled.calls ++ freed);
    sent = w.sent ++ s.handled.sent ∷ [];
  })
  if s.handled.ends then dropped else done kept

unfoldable pub run_event : Platform → World → Slot → Result World
unfolding settle
run_event os w slot = do
  (i, a) ← fetch w.heap slot.target
  let failed = free_event_action a >>= λ freed.
      done (record w { heap = set w.heap i none; calls = w.calls ++ freed })
  let handled = call_back os slot.answers a.callback a w.cache >>= settle w i
  if slot.error then failed else handled

-- The loop over the first `n` events; past the array is a fault.
unfoldable pub run_events : Platform → World → ℕ → List Slot → Result World
unfolding run_event
run_events os w n [] = if n == 0 then done w else fault
run_events os w n (slot ∷ slots) =
    let rest = run_event os w slot >>= λ w'. run_events os w' (n - 1) slots in
    if n == 0 then done w else rest

-- `n` is a `size_t`: -1 becomes 2^64 - 1, and the test `n < 0` never holds.
unfoldable pub as_size : ℤ → ℕ
as_size (pos n) = n
as_size (negsuc n) = 2 ^ 64 - 1 - n

-- One turn of the loop, on the result of `epoll_wait` and the contents of `events`.
unfoldable pub turn : Platform → World → ℤ → List Slot → Result World
unfolding run_events as_size
turn os w n slots = run_events os w (as_size n) slots

-- `main` up to the loop: the listener's action, and an empty cache. `MAX_CACHE_SIZE` slots.
unfoldable pub start : ℕ → ℤ → World
start cache_size listenfd = record {
  heap = some (listen_action listenfd) ∷ [];
  cache = replicate cache_size none;
  calls = [];
  sent = [];
}

-- `while (runProxy)`: no statement that can be reached clears the flag.
unfoldable pub run : Platform → World → List (ℤ × List Slot) → Result World
unfolding turn
run os w [] = done w
run os w ((n, slots) ∷ waits) = turn os w n slots >>= λ w'. run os w' waits

-- `if (cache[i]->data) free(cache[i]->data); free(cache[i]);` for every entry, behind the loop: the
-- data that is freed, and the number of entries.
unfoldable pub release_cache : Cache → Result (List Call × ℕ)
unfolding free_pointer
release_cache [] = done ([], 0)
release_cache (none ∷ cache) = release_cache cache
release_cache (some e ∷ cache) = do
  freed ← free_pointer e.content
  (rest, n) ← release_cache cache
  done (freed ++ rest, n + 1)
