-- ===== src/EventProxy/MainLoop/Ends.antt =====
-- When the turns of the loop end.
use multiplexing_proxy.Prelude.{
  ℕ, ◌-◌, List, [], ◌∷◌, get_elem?, Option, none, some, ◌==◌, ℤ, >>=-assoc, Ends, returns, faults,
  Ends->>=, if-Ends,
}
use multiplexing_proxy.Platform.{Platform}
use multiplexing_proxy.EventProxy.Action.{
  Callback, handle_new_client, clread, srvwrite, srvread, clwrite, EventAction,
}
use multiplexing_proxy.EventProxy.Accept
use multiplexing_proxy.EventProxy.Accept.{Accepted, accepted, none_left, accept_one, accept_loop}
use multiplexing_proxy.EventProxy.Write
use multiplexing_proxy.EventProxy.Write.{Write, wrote, server_loop, client_loop}
use multiplexing_proxy.EventProxy.Srvread
use multiplexing_proxy.EventProxy.Srvread.{or_calloc}
use multiplexing_proxy.EventProxy.Read.{bufmax}
use multiplexing_proxy.EventProxy.Cache.{Cache}
use multiplexing_proxy.EventProxy.Clread
use multiplexing_proxy.EventProxy.Clread.{Served}
use multiplexing_proxy.EventProxy.Clread.Ends.{object-Ends, after_reading-Ends}
use multiplexing_proxy.EventProxy.MainLoop.{
  Answers, World, Slot, call_back, fetch, standing, settle, run_event, run_events, turn, run,
}
use multiplexing_proxy.EventProxy.MainLoop.Stops.{
  AnswersStop, read_loop-Ends, server_loop-Ends, client_loop-Ends, free_event_action-Ends,
  accept_loop-Ends, or_calloc-Ends,
}

call_back-Ends :
    (os : Platform) (ans : Answers) (c : Callback) (a : EventAction) (cache : Cache)
    → AnswersStop os ans c
    → Ends (call_back os ans c a cache)
unfolding call_back Accept.handle_new_client Clread.clread Write.srvwrite Srvread.srvread
    Write.clwrite
call_back-Ends os ans handle_new_client a cache h =
    rw >>=-assoc (Ends->>= (accept_loop-Ends [] [] ans.accepts h) λ r. returns)
call_back-Ends os ans clread a cache h = Ends->>= (or_calloc-Ends a.url) λ url.
    Ends->>= (read_loop-Ends os url ans.stack.temp bufmax a.total_bytes_passed ans.client.reads h)
      λ r. after_reading-Ends os ans.client ans.stack cache a r r.leaving
call_back-Ends os ans srvwrite a cache h = rw >>=-assoc (
    Ends->>= (object-Ends a.data_buf) λ buf. rw >>=-assoc (
      Ends->>= (server_loop-Ends buf a.total_bytes_passed [] ans.server.errno ans.server.writes h)
        λ r. returns))
call_back-Ends os ans srvread a cache h = rw >>=-assoc (
    Ends->>= (or_calloc-Ends a.data_buf) λ buf. rw >>=-assoc (
      Ends->>= (read_loop-Ends os buf ans.temp bufmax a.total_bytes_passed ans.reads h)
        λ r. returns))
call_back-Ends os ans clwrite a cache h = rw >>=-assoc (
    Ends->>= (object-Ends a.data_buf) λ buf.
      rw >>=-assoc (
        Ends->>= (client_loop-Ends buf a.total_bytes_passed [] ans.errno ans.writes h)
          λ r. returns))

standing-Ends : (i : ℕ) (slot : Option (Option EventAction)) → Ends (standing i slot)
unfolding standing
standing-Ends i none = faults
standing-Ends i (some none) = faults
standing-Ends i (some (some a)) = returns

fetch-Ends : (heap : List (Option EventAction)) (target : Option ℕ) → Ends (fetch heap target)
unfolding fetch
fetch-Ends heap none = faults
fetch-Ends heap (some i) = standing-Ends i (get_elem? heap i)

settle-Ends : (w : World) (i : ℕ) (s : Served) → Ends (settle w i s)
unfolding settle
settle-Ends w i s =
    if-Ends s.handled.ends (Ends->>= (free_event_action-Ends s.handled.action) λ freed. returns)
      returns

-- Whichever callback an event finds.
abbrev pub EventStops : Platform → Slot → Type 0
EventStops os slot = (c : Callback) → AnswersStop os slot.answers c

abbrev pub AllEventsStop : Platform → List Slot → Type 0
AllEventsStop os [] = Unit
AllEventsStop os (slot ∷ slots) = EventStops os slot × AllEventsStop os slots

abbrev pub AllTurnsStop : Platform → List (ℤ × List Slot) → Type 0
AllTurnsStop os [] = Unit
AllTurnsStop os ((n, slots) ∷ waits) = AllEventsStop os slots × AllTurnsStop os waits

run_event-Ends :
    (os : Platform) (w : World) (slot : Slot) → EventStops os slot → Ends (run_event os w slot)
unfolding run_event
run_event-Ends os w slot h = Ends->>= (fetch-Ends w.heap slot.target) λ t.
    if-Ends slot.error (Ends->>= (free_event_action-Ends t.1) λ freed. returns) (
      Ends->>= (call_back-Ends os slot.answers t.1.callback t.1 w.cache (h t.1.callback))
        λ s. settle-Ends w t.0 s)

run_events-Ends :
    (os : Platform) (w : World) (n : ℕ) (slots : List Slot)
    → AllEventsStop os slots
    → Ends (run_events os w n slots)
unfolding run_events
run_events-Ends os w n [] h = if-Ends (n == 0) returns faults
run_events-Ends os w n (slot ∷ slots) h =
    if-Ends (n == 0) returns
      (Ends->>= (run_event-Ends os w slot h.0) λ w'. run_events-Ends os w' (n - 1) slots h.1)

-- From any state of the proxy: if each run of a handler meets, at some point, the answer that
-- stops its loop (for a read the end of the stream or an error that is not EINTR, for a write to
-- a server 0 or an error, for a write to a client 0, for an accept no descriptor or a failure of
-- the calls for a new one), then no handler and no turn of the loop goes on for ever: they
-- return, or have a fault.
pub run-Ends :
    (os : Platform) (w : World) (waits : List (ℤ × List Slot))
    → AllTurnsStop os waits
    → Ends (run os w waits)
unfolding run
run-Ends os w [] h = returns
run-Ends os w ((n, slots) ∷ waits) h =
    Ends->>= (unfold turn in run_events-Ends os w _ slots h.0) λ w'. run-Ends os w' waits h.1
