-- ===== src/EventProxy/MainLoop/Uncached.antt =====
-- The cache of proxylab-handout/proxy.c over the turns of the loop.
use multiplexing_proxy.Prelude.{
  ℕ, zero, suc, ◌-◌, ◌≡◌, refl, sym, subst, List, [], ◌∷◌, none, done, ◌==◌, ℤ, Ensures,
  Ensures->>=, Ensures-seq, Ensures-value, holds, faulted, Bool-cases, inl, inr, replicate,
}
use multiplexing_proxy.Memory.{Bytes, c_str, strcpy, calloc}
use multiplexing_proxy.EventProxy.Accept
use multiplexing_proxy.EventProxy.Write
use multiplexing_proxy.EventProxy.Srvread
use multiplexing_proxy.EventProxy.Srvread.{or_calloc}
use multiplexing_proxy.EventProxy.Request.{locate}
use multiplexing_proxy.EventProxy.Wire.{assemble, event_constants}
use multiplexing_proxy.Platform.{Platform}
use multiplexing_proxy.EventProxy.Action.{
  Callback, handle_new_client, clread, srvwrite, srvread, clwrite, EventAction, block,
  free_event_action,
}
use multiplexing_proxy.EventProxy.Read.{read_loop, bufmax, ReadEnd, Leaving, ended, paused, broken}
use multiplexing_proxy.EventProxy.Cache.{Cache, IsEmpty, search_cache-IsEmpty}
use multiplexing_proxy.EventProxy.Clread
use multiplexing_proxy.EventProxy.Clread.{
  ClientAnswers, Stack, Served, act_on_request, after_reading, contact_server,
}
use multiplexing_proxy.EventProxy.MainLoop.{
  World, Slot, Answers, fetch, settle, run_event, run_events, turn, start, run, call_back,
}

-- A callback that leaves the cache as it was.
abbrev Uncached : Cache → Served → Type 0
Uncached cache s = s.cache ≡ cache

module _ (os : Platform) (env : ClientAnswers) (stack : Stack) (cache : Cache) (a : EventAction)
    (empty : IsEmpty cache) where
  act_on_request-Uncached :
      (url : Bytes) → Ensures (Uncached cache) (act_on_request os env stack cache a url)
  unfolding act_on_request
  act_on_request-Uncached url = Ensures->>= (strcpy (calloc bufmax) url) λ buf.
      Ensures->>= (c_str url) λ entry. Ensures->>= (locate buf) λ request.
        Ensures->>= (assemble event_constants stack.wire request) λ wire.
          Ensures->>= (c_str wire) λ wanted.
            rw (search_cache-IsEmpty wanted stack.buf2 env.now cache empty)
              (Ensures->>= (contact_server os env (ready url) request wire) λ h. holds refl)
    where
      ready : Bytes → EventAction
      ready url = record a { total_bytes_passed = 0; url = block url }

  after_reading-Uncached :
      (r : ReadEnd) (l : Leaving)
      → Ensures (Uncached cache) (after_reading os env stack cache a r l)
  unfolding after_reading
  after_reading-Uncached r ended = act_on_request-Uncached r.text
  after_reading-Uncached r paused = holds refl
  after_reading-Uncached r broken = holds refl

  clread-Uncached : Ensures (Uncached cache) (Clread.clread os env stack cache a)
  unfolding Clread.clread
  clread-Uncached = Ensures->>= (or_calloc a.url) λ url.
      Ensures->>= (read_loop os url stack.temp bufmax a.total_bytes_passed env.reads)
        λ r. after_reading-Uncached r r.leaving

pub call_back-Uncached :
    (os : Platform) (ans : Answers) (c : Callback) (a : EventAction) (cache : Cache)
    → IsEmpty cache
    → Ensures (Uncached cache) (call_back os ans c a cache)
unfolding call_back
call_back-Uncached os ans handle_new_client a cache empty =
    Ensures->>= (Accept.handle_new_client ans.accepts a) λ h. holds refl
call_back-Uncached os ans clread a cache empty =
    clread-Uncached os ans.client ans.stack cache a empty
call_back-Uncached os ans srvwrite a cache empty =
    Ensures->>= (Write.srvwrite os ans.server a) λ h. holds refl
call_back-Uncached os ans srvread a cache empty =
    Ensures->>= (Srvread.srvread os ans.temp ans.reads ans.added a) λ h. holds refl
call_back-Uncached os ans clwrite a cache empty =
    Ensures->>= (Write.clwrite os ans.errno ans.writes a) λ h. holds refl

abbrev NoEntry : World → Type 0
NoEntry w = IsEmpty w.cache

settle-NoEntry :
    (w : World) (i : ℕ) (s : Served)
    → IsEmpty w.cache
    → Uncached w.cache s
    → Ensures NoEntry (settle w i s)
unfolding settle
settle-NoEntry w i s empty same = elim (Bool-cases s.handled.ends) [
  | inl ends ↦ rw ends (
      Ensures->>= (free_event_action s.handled.action)
        λ freed. holds (subst IsEmpty (sym same) empty))
  | inr stays ↦ rw stays (holds (subst IsEmpty (sym same) empty))
]

run_event-NoEntry :
    (os : Platform) (w : World) (slot : Slot) → NoEntry w → Ensures NoEntry (run_event os w slot)
unfolding run_event
run_event-NoEntry os w slot empty = Ensures->>= (fetch w.heap slot.target) λ t.
    elim (Bool-cases slot.error) [
      | inl failed ↦ rw failed (Ensures->>= (free_event_action t.1) λ freed. holds empty)
      | inr fine ↦ rw fine (
          Ensures-seq (call_back-Uncached os slot.answers t.1.callback t.1 w.cache empty)
            λ s same. settle-NoEntry w t.0 s empty same)
    ]

run_events-NoEntry :
    (os : Platform) (w : World) (n : ℕ) (slots : List Slot)
    → NoEntry w
    → Ensures NoEntry (run_events os w n slots)
unfolding run_events
run_events-NoEntry os w n [] empty = elim (Bool-cases (n == 0)) [
  | inl z ↦ rw z (holds empty)
  | inr more ↦ rw more faulted
]
run_events-NoEntry os w n (slot ∷ slots) empty = elim (Bool-cases (n == 0)) [
  | inl z ↦ rw z (holds empty)
  | inr more ↦ rw more (
      Ensures-seq (run_event-NoEntry os w slot empty)
        λ w' e. run_events-NoEntry os w' (n - 1) slots e)
]

run-NoEntry :
    (os : Platform) (w : World) (waits : List (ℤ × List Slot))
    → NoEntry w
    → Ensures NoEntry (run os w waits)
unfolding run
run-NoEntry os w [] empty = holds empty
run-NoEntry os w ((n, slots) ∷ waits) empty =
    Ensures-seq (unfold turn in run_events-NoEntry os w _ slots empty)
      λ w' e. run-NoEntry os w' waits e

replicate-IsEmpty : (n : ℕ) → IsEmpty (replicate n none)
replicate-IsEmpty zero = tt
replicate-IsEmpty (suc n) = replicate-IsEmpty n

-- Whatever the clients, the servers and the system do, and for however many turns the proxy runs
-- from its start without a fault, its cache has no entry.
pub run-IsEmpty :
    (os : Platform) (cache_size : ℕ) (listenfd : ℤ) (waits : List (ℤ × List Slot)) {w : World}
    → run os (start cache_size listenfd) waits ≡ done w
    → IsEmpty w.cache
unfolding start
run-IsEmpty os cache_size listenfd waits ran =
    Ensures-value (run-NoEntry os (start cache_size listenfd) waits (replicate-IsEmpty cache_size))
      ran
