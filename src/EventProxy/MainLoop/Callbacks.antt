-- ===== src/EventProxy/MainLoop/Callbacks.antt =====
-- What each callback leaves of an action's pointers.
use multiplexing_proxy.Prelude.{
  ◌≡◌, List, [], ◌∷◌, Option, none, some, ℤ, is_negative, Ensures, Ensures->>=, Ensures-seq, holds,
  Bool-cases, inl, inr,
}
use multiplexing_proxy.Memory.{Bytes, c_str, strcpy, strlen, calloc}
use multiplexing_proxy.Platform.{Platform}
use multiplexing_proxy.EventProxy.Action.{
  Callback, handle_new_client, clread, srvwrite, srvread, clwrite, block, EventAction, Call, object,
}
use multiplexing_proxy.EventProxy.Accept
use multiplexing_proxy.EventProxy.Accept.{Accepted, accepted, none_left, accept_one, accept_loop}
use multiplexing_proxy.EventProxy.Write
use multiplexing_proxy.EventProxy.Write.{
  ServerAnswers, WriteEnd, server_loop, server_outcome, client_loop, client_outcome,
}
use multiplexing_proxy.EventProxy.Srvread
use multiplexing_proxy.EventProxy.Srvread.{or_calloc, srvread_outcome}
use multiplexing_proxy.EventProxy.Read.{read_loop, bufmax, ReadEnd, Leaving, ended, paused, broken}
use multiplexing_proxy.EventProxy.Request.{Request, locate, choose_port}
use multiplexing_proxy.EventProxy.Wire.{assemble, event_constants}
use multiplexing_proxy.EventProxy.Cache.{Cache, Found, search_cache}
use multiplexing_proxy.EventProxy.Clread
use multiplexing_proxy.EventProxy.Clread.{
  Address, ClientAnswers, Stack, Served, connect_first, serve_cached, start_server, use_connection,
  use_addresses, contact_server, act_on_search, act_on_request, after_reading,
}
use multiplexing_proxy.EventProxy.MainLoop.{Answers, call_back}
use multiplexing_proxy.EventProxy.MainLoop.States.{
  IsBlock, ConsistentAs, Keeps, Leaves, accept_loop-Consistent, server_outcome-Keeps,
  srvread_outcome-Keeps,
}

-- `clread`.
module _ (os : Platform) (env : ClientAnswers) (a : EventAction) (state : a.callback ≡ clread)
    (h : ConsistentAs clread a) where
  serve_cached-Keeps :
      (url : Bytes) (found : Found) → Ensures Keeps (serve_cached os env a url found)
  unfolding serve_cached
  serve_cached-Keeps url found =
      Ensures->>= (strcpy (os.malloc found.size) found.copy) λ copy. holds ((tt, tt), tt)

  start_server-Keeps :
      (wire : Bytes) (fd : ℤ) (calls : List Call)
      → IsBlock a.url
      → Ensures Keeps (start_server os env a wire fd calls)
  unfolding start_server
  start_server-Keeps wire fd calls there = Ensures->>= (strlen wire) λ size.
      Ensures->>= (strcpy (os.malloc size) wire) λ copy.
        elim (Bool-cases (is_negative env.epoll_first)) [
          | inl failed ↦ rw failed (holds ((tt, there), tt))
          | inr fine ↦ rw fine (holds ((tt, there), tt))
        ]

  use_connection-Keeps :
      (wire : Bytes) (c : Option ℤ × List Call)
      → IsBlock a.url
      → Ensures Keeps (use_connection os env a wire c)
  unfolding use_connection
  use_connection-Keeps wire (none, calls) there = holds (rw state h, tt)
  use_connection-Keeps wire (some fd, calls) there =
      elim (Bool-cases (is_negative env.nonblocking)) [
        | inl failed ↦ rw failed (holds (rw state h, tt))
        | inr fine ↦ rw fine (start_server-Keeps wire fd calls there)
      ]

  use_addresses-Keeps :
      (wire : Bytes) (asked : List Call) (found : Option (List Address))
      → IsBlock a.url
      → Ensures Keeps (use_addresses os env a wire asked found)
  unfolding use_addresses
  use_addresses-Keeps wire asked none there = holds (rw state h, tt)
  use_addresses-Keeps wire asked (some list) there =
      use_connection-Keeps wire (connect_first list asked) there

  act_on_search-Keeps :
      (url wire : Bytes) (request : Request) (found : Option Found)
      → IsBlock a.url
      → Ensures Keeps (act_on_search os env a url request wire found)
  unfolding act_on_search contact_server
  act_on_search-Keeps url wire request none there = Ensures->>= (choose_port request) λ port_number.
      Ensures->>= (c_str request.base_url) λ host.
        Ensures->>= (c_str port_number)
          λ port. use_addresses-Keeps wire (Call.resolve host port ∷ []) env.addresses there
  act_on_search-Keeps url wire request (some f) there = serve_cached-Keeps url f

module _ (os : Platform) (env : ClientAnswers) (stack : Stack) (cache : Cache) (a : EventAction)
    (state : a.callback ≡ clread) (h : ConsistentAs clread a) where
  act_on_request-Leaves : (url : Bytes) → Ensures Leaves (act_on_request os env stack cache a url)
  unfolding act_on_request
  act_on_request-Leaves url = Ensures->>= (strcpy (calloc bufmax) url) λ buf.
      Ensures->>= (c_str url) λ entry. Ensures->>= (locate buf) λ request.
        Ensures->>= (assemble event_constants stack.wire request) λ wire.
          Ensures->>= (c_str wire) λ wanted.
            Ensures->>= (search_cache wanted stack.buf2 env.now cache) λ r.
              Ensures-seq
                (act_on_search-Keeps os env (ready url) state (h.0, tt) url wire request r.0 tt)
                λ handled keeps. holds keeps
    where
      ready : Bytes → EventAction
      ready url = record a { total_bytes_passed = 0; url = block url }

  after_reading-Leaves :
      (r : ReadEnd) (l : Leaving) → Ensures Leaves (after_reading os env stack cache a r l)
  unfolding after_reading
  after_reading-Leaves r ended = act_on_request-Leaves r.text
  after_reading-Leaves r paused = holds (rw state (h.0, tt), tt)
  after_reading-Leaves r broken = holds (rw state (h.0, tt), tt)

  clread-Leaves : Ensures Leaves (Clread.clread os env stack cache a)
  unfolding Clread.clread
  clread-Leaves = Ensures->>= (or_calloc a.url) λ url.
      Ensures->>= (read_loop os url stack.temp bufmax a.total_bytes_passed env.reads)
        λ r. after_reading-Leaves r r.leaving

module _ (os : Platform) (ans : Answers) (a : EventAction) where
  accept-Keeps :
      a.callback ≡ handle_new_client → Ensures Keeps (Accept.handle_new_client ans.accepts a)
  unfolding Accept.handle_new_client
  accept-Keeps state =
      Ensures-seq (accept_loop-Consistent [] [] ans.accepts tt) λ r all. holds (rw state tt, all)

  srvwrite-Keeps :
      a.callback ≡ srvwrite
      → ConsistentAs srvwrite a
      → Ensures Keeps (Write.srvwrite os ans.server a)
  unfolding Write.srvwrite
  srvwrite-Keeps state h = Ensures->>= (object a.data_buf) λ buf.
      Ensures->>= (server_loop buf a.total_bytes_passed [] ans.server.errno ans.server.writes)
        λ r. holds (server_outcome-Keeps os a ans.server buf r state h)

  srvread-Keeps :
      a.callback ≡ srvread
      → IsBlock a.url
      → Ensures Keeps (Srvread.srvread os ans.temp ans.reads ans.added a)
  unfolding Srvread.srvread
  srvread-Keeps state there = Ensures->>= (or_calloc a.data_buf) λ buf.
      Ensures->>= (read_loop os buf ans.temp bufmax a.total_bytes_passed ans.reads)
        λ r. holds (srvread_outcome-Keeps os a ans.added r r.leaving state there)

  clwrite-Keeps :
      a.callback ≡ clwrite
      → ConsistentAs clwrite a
      → Ensures Keeps (Write.clwrite os ans.errno ans.writes a)
  unfolding Write.clwrite client_outcome
  clwrite-Keeps state h = Ensures->>= (object a.data_buf) λ buf.
      Ensures->>= (client_loop buf a.total_bytes_passed [] ans.errno ans.writes)
        λ r. holds (rw state h, tt)

pub call_back-Leaves :
    (os : Platform) (ans : Answers) (c : Callback) (a : EventAction) (cache : Cache)
    → a.callback ≡ c
    → ConsistentAs c a
    → Ensures Leaves (call_back os ans c a cache)
unfolding call_back
call_back-Leaves os ans handle_new_client a cache state h =
    Ensures-seq (accept-Keeps os ans a state) λ k keeps. holds keeps
call_back-Leaves os ans clread a cache state h =
    clread-Leaves os ans.client ans.stack cache a state h
call_back-Leaves os ans srvwrite a cache state h =
    Ensures-seq (srvwrite-Keeps os ans a state h) λ k keeps. holds keeps
call_back-Leaves os ans srvread a cache state h =
    Ensures-seq (srvread-Keeps os ans a state h.1) λ k keeps. holds keeps
call_back-Leaves os ans clwrite a cache state h =
    Ensures-seq (clwrite-Keeps os ans a state h) λ k keeps. holds keeps
