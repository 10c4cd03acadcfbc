-- ===== src/EventProxy/MainLoop/Tracked.antt =====
-- What the calls of `clread` make of the descriptors that are watched for its connection.
use multiplexing_proxy.Prelude.{
  ◌≡◌, ◌≢◌, inl, inr, refl, sym, ap, subst, ◌∙◌, Bool, true, false, List, [], ◌∷◌, ◌++◌, Option,
  none, some, ℤ, is_zero, is_negative, Bool-cases, Ensures, Ensures->>=, Ensures-seq, holds,
}
use multiplexing_proxy.Memory.{Bytes, c_str, strcpy, strlen, calloc}
use multiplexing_proxy.Platform.{Platform}
use multiplexing_proxy.EventProxy.Action.{
  Callback, handle_new_client, clread, srvwrite, srvread, Pointer, EventAction, reading, writing,
  Call, Handled,
}
use multiplexing_proxy.EventProxy.Read.{read_loop, bufmax, ReadEnd, Leaving, ended, paused, broken}
use multiplexing_proxy.EventProxy.Srvread.{or_calloc}
use multiplexing_proxy.EventProxy.Request.{Request, locate, choose_port}
use multiplexing_proxy.EventProxy.Wire.{assemble, event_constants}
use multiplexing_proxy.EventProxy.Cache.{Cache, Found, search_cache}
use multiplexing_proxy.EventProxy.Clread
use multiplexing_proxy.EventProxy.Clread.{
  Address, no_socket, connected, refused, ClientAnswers, Stack, Served, connect_first, serve_cached,
  start_server, use_connection, use_addresses, contact_server, act_on_search, act_on_request,
  after_reading,
}
use multiplexing_proxy.EventProxy.MainLoop.Watch.{
  same_fd_self, same_fd_other, Watched, without, modified, after_call, after_calls,
  after_calls-append, awaited_as, awaited, OnlyOf,
}

-- A connection, whose descriptor to the server is another than the client's, and not 0, which
-- `freeEventAction` takes for none.
abbrev pub ApartAs : Callback → EventAction → Type 0
ApartAs handle_new_client a = ⊥
ApartAs srvwrite a = (a.serverfd ≢ a.clientfd) × (is_zero a.serverfd ≡ false)
ApartAs srvread a = (a.serverfd ≢ a.clientfd) × (is_zero a.serverfd ≡ false)
ApartAs _ a = Unit

abbrev pub Apart : EventAction → Type 0
Apart a = ApartAs a.callback a

-- The system gives no descriptor that the connection has, nor 0.
abbrev pub IsFresh : ℤ → Address → Type 0
IsFresh client no_socket = Unit
IsFresh client (connected fd) = (fd ≢ client) × (is_zero fd ≡ false)
IsFresh client (refused fd closed) = fd ≢ client

abbrev pub AllFresh : ℤ → List Address → Type 0
AllFresh client [] = Unit
AllFresh client (address ∷ list) = IsFresh client address × AllFresh client list

abbrev pub AnswersFresh : ℤ → Option (List Address) → Type 0
AnswersFresh client none = Unit
AnswersFresh client (some list) = AllFresh client list

-- What a handler's calls make of the descriptors that were watched for its action.
pub record Tracked (l : Watched) (client : ℤ) (h : Handled) : Type 0 where
  pub same_client : h.action.clientfd ≡ client
  pub only : OnlyOf h.action (after_calls l h.calls)
  pub goes_on : h.ends ≡ false → Apart h.action × (after_calls l h.calls ≡ awaited h.action)

module _ (client : ℤ) where
  abbrev watched_client : Watched
  watched_client = (client, reading) ∷ []

  abbrev FreshFd : Option ℤ → Type 0
  FreshFd none = Unit
  FreshFd (some fd) = (fd ≢ client) × (is_zero fd ≡ false)

  closed_other :
      (calls : List Call) (fd : ℤ)
      → fd ≢ client
      → after_calls watched_client calls ≡ watched_client
      → after_calls watched_client (calls ++ Call.close fd ∷ []) ≡ watched_client
  unfolding after_calls after_call without
  closed_other calls fd other h =
      after_calls-append watched_client calls (Call.close fd ∷ [])
      ∙ rw (h, same_fd_other client fd (λ e. other (sym e))) refl

  connect_first-FreshFd :
      (list : List Address) (calls : List Call)
      → AllFresh client list
      → after_calls watched_client calls ≡ watched_client
      → FreshFd (connect_first list calls).0
        × (after_calls watched_client (connect_first list calls).1 ≡ watched_client)
  unfolding connect_first
  connect_first-FreshFd [] calls fresh h = (tt, h)
  connect_first-FreshFd (no_socket ∷ list) calls fresh h =
      connect_first-FreshFd list calls fresh.1 h
  connect_first-FreshFd (connected fd ∷ list) calls fresh h = (fresh.0, h)
  connect_first-FreshFd (refused fd true ∷ list) calls fresh h =
      connect_first-FreshFd list (calls ++ Call.close fd ∷ []) fresh.1
        (closed_other calls fd fresh.0 h)
  connect_first-FreshFd (refused fd false ∷ list) calls fresh h =
      (tt, closed_other calls fd fresh.0 h)

-- `clread`.
module _ (os : Platform) (env : ClientAnswers) (a : EventAction) (state : a.callback ≡ clread) where
  serve_cached-Tracked :
      (url : Bytes) (found : Found)
      → Ensures (Tracked (watched_client a.clientfd) a.clientfd) (serve_cached os env a url found)
  unfolding serve_cached Clread.quiet
  serve_cached-Tracked url found = Ensures->>= (strcpy (os.malloc found.size) found.copy) λ copy.
      holds (record {
        same_client = refl;
        only = rw turned (inl refl, tt);
        goes_on = λ e. (tt, turned);
      })
    where
      turned :
          after_calls
            (watched_client a.clientfd)
            (Call.free url ∷ Call.epoll_mod a.clientfd writing ∷ [])
          ≡ (a.clientfd, writing) ∷ []
      turned = unfold after_calls after_call modified in rw (same_fd_self a.clientfd) refl

  -- Where `clread` goes no further.
  stays :
      (ends : Bool) (calls : List Call)
      → after_calls (watched_client a.clientfd) calls ≡ watched_client a.clientfd
      → Tracked (watched_client a.clientfd) a.clientfd (Clread.quiet a ends calls)
  unfolding Clread.quiet
  stays ends calls h = record {
    same_client = refl;
    only = rw h (inl refl, tt);
    goes_on =
        λ e. (subst (λ c. ApartAs c a) (sym state) tt, h ∙ ap (λ c. awaited_as c a) (sym state));
  }

  start_server-Tracked :
      (wire : Bytes) (fd : ℤ) (calls : List Call)
      → FreshFd a.clientfd (some fd)
      → after_calls (watched_client a.clientfd) calls ≡ watched_client a.clientfd
      → Ensures
          (Tracked (watched_client a.clientfd) a.clientfd)
          (start_server os env a wire fd calls)
  unfolding start_server Clread.quiet
  start_server-Tracked wire fd calls fresh h = Ensures->>= (strlen wire) λ size.
      Ensures->>= (strcpy (os.malloc size) wire) λ copy.
        elim (Bool-cases (is_negative env.epoll_first)) [
          | inl failed ↦ rw failed (
              holds (record {
                same_client = refl;
                only = rw added ((inr (refl, fresh.1)), (inl refl, tt));
                goes_on = λ e. cc;
              }))
          | inr fine ↦ rw fine (
              holds (record {
                same_client = refl;
                only = rw moved (inr (refl, fresh.1), tt);
                goes_on = λ e. (fresh, moved);
              }))
        ]
    where
      starting : List Call
      starting = calls ++ Call.set_nonblocking fd ∷ Call.epoll_add fd writing ∷ []

      added :
          after_calls (watched_client a.clientfd) starting
          ≡ (fd, writing) ∷ watched_client a.clientfd
      added =
          unfold after_calls after_call in
          (after_calls-append (watched_client a.clientfd) calls
              (Call.set_nonblocking fd ∷ Call.epoll_add fd writing ∷ [])
            ∙ rw h refl)

      moved :
          after_calls (watched_client a.clientfd) (starting ++ Call.epoll_del a.clientfd ∷ [])
          ≡ (fd, writing) ∷ []
      moved =
          after_calls-append (watched_client a.clientfd) starting (Call.epoll_del a.clientfd ∷ [])
          ∙ rw added (
              unfold after_calls after_call without in
              rw (same_fd_other fd a.clientfd fresh.0, same_fd_self a.clientfd) refl)

  use_connection-Tracked :
      (wire : Bytes) (c : Option ℤ × List Call)
      → FreshFd a.clientfd c.0
      → after_calls (watched_client a.clientfd) c.1 ≡ watched_client a.clientfd
      → Ensures (Tracked (watched_client a.clientfd) a.clientfd) (use_connection os env a wire c)
  unfolding use_connection
  use_connection-Tracked wire (none, calls) fresh h = holds (stays true calls h)
  use_connection-Tracked wire (some fd, calls) fresh h =
      elim (Bool-cases (is_negative env.nonblocking)) [
        | inl failed ↦ rw failed (
            holds (
              stays false (calls ++ Call.set_nonblocking fd ∷ []) (
                after_calls-append (watched_client a.clientfd) calls (Call.set_nonblocking fd ∷ [])
                ∙ unfold after_calls after_call in h)))
        | inr fine ↦ rw fine (start_server-Tracked wire fd calls fresh h)
      ]

  use_addresses-Tracked :
      (wire host port : Bytes) (found : Option (List Address))
      → AnswersFresh a.clientfd found
      → Ensures
          (Tracked (watched_client a.clientfd) a.clientfd)
          (use_addresses os env a wire (Call.resolve host port ∷ []) found)
  unfolding use_addresses
  use_addresses-Tracked wire host port none fresh =
      holds (stays true (Call.resolve host port ∷ []) (unfold after_calls after_call in refl))
  use_addresses-Tracked wire host port (some list) fresh =
      let (fd, h) =
        connect_first-FreshFd a.clientfd list (Call.resolve host port ∷ []) fresh
          (unfold after_calls after_call in refl) in
      use_connection-Tracked wire (connect_first list (Call.resolve host port ∷ [])) fd h

  act_on_search-Tracked :
      (url wire : Bytes) (request : Request) (found : Option Found)
      → AnswersFresh a.clientfd env.addresses
      → Ensures
          (Tracked (watched_client a.clientfd) a.clientfd)
          (act_on_search os env a url request wire found)
  unfolding act_on_search contact_server
  act_on_search-Tracked url wire request none fresh =
      Ensures->>= (choose_port request) λ port_number. Ensures->>= (c_str request.base_url) λ host.
        Ensures->>= (c_str port_number)
          λ port. use_addresses-Tracked wire host port env.addresses fresh
  act_on_search-Tracked url wire request (some f) fresh = serve_cached-Tracked url f

logged :
    (l : Watched) (client : ℤ) (h : Handled) (entry : Bytes)
    → Tracked l client h
    → Tracked l client (record h { calls = Call.log entry ∷ h.calls })
unfolding after_calls after_call
logged l client h entry t = record {
  same_client = t.same_client;
  only = t.only;
  goes_on = t.goes_on;
}

abbrev pub ServedTracked : Watched → ℤ → Served → Type 0
ServedTracked l client s = Tracked l client s.handled

module _ (os : Platform) (env : ClientAnswers) (stack : Stack) (cache : Cache) (a : EventAction)
    (state : a.callback ≡ clread) (fresh : AnswersFresh a.clientfd env.addresses) where
  after_reading-Tracked :
      (r : ReadEnd) (l : Leaving)
      → Ensures
          (ServedTracked (watched_client a.clientfd) a.clientfd)
          (after_reading os env stack cache a r l)
  unfolding after_reading act_on_request
  after_reading-Tracked r ended = Ensures->>= (strcpy (calloc bufmax) r.text) λ buf.
      Ensures->>= (c_str r.text) λ entry. Ensures->>= (locate buf) λ request.
        Ensures->>= (assemble event_constants stack.wire request) λ wire.
          Ensures->>= (c_str wire) λ wanted.
            Ensures->>= (search_cache wanted stack.buf2 env.now cache) λ s.
              Ensures-seq
                (act_on_search-Tracked os env
                  (record a { total_bytes_passed = 0; url = Pointer.block r.text }) state r.text
                  wire request s.0 fresh)
                λ h tracked. holds (logged (watched_client a.clientfd) a.clientfd h entry tracked)
  after_reading-Tracked r paused = holds (
      stays os env (record a { total_bytes_passed = r.passed; url = Pointer.block r.text }) state
        false [] (unfold after_calls in refl))
  after_reading-Tracked r broken = holds (
      stays os env (record a { total_bytes_passed = r.passed; url = Pointer.block r.text }) state
        true [] (unfold after_calls in refl))

  pub clread-Tracked :
      Ensures
        (ServedTracked (watched_client a.clientfd) a.clientfd)
        (Clread.clread os env stack cache a)
  unfolding Clread.clread
  clread-Tracked = Ensures->>= (or_calloc a.url) λ url.
      Ensures->>= (read_loop os url stack.temp bufmax a.total_bytes_passed env.reads)
        λ r. after_reading-Tracked r r.leaving
