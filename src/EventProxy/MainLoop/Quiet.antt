-- ===== src/EventProxy/MainLoop/Quiet.antt =====
-- Which callbacks allocate actions.
use multiplexing_proxy.Prelude.{
  ◌≡◌, refl, ◌≢◌, List, [], ◌∷◌, Option, none, some, ℤ, is_negative, Ensures, Ensures->>=,
  Ensures-seq, holds, Bool-cases, inl, inr, ◌==◌,
}
use multiplexing_proxy.Memory.{Bytes, c_str, strcpy, strlen, calloc}
use multiplexing_proxy.Platform.{Platform}
use multiplexing_proxy.EventProxy.Action.{
  Callback, handle_new_client, clread, srvwrite, srvread, clwrite, EventAction, Call, Handled,
  object,
}
use multiplexing_proxy.EventProxy.Write
use multiplexing_proxy.EventProxy.Write.{
  ServerAnswers, WriteEnd, server_loop, server_outcome, client_loop, client_outcome,
}
use multiplexing_proxy.EventProxy.Srvread
use multiplexing_proxy.EventProxy.Srvread.{or_calloc, srvread_outcome}
use multiplexing_proxy.EventProxy.Read.{read_loop, bufmax, ReadEnd, Leaving, ended, paused, broken}
use multiplexing_proxy.EventProxy.Request.{Request, locate, choose_port}
use multiplexing_proxy.EventProxy.Wire.{assemble, event_constants}
use multiplexing_proxy.EventProxy.Cache.{Cache, Found, search_cache}
use multiplexing_proxy.EventProxy.Clread
use multiplexing_proxy.EventProxy.Clread.{
  Address, ClientAnswers, Stack, Served, connect_first, serve_cached, start_server, use_connection,
  use_addresses, contact_server, act_on_search, act_on_request, after_reading,
}
use multiplexing_proxy.EventProxy.MainLoop.{Answers, call_back}

abbrev SpawnsNone : Handled → Type 0
SpawnsNone h = h.spawned ≡ []

abbrev pub ServesAlone : Served → Type 0
ServesAlone s = SpawnsNone s.handled

-- `clread`.
module _ (os : Platform) (env : ClientAnswers) where
  use_connection-SpawnsNone :
      (a : EventAction) (wire : Bytes) (c : Option ℤ × List Call)
      → Ensures SpawnsNone (use_connection os env a wire c)
  unfolding use_connection start_server
  use_connection-SpawnsNone a wire (none, calls) = holds refl
  use_connection-SpawnsNone a wire (some fd, calls) =
      elim (Bool-cases (is_negative env.nonblocking)) [
        | inl failed ↦ rw failed (holds refl)
        | inr fine ↦ rw fine (
            Ensures->>= (strlen wire) λ size. Ensures->>= (strcpy (os.malloc size) wire) λ copy.
              elim (Bool-cases (is_negative env.epoll_first)) [
                | inl unadded ↦ rw unadded (holds refl)
                | inr added ↦ rw added (holds refl)
              ])
      ]

  act_on_search-SpawnsNone :
      (a : EventAction) (url wire : Bytes) (request : Request) (found : Option Found)
      → Ensures SpawnsNone (act_on_search os env a url request wire found)
  unfolding act_on_search contact_server serve_cached
  act_on_search-SpawnsNone a url wire request none =
      Ensures->>= (choose_port request) λ port_number. Ensures->>= (c_str request.base_url) λ host.
        Ensures->>= (c_str port_number)
          λ port. connecting env.addresses (Call.resolve host port ∷ [])
    where
      connecting :
          (found : Option (List Address)) (asked : List Call)
          → Ensures SpawnsNone (use_addresses os env a wire asked found)
      connecting none asked = unfold use_addresses in holds refl
      connecting (some list) asked =
          unfold use_addresses in use_connection-SpawnsNone a wire (connect_first list asked)
  act_on_search-SpawnsNone a url wire request (some f) =
      Ensures->>= (strcpy (os.malloc f.size) f.copy) λ copy. holds refl

  module _ (stack : Stack) (cache : Cache) (a : EventAction) where
    after_reading-ServesAlone :
        (r : ReadEnd) (l : Leaving) → Ensures ServesAlone (after_reading os env stack cache a r l)
    unfolding after_reading act_on_request
    after_reading-ServesAlone r ended = Ensures->>= (strcpy (calloc bufmax) r.text) λ buf.
        Ensures->>= (c_str r.text) λ entry. Ensures->>= (locate buf) λ request.
          Ensures->>= (assemble event_constants stack.wire request) λ wire.
            Ensures->>= (c_str wire) λ wanted.
              Ensures->>= (search_cache wanted stack.buf2 env.now cache) λ s.
                Ensures-seq (act_on_search-SpawnsNone _ r.text wire request s.0)
                  λ h none_new. holds none_new
    after_reading-ServesAlone r paused = holds refl
    after_reading-ServesAlone r broken = holds refl

    clread-ServesAlone : Ensures ServesAlone (Clread.clread os env stack cache a)
    unfolding Clread.clread
    clread-ServesAlone = Ensures->>= (or_calloc a.url) λ url.
        Ensures->>= (read_loop os url stack.temp bufmax a.total_bytes_passed env.reads)
          λ r. after_reading-ServesAlone r r.leaving

server_outcome-SpawnsNone :
    (os : Platform) (env : ServerAnswers) (a : EventAction) (buf : Bytes) (r : WriteEnd)
    → SpawnsNone (server_outcome os env a buf r)
unfolding server_outcome
server_outcome-SpawnsNone os env a buf r = elim (Bool-cases (r.passed == a.total_data_size)) [
  | inl all ↦ rw all refl
  | inr part ↦ rw part refl
]

srvread_outcome-SpawnsNone :
    (a : EventAction) (added : ℤ) (r : ReadEnd) (l : Leaving)
    → SpawnsNone (srvread_outcome a added r l)
unfolding srvread_outcome
srvread_outcome-SpawnsNone a added r ended = refl
srvread_outcome-SpawnsNone a added r paused = refl
srvread_outcome-SpawnsNone a added r broken = refl

pub call_back-ServesAlone :
    (os : Platform) (ans : Answers) (c : Callback) (a : EventAction) (cache : Cache)
    → c ≢ handle_new_client
    → Ensures ServesAlone (call_back os ans c a cache)
unfolding call_back Write.srvwrite Srvread.srvread Write.clwrite client_outcome
call_back-ServesAlone os ans handle_new_client a cache other = absurd (other refl)
call_back-ServesAlone os ans clread a cache other =
    clread-ServesAlone os ans.client ans.stack cache a
call_back-ServesAlone os ans srvwrite a cache other =
    Ensures-seq {Q = SpawnsNone}
      (Ensures->>= (object a.data_buf) λ buf.
        Ensures->>= (server_loop buf a.total_bytes_passed [] ans.server.errno ans.server.writes)
          λ r. holds (server_outcome-SpawnsNone os ans.server a buf r))
      λ h none_new. holds none_new
call_back-ServesAlone os ans srvread a cache other =
    Ensures-seq {Q = SpawnsNone}
      (Ensures->>= (or_calloc a.data_buf) λ buf.
        Ensures->>= (read_loop os buf ans.temp bufmax a.total_bytes_passed ans.reads)
          λ r. holds (srvread_outcome-SpawnsNone a ans.added r r.leaving))
      λ h none_new. holds none_new
call_back-ServesAlone os ans clwrite a cache other =
    Ensures-seq {Q = SpawnsNone}
      (Ensures->>= (object a.data_buf) λ buf.
        Ensures->>= (client_loop buf a.total_bytes_passed [] ans.errno ans.writes) λ r. holds refl)
      λ h none_new. holds none_new
