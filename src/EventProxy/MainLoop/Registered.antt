-- ===== src/EventProxy/MainLoop/Registered.antt =====
-- What the calls of each callback make of the descriptors that are watched for its connection.
use multiplexing_proxy.Prelude.{
  ◌≡◌, inl, inr, refl, sym, ap, subst, [], ◌∷◌, ◌==◌, ℤ, is_zero, Bool-cases, Ensures, Ensures->>=,
  Ensures-seq, holds,
}
use multiplexing_proxy.Memory.{Bytes}
use multiplexing_proxy.Platform.{Platform}
use multiplexing_proxy.EventProxy.Action.{
  Callback, handle_new_client, clread, srvwrite, srvread, clwrite, EventAction, reading, writing,
  Call, object,
}
use multiplexing_proxy.EventProxy.Write
use multiplexing_proxy.EventProxy.Write.{
  ServerAnswers, WriteEnd, server_loop, server_outcome, client_loop, client_outcome,
}
use multiplexing_proxy.EventProxy.Srvread
use multiplexing_proxy.EventProxy.Srvread.{or_calloc, srvread_outcome}
use multiplexing_proxy.EventProxy.Read.{read_loop, bufmax, ReadEnd, Leaving, ended, paused, broken}
use multiplexing_proxy.EventProxy.Cache.{Cache}
use multiplexing_proxy.EventProxy.MainLoop.{Answers, call_back}
use multiplexing_proxy.EventProxy.MainLoop.Watch.{
  same_fd_self, without, after_call, after_calls, awaited_as, awaited,
}
use multiplexing_proxy.EventProxy.MainLoop.Tracked.{
  ApartAs, Apart, AnswersFresh, Tracked, ServedTracked, clread-Tracked,
}

-- An action whose callback is still the one that it was.
still :
    (c : Callback) (m : EventAction)
    → m.callback ≡ c
    → ApartAs c m
    → Apart m × (awaited_as c m ≡ awaited m)
still c m state apart =
    (subst (λ k. ApartAs k m) (sym state) apart, ap (λ k. awaited_as k m) (sym state))

module _ (os : Platform) (a : EventAction) where
  server_outcome-Tracked :
      (env : ServerAnswers) (buf : Bytes) (r : WriteEnd)
      → a.callback ≡ srvwrite
      → ApartAs srvwrite a
      → Tracked (awaited_as srvwrite a) a.clientfd (server_outcome os env a buf r)
  unfolding server_outcome
  server_outcome-Tracked env buf r state apart = elim (Bool-cases (r.passed == a.total_data_size)) [
    | inl all ↦ rw all (elim (Bool-cases (is_zero env.deleted)) [
      | inl deleted ↦ rw deleted (record {
        same_client = refl;
        only = rw moved (inr (refl, apart.1), tt);
        goes_on = λ e. (apart, moved);
      })
      | inr kept ↦ rw kept (record { same_client = refl; only = rw gone tt; goes_on = λ e. cc })
    ])
    | inr part ↦ rw part (record {
      same_client = refl;
      only = unfold after_calls in (inr (refl, apart.1), tt);
      goes_on = λ e.
          unfold after_calls in
          still srvwrite (record a { total_bytes_passed = r.passed }) state apart;
    })
  ]
    where
      gone :
          after_calls (awaited_as srvwrite a) (Call.free buf ∷ Call.epoll_del a.serverfd ∷ []) ≡ []
      gone = unfold after_calls after_call without in rw (same_fd_self a.serverfd) refl

      moved :
          after_calls
            (awaited_as srvwrite a)
            (Call.free buf ∷ Call.epoll_del a.serverfd ∷ Call.epoll_add a.serverfd reading ∷ [])
          ≡ (a.serverfd, reading) ∷ []
      moved = unfold after_calls after_call without in rw (same_fd_self a.serverfd) refl

  srvread_outcome-Tracked :
      (added : ℤ) (r : ReadEnd) (l : Leaving)
      → a.callback ≡ srvread
      → ApartAs srvread a
      → Tracked (awaited_as srvread a) a.clientfd (srvread_outcome a added r l)
  unfolding srvread_outcome
  srvread_outcome-Tracked added r ended state apart = record {
    same_client = refl;
    only = rw turned (inl refl, tt);
    goes_on = λ e. (tt, turned);
  }
    where
      turned :
          after_calls
            (awaited_as srvread a)
            (Call.close a.serverfd ∷ Call.epoll_add a.clientfd writing ∷ [])
          ≡ (a.clientfd, writing) ∷ []
      turned = unfold after_calls after_call without in rw (same_fd_self a.serverfd) refl
  srvread_outcome-Tracked added r paused state apart = record {
    same_client = refl;
    only = unfold after_calls in (inr (refl, apart.1), tt);
    goes_on = λ e.
        unfold after_calls in
        still srvread (srvread_outcome a added r Leaving.paused).action state apart;
  }
  srvread_outcome-Tracked added r broken state apart = record {
    same_client = refl;
    only = unfold after_calls in (inr (refl, apart.1), tt);
    goes_on = λ e.
        unfold after_calls in
        still srvread (srvread_outcome a added r Leaving.broken).action state apart;
  }

  client_outcome-Tracked :
      (r : WriteEnd)
      → a.callback ≡ clwrite
      → Tracked (awaited_as clwrite a) a.clientfd (client_outcome os a r)
  unfolding client_outcome
  client_outcome-Tracked r state = record {
    same_client = refl;
    only = unfold after_calls in (inl refl, tt);
    goes_on = λ e. unfold after_calls in still clwrite (client_outcome os a r).action state tt;
  }

pub call_back-Tracked :
    (os : Platform) (ans : Answers) (c : Callback) (a : EventAction) (cache : Cache)
    → a.callback ≡ c
    → ApartAs c a
    → AnswersFresh a.clientfd ans.client.addresses
    → Ensures (ServedTracked (awaited_as c a) a.clientfd) (call_back os ans c a cache)
unfolding call_back Write.srvwrite Srvread.srvread Write.clwrite
call_back-Tracked os ans handle_new_client a cache state apart fresh = absurd apart
call_back-Tracked os ans clread a cache state apart fresh =
    clread-Tracked os ans.client ans.stack cache a state fresh
call_back-Tracked os ans srvwrite a cache state apart fresh =
    Ensures-seq {Q = Tracked (awaited_as srvwrite a) a.clientfd}
      (Ensures->>= (object a.data_buf) λ buf.
        Ensures->>= (server_loop buf a.total_bytes_passed [] ans.server.errno ans.server.writes)
          λ r. holds (server_outcome-Tracked os a ans.server buf r state apart))
      λ h tracked. holds tracked
call_back-Tracked os ans srvread a cache state apart fresh =
    Ensures-seq {Q = Tracked (awaited_as srvread a) a.clientfd}
      (Ensures->>= (or_calloc a.data_buf) λ buf.
        Ensures->>= (read_loop os buf ans.temp bufmax a.total_bytes_passed ans.reads)
          λ r. holds (srvread_outcome-Tracked os a ans.added r r.leaving state apart))
      λ h tracked. holds tracked
call_back-Tracked os ans clwrite a cache state apart fresh =
    Ensures-seq {Q = Tracked (awaited_as clwrite a) a.clientfd}
      (Ensures->>= (object a.data_buf) λ buf.
        Ensures->>= (client_loop buf a.total_bytes_passed [] ans.errno ans.writes)
          λ r. holds (client_outcome-Tracked os a r state))
      λ h tracked. holds tracked
