-- ===== src/EventProxy/Write/Server.antt =====
-- `srvwrite`: sending the request, over one event or several.
use multiplexing_proxy.Prelude.{
  ◌+◌, ◌-◌, ◌^◌, ◌≤◌, ◌<◌, ◌≡◌, ◌≢◌, refl, List, [], ◌∷◌, length, take, drop, done, arith, true,
  not, ◌&&◌, ◌==◌, if◌then◌else◌, is_zero,
}
use multiplexing_proxy.Memory.{Bytes}
use multiplexing_proxy.Platform.{Platform, IsLinux}
use multiplexing_proxy.EventProxy.Action.{
  Callback, Pointer, block, EventAction, reading, Call, Handled,
}
use multiplexing_proxy.EventProxy.Write.{Write, ServerAnswers, srvwrite, server_outcome}
use multiplexing_proxy.EventProxy.Write.Loops.{accepted, last_errno, Stops, sends, server_loop_lem}

-- An action in the middle of sending the first `total_data_size` bytes of `buf`.
pub record IsSending (a : EventAction) (buf : Bytes) : Type 0 where
  pub holds : a.data_buf ≡ block buf
  pub started : a.total_bytes_passed ≤ a.total_data_size
  pub inside : a.total_data_size ≤ length buf
  pub small : length buf < 2 ^ 64

-- What the system may answer: no more than it was offered, and at some point a stop.
pub record IsHonest (a : EventAction) (ws : List Write) : Type 0 where
  pub stops : Stops ws
  pub fits : a.total_bytes_passed + accepted ws ≤ a.total_data_size

module _ (os : Platform) (env : ServerAnswers) (a : EventAction) {buf : Bytes} where
  pub srvwrite_outcome :
      IsSending a buf
      → IsHonest a env.writes
      → srvwrite os env a
        ≡ done
            (server_outcome os env a buf (sends buf a.total_bytes_passed [] env.errno env.writes))
  unfolding srvwrite
  srvwrite_outcome s h = rw s.holds (
      rw (
        server_loop_lem buf a.total_bytes_passed [] env.errno env.writes h.stops (omega arith)
          s.small))

  -- For an action in the middle of sending a request, on a system that takes no more than it is
  -- offered and answers 0 or an error at some point: while the request is not all out, `srvwrite`
  -- sends the next bytes that the system accepts, advances the counter by as many, keeps
  -- everything else of the action and makes no other call; on Linux it ends the connection
  -- exactly when the last error is not EAGAIN.
  pub srvwrite_partial :
      IsLinux os
      → IsSending a buf
      → IsHonest a env.writes
      → a.total_bytes_passed + accepted env.writes ≢ a.total_data_size
      → srvwrite os env a
        ≡ done (record {
          action = record a { total_bytes_passed = a.total_bytes_passed + accepted env.writes };
          ends = not (last_errno env.errno env.writes == os.eagain);
          calls = [];
          spawned = [];
          sent = take (accepted env.writes) (drop a.total_bytes_passed buf);
        })
  unfolding server_outcome
  srvwrite_partial linux s h more = rw (srvwrite_outcome s h) (ground arith)

  pub done_all :
      IsSending a buf
      → IsHonest a env.writes
      → a.total_bytes_passed + accepted env.writes ≡ a.total_data_size
      → (a.total_bytes_passed + accepted env.writes == a.total_data_size) ≡ true
  done_all s h all = ground arith

  -- For such an action and system: when the rest of the request goes out, `srvwrite` has sent
  -- exactly that rest, frees the buffer, resets both counters, turns the action to `srvread`, and
  -- moves the server's descriptor in the epoll set from writing to reading; it ends the
  -- connection exactly when one of the two calls of `epoll_ctl` does not answer 0.
  pub srvwrite_complete :
      IsSending a buf
      → IsHonest a env.writes
      → a.total_bytes_passed + accepted env.writes ≡ a.total_data_size
      → (h : Handled) × (srvwrite os env a ≡ done h)
        × (h.sent ≡ take (a.total_data_size - a.total_bytes_passed) (drop a.total_bytes_passed buf))
        × (h.action ≡ record a {
          data_buf = Pointer.null;
          total_data_size = 0;
          total_bytes_passed = 0;
          callback = Callback.srvread;
        })
        × (h.ends ≡ not (is_zero env.deleted && is_zero env.added))
        × (h.calls
            ≡ Call.free buf
              ∷ Call.epoll_del a.serverfd
              ∷ (if is_zero env.deleted then Call.epoll_add a.serverfd reading ∷ [] else []))
  unfolding server_outcome
  srvwrite_complete s h all = (
    server_outcome os env a buf (sends buf a.total_bytes_passed [] env.errno env.writes),
    srvwrite_outcome s h,
    rw (done_all s h all) (rw (← rest) refl),
    rw (done_all s h all),
    rw (done_all s h all) (ground arith),
    rw (done_all s h all) (ground arith),
  )
    where
      rest : accepted env.writes ≡ a.total_data_size - a.total_bytes_passed
      rest = omega arith
