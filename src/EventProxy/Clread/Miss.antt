-- ===== src/EventProxy/Clread/Miss.antt =====
-- Turning to the server: what becomes of the action.
use multiplexing_proxy.Prelude.{
  ℕ, ◌<◌, ◌≡◌, refl, false, List, [], ◌∷◌, ◌++◌, length, done, fault, ℤ, is_negative, arith,
}
use multiplexing_proxy.Memory.{Bytes, Holds, strlen, strcpy-Holds, strcpy-fault}
use multiplexing_proxy.Platform.{Platform}
use multiplexing_proxy.EventProxy.Action.{Callback, block, EventAction, writing, Call}
use multiplexing_proxy.EventProxy.Clread.{ClientAnswers, start_server}

-- The request is copied into a block that `malloc` gives for its length without the NUL. If the
-- block has room for one byte more, then `start_server` leaves an action that is ready to send
-- exactly the request: it holds it, its size is the request's length, its callback is `srvwrite`,
-- and the client's descriptor stays in it. If both calls of `epoll_ctl` work, the connection goes
-- on, and the epoll set has the server's descriptor for writing and no more the client's.
pub start_server_sends :
    (os : Platform) (env : ClientAnswers) (a : EventAction) (wire : Bytes) (fd : ℤ)
    (calls : List Call) {n : ℕ} {text : Bytes}
    → Holds wire n text
    → length text < length (os.malloc (length text))
    → is_negative env.epoll_first ≡ false
    → is_negative env.epoll_second ≡ false
    → (copy : Bytes) × (start_server os env a wire fd calls
        ≡ done (record {
          action = record a {
            serverfd = fd;
            callback = Callback.srvwrite;
            data_buf = block copy;
            total_data_size = length text;
          };
          ends = false;
          calls =
              (calls ++ Call.set_nonblocking fd ∷ Call.epoll_add fd writing ∷ [])
              ++ Call.epoll_del a.clientfd ∷ [];
          spawned = [];
          sent = [];
        }))
      × Holds copy (length (os.malloc (length text))) text
unfolding start_server strlen
start_server_sends os env a wire fd calls {text} h room first second =
    let (copy, copied, held) = strcpy-Holds (os.malloc (length text)) wire refl h.text room in
    (copy, rw h.text (rw copied (rw first (rw second))), held)

-- `malloc` need not give more than it is asked for. Where the block has just the length of the
-- request, copying it writes the NUL behind the block, whatever the request is.
pub start_server_overflow :
    (os : Platform) (env : ClientAnswers) (a : EventAction) (wire : Bytes) (fd : ℤ)
    (calls : List Call) {n : ℕ} {text : Bytes}
    → Holds wire n text
    → length (os.malloc (length text)) ≡ length text
    → start_server os env a wire fd calls ≡ fault
unfolding start_server strlen
start_server_overflow os env a wire fd calls {text} h exact =
    rw h.text (rw (strcpy-fault (os.malloc (length text)) wire h.text (omega arith)))
