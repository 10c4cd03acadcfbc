-- ===== src/EventProxy/Write.antt =====
-- `srvwrite` and `clwrite` of proxylab-handout/proxy.c, over the answers of `write`.
pub mod Loops
pub mod Server
pub mod Client
pub mod Resume
use multiplexing_proxy.Prelude.{
  ℕ, zero, suc, ◌-◌, ◌^◌, Bool, true, false, not, ◌&&◌, ◌||◌, List, [], ◌∷◌, ◌++◌, Result, done,
  starved, ◌>>=◌, ◌==◌, if◌then◌else◌, add64, ℤ, is_zero,
}
use multiplexing_proxy.Memory.{Bytes, slice}
use multiplexing_proxy.Platform.{Platform}
use multiplexing_proxy.EventProxy.Action.{
  Callback, Pointer, block, EventAction, Interest, reading, Call, Handled, object,
}

-- What one `write` answers: a count, or -1 with `errno`.
pub data Write : Type 0 where
  wrote : ℕ → Write
  failed : ℕ → Write

-- Where a write loop stops: `totalBytesPassed`, the bytes that went out, and `errno`.
pub record WriteEnd : Type 0 where
  pub passed : ℕ
  pub sent : Bytes
  pub errno : ℕ

-- The loop of `srvwrite`, where `nwritten` is an `int`: it goes on while `write` makes progress.
unfoldable pub server_loop : Bytes → ℕ → Bytes → ℕ → List Write → Result WriteEnd
server_loop buf passed sent errno [] = starved
server_loop buf passed sent errno (wrote zero ∷ ws) =
    done (record { passed = passed; sent = sent; errno = errno })
server_loop buf passed sent errno (wrote (suc n) ∷ ws) =
    slice buf passed (suc n) >>= λ s. server_loop buf (add64 passed (suc n)) (sent ++ s) errno ws
server_loop buf passed sent errno (failed e ∷ ws) =
    done (record { passed = passed; sent = sent; errno = e })

-- The loop of `clwrite`, where `nwritten` is a `size_t`: -1 is 2^64 - 1, and the loop goes on.
unfoldable pub client_loop : Bytes → ℕ → Bytes → ℕ → List Write → Result WriteEnd
client_loop buf passed sent errno [] = starved
client_loop buf passed sent errno (wrote zero ∷ ws) =
    done (record { passed = passed; sent = sent; errno = errno })
client_loop buf passed sent errno (wrote (suc n) ∷ ws) =
    slice buf passed (suc n) >>= λ s. client_loop buf (add64 passed (suc n)) (sent ++ s) errno ws
client_loop buf passed sent errno (failed e ∷ ws) =
    client_loop buf (add64 passed (2 ^ 64 - 1)) sent e ws

-- The answers that `srvwrite` gets: its writes, and the two calls of `epoll_ctl`.
pub record ServerAnswers : Type 0 where
  pub errno : ℕ
  pub writes : List Write
  pub deleted : ℤ
  pub added : ℤ

-- The request is out: turn to reading the response. `free` leaves `dataBuf` without a value, until
-- it is set to NULL.
await_response : EventAction → Bytes → ServerAnswers → Bytes → Handled
await_response a buf env sent =
    let freed = record a { data_buf = Pointer.wild } in
    let next = record freed {
      data_buf = Pointer.null;
      total_data_size = 0;
      total_bytes_passed = 0;
      callback = Callback.srvread;
    } in
    let until_del = Call.free buf ∷ Call.epoll_del a.serverfd ∷ [] in
    let until_add = until_del ++ Call.epoll_add a.serverfd reading ∷ [] in
    let deleted_ok = is_zero env.deleted in
    record {
      action = next;
      ends = not deleted_ok || not (is_zero env.added);
      calls = if deleted_ok then until_add else until_del;
      spawned = [];
      sent = sent;
    }

-- `srvwrite` behind its loop.
unfoldable pub server_outcome : Platform → ServerAnswers → EventAction → Bytes → WriteEnd → Handled
unfolding await_response
server_outcome os env a buf r =
    let moved = record a { total_bytes_passed = r.passed } in
    if r.passed == a.total_data_size then await_response moved buf env r.sent else record {
      action = moved;
      ends = not (r.errno == os.ewouldblock) || not (r.errno == os.eagain);
      calls = [];
      spawned = [];
      sent = r.sent;
    }

unfoldable pub srvwrite : Platform → ServerAnswers → EventAction → Result Handled
unfolding object
srvwrite os env a = do
  buf ← object a.data_buf
  r ← server_loop buf a.total_bytes_passed [] env.errno env.writes
  done (server_outcome os env a buf r)

-- `clwrite` behind its loop.
unfoldable pub client_outcome : Platform → EventAction → WriteEnd → Handled
client_outcome os a r = record {
  action = record a { total_bytes_passed = r.passed };
  ends =
      r.passed == a.total_data_size
      || (not (r.errno == os.ewouldblock) && not (r.errno == os.eagain));
  calls = [];
  spawned = [];
  sent = r.sent;
}

unfoldable pub clwrite : Platform → ℕ → List Write → EventAction → Result Handled
unfolding object
clwrite os errno writes a = do
  buf ← object a.data_buf
  r ← client_loop buf a.total_bytes_passed [] errno writes
  done (client_outcome os a r)
