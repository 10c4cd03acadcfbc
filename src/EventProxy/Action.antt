-- ===== src/EventProxy/Action.antt =====
-- `event_action`, the calls that a handler makes, and `freeEventAction` of
-- proxylab-handout/proxy.c.
use multiplexing_proxy.Prelude.{
  ℕ, Bool, List, [], ◌∷◌, ◌++◌, Result, done, fault, ◌>>=◌, if◌then◌else◌, ℤ, minus_one, is_zero,
}
use multiplexing_proxy.Memory.{Bytes}

-- The handler that an action's `callback` names.
pub data Callback : Type 0 where
  handle_new_client clread srvwrite srvread clwrite : Callback

-- A `char *` field: NULL; without a value, since it was never set or its block was freed; or a
-- block of the heap.
pub data Pointer : Type 0 where
  null : Pointer
  wild : Pointer
  block : Bytes → Pointer

-- The struct, with its comments: descriptors are `int`, the two counters `size_t`.
pub record EventAction : Type 0 where
  pub callback : Callback
  pub clientfd : ℤ
  pub serverfd : ℤ
  pub total_bytes_passed : ℕ
  pub total_data_size : ℕ
  pub data_buf : Pointer
  pub url : Pointer

-- `EPOLLIN | EPOLLET` and `EPOLLOUT | EPOLLET`.
pub data Interest : Type 0 where
  reading writing : Interest

-- Calls that change what the system or the heap holds, in the order in which they are made.
pub data Call : Type 0 where
  close : ℤ → Call
  free : Bytes → Call
  free_action : Call
  epoll_add : ℤ → Interest → Call
  epoll_mod : ℤ → Interest → Call
  epoll_del : ℤ → Call
  set_nonblocking : ℤ → Call
  log : Bytes → Call
  resolve : (host port : Bytes) → Call

-- What a handler leaves: the action, its return value, its calls, the actions that it allocated
-- and registered, and the bytes that it wrote to a socket.
pub record Handled : Type 0 where
  pub action : EventAction
  pub ends : Bool
  pub calls : List Call
  pub spawned : List EventAction
  pub sent : Bytes

-- The object behind a pointer. NULL has no bytes.
unfoldable pub object : Pointer → Result Bytes
object null = done []
object wild = fault
object (block b) = done b

-- `if (p) free(p);`. A pointer that was never set, or whose block was
-- freed, has no value to test.
unfoldable pub free_pointer : Pointer → Result (List Call)
free_pointer null = done []
free_pointer wild = fault
free_pointer (block b) = done (free b ∷ [])

unfoldable pub free_event_action : EventAction → Result (List Call)
unfolding free_pointer
free_event_action a = do
  let server = if is_zero a.serverfd then [] else close a.serverfd ∷ []
  data_free ← free_pointer a.data_buf
  url_free ← free_pointer a.url
  done (close a.clientfd ∷ (server ++ (data_free ++ (url_free ++ free_action ∷ []))))

-- The action that `main` sets up for the listening socket: `dataBuf` is not assigned.
abbrev pub listen_action : ℤ → EventAction
listen_action fd = record {
  callback = handle_new_client;
  clientfd = fd;
  serverfd = minus_one;
  total_bytes_passed = 0;
  total_data_size = 0;
  data_buf = wild;
  url = null;
}

-- The action that `handle_new_client` sets up for a connection.
abbrev pub client_action : ℤ → EventAction
client_action fd = record {
  callback = clread;
  clientfd = fd;
  serverfd = minus_one;
  total_bytes_passed = 0;
  total_data_size = 0;
  data_buf = null;
  url = null;
}
