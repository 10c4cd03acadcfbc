-- ===== src/EventProxy/Accept/Admit.antt =====
-- Which connections `handle_new_client` admits.
use mathlib.Core.List.{append_assoc, append-nil}
use multiplexing_proxy.Prelude.{
  Bool, ℕ, zero, suc, ◌<◌, ◌≡◌, ◌∙◌, true, false, List, [], ◌∷◌, ◌++◌, map, done, arith, pos,
  minus_one,
}
use multiplexing_proxy.EventProxy.Action.{
  Callback, Pointer, EventAction, reading, Call, free_event_action,
}
use multiplexing_proxy.EventProxy.Accept.{
  Accepted, accepted, none_left, accept_loop, handle_new_client,
}

abbrev pub AllPositive : List ℕ → Type 0
AllPositive [] = Unit
AllPositive (fd ∷ fds) = (0 < fd) × AllPositive fds

-- Descriptors that are accepted, made non-blocking and registered.
abbrev pub welcome : List ℕ → List Accepted
welcome fds = map (λ (fd : ℕ). accepted fd false false) fds

-- An answer behind which the loop does not go on, with the calls that are still made.
pub data IsLast : Accepted → List Call → Type 0 where
  none_waits : IsLast none_left []
  zero_accepted : (p q : Bool) → IsLast (accepted 0 p q) []
  stays_blocking :
      (fd : ℕ) (q : Bool)
      → IsLast (accepted (suc fd) true q) (Call.set_nonblocking (pos (suc fd)) ∷ [])
  not_registered :
      (fd : ℕ)
      → IsLast (accepted (suc fd) false true) (
          Call.set_nonblocking (pos (suc fd))
          ∷ Call.epoll_add (pos (suc fd)) reading
          ∷ Call.close (pos (suc fd))
          ∷ Call.close minus_one
          ∷ Call.free_action
          ∷ [])

-- Each descriptor is made non-blocking and registered for reading.
abbrev pub set_up_calls : List ℕ → List Call
set_up_calls [] = []
set_up_calls (fd ∷ fds) =
    Call.set_nonblocking (pos fd) ∷ Call.epoll_add (pos fd) reading ∷ set_up_calls fds

-- What a new connection begins with.
abbrev pub fresh : ℕ → EventAction
fresh fd = record {
  callback = Callback.clread;
  clientfd = pos fd;
  serverfd = minus_one;
  total_bytes_passed = 0;
  total_data_size = 0;
  data_buf = Pointer.null;
  url = Pointer.null;
}

last_lem :
    (calls more : List Call) (spawned : List EventAction) (last : Accepted) (later : List Accepted)
    → IsLast last more
    → accept_loop calls spawned (last ∷ later)
      ≡ done (record { calls = calls ++ more; spawned = spawned; returns = true })
unfolding accept_loop free_event_action
last_lem calls _ spawned _ later none_waits = rw (append-nil calls)
last_lem calls _ spawned _ later (zero_accepted p q) = rw (append-nil calls)
last_lem calls _ spawned _ later (stays_blocking fd q) = rw (append-nil spawned)
last_lem calls _ spawned _ later (not_registered fd) = rw (append-nil spawned)

accept_loop_lem :
    (calls more : List Call) (spawned : List EventAction) (fds : List ℕ) (last : Accepted)
    (later : List Accepted)
    → AllPositive fds
    → IsLast last more
    → accept_loop calls spawned (welcome fds ++ last ∷ later)
      ≡ done (record {
        calls = calls ++ (set_up_calls fds ++ more);
        spawned = spawned ++ map fresh fds;
        returns = true;
      })
unfolding accept_loop
accept_loop_lem calls more spawned [] last later h l =
    last_lem calls more spawned last later l ∙ rw (append-nil spawned)
accept_loop_lem calls more spawned (zero ∷ fds) last later h l = absurd (omega (arith, h.0))
accept_loop_lem calls more spawned (suc fd ∷ fds) last later h l =
    accept_loop_lem _ more _ fds last later h.1 l ∙ rw (append_assoc, append_assoc)

-- Where a number of descriptors is accepted, made non-blocking and registered, and then comes an
-- answer that ends the loop (no descriptor, one that stays blocking, or one that cannot be
-- registered): `handle_new_client` returns `false`, so that the listener is kept, and leaves the
-- listener's action as it is. It sets up, in order, one action for each of these descriptors, for
-- `clread`, with the client's descriptor, no server, both counters 0 and both pointers NULL. Its
-- calls make each of them non-blocking and register it for reading; those for the last answer
-- follow, by which a descriptor that stays blocking is left open, and one that cannot be registered
-- is closed with its action.
pub handle_new_client_lem :
    (fds : List ℕ) (last : Accepted) (more : List Call) (later : List Accepted) (a : EventAction)
    → AllPositive fds
    → IsLast last more
    → handle_new_client (welcome fds ++ last ∷ later) a
      ≡ done (record {
        action = a;
        ends = false;
        calls = set_up_calls fds ++ more;
        spawned = map fresh fds;
        sent = [];
      })
unfolding handle_new_client
handle_new_client_lem fds last more later a h l = rw (accept_loop_lem [] more [] fds last later h l)
