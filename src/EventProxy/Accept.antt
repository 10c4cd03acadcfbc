-- ===== src/EventProxy/Accept.antt =====
-- `handle_new_client` of proxylab-handout/proxy.c.
pub mod Admit
use multiplexing_proxy.Prelude.{
  ℕ, zero, suc, ◌≡◌, refl, Bool, true, false, List, [], ◌∷◌, ◌++◌, length, Result, done, starved,
  ◌>>=◌, if◌then◌else◌, ℤ, pos, minus_one, arith,
}
use multiplexing_proxy.EventProxy.Action.{
  EventAction, Interest, reading, Call, Handled, client_action, free_event_action,
}

-- What the system answers to one `accept`, and to the two calls for the descriptor that it gives:
-- whether `fcntl` fails, and whether `epoll_ctl` fails. A result of 0 or less ends the loop.
pub data Accepted : Type 0 where
  accepted : (fd : ℕ) → (nonblocking_fails add_fails : Bool) → Accepted
  none_left : Accepted

-- The calls and the new actions of one round, and whether the handler returns there.
pub record Round : Type 0 where
  pub calls : List Call
  pub spawned : List EventAction
  pub returns : Bool

unfoldable pub accept_one : ℕ → Bool → Bool → Result Round
accept_one fd true add_fails =
    done (record { calls = Call.set_nonblocking (pos fd) ∷ []; spawned = []; returns = true })
accept_one fd false true = free_event_action (client_action (pos fd)) >>= λ freed. done (record {
  calls = Call.set_nonblocking (pos fd) ∷ Call.epoll_add (pos fd) reading ∷ freed;
  spawned = [];
  returns = true;
})
accept_one fd false false = done (record {
  calls = Call.set_nonblocking (pos fd) ∷ Call.epoll_add (pos fd) reading ∷ [];
  spawned = client_action (pos fd) ∷ [];
  returns = false;
})

-- The loop, with the calls and the actions so far.
unfoldable pub accept_loop : List Call → List EventAction → List Accepted → Result Round
unfolding accept_one
accept_loop calls spawned [] = starved
accept_loop calls spawned (none_left ∷ answers) =
    done (record { calls = calls; spawned = spawned; returns = true })
accept_loop calls spawned (accepted zero nonblocking_fails add_fails ∷ answers) =
    done (record { calls = calls; spawned = spawned; returns = true })
accept_loop calls spawned (accepted (suc fd) nonblocking_fails add_fails ∷ answers) = do
  r ← accept_one (suc fd) nonblocking_fails add_fails
  let more = accept_loop (calls ++ r.calls) (spawned ++ r.spawned) answers
  if r.returns
      then done
          (record { calls = calls ++ r.calls; spawned = spawned ++ r.spawned; returns = true })
      else more

-- Whatever `errno` is behind the loop, the handler returns `false`.
unfoldable pub handle_new_client : List Accepted → EventAction → Result Handled
handle_new_client answers a = do
  r ← accept_loop [] [] answers
  done (record { action = a; ends = false; calls = r.calls; spawned = r.spawned; sent = [] })
