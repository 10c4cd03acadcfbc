-- ===== src/EventProxy/MainLoop/Turns.antt =====
-- Turns of the loop on a failure of `epoll_wait` and on an error of the listening socket.
use multiplexing_proxy.Prelude.{
  ℕ, suc, ◌^◌, ◌≡◌, true, List, ◌∷◌, none, some, fault, ℤ, pos, negsuc, arith, ◌<◌,
}
use multiplexing_proxy.Platform.{Platform}
use multiplexing_proxy.EventProxy.MainLoop.{World, Slot, fetch, standing, run_event, turn, start}
use multiplexing_proxy.EventProxy.Action.{free_event_action}

-- When `epoll_wait` fails, its -1 is a huge count for the unsigned `n`: the error branch is not
-- taken, and the loop follows the pointer of the first slot, which is NULL while no event has
-- ever been stored there.
pub turn_on_failure :
    (os : Platform) (w : World) (k : ℕ) (slot : Slot) (slots : List Slot)
    → k < 2 ^ 31
    → slot.target ≡ none
    → turn os w (negsuc k) (slot ∷ slots) ≡ fault
unfolding turn run_event fetch
turn_on_failure os w k slot slots small null = ground arith

-- An error on the listening socket: the action that `main` set up is freed, and with it a
-- `dataBuf` that was never set.
pub listener_error :
    (os : Platform) (cache_size : ℕ) (listenfd : ℤ) (n : ℕ) (slot : Slot) (slots : List Slot)
    → slot.error ≡ true
    → slot.target ≡ some 0
    → turn os (start cache_size listenfd) (pos (suc n)) (slot ∷ slots) ≡ fault
unfolding turn run_event fetch standing start free_event_action
listener_error os cache_size listenfd n slot slots failed target = ground arith
