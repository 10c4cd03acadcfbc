-- ===== src/EventProxy/MainLoop/Events.antt =====
-- What one event does to the world.
use mathlib.Core.List.{append-nil}
use multiplexing_proxy.Prelude.{
  ℕ, ◌≡◌, true, false, List, [], ◌∷◌, ◌++◌, get_elem?, set, some, none, done, pos,
}
use multiplexing_proxy.Platform.{Platform}
use multiplexing_proxy.EventProxy.Action.{EventAction, Call, free_event_action}
use multiplexing_proxy.EventProxy.Clread.{Served}
use multiplexing_proxy.EventProxy.MainLoop.{
  World, Slot, fetch, standing, settle, run_event, run_events, turn, call_back,
}

-- An event, without an error, for the action at `i`.
pub record IsFor (w : World) (slot : Slot) (i : ℕ) (a : EventAction) : Type 0 where
  pub target : slot.target ≡ some i
  pub fine : slot.error ≡ false
  pub there : get_elem? w.heap i ≡ some (some a)

pub fetch_lem :
    (w : World) (i : ℕ) {a : EventAction}
    → get_elem? w.heap i ≡ some (some a)
    → fetch w.heap (some i) ≡ done (i, a)
unfolding fetch standing
fetch_lem w i h = rw h

-- The world behind a callback that left `s`, and with `slot` in the action's place.
abbrev pub after_event : World → ℕ → Served → List Call → World
after_event w i s freed = record w {
  heap = set w.heap i none;
  cache = s.cache;
  calls = w.calls ++ (s.handled.calls ++ freed);
  sent = w.sent ++ s.handled.sent ∷ [];
}

-- An event whose callback goes on: the action that it leaves takes the place of the old one.
pub turn_keeps :
    (os : Platform) (w : World) (slot : Slot) {i : ℕ} {a : EventAction} {s : Served}
    → IsFor w slot i a
    → call_back os slot.answers a.callback a w.cache ≡ done s
    → s.handled.ends ≡ false
    → s.handled.spawned ≡ []
    → turn os w (pos 1) (slot ∷ [])
      ≡ done (record {
        heap = set w.heap i (some s.handled.action);
        cache = s.cache;
        calls = w.calls ++ s.handled.calls;
        sent = w.sent ++ s.handled.sent ∷ [];
      })
unfolding turn run_events run_event settle
turn_keeps os w slot {i} {a} {s} h ran goes none_new = rw h.target (
    rw (fetch_lem w i h.there) (
      rw h.fine
        (rw ran (rw goes (simp (none_new, append-nil (set w.heap i (some s.handled.action))))))))

-- An event whose callback ends the connection: the action that it leaves is released.
pub turn_drops :
    (os : Platform) (w : World) (slot : Slot) {i : ℕ} {a : EventAction} {s : Served}
    {freed : List Call}
    → IsFor w slot i a
    → call_back os slot.answers a.callback a w.cache ≡ done s
    → s.handled.ends ≡ true
    → s.handled.spawned ≡ []
    → free_event_action s.handled.action ≡ done freed
    → turn os w (pos 1) (slot ∷ []) ≡ done (after_event w i s freed)
unfolding turn run_events run_event settle
turn_drops os w slot {i} {a} {s} h ran ends none_new freed = rw h.target (
    rw (fetch_lem w i h.there)
      (rw h.fine (rw ran (rw ends (rw freed (simp (none_new, append-nil (set w.heap i none))))))))
