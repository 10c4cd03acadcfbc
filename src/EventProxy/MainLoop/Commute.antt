-- ===== src/EventProxy/MainLoop/Commute.antt =====
-- Two events of one `epoll_wait`, in either order.
use mathlib.Core.List.{append_assoc}
use multiplexing_proxy.Prelude.{
  ℕ, ◌≡◌, ◌≢◌, ◌⊎◌, refl, sym, ◌∙◌, subst, List, [], ◌∷◌, ◌++◌, done, pos, inl, inr, Ensures-value,
  done-injective, >>=-eq-done, get_elem?-bound,
}
use multiplexing_proxy.Memory.{Bytes}
use multiplexing_proxy.Platform.{Platform}
use multiplexing_proxy.EventProxy.Action.{handle_new_client, EventAction, Call}
use multiplexing_proxy.EventProxy.Cache.{IsEmpty}
use multiplexing_proxy.EventProxy.MainLoop.{World, Slot, turn}
use multiplexing_proxy.EventProxy.MainLoop.Effects.{
  Effect, applied, effect, effect-Alone, Finds, turn_two, swapped_heap,
}

-- Two worlds with the same actions and cache, which two pieces of work reached from `w` in one
-- order and in the other.
pub record SameButOrder (w v v' : World) : Type 0 where
  pub heap : v'.heap ≡ v.heap
  pub cache : v'.cache ≡ v.cache
  pub calls : (c d : List Call) × (v.calls ≡ w.calls ++ (c ++ d)) × (v'.calls ≡ w.calls ++ (d ++ c))
  pub sent : (s t : List Bytes) × (v.sent ≡ w.sent ++ (s ++ t)) × (v'.sent ≡ w.sent ++ (t ++ s))

swapped :
    (w : World) (i j : ℕ) (e d : Effect)
    → (applied (applied w i e) j d).heap ≡ (applied (applied w j d) i e).heap
    → SameButOrder w (applied (applied w i e) j d) (applied (applied w j d) i e)
swapped w i j e d heaps = record {
  heap = sym heaps;
  cache = refl;
  calls = (
    e.calls,
    d.calls,
    append_assoc w.calls e.calls d.calls,
    append_assoc w.calls d.calls e.calls,
  );
  sent = (e.sent, d.sent, append_assoc w.sent e.sent d.sent, append_assoc w.sent d.sent e.sent);
}

-- While the cache has no entry, two events for different actions, of which at most one is the
-- listener's, can be handled in either order, given that in either order each of the two handlers
-- gets the same answers of the system and finds the same errno and the same leftover bytes in the
-- stack objects that the code does not clear, such as tempBuf: if one order has no fault, the
-- other has none, and leaves the same actions, in the same state, and the same cache. The calls of
-- the two events and what their callbacks wrote come in the order of the events.
pub turn_commutes :
    (os : Platform) (w : World) (slot slot' : Slot) {i j : ℕ} {a b : EventAction} {v : World}
    → Finds w slot i a
    → Finds w slot' j b
    → i ≢ j
    → (a.callback ≢ handle_new_client) ⊎ (b.callback ≢ handle_new_client)
    → IsEmpty w.cache
    → turn os w (pos 2) (slot ∷ slot' ∷ []) ≡ done v
    → (v' : World) × (turn os w (pos 2) (slot' ∷ slot ∷ []) ≡ done v') × SameButOrder w v v'
turn_commutes os w slot slot' {i} {j} {a} {b} {v} h k apart alone empty ran =
    let (e, first, rest) =
      >>=-eq-done (effect os slot a w.cache) _
        (sym (turn_two os w apart slot slot' h k empty) ∙ ran) in
    let (d, second, last) = >>=-eq-done (effect os slot' b w.cache) _ rest in
    other_way e d first second (done-injective last)
  where
    quiet :
        (e d : Effect)
        → effect os slot a w.cache ≡ done e
        → effect os slot' b w.cache ≡ done d
        → (a.callback ≢ handle_new_client) ⊎ (b.callback ≢ handle_new_client)
        → (e.spawned ≡ []) ⊎ (d.spawned ≡ [])
    quiet e d first second (inl other) =
        inl (Ensures-value (effect-Alone os slot a w.cache other) first)
    quiet e d first second (inr other) =
        inr (Ensures-value (effect-Alone os slot' b w.cache other) second)

    other_way :
        (e d : Effect)
        → effect os slot a w.cache ≡ done e
        → effect os slot' b w.cache ≡ done d
        → applied (applied w i e) j d ≡ v
        → (v' : World) × (turn os w (pos 2) (slot' ∷ slot ∷ []) ≡ done v') × SameButOrder w v v'
    other_way e d first second last = (
      applied (applied w j d) i e,
      turn_two os w (λ q. apart (sym q)) slot' slot k h empty ∙ rw second (rw first refl),
      subst (λ x. SameButOrder w x (applied (applied w j d) i e)) last
          (swapped w i j e d (
            swapped_heap w e d apart (get_elem?-bound w.heap i h.there)
              (get_elem?-bound w.heap j k.there) (quiet e d first second alone))),
    )
