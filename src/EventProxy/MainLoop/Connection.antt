-- ===== src/EventProxy/MainLoop/Connection.antt =====
-- The events of one connection, and what epoll watches for it.
use mathlib.Core.List.{append_assoc, append-nil}
use multiplexing_proxy.Prelude.{
  ℕ, ◌-◌, ◌≡◌, inl, inr, refl, sym, subst, ◌∙◌, List, [], ◌∷◌, ◌++◌, map, get_elem?, set, Option,
  none, some, done, ◌==◌, ℤ, Bool-cases, Ensures, Ensures-seq, Ensures-value, holds, faulted,
  get_elem?-set_self, get_elem?-bound,
}
use multiplexing_proxy.Platform.{Platform}
use multiplexing_proxy.EventProxy.Action.{
  Callback, handle_new_client, clread, srvwrite, srvread, clwrite, EventAction, Call,
}
use multiplexing_proxy.EventProxy.Clread.{Served}
use multiplexing_proxy.EventProxy.MainLoop.{
  World, Slot, fetch, standing, settle, run_event, run_events, turn, run,
}
use multiplexing_proxy.EventProxy.MainLoop.Effects.{get_elem?-append}
use multiplexing_proxy.EventProxy.MainLoop.Watch.{
  after_calls, after_calls-append, awaited, awaited_as, OnlyOf, Watched,
  free_event_action-Unwatched,
}
use multiplexing_proxy.EventProxy.MainLoop.Tracked.{Apart, ApartAs, AnswersFresh, ServedTracked}
use multiplexing_proxy.EventProxy.MainLoop.Registered.{call_back-Tracked}

-- What is watched of a connection is what its action waits for, and nothing once it is freed.
abbrev pub RegisteredAs : ℤ → Watched → Option (Option EventAction) → Type 0
RegisteredAs client l none = ⊥
RegisteredAs client l (some none) = l ≡ []
RegisteredAs client l (some (some a)) = (a.clientfd ≡ client) × Apart a × (l ≡ awaited a)

-- Events for the action at `i`; a server that is connected in them gets a descriptor that is not
-- the client's.
abbrev pub AllOwn : ℕ → ℤ → List Slot → Type 0
AllOwn i client [] = Unit
AllOwn i client (slot ∷ slots) =
    ((slot.target ≡ some i) × AnswersFresh client slot.answers.client.addresses)
    × AllOwn i client slots

abbrev pub AllTurnsOwn : ℕ → ℤ → List (ℤ × List Slot) → Type 0
AllTurnsOwn i client [] = Unit
AllTurnsOwn i client ((n, slots) ∷ waits) = AllOwn i client slots × AllTurnsOwn i client waits

awaited_as-OnlyOf : (c : Callback) (a : EventAction) → ApartAs c a → OnlyOf a (awaited_as c a)
awaited_as-OnlyOf handle_new_client a apart = absurd apart
awaited_as-OnlyOf clread a apart = (inl refl, tt)
awaited_as-OnlyOf srvwrite a apart = (inr (refl, apart.1), tt)
awaited_as-OnlyOf srvread a apart = (inr (refl, apart.1), tt)
awaited_as-OnlyOf clwrite a apart = (inl refl, tt)

standing-There :
    (i : ℕ) (slot : Option (Option EventAction))
    → Ensures (λ (r : ℕ × EventAction). (r.0 ≡ i) × (slot ≡ some (some r.1))) (standing i slot)
unfolding standing
standing-There i none = faulted
standing-There i (some none) = faulted
standing-There i (some (some a)) = holds (refl, refl)

fetch-There :
    (heap : List (Option EventAction)) (i : ℕ)
    → Ensures
        (λ (r : ℕ × EventAction). (r.0 ≡ i) × (get_elem? heap i ≡ some (some r.1)))
        (fetch heap (some i))
unfolding fetch
fetch-There heap i = standing-There i (get_elem? heap i)

module _ (os : Platform) (i : ℕ) (client : ℤ) (base : List Call) (l : Watched) where
  -- The calls since the beginning, and what they made of the interest list.
  abbrev IsRegistered : World → Type 0
  IsRegistered w =
      (calls : List Call) × (w.calls ≡ base ++ calls)
      × RegisteredAs client (after_calls l calls) (get_elem? w.heap i)

  settle-IsRegistered :
      (w : World) (a : EventAction) (s : Served) (calls : List Call)
      → get_elem? w.heap i ≡ some (some a)
      → w.calls ≡ base ++ calls
      → ServedTracked (after_calls l calls) client s
      → Ensures IsRegistered (settle w i s)
  unfolding settle
  settle-IsRegistered w a s calls there made tracked = elim (Bool-cases s.handled.ends) [
    | inl ends ↦ rw ends (
        Ensures-seq
          (free_event_action-Unwatched s.handled.action
            (after_calls (after_calls l calls) s.handled.calls) tracked.only)
          λ freed gone. holds (
            calls ++ (s.handled.calls ++ freed),
            rw made (append_assoc base calls (s.handled.calls ++ freed)),
            subst (RegisteredAs client (after_calls l (calls ++ (s.handled.calls ++ freed))))
                (sym (left none))
                (after_calls-append l calls (s.handled.calls ++ freed)
                  ∙ after_calls-append (after_calls l calls) s.handled.calls freed
                  ∙ gone),
          ))
    | inr stays ↦ rw stays (
        holds (
          calls ++ s.handled.calls,
          rw made (append_assoc base calls s.handled.calls),
          subst (RegisteredAs client (after_calls l (calls ++ s.handled.calls)))
              (sym (left (some s.handled.action)))
              (
                tracked.same_client,
                (tracked.goes_on stays).0,
                after_calls-append l calls s.handled.calls ∙ (tracked.goes_on stays).1,
              ),
        ))
  ]
    where
      left :
          (slot : Option EventAction)
          → get_elem? (set w.heap i slot ++ map some s.handled.spawned) i ≡ some slot
      left slot =
          get_elem?-append (set w.heap i slot) (map some s.handled.spawned) i
            (get_elem?-set_self w.heap i slot (get_elem?-bound w.heap i there))

  run_event-IsRegistered :
      (w : World) (slot : Slot)
      → slot.target ≡ some i
      → AnswersFresh client slot.answers.client.addresses
      → IsRegistered w
      → Ensures IsRegistered (run_event os w slot)
  unfolding run_event
  run_event-IsRegistered w slot target fresh (calls, made, registered) = rw target (
      Ensures-seq (fetch-There w.heap i) λ (j, a) (same, there).
        let (is_client, apart, waits) =
          subst (RegisteredAs client (after_calls l calls)) there registered in
        rw same (elim (Bool-cases slot.error) [
          | inl failed ↦ rw failed (
              Ensures-seq
                (free_event_action-Unwatched a (after_calls l calls)
                  (subst (OnlyOf a) (sym waits) (awaited_as-OnlyOf a.callback a apart)))
                λ freed gone. holds (
                  calls ++ freed,
                  rw made (append_assoc base calls freed),
                  subst (RegisteredAs client (after_calls l (calls ++ freed)))
                      (sym (get_elem?-set_self w.heap i none (get_elem?-bound w.heap i there)))
                      (after_calls-append l calls freed ∙ gone),
                ))
          | inr fine ↦ rw fine (
              Ensures-seq
                (call_back-Tracked os slot.answers a.callback a w.cache refl apart
                  (rw is_client fresh))
                λ s tracked. settle-IsRegistered w a s calls there made (
                  subst (λ m. ServedTracked m client s) (sym waits)
                    (subst (λ c. ServedTracked (awaited a) c s) is_client tracked)))
        ]))

  run_events-IsRegistered :
      (w : World) (n : ℕ) (slots : List Slot)
      → AllOwn i client slots
      → IsRegistered w
      → Ensures IsRegistered (run_events os w n slots)
  unfolding run_events
  run_events-IsRegistered w n [] own h = elim (Bool-cases (n == 0)) [
    | inl z ↦ rw z (holds h)
    | inr more ↦ rw more faulted
  ]
  run_events-IsRegistered w n (slot ∷ slots) own h = elim (Bool-cases (n == 0)) [
    | inl z ↦ rw z (holds h)
    | inr more ↦ rw more (
        Ensures-seq (run_event-IsRegistered w slot own.0.0 own.0.1 h)
          λ w' h'. run_events-IsRegistered w' (n - 1) slots own.1 h')
  ]

  run-IsRegistered :
      (w : World) (waits : List (ℤ × List Slot))
      → AllTurnsOwn i client waits
      → IsRegistered w
      → Ensures IsRegistered (run os w waits)
  unfolding run
  run-IsRegistered w [] own h = holds h
  run-IsRegistered w ((n, slots) ∷ waits) own h =
      Ensures-seq (unfold turn in run_events-IsRegistered w _ slots own.0 h)
        λ w' h'. run-IsRegistered w' waits own.1 h'

-- For a connection in any state, which epoll watches for what its next handler needs, and nothing
-- else of it: however its events go on, in any number of turns without a fault, whatever the
-- client, the server and the system answer, but that a socket for the server is never the
-- client's descriptor, nor one that is taken for none: the calls of its handlers leave it watched
-- for exactly what its next handler needs, one descriptor for reading or for writing, and for
-- nothing once it is freed.
pub run-Registered :
    (os : Platform) (w : World) (i : ℕ) (a : EventAction) (waits : List (ℤ × List Slot))
    {w' : World}
    → get_elem? w.heap i ≡ some (some a)
    → Apart a
    → AllTurnsOwn i a.clientfd waits
    → run os w waits ≡ done w'
    → (calls : List Call) × (w'.calls ≡ w.calls ++ calls)
      × RegisteredAs a.clientfd (after_calls (awaited a) calls) (get_elem? w'.heap i)
unfolding after_calls
run-Registered os w i a waits there apart own ran =
    Ensures-value
      (run-IsRegistered os i a.clientfd w.calls (awaited a) w waits own (
        [],
        sym (append-nil w.calls),
        subst (RegisteredAs a.clientfd (awaited a)) (sym there) (refl, apart, refl),
      ))
      ran
