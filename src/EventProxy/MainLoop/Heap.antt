-- ===== src/EventProxy/MainLoop/Heap.antt =====
-- The actions in the heap, over the turns of the loop.
use mathlib.Core.List.{map}
use multiplexing_proxy.Prelude.{
  ℕ, zero, suc, ◌-◌, ◌≡◌, refl, List, [], ◌∷◌, ◌++◌, get_elem?, set, Option, none, some, done, ◌==◌,
  ℤ, is_zero, if◌then◌else◌, Ensures, Ensures->>=, Ensures-seq, Ensures-value, holds, faulted,
  Bool-cases, inl, inr,
}
use multiplexing_proxy.Platform.{Platform}
use multiplexing_proxy.EventProxy.Action.{
  Callback, handle_new_client, clread, srvwrite, srvread, clwrite, Pointer, null, wild, block,
  EventAction, Call, free_pointer, free_event_action,
}
use multiplexing_proxy.EventProxy.Clread.{Served}
use multiplexing_proxy.EventProxy.MainLoop.{
  World, Slot, fetch, standing, settle, run_event, run_events, turn, start, run,
}
use multiplexing_proxy.EventProxy.MainLoop.Callbacks.{call_back-Leaves}
use multiplexing_proxy.EventProxy.MainLoop.States.{
  IsKnown, block-IsKnown, ConsistentAs, Consistent, AllConsistent, Leaves,
}

-- Every action that was not freed.
abbrev AllStand : List (Option EventAction) → Type 0
AllStand [] = Unit
AllStand (none ∷ heap) = AllStand heap
AllStand (some a ∷ heap) = Consistent a × AllStand heap

abbrev Stands : Option EventAction → Type 0
Stands none = Unit
Stands (some a) = Consistent a

AllStand-set :
    (heap : List (Option EventAction)) (i : ℕ) (slot : Option EventAction)
    → AllStand heap
    → Stands slot
    → AllStand (set heap i slot)
AllStand-set [] i slot h s = tt
AllStand-set (none ∷ heap) zero none h s = h
AllStand-set (none ∷ heap) zero (some b) h s = (s, h)
AllStand-set (some a ∷ heap) zero none h s = h.1
AllStand-set (some a ∷ heap) zero (some b) h s = (s, h.1)
AllStand-set (none ∷ heap) (suc i) slot h s = AllStand-set heap i slot h s
AllStand-set (some a ∷ heap) (suc i) slot h s = (h.0, AllStand-set heap i slot h.1 s)

AllStand-append :
    (heap : List (Option EventAction)) (spawned : List EventAction)
    → AllStand heap
    → AllConsistent spawned
    → AllStand (heap ++ map some spawned)
AllStand-append [] [] h s = tt
AllStand-append [] (a ∷ spawned) h s = (s.0, AllStand-append [] spawned tt s.1)
AllStand-append (none ∷ heap) spawned h s = AllStand-append heap spawned h s
AllStand-append (some a ∷ heap) spawned h s = (h.0, AllStand-append heap spawned h.1 s)

abbrev Found : Option (Option EventAction) → Type 0
Found none = Unit
Found (some slot) = Stands slot

get_elem-Found :
    (heap : List (Option EventAction)) (i : ℕ) → AllStand heap → Found (get_elem? heap i)
get_elem-Found [] i h = tt
get_elem-Found (none ∷ heap) zero h = tt
get_elem-Found (some a ∷ heap) zero h = h.0
get_elem-Found (none ∷ heap) (suc i) h = get_elem-Found heap i h
get_elem-Found (some a ∷ heap) (suc i) h = get_elem-Found heap i h.1

standing-Ensures :
    (i : ℕ) (slot : Option (Option EventAction))
    → Found slot
    → Ensures (λ (r : ℕ × EventAction). Consistent r.1) (standing i slot)
unfolding standing
standing-Ensures i none h = faulted
standing-Ensures i (some none) h = faulted
standing-Ensures i (some (some a)) h = holds h

fetch-Ensures :
    (heap : List (Option EventAction)) (target : Option ℕ)
    → AllStand heap
    → Ensures (λ (r : ℕ × EventAction). Consistent r.1) (fetch heap target)
unfolding fetch
fetch-Ensures heap none h = faulted
fetch-Ensures heap (some i) h = standing-Ensures i (get_elem? heap i) (get_elem-Found heap i h)

abbrev IsSound : World → Type 0
IsSound w = AllStand w.heap

settle-IsSound :
    (w : World) (i : ℕ) (s : Served) → IsSound w → Leaves s → Ensures IsSound (settle w i s)
unfolding settle
settle-IsSound w i s h (left, spawned) = elim (Bool-cases s.handled.ends) [
  | inl ends ↦ rw ends (
      Ensures->>= (free_event_action s.handled.action) λ freed. holds (
        AllStand-append (set w.heap i none) s.handled.spawned (AllStand-set w.heap i none h tt)
          spawned))
  | inr stays ↦ rw stays (
      holds (
        AllStand-append (set w.heap i (some s.handled.action)) s.handled.spawned
          (AllStand-set w.heap i (some s.handled.action) h left) spawned))
]

run_event-IsSound :
    (os : Platform) (w : World) (slot : Slot) → IsSound w → Ensures IsSound (run_event os w slot)
unfolding run_event
run_event-IsSound os w slot h = Ensures-seq (fetch-Ensures w.heap slot.target h) λ t stands.
    elim (Bool-cases slot.error) [
      | inl failed ↦
          rw failed
            (Ensures->>= (free_event_action t.1) λ freed. holds (AllStand-set w.heap t.0 none h tt))
      | inr fine ↦ rw fine (
          Ensures-seq (call_back-Leaves os slot.answers t.1.callback t.1 w.cache refl stands)
            λ s left. settle-IsSound w t.0 s h left)
    ]

run_events-IsSound :
    (os : Platform) (w : World) (n : ℕ) (slots : List Slot)
    → IsSound w
    → Ensures IsSound (run_events os w n slots)
unfolding run_events
run_events-IsSound os w n [] h = elim (Bool-cases (n == 0)) [
  | inl z ↦ rw z (holds h)
  | inr more ↦ rw more faulted
]
run_events-IsSound os w n (slot ∷ slots) h = elim (Bool-cases (n == 0)) [
  | inl z ↦ rw z (holds h)
  | inr more ↦ rw more (
      Ensures-seq (run_event-IsSound os w slot h)
        λ w' h'. run_events-IsSound os w' (n - 1) slots h')
]

run-IsSound :
    (os : Platform) (w : World) (waits : List (ℤ × List Slot))
    → IsSound w
    → Ensures IsSound (run os w waits)
unfolding run
run-IsSound os w [] h = holds h
run-IsSound os w ((n, slots) ∷ waits) h =
    Ensures-seq (unfold turn in run_events-IsSound os w _ slots h)
      λ w' h'. run-IsSound os w' waits h'

-- The action of a connection can be released: no pointer of it is unset.
abbrev pub ReleasedAs : Callback → EventAction → Type 0
ReleasedAs handle_new_client a = Unit
ReleasedAs _ a = (freed : List Call) × (free_event_action a ≡ done freed)

free_pointer-done : (p : Pointer) → IsKnown p → (freed : List Call) × (free_pointer p ≡ done freed)
unfolding free_pointer
free_pointer-done null h = ([], refl)
free_pointer-done wild h = absurd h
free_pointer-done (block b) h = (Call.free b ∷ [], refl)

released :
    (a : EventAction)
    → IsKnown a.data_buf
    → IsKnown a.url
    → (freed : List Call) × (free_event_action a ≡ done freed)
unfolding free_event_action
released a data_set url_set =
    let (freed, ran) = free_pointer-done a.data_buf data_set in
    let (freed', ran') = free_pointer-done a.url url_set in
    let server = if is_zero a.serverfd then [] else Call.close a.serverfd ∷ [] in
    (
      Call.close a.clientfd ∷ (server ++ (freed ++ (freed' ++ Call.free_action ∷ []))),
      rw ran (rw ran'),
    )

Consistent-ReleasedAs : (c : Callback) (a : EventAction) → ConsistentAs c a → ReleasedAs c a
Consistent-ReleasedAs handle_new_client a h = tt
Consistent-ReleasedAs clread a h = released a (rw h.0 tt) h.1
Consistent-ReleasedAs srvwrite a h =
    released a (block-IsKnown a.data_buf h.0) (block-IsKnown a.url h.1)
Consistent-ReleasedAs srvread a h = released a h.0 (block-IsKnown a.url h.1)
Consistent-ReleasedAs clwrite a h = released a (block-IsKnown a.data_buf h.0) h.1

-- Every action in the heap, in its state, and ready to be released.
abbrev pub AllReady : List (Option EventAction) → Type 0
AllReady [] = Unit
AllReady (none ∷ heap) = AllReady heap
AllReady (some a ∷ heap) = (Consistent a × ReleasedAs a.callback a) × AllReady heap

AllStand-AllReady : (heap : List (Option EventAction)) → AllStand heap → AllReady heap
AllStand-AllReady [] h = tt
AllStand-AllReady (none ∷ heap) h = AllStand-AllReady heap h
AllStand-AllReady (some a ∷ heap) h =
    ((h.0, Consistent-ReleasedAs a.callback a h.0), AllStand-AllReady heap h.1)

-- Whatever the clients, the servers and the system do, and for however many turns the proxy runs
-- from its start without a fault: each action that was not freed has the pointers of its state,
-- and none of a connection's points to a block that was freed. A connection in clread has no data;
-- one in srvwrite or clwrite has a buffer to send, so no write goes through NULL; one in srvwrite
-- or srvread still has its request; and the action of any connection can be released without a
-- fault.
pub run-AllReady :
    (os : Platform) (cache_size : ℕ) (listenfd : ℤ) (waits : List (ℤ × List Slot)) {w : World}
    → run os (start cache_size listenfd) waits ≡ done w
    → AllReady w.heap
unfolding start
run-AllReady os cache_size listenfd waits {w = w} ran =
    AllStand-AllReady w.heap
      (Ensures-value (run-IsSound os (start cache_size listenfd) waits (tt, tt)) ran)
