-- ===== src/EventProxy/MainLoop/Effects.antt =====
-- What one event does, apart from where its action is.
use mathlib.Core.List.{append-nil}
use multiplexing_proxy.Prelude.{
  ℕ, zero, suc, ◌<◌, ◌≡◌, ◌≢◌, ◌⊎◌, refl, ap, ◌∙◌, List, [], ◌∷◌, ◌++◌, map, length, get_elem?, set,
  Option, some, none, Result, done, ◌>>=◌, if◌then◌else◌, pos, Bool-cases, inl, inr, Ensures,
  Ensures->>=, Ensures-seq, holds, >>=-Ensures-ext, >>=-assoc, >>=-ext, get_elem?-set_ne,
  length-set, arith,
}
use multiplexing_proxy.Memory.{Bytes}
use multiplexing_proxy.Platform.{Platform}
use multiplexing_proxy.EventProxy.Action.{handle_new_client, EventAction, Call, free_event_action}
use multiplexing_proxy.EventProxy.Cache.{Cache, IsEmpty}
use multiplexing_proxy.EventProxy.Clread.{Served}
use multiplexing_proxy.EventProxy.MainLoop.{
  World, Slot, settle, run_event, run_events, turn, call_back,
}
use multiplexing_proxy.EventProxy.MainLoop.Events.{fetch_lem}
use multiplexing_proxy.EventProxy.MainLoop.Uncached.{call_back-Uncached}
use multiplexing_proxy.EventProxy.MainLoop.Quiet.{call_back-ServesAlone}

module _ {ℓ} {A : Type ℓ} where
  set_comm : (xs : List A) {i j : ℕ} (v w : A) → i ≢ j → set (set xs i v) j w ≡ set (set xs j w) i v
  set_comm [] v w h = refl
  set_comm (x ∷ xs) {i = zero} {j = zero} v w h = absurd (h refl)
  set_comm (x ∷ xs) {i = zero} {j = suc j} v w h = refl
  set_comm (x ∷ xs) {i = suc i} {j = zero} v w h = refl
  set_comm (x ∷ xs) {i = suc i} {j = suc j} v w h = ap (◌∷◌ x) (set_comm xs v w (λ e. h (ap suc e)))

  set-append :
      (xs ys : List A) (i : ℕ) (v : A) → i < length xs → set (xs ++ ys) i v ≡ set xs i v ++ ys
  set-append [] ys i v h = absurd (omega arith)
  set-append (x ∷ xs) ys zero v h = refl
  set-append (x ∷ xs) ys (suc i) v h = ap (◌∷◌ x) (set-append xs ys i v (omega arith))

  pub get_elem?-append :
      (xs ys : List A) (i : ℕ) {v : A} → get_elem? xs i ≡ some v → get_elem? (xs ++ ys) i ≡ some v
  get_elem?-append [] ys i h = cc
  get_elem?-append (x ∷ xs) ys zero h = h
  get_elem?-append (x ∷ xs) ys (suc i) h = get_elem?-append xs ys i h

-- What an event adds to the world: what becomes of its action, the new actions, the calls, and
-- what its callback wrote, if it has run.
pub record Effect : Type 0 where
  pub left : Option EventAction
  pub spawned : List (Option EventAction)
  pub calls : List Call
  pub sent : List Bytes

-- A world behind an event for the action at `i`.
abbrev pub applied : World → ℕ → Effect → World
applied w i e = record w {
  heap = set w.heap i e.left ++ e.spawned;
  calls = w.calls ++ e.calls;
  sent = w.sent ++ e.sent;
}

-- What an event does to its action, wherever that is.
abbrev pub effect_of : Served → Result Effect
effect_of s =
    let dropped = free_event_action s.handled.action >>= λ freed. done (record {
      left = none;
      spawned = map some s.handled.spawned;
      calls = s.handled.calls ++ freed;
      sent = s.handled.sent ∷ [];
    }) in
    if s.handled.ends
    then dropped
    else done (record {
      left = some s.handled.action;
      spawned = map some s.handled.spawned;
      calls = s.handled.calls;
      sent = s.handled.sent ∷ [];
    })

abbrev pub effect : Platform → Slot → EventAction → Cache → Result Effect
effect os slot a cache =
    let failed = free_event_action a >>= λ freed.
    done (record { left = none; spawned = []; calls = freed; sent = [] }) in
    let handled = call_back os slot.answers a.callback a cache >>= effect_of in
    if slot.error then failed else handled

settle-effect :
    (w : World) (i : ℕ) (s : Served)
    → s.cache ≡ w.cache
    → settle w i s ≡ effect_of s >>= λ e. done (applied w i e)
unfolding settle
settle-effect w i s same = elim (Bool-cases s.handled.ends) [
  | inl ends ↦ rw (ends, same, >>=-assoc) refl
  | inr stays ↦ rw (stays, same) refl
]

run_event-effect :
    (os : Platform) (w : World) (slot : Slot) (i : ℕ) (a : EventAction)
    → slot.target ≡ some i
    → get_elem? w.heap i ≡ some (some a)
    → IsEmpty w.cache
    → run_event os w slot ≡ effect os slot a w.cache >>= λ e. done (applied w i e)
unfolding run_event
run_event-effect os w slot i a target there empty = rw target (
    rw (fetch_lem w i there) (elim (Bool-cases slot.error) [
      | inl failed ↦
          rw (failed, >>=-assoc) (simp (append-nil (set w.heap i none), append-nil w.sent))
      | inr fine ↦
          rw (fine, >>=-assoc)
            (>>=-Ensures-ext (call_back-Uncached os slot.answers a.callback a w.cache empty)
              λ s same. settle-effect w i s same)
    ]))

pub effect-Alone :
    (os : Platform) (slot : Slot) (a : EventAction) (cache : Cache)
    → a.callback ≢ handle_new_client
    → Ensures (λ e. e.spawned ≡ []) (effect os slot a cache)
effect-Alone os slot a cache other = elim (Bool-cases slot.error) [
  | inl failed ↦ rw failed (Ensures->>= (free_event_action a) λ freed. holds refl)
  | inr fine ↦ rw fine (
      Ensures-seq (call_back-ServesAlone os slot.answers a.callback a cache other) λ s alone.
        elim (Bool-cases s.handled.ends) [
          | inl ends ↦ rw ends (
              Ensures->>= (free_event_action s.handled.action) λ freed. holds (ap (map some) alone))
          | inr stays ↦ rw stays (holds (ap (map some) alone))
        ])
]

-- An event for an action that was not freed.
pub record Finds (w : World) (slot : Slot) (i : ℕ) (a : EventAction) : Type 0 where
  pub target : slot.target ≡ some i
  pub there : get_elem? w.heap i ≡ some (some a)

module _ (os : Platform) (w : World) {i j : ℕ} {a b : EventAction} (apart : i ≢ j) where
  pub turn_two :
      (slot slot' : Slot)
      → Finds w slot i a
      → Finds w slot' j b
      → IsEmpty w.cache
      → turn os w (pos 2) (slot ∷ slot' ∷ [])
        ≡ effect os slot a w.cache >>= λ e.
            effect os slot' b w.cache >>= λ d. done (applied (applied w i e) j d)
  unfolding turn run_events
  turn_two slot slot' h k empty =
      rw (run_event-effect os w slot i a h.target h.there empty, >>=-assoc)
        (>>=-ext (effect os slot a w.cache) λ e.
          rw (run_event-effect os (applied w i e) slot' j b k.target (there e) empty, >>=-assoc)
            refl)
    where
      there : (e : Effect) → get_elem? (set w.heap i e.left ++ e.spawned) j ≡ some (some b)
      there e =
          get_elem?-append (set w.heap i e.left) e.spawned j
            (get_elem?-set_ne w.heap e.left apart ∙ k.there)

pub swapped_heap :
    (w : World) {i j : ℕ} (e d : Effect)
    → i ≢ j
    → i < length w.heap
    → j < length w.heap
    → (e.spawned ≡ []) ⊎ (d.spawned ≡ [])
    → (applied (applied w i e) j d).heap ≡ (applied (applied w j d) i e).heap
swapped_heap w {i} {j} e d apart there there' alone =
    rw
      (
        set-append (set w.heap i e.left) e.spawned j d.left
            (omega (arith, length-set w.heap i e.left)),
        set-append (set w.heap j d.left) d.spawned i e.left
            (omega (arith, length-set w.heap j d.left)),
        set_comm w.heap e.left d.left apart,
      )
      (elim alone [
        | inl none_new ↦ simp (none_new, append-nil)
        | inr none_new ↦ simp (none_new, append-nil)
      ])
