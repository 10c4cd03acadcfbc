-- ===== src/ThreadProxy/Sbuf/Fifo.antt =====
-- The bounded buffer as a queue, and the semaphore of the log buffer.
use native.Mathlib.Decide.{dec_lt}
use native.Mathlib.Nat.{mod-lt, add-mod_right}
use multiplexing_proxy.Prelude.{
  ◌⊎◌, inl, inr, ◌+◌, ◌-◌, ◌^◌, ◌<◌, ◌≡◌, refl, List, [], ◌∷◌, ◌++◌, length, done, starved, arith,
  length-append, lt→ltb, suc, some, ◌%◌, ℕ, sym, ap, ◌∙◌, get_elem?, get_elem?-set_self,
}
use multiplexing_proxy.ThreadProxy.Sbuf.{Sbuf, load_elem, insert, remove, take_log}
use multiplexing_proxy.ThreadProxy.Sbuf.Ring.{
  Window, IsRing, pushed, logged, logged-IsRing, insert-pushed, pushed-IsRing, wait_pos, not_zero,
}

module _ {ℓ} {A : Type ℓ} where
  -- A buffer with no call in progress that holds the items `q`, oldest first, and has a free slot
  -- for each that it lacks.
  pub record IsQueue (sp : Sbuf A) (q : List A) : Type ℓ where
    pub some_room : 0 < sp.n
    pub whole : length sp.buf ≡ sp.n
    pub unlocked : sp.mutex ≡ 1
    pub counted : sp.items ≡ length q
    pub free : sp.slots + length q ≡ sp.n
    pub ahead : sp.front + length q ≡ sp.rear
    pub held : Window sp.buf sp.n (sp.front + 1) q

  IsQueue-IsRing : (sp : Sbuf A) {q : List A} → IsQueue sp q → IsRing sp q
  IsQueue-IsRing sp h = record {
    some_room = h.some_room;
    whole = h.whole;
    unlocked = h.unlocked;
    counted = h.counted;
    ahead = h.ahead;
    held = h.held;
  }

  pushed-IsQueue :
      (sp : Sbuf A) (x : A) {q : List A}
      → IsQueue sp q
      → length q < sp.n
      → IsQueue (pushed sp x) (q ++ x ∷ [])
  pushed-IsQueue sp x {q} h room =
      let ring = pushed-IsRing sp x (IsQueue-IsRing sp h) room in
      record {
        some_room = ring.some_room;
        whole = ring.whole;
        unlocked = refl;
        counted = ring.counted;
        free = omega (arith, length-append q (x ∷ []), h.free);
        ahead = ring.ahead;
        held = ring.held;
      }

  insert_full :
      (sp : Sbuf A) (x : A) {q : List A} → IsQueue sp q → length q ≡ sp.n → insert sp x ≡ starved
  unfolding insert
  insert_full sp x h full = let none_free : sp.slots ≡ 0 = omega (arith, h.free) in rw none_free

  remove_none : (sp : Sbuf A) → IsQueue sp [] → remove sp ≡ starved
  unfolding remove
  remove_none sp h = rw h.counted

  popped : Sbuf A → Sbuf A
  popped sp = record sp {
    front = sp.front + 1;
    mutex = 1;
    slots = sp.slots + 1;
    items = sp.items - 1;
  }

  remove-popped :
      (sp : Sbuf A) (y : A) (r : List A)
      → IsQueue sp (y ∷ r)
      → sp.rear + 1 < 2 ^ 31
      → remove sp ≡ done (y, popped sp)
  unfolding remove popped
  remove-popped sp y r h small = rw (wait_pos sp.items (omega (arith, h.counted))) (
      rw h.unlocked (
        rw (lt→ltb (sp.front + 1) (2 ^ 31) (omega (arith, h.ahead)))
          (rw (not_zero sp.n h.some_room) (rw (h.held.0, load_elem)))))

  popped-IsQueue : (sp : Sbuf A) (y : A) (r : List A) → IsQueue sp (y ∷ r) → IsQueue (popped sp) r
  unfolding popped
  popped-IsQueue sp y r h = record {
    some_room = h.some_room;
    whole = h.whole;
    unlocked = refl;
    counted = omega (arith, h.counted);
    free = omega (arith, h.free);
    ahead = omega (arith, h.ahead);
    held = h.held.1;
  }

  -- What a queue promises: an item goes behind the others, or the call waits where there is no
  -- room; the oldest comes out, or the call waits where there is none.
  abbrev pub Inserts : Sbuf A → A → List A → Type ℓ
  Inserts sp x q =
      ((length q < sp.n) × (t : Sbuf A) × (insert sp x ≡ done t) × IsQueue t (q ++ x ∷ []))
      ⊎ ((length q ≡ sp.n) × (insert sp x ≡ starved))

  abbrev pub Removes : Sbuf A → List A → Type ℓ
  Removes sp [] = remove sp ≡ starved
  Removes sp (y ∷ r) = (t : Sbuf A) × (remove sp ≡ done (y, t)) × IsQueue t r

  insert_lem :
      (sp : Sbuf A) (x : A) (q : List A) → IsQueue sp q → sp.rear + 1 < 2 ^ 31 → Inserts sp x q
  insert_lem sp x q h small = elim (dec_lt (length q) sp.n) [
    | yes room ↦ inl (
      room,
      pushed sp x,
      insert-pushed sp x (IsQueue-IsRing sp h) (omega (arith, h.free)) small,
      pushed-IsQueue sp x h room,
    )
    | no over ↦
        let full : length q ≡ sp.n = omega (arith, h.free) in inr (full, insert_full sp x h full)
  ]

  remove_lem : (sp : Sbuf A) (q : List A) → IsQueue sp q → sp.rear + 1 < 2 ^ 31 → Removes sp q
  remove_lem sp [] h small = remove_none sp h
  remove_lem sp (y ∷ r) h small = (popped sp, remove-popped sp y r h small, popped-IsQueue sp y r h)

  -- A buffer that holds `q` behaves as a queue of at most `n` items, while fewer than 2^31 - 1
  -- items have passed through it: inserting puts the item behind the others if there is a free
  -- slot and waits if there is none; removing gives the oldest item if there is one and waits if
  -- there is none.
  pub sbuf_refines :
      (sp : Sbuf A) (x : A) (q : List A)
      → IsQueue sp q
      → sp.rear + 1 < 2 ^ 31
      → Inserts sp x q × Removes sp q
  sbuf_refines sp x q h small = (insert_lem sp x q h small, remove_lem sp q h small)

-- Where as many entries wait as the log buffer has room for, and its semaphore still counts a free
-- slot, while fewer than 2^31 - 1 entries have been put in: one more is stored without a wait; the
-- next entry that logThread takes is this new one and not the oldest, which is lost; and what then
-- waits is the other entries and, once more, the new one.
pub log_entry_lost {ℓ} :
    {A : Type ℓ} (sp : Sbuf A) (x y : A) (r : List A)
    → IsRing sp (y ∷ r)
    → suc (length r) ≡ sp.n
    → 0 < sp.slots
    → sp.rear + 1 < 2 ^ 31
    → (t u : Sbuf A) × (insert sp x ≡ done t) × (take_log t ≡ done (x, u)) × IsRing u (r ++ x ∷ [])
unfolding take_log
log_entry_lost sp x y r h full free small =
    let ring = pushed-IsRing (logged sp) x (logged-IsRing sp y r h) (omega (arith, full)) in
    (
      pushed sp x,
      logged (pushed sp x),
      insert-pushed sp x h free small,
      rw (wait_pos (sp.items + 1) (omega arith)) (
          rw (lt→ltb (sp.front + 1) (2 ^ 31) (omega (arith, h.ahead)))
            (rw (not_zero sp.n h.some_room) (rw (newest, load_elem)))),
      record {
        some_room = ring.some_room;
        whole = ring.whole;
        unlocked = refl;
        counted = omega (arith, ring.counted, h.counted);
        ahead = ring.ahead;
        held = ring.held;
      },
    )
  where
    same_place : (sp.front + 1) % sp.n ≡ (sp.rear + 1) % sp.n
    same_place =
        sym (add-mod_right (sp.front + 1) sp.n)
        ∙ ap (λ (k : ℕ). k % sp.n) (omega (arith, h.ahead, full))

    newest : get_elem? (pushed sp x).buf ((sp.front + 1) % sp.n) ≡ some x
    newest = rw same_place (
        get_elem?-set_self sp.buf ((sp.rear + 1) % sp.n) x
          (rw h.whole (mod-lt (sp.rear + 1) h.some_room)))
