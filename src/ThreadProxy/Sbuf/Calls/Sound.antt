-- ===== src/ThreadProxy/Sbuf/Calls/Sound.antt =====
-- The semaphores and the items of a bounded buffer, over the steps of its callers.
use mathlib.Core.List.{append-nil}
use native.Mathlib.Nat.{mod-lt}
use multiplexing_proxy.Prelude.{
  inl, inr, ℕ, ◌+◌, ◌%◌, ◌^◌, ◌<◌, ◌≡◌, refl, sym, ◌∙◌, subst, List, [], ◌∷◌, ◌++◌, length,
  length-append, true, set, done, ltb, arith, Bool-cases, ltb→lt, lt→ltb,
}
use multiplexing_proxy.ThreadProxy.Sbuf.{Sbuf, load_elem}
use multiplexing_proxy.ThreadProxy.Sbuf.Ring.{Window, IsRing, pushed-IsRing, not_zero}
use multiplexing_proxy.ThreadProxy.Sbuf.Calls.{
  Phase, has_slot, can_put, has_put, announces, has_item, can_take, has_taken, frees, put_item,
  take_item, Move, wait_slot, lock_put, put, unlock_put, announce, wait_item, lock_take, take_out,
  unlock_take, free_slot,
}

module _ {ℓ} {A : Type ℓ} where
  -- Which phases have a slot but have not put their item in, have taken an item but not given its
  -- slot back, have put an item in but not announced it, are promised an item, and hold `mutex`.
  abbrev pub reserves : Phase A → ℕ
  reserves (has_slot x) = 1
  reserves (can_put x) = 1
  reserves _ = 0

  abbrev pub returns : Phase A → ℕ
  returns (has_taken x) = 1
  returns (frees x) = 1
  returns _ = 0

  abbrev pub hides : Phase A → ℕ
  hides has_put = 1
  hides announces = 1
  hides _ = 0

  abbrev pub promised : Phase A → ℕ
  promised has_item = 1
  promised can_take = 1
  promised _ = 0

  abbrev pub locks : Phase A → ℕ
  locks (can_put x) = 1
  locks has_put = 1
  locks can_take = 1
  locks (has_taken x) = 1
  locks _ = 0

  -- How many threads do so.
  abbrev pub tally : (Phase A → ℕ) → List (Phase A) → ℕ
  tally f [] = 0
  tally f (p ∷ ps) = f p + tally f ps

  pub tally_at :
      (f : Phase A → ℕ) (before after : List (Phase A)) (p : Phase A)
      → tally f (before ++ p ∷ after) ≡ f p + tally f (before ++ after)
  tally_at f [] after p = refl
  tally_at f (b ∷ before) after p = omega (arith, tally_at f before after p)

  -- The buffer holds `q`, and each semaphore is what the tallies leave of it.
  pub record IsSound (sp : Sbuf A) (q : List A) (reserved returned hidden held locked : ℕ)
      : Type ℓ where
    pub some_room : 0 < sp.n
    pub whole : length sp.buf ≡ sp.n
    pub ahead : sp.front + length q ≡ sp.rear
    pub window : Window sp.buf sp.n (sp.front + 1) q
    pub one : sp.mutex + locked ≡ 1
    pub free : sp.slots + reserved + length q + returned ≡ sp.n
    pub counted : sp.items + hidden + held ≡ length q

  -- What `put_item` stores, and what `take_item` leaves.
  abbrev pub put_in : Sbuf A → A → Sbuf A
  put_in sp x = record sp { buf = set sp.buf ((sp.rear + 1) % sp.n) x; rear = sp.rear + 1 }

  abbrev pub taken_out : Sbuf A → Sbuf A
  taken_out sp = record sp { front = sp.front + 1 }

  -- The same buffer with no call in progress.
  abbrev at_rest : Sbuf A → List A → Sbuf A
  at_rest sp q = record sp { mutex = 1; items = length q }

  module _ (sp : Sbuf A) {q : List A} {r e h d l : ℕ} (s : IsSound sp q r e h d l) where
    resting : IsRing (at_rest sp q) q
    resting = record {
      some_room = s.some_room;
      whole = s.whole;
      unlocked = refl;
      counted = refl;
      ahead = s.ahead;
      held = s.window;
    }

    pub put_item-done : (x : A) → sp.rear + 1 < 2 ^ 31 → put_item sp x ≡ done (put_in sp x)
    unfolding put_item
    put_item-done x small =
        let within : (sp.rear + 1) % sp.n < length sp.buf =
          rw s.whole (mod-lt (sp.rear + 1) s.some_room) in
        rw (lt→ltb (sp.rear + 1) (2 ^ 31) small)
          (rw (not_zero sp.n s.some_room) (rw (lt→ltb _ _ within)))

    put_item-only : (x : A) {sp' : Sbuf A} → put_item sp x ≡ done sp' → sp' ≡ put_in sp x
    put_item-only x ran = elim (Bool-cases (ltb (sp.rear + 1) (2 ^ 31))) [
      | inl small ↦ let same = sym ran ∙ put_item-done x (ltb→lt (sp.rear + 1) (2 ^ 31) small) in cc
      | inr over ↦ absurd (unfold put_item in cc)
    ]

  pub take_item-done :
      (sp : Sbuf A) (y : A) {q : List A} {r e h d l : ℕ}
      → IsSound sp (y ∷ q) r e h d l
      → sp.rear + 1 < 2 ^ 31
      → take_item sp ≡ done (y, taken_out sp)
  unfolding take_item
  take_item-done sp y s small =
      rw (lt→ltb (sp.front + 1) (2 ^ 31) (omega (arith, s.ahead)))
        (rw (not_zero sp.n s.some_room) (rw (s.window.0, load_elem)))

  take_item-only :
      (sp : Sbuf A) (y x : A) {q : List A} {r e h d l : ℕ} {sp' : Sbuf A}
      → IsSound sp (y ∷ q) r e h d l
      → take_item sp ≡ done (x, sp')
      → (x ≡ y) × (sp' ≡ taken_out sp)
  unfolding take_item
  take_item-only sp y x s ran = elim (Bool-cases (ltb (sp.front + 1) (2 ^ 31))) [
    | inl small ↦ let same = sym ran ∙ at_front small in (cc, cc)
    | inr over ↦ absurd (cc)
  ]
    where
      at_front : ltb (sp.front + 1) (2 ^ 31) ≡ true → take_item sp ≡ done (y, taken_out sp)
      at_front small = rw small (rw (not_zero sp.n s.some_room) (rw (s.window.0, load_elem)))

  -- A step keeps the buffer sound, for the items that were there, with the one that was put in
  -- and without the one that was taken out.
  abbrev pub Follows : ℕ → Sbuf A → Phase A → List A → List A → List A → (r e h d l : ℕ) → Type ℓ
  Follows n sp p q ins outs r e h d l =
      (q' : List A) × (q ++ ins ≡ outs ++ q')
      × (sp.n ≡ n)
      × IsSound sp q' (reserves p + r) (returns p + e) (hides p + h) (promised p + d) (locks p + l)

  -- The semaphores may change with the tallies.
  posted :
      (sp : Sbuf A) {m s i : ℕ} {q : List A} {r e h d l r' e' h' d' l' : ℕ}
      → IsSound sp q r e h d l
      → m + l' ≡ 1
      → s + r' + length q + e' ≡ sp.n
      → i + h' + d' ≡ length q
      → IsSound (record sp { mutex = m; slots = s; items = i }) q r' e' h' d' l'
  posted sp s one free counted = record {
    some_room = s.some_room;
    whole = s.whole;
    ahead = s.ahead;
    window = s.window;
    one = one;
    free = free;
    counted = counted;
  }

  pub Move-IsSound :
      {sp sp' : Sbuf A} {p p' : Phase A} {ins outs : List A}
      → Move sp p sp' p' ins outs
      → (q : List A) (r e h d l : ℕ)
      → IsSound sp q (reserves p + r) (returns p + e) (hides p + h) (promised p + d) (locks p + l)
      → Follows sp.n sp' p' q ins outs r e h d l
  Move-IsSound (wait_slot sp x left) q r e h d l s =
      (q, append-nil q, refl, posted sp s s.one (omega (arith, s.free, left)) s.counted)
  Move-IsSound (lock_put sp x left) q r e h d l s =
      (q, append-nil q, refl, posted sp s (omega (arith, s.one, left)) s.free s.counted)
  Move-IsSound (put sp x {sp'} ran) q r e h d l s =
      let ring = pushed-IsRing (at_rest sp q) x (resting sp s) (omega (arith, s.free)) in
      subst (λ b. Follows sp.n b has_put q (x ∷ []) [] r e h d l) (sym (put_item-only sp s x ran))
        (
          q ++ x ∷ [],
          refl,
          refl,
          record {
            some_room = s.some_room;
            whole = ring.whole;
            ahead = ring.ahead;
            window = ring.held;
            one = s.one;
            free = omega (arith, s.free, length-append q (x ∷ []));
            counted = omega (arith, s.counted, length-append q (x ∷ []));
          },
        )
  Move-IsSound (unlock_put sp) q r e h d l s =
      (q, append-nil q, refl, posted sp s (omega (arith, s.one)) s.free s.counted)
  Move-IsSound (announce sp) q r e h d l s =
      (q, append-nil q, refl, posted sp s s.one s.free (omega (arith, s.counted)))
  Move-IsSound (wait_item sp left) q r e h d l s =
      (q, append-nil q, refl, posted sp s s.one s.free (omega (arith, s.counted, left)))
  Move-IsSound (lock_take sp left) q r e h d l s =
      (q, append-nil q, refl, posted sp s (omega (arith, s.one, left)) s.free s.counted)
  Move-IsSound (take_out sp x ran) [] r e h d l s = absurd (omega (arith, s.counted))
  Move-IsSound (take_out sp x {sp'} ran) (y ∷ q) r e h d l s =
      let (item, left) = take_item-only sp y x s ran in
      subst (λ b. Follows sp.n b (has_taken x) (y ∷ q) [] (x ∷ []) r e h d l) (sym left)
        (
          q,
          rw (item, append-nil q),
          refl,
          record {
            some_room = s.some_room;
            whole = s.whole;
            ahead = omega (arith, s.ahead);
            window = s.window.1;
            one = s.one;
            free = omega (arith, s.free);
            counted = omega (arith, s.counted);
          },
        )
  Move-IsSound (unlock_take sp x) q r e h d l s =
      (q, append-nil q, refl, posted sp s (omega (arith, s.one)) s.free s.counted)
  Move-IsSound (free_slot sp x) q r e h d l s =
      (q, append-nil q, refl, posted sp s s.one (omega (arith, s.free)) s.counted)
