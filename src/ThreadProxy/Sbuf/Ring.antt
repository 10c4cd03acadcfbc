-- ===== src/ThreadProxy/Sbuf/Ring.antt =====
-- The array of a bounded buffer, and what storing and taking an item do to it.
use native.Mathlib.Nat.{mod-lt, div-add-mod, add-zero}
use multiplexing_proxy.Prelude.{
  ℕ, zero, suc, ◌+◌, ◌-◌, ◌%◌, ◌^◌, ◌≤◌, ◌<◌, ◌≡◌, ◌≢◌, refl, sym, ap, ◌∙◌, false, List, [], ◌∷◌,
  ◌++◌, length, get_elem?, set, some, done, starved, arith, ◌==◌, length-append, length-set,
  get_elem?-set_self, get_elem?-set_ne, lt→ltb,
}
use multiplexing_proxy.ThreadProxy.Sbuf.{Sbuf, wait, load_elem, insert, take_log}

-- Positions less than `n` apart are different places of the array.
mod-ne : {n i j : ℕ} → 0 < n → i < j → j < i + n → i % n ≢ j % n
mod-ne {n} {i} {j} pos lt small e = grind (arith, div-add-mod i n, div-add-mod j n)

pub wait_pos : (s : ℕ) → 0 < s → wait s ≡ done (s - 1)
wait_pos zero h = absurd (omega arith)
wait_pos (suc s) h = ap done (omega arith)

pub not_zero : (n : ℕ) → 0 < n → (n == 0) ≡ false
not_zero n h = ground arith

module _ {ℓ} {A : Type ℓ} where
  -- The `k` items from position `i` on, going round.
  abbrev pub Window : List A → ℕ → ℕ → List A → Type ℓ
  Window buf n i [] = Unit
  Window buf n i (x ∷ xs) = (get_elem? buf (i % n) ≡ some x) × Window buf n (i + 1) xs

  -- A buffer with no call in progress that holds the items `q`, oldest first, whatever the
  -- semaphore of free slots counts.
  pub record IsRing (sp : Sbuf A) (q : List A) : Type ℓ where
    pub some_room : 0 < sp.n
    pub whole : length sp.buf ≡ sp.n
    pub unlocked : sp.mutex ≡ 1
    pub counted : sp.items ≡ length q
    pub ahead : sp.front + length q ≡ sp.rear
    pub held : Window sp.buf sp.n (sp.front + 1) q

  -- A write outside the window leaves it alone.
  Window-set :
      (buf : List A) (n i j : ℕ) (x : A) (q : List A)
      → 0 < n
      → i + length q ≤ j
      → j < i + n
      → Window buf n i q
      → Window (set buf (j % n) x) n i q
  Window-set buf n i j x [] pos le small h = tt
  Window-set buf n i j x (y ∷ q) pos le small h = (
    get_elem?-set_ne buf x (λ e. mod-ne pos (omega arith) small (sym e)) ∙ h.0,
    Window-set buf n (i + 1) j x q pos (omega arith) (omega arith) h.1,
  )

  Window-concat :
      (buf : List A) (n i : ℕ) (q : List A) (x : A)
      → Window buf n i q
      → get_elem? buf ((i + length q) % n) ≡ some x
      → Window buf n i (q ++ x ∷ [])
  Window-concat buf n i [] x h e = (rw add-zero at e, tt)
  Window-concat buf n i (y ∷ q) x h e = (h.0, Window-concat buf n (i + 1) q x h.1 (rw (shift) e))
    where
      shift : i + 1 + length q ≡ i + suc (length q)
      shift = omega arith

  -- What `insert` stores.
  abbrev pub pushed : Sbuf A → A → Sbuf A
  pushed sp x = record sp {
    buf = set sp.buf ((sp.rear + 1) % sp.n) x;
    rear = sp.rear + 1;
    mutex = 1;
    slots = sp.slots - 1;
    items = sp.items + 1;
  }

  pub insert-pushed :
      (sp : Sbuf A) (x : A) {q : List A}
      → IsRing sp q
      → 0 < sp.slots
      → sp.rear + 1 < 2 ^ 31
      → insert sp x ≡ done (pushed sp x)
  unfolding insert
  insert-pushed sp x {q} h free small =
      let within : (sp.rear + 1) % sp.n < length sp.buf =
        rw h.whole (mod-lt (sp.rear + 1) h.some_room) in
      rw (wait_pos sp.slots free) (
        rw h.unlocked (
          rw (lt→ltb (sp.rear + 1) (2 ^ 31) small)
            (rw (not_zero sp.n h.some_room) (rw (lt→ltb _ _ within)))))

  pub pushed-IsRing :
      (sp : Sbuf A) (x : A) {q : List A}
      → IsRing sp q
      → length q < sp.n
      → IsRing (pushed sp x) (q ++ x ∷ [])
  pushed-IsRing sp x {q} h room = record {
    some_room = h.some_room;
    whole = length-set sp.buf ((sp.rear + 1) % sp.n) x ∙ h.whole;
    unlocked = refl;
    counted = omega (arith, length-append q (x ∷ []), h.counted);
    ahead = omega (arith, length-append q (x ∷ []), h.ahead);
    held =
        Window-concat _ sp.n (sp.front + 1) q x
          (Window-set sp.buf sp.n (sp.front + 1) (sp.rear + 1) x q h.some_room
            (omega (arith, h.ahead)) (omega (arith, h.ahead)) h.held)
          (rw last (
            get_elem?-set_self sp.buf ((sp.rear + 1) % sp.n) x
              (rw h.whole (mod-lt (sp.rear + 1) h.some_room))));
  }
    where
      last : sp.front + 1 + length q ≡ sp.rear + 1
      last = omega (arith, h.ahead)

  -- What `logThread` leaves behind taking an entry.
  abbrev pub logged : Sbuf A → Sbuf A
  logged sp = record sp { front = sp.front + 1; slots = sp.slots + 1; items = sp.items - 1 }

  pub take_log-logged :
      (sp : Sbuf A) (y : A) (r : List A)
      → IsRing sp (y ∷ r)
      → sp.rear + 1 < 2 ^ 31
      → take_log sp ≡ done (y, logged sp)
  unfolding take_log
  take_log-logged sp y r h small = rw (wait_pos sp.items (omega (arith, h.counted))) (
      rw (lt→ltb (sp.front + 1) (2 ^ 31) (omega (arith, h.ahead)))
        (rw (not_zero sp.n h.some_room) (rw (h.held.0, load_elem))))

  pub logged-IsRing : (sp : Sbuf A) (y : A) (r : List A) → IsRing sp (y ∷ r) → IsRing (logged sp) r
  logged-IsRing sp y r h = record {
    some_room = h.some_room;
    whole = h.whole;
    unlocked = h.unlocked;
    counted = omega (arith, h.counted);
    ahead = omega (arith, h.ahead);
    held = h.held.1;
  }

  pub take_log_none : (sp : Sbuf A) → IsRing sp [] → take_log sp ≡ starved
  unfolding take_log
  take_log_none sp h = rw h.counted
