-- ===== src/Tests/Buffers.antt =====
-- The calls of a bounded buffer at concrete inputs.
use multiplexing_proxy.Prelude.{ℕ, ◌≡◌, ◌≤◌, refl, List, [], ◌∷◌, ◌++◌, length, arith}
use multiplexing_proxy.ThreadProxy.Sbuf.Calls.{
  outside, can_take, put_item, wait_slot, lock_put, put, unlock_put, announce, wait_item, lock_take,
  Callers, Reach, pick, start, later,
}
use multiplexing_proxy.ThreadProxy.Sbuf.Calls.Sound.{locks, tally}
use multiplexing_proxy.ThreadProxy.Sbuf.Calls.Order.{Proceeds, sbuf_order}
use multiplexing_proxy.ThreadProxy.Sbuf.{Sbuf}

-- The array, `rear`, and the three semaphores of a buffer that nothing was taken from.
abbrev at : List ℕ → (rear mutex slots items : ℕ) → Sbuf ℕ
at buf rear mutex slots items = record {
  buf = buf;
  n = 2;
  front = 0;
  rear = rear;
  mutex = mutex;
  slots = slots;
  items = items;
}

abbrev empty : List ℕ
empty = 0 ∷ 0 ∷ []

-- One thread has put 7 in, and the other is about to take it out.
abbrev one_takes : Callers ℕ
one_takes = record {
  shared = at (0 ∷ 7 ∷ []) 1 0 1 0;
  phases = outside ∷ can_take ∷ [];
  inserted = 7 ∷ [];
  removed = [];
}

takes : Reach empty 2 2 one_takes
unfolding put_item
takes =
    later
      (later
        (later
          (later
            (later
              (later
                (later start (pick [] (outside ∷ []) [] [] (wait_slot (at empty 0 1 2 0) 7 refl)))
                (pick [] (outside ∷ []) [] [] (lock_put (at empty 0 1 1 0) 7 refl)))
              (pick [] (outside ∷ []) [] [] (put (at empty 0 0 1 0) 7 refl)))
            (pick [] (outside ∷ []) (7 ∷ []) [] (unlock_put (at (0 ∷ 7 ∷ []) 1 0 1 0))))
          (pick [] (outside ∷ []) (7 ∷ []) [] (announce (at (0 ∷ 7 ∷ []) 1 1 1 0))))
        (pick (outside ∷ []) [] (7 ∷ []) [] (wait_item (at (0 ∷ 7 ∷ []) 1 1 1 1) refl)))
      (pick (outside ∷ []) [] (7 ∷ []) [] (lock_take (at (0 ∷ 7 ∷ []) 1 1 1 0) refl))

sbuf_order_example :
    (q : List ℕ) × (one_takes.inserted ≡ one_takes.removed ++ q)
    × (length q ≤ 2)
    × (tally locks one_takes.phases ≤ 1)
    × Proceeds one_takes.shared one_takes.phases
sbuf_order_example = sbuf_order refl (omega arith) takes (omega arith)
