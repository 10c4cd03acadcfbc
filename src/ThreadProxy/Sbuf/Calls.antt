-- ===== src/ThreadProxy/Sbuf/Calls.antt =====
-- `sbuf_insert` and `sbuf_remove` of httpProxy-master split at their semaphores, over all
-- interleavings of the threads that call them.
pub mod Sound
pub mod Order
use multiplexing_proxy.Prelude.{
  ℕ, suc, ◌+◌, ◌%◌, ◌≡◌, List, [], ◌∷◌, ◌++◌, replicate, Result, done, fault, ◌>>=◌, ◌==◌,
  if◌then◌else◌,
}
use multiplexing_proxy.ThreadProxy.Sbuf.{Sbuf, next_int, store_elem, load_elem, init}

-- Where a thread stands. `outside` is all of it but the two functions. In `sbuf_insert`, with its
-- item: behind `P(&sp->slots)`, behind `P(&sp->mutex)`, in front of `V(&sp->mutex)`, and in front
-- of `V(&sp->items)`. In `sbuf_remove`: behind `P(&sp->items)`, behind `P(&sp->mutex)`, and with
-- the item that it took in front of `V(&sp->mutex)` and in front of `V(&sp->slots)`.
pub data Phase {ℓ} (A : Type ℓ) : Type ℓ where
  outside : Phase A
  has_slot : A → Phase A
  can_put : A → Phase A
  has_put : Phase A
  announces : Phase A
  has_item : Phase A
  can_take : Phase A
  has_taken : A → Phase A
  frees : A → Phase A

module _ {ℓ} {A : Type ℓ} where
  -- `sp->buf[(++sp->rear)%(sp->n)] = item;`
  unfoldable pub put_item : Sbuf A → A → Result (Sbuf A)
  put_item sp item = do
    rear ← next_int sp.rear
    buf ← (if sp.n == 0 then fault else store_elem sp.buf (rear % sp.n) item)
    done (record sp { buf = buf; rear = rear })

  -- `item = sp->buf[(++sp->front)%(sp->n)];`
  unfoldable pub take_item : Sbuf A → Result (A × Sbuf A)
  take_item sp = do
    front ← next_int sp.front
    item ← (if sp.n == 0 then fault else load_elem sp.buf (front % sp.n))
    done (item, record sp { front = front })

-- One step of one thread, with the items that it puts in and takes out. A wait has a step only if
-- the semaphore is positive; an access that faults has none.
pub data Move {ℓ} {A : Type ℓ}
    : Sbuf A → Phase A → Sbuf A → Phase A → List A → List A → Type ℓ where
  wait_slot :
      (sp : Sbuf A) (x : A) {s : ℕ}
      → sp.slots ≡ suc s
      → Move sp outside (record sp { slots = s }) (has_slot x) [] []
  lock_put :
      (sp : Sbuf A) (x : A) {m : ℕ}
      → sp.mutex ≡ suc m
      → Move sp (has_slot x) (record sp { mutex = m }) (can_put x) [] []
  put :
      (sp : Sbuf A) (x : A) {sp' : Sbuf A}
      → put_item sp x ≡ done sp'
      → Move sp (can_put x) sp' has_put (x ∷ []) []
  unlock_put : (sp : Sbuf A) → Move sp has_put (record sp { mutex = sp.mutex + 1 }) announces [] []
  announce : (sp : Sbuf A) → Move sp announces (record sp { items = sp.items + 1 }) outside [] []
  wait_item :
      (sp : Sbuf A) {i : ℕ}
      → sp.items ≡ suc i
      → Move sp outside (record sp { items = i }) has_item [] []
  lock_take :
      (sp : Sbuf A) {m : ℕ}
      → sp.mutex ≡ suc m
      → Move sp has_item (record sp { mutex = m }) can_take [] []
  take_out :
      (sp : Sbuf A) (x : A) {sp' : Sbuf A}
      → take_item sp ≡ done (x, sp')
      → Move sp can_take sp' (has_taken x) [] (x ∷ [])
  unlock_take :
      (sp : Sbuf A) (x : A)
      → Move sp (has_taken x) (record sp { mutex = sp.mutex + 1 }) (frees x) [] []
  free_slot :
      (sp : Sbuf A) (x : A) → Move sp (frees x) (record sp { slots = sp.slots + 1 }) outside [] []

-- The buffer, the threads, and all items so far that were put in and that were taken out.
pub record Callers {ℓ} (A : Type ℓ) : Type ℓ where
  pub shared : Sbuf A
  pub phases : List (Phase A)
  pub inserted : List A
  pub removed : List A

-- Some thread makes a step.
pub data Step {ℓ} {A : Type ℓ} : Callers A → Callers A → Type ℓ where
  pick :
      (before after : List (Phase A)) (inserted removed : List A) {sp sp' : Sbuf A} {p q : Phase A}
      {ins outs : List A}
      → Move sp p sp' q ins outs
      → Step
          (record {
            shared = sp;
            phases = before ++ p ∷ after;
            inserted = inserted;
            removed = removed;
          })
          (record {
            shared = sp';
            phases = before ++ q ∷ after;
            inserted = inserted ++ ins;
            removed = removed ++ outs;
          })

-- The buffer of descriptors as `main` sets it up, with an array of `n` items, and `k` threads.
abbrev pub begun {ℓ} : {A : Type ℓ} → List A → (n k : ℕ) → Callers A
begun buf n k = record {
  shared = record { buf = buf; n = n; front = 0; rear = 0; mutex = 1; slots = n; items = 0 };
  phases = replicate k outside;
  inserted = [];
  removed = [];
}

pub data Reach {ℓ} {A : Type ℓ} (buf : List A) (n k : ℕ) : Callers A → Type ℓ where
  start : Reach buf n k (begun buf n k)
  later : {s t : Callers A} → Reach buf n k s → Step s t → Reach buf n k t
