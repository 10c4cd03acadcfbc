-- ===== src/ThreadProxy/Sbuf.antt =====
-- The bounded buffers of httpProxy-master: `sbuf_t` (also in sbuf.c and sbuf.h) and `logbuf_t`. A
-- call that would wait at a semaphore is `starved`.
pub mod Ring
pub mod Fifo
pub mod Calls
use multiplexing_proxy.Prelude.{
  ℕ, zero, suc, ◌+◌, ◌-◌, ◌%◌, ◌^◌, Bool, true, false, List, [], ◌∷◌, length, get_elem?, set,
  Option, none, some, Result, done, fault, starved, ◌>>=◌, ◌==◌, ltb, if◌then◌else◌,
}

-- `front` and `rear` are `int`. The three semaphores are their values.
pub record Sbuf {ℓ} (A : Type ℓ) : Type ℓ where
  pub buf : List A
  pub n : ℕ
  pub front : ℕ
  pub rear : ℕ
  pub mutex : ℕ
  pub slots : ℕ
  pub items : ℕ

-- `P`: wait until the value is positive, and take one.
abbrev pub wait : ℕ → Result ℕ
wait zero = starved
wait (suc s) = done s

-- `++i` on an `int` below 2^31; beyond, the behaviour is undefined.
abbrev pub next_int : ℕ → Result ℕ
next_int i = if ltb (i + 1) (2 ^ 31) then done (i + 1) else fault

-- A store outside the array is a fault; so is `% 0`.
abbrev pub store_elem {ℓ} : {A : Type ℓ} → List A → ℕ → A → Result (List A)
store_elem buf i x = if ltb i (length buf) then done (set buf i x) else fault

abbrev pub load_elem {ℓ} : {A : Type ℓ} → List A → ℕ → Result A
load_elem buf i = elim (get_elem? buf i) [ none ↦ fault | some x ↦ done x ]

module _ {ℓ} {A : Type ℓ} where
  -- How `main` sets up a buffer: an array, its size, and the value of the semaphore of free slots.
  unfoldable pub init : List A → ℕ → ℕ → Sbuf A
  init buf n slots = record {
    buf = buf;
    n = n;
    front = 0;
    rear = 0;
    mutex = 1;
    slots = slots;
    items = 0;
  }

  -- `sbuf_insert`, run by one thread from its first wait to its last post.
  unfoldable pub insert : Sbuf A → A → Result (Sbuf A)
  insert sp item = do
    slots ← wait sp.slots
    mutex ← wait sp.mutex
    rear ← next_int sp.rear
    buf ← (if sp.n == 0 then fault else store_elem sp.buf (rear % sp.n) item)
    done (record sp {
      buf = buf;
      rear = rear;
      mutex = mutex + 1;
      slots = slots;
      items = sp.items + 1;
    })

  -- `sbuf_remove`.
  unfoldable pub remove : Sbuf A → Result (A × Sbuf A)
  remove sp = do
    items ← wait sp.items
    mutex ← wait sp.mutex
    front ← next_int sp.front
    item ← (if sp.n == 0 then fault else load_elem sp.buf (front % sp.n))
    done (item, record sp { front = front; mutex = mutex + 1; slots = sp.slots + 1; items = items })

-- The two buffers that `main` sets up: 16 descriptors, and a log buffer of NTHREADS entries whose
-- semaphore counts SBUFSIZE free slots.
abbrev pub sbufsize : ℕ
sbufsize = 16

abbrev pub nthreads : ℕ
nthreads = 4

unfoldable pub file_descriptors {ℓ} : {A : Type ℓ} → List A → Sbuf A
unfolding init
file_descriptors buf = init buf sbufsize sbufsize

unfoldable pub log_entries {ℓ} : {A : Type ℓ} → List A → Sbuf A
unfolding init
log_entries buf = init buf nthreads sbufsize

-- `logThread` takes an entry with no lock: one consumer.
unfoldable pub take_log {ℓ} : {A : Type ℓ} → Sbuf A → Result (A × Sbuf A)
take_log sp = do
  items ← wait sp.items
  front ← next_int sp.front
  item ← (if sp.n == 0 then fault else load_elem sp.buf (front % sp.n))
  done (item, record sp { front = front; slots = sp.slots + 1; items = items })
