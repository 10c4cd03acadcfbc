-- ===== src/ThreadProxy/Lock.antt =====
-- The readers-writer lock of httpProxy-master/proxylab-handout/proxy.c: the semaphores `mutex` and
-- `w` and the count `readcnt`, over all interleavings of the threads. `timeMutex`, which a reader
-- holds around one assignment, is not in it.
pub mod Exclusion
pub mod Progress
use multiplexing_proxy.Prelude.{
  ℕ, zero, suc, ◌+◌, ◌==◌, if◌then◌else◌, List, [], ◌∷◌, ◌++◌, replicate,
}

-- Where a thread stands in `thread`. `outside` is all of it but the search of the cache, the
-- storing of a response, and their locks.
pub data Phase : Type 0 where
  outside : Phase
  -- Behind `P(&mutex)`; behind `readcnt++`, in front of `P(&w)`; in front of `V(&mutex)`.
  entered : Phase
  wants_w : Phase
  counted : Phase
  -- Searching the cache.
  reading : Phase
  -- Behind `P(&mutex)` again; behind `readcnt--`, in front of `V(&w)`; in front of `V(&mutex)`.
  leaving : Phase
  gives_w : Phase
  uncounted : Phase
  -- Storing, between `P(&w)` and `V(&w)`.
  writing : Phase

pub record Locks : Type 0 where
  pub mutex : ℕ
  pub w : ℕ
  pub readcnt : ℕ

abbrev pub locks : ℕ → ℕ → ℕ → Locks
locks m w r = record { mutex = m; w = w; readcnt = r }

-- `if (readcnt == 1) P(&w);` and `if (!readcnt) V(&w);`: where a thread stands behind the test.
abbrev pub counted_in : ℕ → Phase
counted_in zero = counted
counted_in (suc zero) = wants_w
counted_in (suc (suc n)) = counted

abbrev pub counted_out : ℕ → Phase
counted_out zero = gives_w
counted_out (suc n) = uncounted

-- One step of one thread. `P` has a step only if the semaphore is positive. `readcnt` is an `int`;
-- counting down from 0 has no step here.
pub data Move : Locks → Phase → Locks → Phase → Type 0 where
  lock_in : {m w r : ℕ} → Move (locks (suc m) w r) outside (locks m w r) entered
  count_in : {m w r : ℕ} → Move (locks m w r) entered (locks m w (suc r)) (counted_in (suc r))
  take_w : {m w r : ℕ} → Move (locks m (suc w) r) wants_w (locks m w r) counted
  unlock_in : {m w r : ℕ} → Move (locks m w r) counted (locks (m + 1) w r) reading
  lock_out : {m w r : ℕ} → Move (locks (suc m) w r) reading (locks m w r) leaving
  count_out : {m w r : ℕ} → Move (locks m w (suc r)) leaving (locks m w r) (counted_out r)
  give_w : {m w r : ℕ} → Move (locks m w r) gives_w (locks m (w + 1) r) uncounted
  unlock_out : {m w r : ℕ} → Move (locks m w r) uncounted (locks (m + 1) w r) outside
  lock_store : {m w r : ℕ} → Move (locks m (suc w) r) outside (locks m w r) writing
  unlock_store : {m w r : ℕ} → Move (locks m w r) writing (locks m (w + 1) r) outside

pub record Threads : Type 0 where
  pub shared : Locks
  pub phases : List Phase

-- Some thread makes a step.
pub data Step : Threads → Threads → Type 0 where
  pick :
      (before after : List Phase) {l m : Locks} {p q : Phase}
      → Move l p m q
      → Step
          (record { shared = l; phases = before ++ p ∷ after })
          (record { shared = m; phases = before ++ q ∷ after })

-- `main`: `mutex` and `w` are 1, nobody reads, and `n` threads start.
abbrev pub started : ℕ → Threads
started n = record { shared = locks 1 1 0; phases = replicate n outside }

pub data Reach (n : ℕ) : Threads → Type 0 where
  start : Reach n (started n)
  later : {s t : Threads} → Reach n s → Step s t → Reach n t
