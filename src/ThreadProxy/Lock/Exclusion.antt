-- ===== src/ThreadProxy/Lock/Exclusion.antt =====
-- Storing into the cache and searching it, against each other: the tallies of the threads.
use native.Mathlib.Decide.{dec_lt}
use multiplexing_proxy.Prelude.{
  ◌⊎◌, ℕ, zero, suc, ◌+◌, ◌≤◌, ◌<◌, ◌≡◌, refl, sym, List, [], ◌∷◌, ◌++◌, replicate, arith, inl, inr,
}
use multiplexing_proxy.ThreadProxy.Lock.{
  Phase, outside, entered, wants_w, counted, reading, leaving, gives_w, uncounted, writing, Locks,
  Move, lock_in, count_in, take_w, unlock_in, lock_out, count_out, give_w, unlock_out, lock_store,
  unlock_store, Threads, Step, pick, Reach, start, later,
}

-- Which phases hold `mutex`, are counted in `readcnt`, wait for `w` or give it back as readers,
-- search, are about to count down, and store.
abbrev pub holds_mutex : Phase → ℕ
holds_mutex outside = 0
holds_mutex reading = 0
holds_mutex writing = 0
holds_mutex _ = 1

abbrev pub is_counted : Phase → ℕ
is_counted wants_w = 1
is_counted counted = 1
is_counted reading = 1
is_counted leaving = 1
is_counted _ = 0

abbrev pub waits : Phase → ℕ
waits wants_w = 1
waits _ = 0

abbrev pub gives : Phase → ℕ
gives gives_w = 1
gives _ = 0

abbrev pub searches : Phase → ℕ
searches reading = 1
searches _ = 0

abbrev pub leaves : Phase → ℕ
leaves leaving = 1
leaves _ = 0

abbrev pub stores : Phase → ℕ
stores writing = 1
stores _ = 0

-- How many threads do so.
abbrev pub tally : (Phase → ℕ) → List Phase → ℕ
tally f [] = 0
tally f (p ∷ ps) = f p + tally f ps

abbrev pub some_of : ℕ → ℕ
some_of zero = 0
some_of (suc n) = 1

-- The tallies, against the semaphores and the count.
pub record IsGood (l : Locks) (held inside waiting giving storing : ℕ) : Type 0 where
  pub one_holder : l.mutex + held ≡ 1
  pub right_count : l.readcnt ≡ inside
  pub one_owner : l.w + storing + giving + some_of l.readcnt ≡ 1 + waiting
  pub first : 0 < waiting → l.readcnt ≡ 1

Move-IsGood :
    {l m : Locks} {p q : Phase}
    → Move l p m q
    → (h i k g s : ℕ)
    → IsGood l (holds_mutex p + h) (is_counted p + i) (waits p + k) (gives p + g) (stores p + s)
    → k ≤ h
    → IsGood m (holds_mutex q + h) (is_counted q + i) (waits q + k) (gives q + g) (stores q + s)
Move-IsGood lock_in h i k g s a le = record {
  one_holder = omega (arith, a.one_holder);
  right_count = omega (arith, a.right_count);
  one_owner = omega (arith, a.one_holder, a.right_count, a.one_owner);
  first = a.first;
}
Move-IsGood (count_in {r = zero}) h i k g s a le = record {
  one_holder = omega (arith, a.one_holder);
  right_count = omega (arith, a.right_count);
  one_owner = omega (arith, a.one_holder, a.right_count, a.one_owner);
  first = λ lt. omega (arith, a.one_holder, a.right_count, a.one_owner);
}
Move-IsGood (count_in {r = suc r}) h i k g s a le = record {
  one_holder = omega (arith, a.one_holder);
  right_count = omega (arith, a.right_count);
  one_owner = omega (arith, a.one_holder, a.right_count, a.one_owner);
  first = λ lt. omega (arith, a.one_holder, a.right_count, a.one_owner);
}
Move-IsGood (take_w {r = r}) h i k g s a le =
    let first : r ≡ 1 = a.first (omega arith) in
    record {
      one_holder = a.one_holder;
      right_count = a.right_count;
      one_owner = omega (arith, a.one_holder, a.one_owner);
      first = λ lt. first;
    }
Move-IsGood unlock_in h i k g s a le = record {
  one_holder = omega (arith, a.one_holder);
  right_count = omega (arith, a.right_count);
  one_owner = omega (arith, a.one_holder, a.right_count, a.one_owner);
  first = a.first;
}
Move-IsGood lock_out h i k g s a le = record {
  one_holder = omega (arith, a.one_holder);
  right_count = omega (arith, a.right_count);
  one_owner = omega (arith, a.one_holder, a.right_count, a.one_owner);
  first = a.first;
}
Move-IsGood (count_out {r = zero}) h i k g s a le = record {
  one_holder = omega (arith, a.one_holder);
  right_count = omega (arith, a.right_count);
  one_owner = omega (arith, a.one_holder, a.right_count, a.one_owner);
  first = λ lt. omega (arith, a.one_holder, a.right_count, a.one_owner);
}
Move-IsGood (count_out {r = suc r}) h i k g s a le = record {
  one_holder = omega (arith, a.one_holder);
  right_count = omega (arith, a.right_count);
  one_owner = omega (arith, a.one_holder, a.right_count, a.one_owner);
  first = λ lt. omega (arith, a.one_holder, a.right_count, a.one_owner);
}
Move-IsGood give_w h i k g s a le = record {
  one_holder = omega (arith, a.one_holder);
  right_count = omega (arith, a.right_count);
  one_owner = omega (arith, a.one_holder, a.right_count, a.one_owner);
  first = a.first;
}
Move-IsGood unlock_out h i k g s a le = record {
  one_holder = omega (arith, a.one_holder);
  right_count = omega (arith, a.right_count);
  one_owner = omega (arith, a.one_holder, a.right_count, a.one_owner);
  first = a.first;
}
Move-IsGood lock_store h i k g s a le = record {
  one_holder = omega (arith, a.one_holder);
  right_count = omega (arith, a.right_count);
  one_owner = omega (arith, a.one_holder, a.right_count, a.one_owner);
  first = a.first;
}
Move-IsGood unlock_store h i k g s a le = record {
  one_holder = omega (arith, a.one_holder);
  right_count = omega (arith, a.right_count);
  one_owner = omega (arith, a.one_holder, a.right_count, a.one_owner);
  first = a.first;
}

some_of_lem : (n : ℕ) → (n ≡ 0) ⊎ (some_of n ≡ 1)
some_of_lem zero = inl refl
some_of_lem (suc n) = inr refl

storing_alone :
    {l : Locks} {h i k g s search : ℕ}
    → IsGood l h i k g s
    → search + k ≤ i
    → k ≤ h
    → (s ≤ 1) × ((s ≡ 0) ⊎ (search ≡ 0))
storing_alone {l} {h} {i} {k} {g} {s} {search} a c le = elim (dec_lt 0 k) [
  | yes waiting ↦
      let one : l.readcnt ≡ 1 = a.first waiting in
      let owned : some_of l.readcnt ≡ 1 = rw one in
      (
        omega (arith, a.one_owner, a.one_holder, owned),
        inr (omega (arith, a.one_owner, a.right_count, one)),
      )
  | no none ↦ elim (some_of_lem l.readcnt) [
    | inl nobody ↦ (omega (arith, a.one_owner), inr (omega (arith, a.right_count, nobody)))
    | inr owned ↦ (omega (arith, a.one_owner, owned), inl (omega (arith, a.one_owner, owned)))
  ]
]

-- What holds of a state of the threads.
abbrev pub IsSound : Threads → Type 0
IsSound t =
    IsGood t.shared (tally holds_mutex t.phases) (tally is_counted t.phases) (tally waits t.phases)
      (tally gives t.phases) (tally stores t.phases)

pub tally_at :
    (f : Phase → ℕ) (before after : List Phase) (p : Phase)
    → tally f (before ++ p ∷ after) ≡ f p + tally f (before ++ after)
tally_at f [] after p = refl
tally_at f (q ∷ before) after p = omega (arith, tally_at f before after p)

waits-le : (p : Phase) → waits p ≤ holds_mutex p
waits-le outside = omega arith
waits-le entered = omega arith
waits-le wants_w = omega arith
waits-le counted = omega arith
waits-le reading = omega arith
waits-le leaving = omega arith
waits-le gives_w = omega arith
waits-le uncounted = omega arith
waits-le writing = omega arith

pub tally-waits-le : (ps : List Phase) → tally waits ps ≤ tally holds_mutex ps
tally-waits-le [] = omega arith
tally-waits-le (p ∷ ps) = omega (arith, waits-le p, tally-waits-le ps)

Step-IsSound : {s t : Threads} → Step s t → IsSound s → IsSound t
Step-IsSound (pick before after {l} {m} {p} {q} move) a =
    let ps = before ++ after in
    rw
      (
        tally_at holds_mutex before after q,
        tally_at is_counted before after q,
        tally_at waits before after q,
        tally_at gives before after q,
        tally_at stores before after q,
      )
      (Move-IsGood move (tally holds_mutex ps) (tally is_counted ps) (tally waits ps)
        (tally gives ps) (tally stores ps)
        (rw
          (
            tally_at holds_mutex before after p,
            tally_at is_counted before after p,
            tally_at waits before after p,
            tally_at gives before after p,
            tally_at stores before after p,
          )
          at a)
        (tally-waits-le ps))

tally_outside : (f : Phase → ℕ) (n : ℕ) → f outside ≡ 0 → tally f (replicate n outside) ≡ 0
tally_outside f zero h = refl
tally_outside f (suc n) h = omega (arith, h, tally_outside f n h)

pub Reach-IsSound : {n : ℕ} {t : Threads} → Reach n t → IsSound t
Reach-IsSound {n} start = record {
  one_holder = omega (arith, tally_outside holds_mutex n refl);
  right_count = sym (tally_outside is_counted n refl);
  one_owner =
      omega (
        arith,
        tally_outside waits n refl,
        tally_outside gives n refl,
        tally_outside stores n refl,
      );
  first = λ lt. absurd (omega (arith, tally_outside waits n refl));
}
Reach-IsSound (later r step) = Step-IsSound step (Reach-IsSound r)

-- A thread that searches or leaves the search is counted, and does not wait for `w`.
counts-le : (p : Phase) → searches p + leaves p + waits p ≤ is_counted p
counts-le outside = omega arith
counts-le entered = omega arith
counts-le wants_w = omega arith
counts-le counted = omega arith
counts-le reading = omega arith
counts-le leaving = omega arith
counts-le gives_w = omega arith
counts-le uncounted = omega arith
counts-le writing = omega arith

tally-counts-le :
    (ps : List Phase) → tally searches ps + tally leaves ps + tally waits ps ≤ tally is_counted ps
tally-counts-le [] = omega arith
tally-counts-le (p ∷ ps) = omega (arith, counts-le p, tally-counts-le ps)

-- However many threads run, and however their steps interleave: at most one thread stores into the
-- cache at a time; while one stores, none searches; and every thread that is about to count
-- `readcnt` down finds it positive.
pub cache_exclusion :
    {n : ℕ} {t : Threads}
    → Reach n t
    → (tally stores t.phases ≤ 1)
      × ((tally stores t.phases ≡ 0) ⊎ (tally searches t.phases ≡ 0))
      × (tally leaves t.phases ≤ t.shared.readcnt)
cache_exclusion {t = t} r =
    let a = Reach-IsSound r in
    let c = tally-counts-le t.phases in
    let k = tally-waits-le t.phases in
    let alone =
      storing_alone {search = tally searches t.phases} (Reach-IsSound r) (omega (arith, c)) k in
    (alone.0, alone.1, omega (arith, a.right_count, c))
