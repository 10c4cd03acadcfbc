-- ===== src/ThreadProxy/Lock/Progress.antt =====
-- Whether the threads at the readers-writer lock can always go on.
use multiplexing_proxy.Prelude.{
  ◌⊎◌, ℕ, zero, suc, ◌+◌, ◌≤◌, ◌<◌, ◌≡◌, ◌≢◌, refl, sym, List, [], ◌∷◌, ◌++◌, arith, inl, inr,
  subst, ap, ◌∙◌,
}
use multiplexing_proxy.ThreadProxy.Lock.{
  Phase, outside, entered, wants_w, counted, reading, leaving, gives_w, uncounted, writing, Locks,
  locks, Move, count_in, take_w, unlock_in, lock_out, count_out, give_w, unlock_out, unlock_store,
  Threads, Reach,
}
use multiplexing_proxy.ThreadProxy.Lock.Exclusion.{
  tally-waits-le, holds_mutex, is_counted, waits, gives, stores, searches, tally, tally_at, some_of,
  IsSound, Reach-IsSound,
}

-- A step of a thread that is inside the lock's code, or reads or writes under it.
pub data Advances : Threads → Threads → Type 0 where
  advance :
      (before after : List Phase) {l m : Locks} {p q : Phase}
      → p ≢ outside
      → Move l p m q
      → Advances
          (record { shared = l; phases = before ++ p ∷ after })
          (record { shared = m; phases = before ++ q ∷ after })

abbrev pub AllOutside : List Phase → Type 0
AllOutside [] = Unit
AllOutside (p ∷ ps) = (p ≡ outside) × AllOutside ps

-- Some phase of a kind, or none.
abbrev Splits : (Phase → ℕ) → List Phase → Type 0
Splits f ps =
    (before : List Phase) × (p : Phase) × (after : List Phase) × (ps ≡ before ++ p ∷ after)
    × (0 < f p)

find_phase : (f : Phase → ℕ) (ps : List Phase) → (tally f ps ≡ 0) ⊎ Splits f ps
find_phase f [] = inl refl
find_phase f (p ∷ ps) = go (f p) refl (find_phase f ps)
  where
    go :
        (n : ℕ)
        → f p ≡ n
        → (tally f ps ≡ 0) ⊎ Splits f ps
        → (tally f (p ∷ ps) ≡ 0) ⊎ Splits f (p ∷ ps)
    go zero e (inl none) = inl (omega (arith, e, none))
    go zero e (inr (b, q, a, split, some)) = inr (p ∷ b, q, a, ap (◌∷◌ p) split, some)
    go (suc n) e r = inr ([], p, ps, refl, omega (arith, e))

-- The phases whose next step waits for nothing.
abbrev goes_on : Phase → ℕ
goes_on entered = 1
goes_on counted = 1
goes_on gives_w = 1
goes_on uncounted = 1
goes_on writing = 1
goes_on _ = 0

abbrev MovesOn : Locks → Phase → Type 0
MovesOn l p = (m : Locks) × (q : Phase) × (p ≢ outside) × Move l p m q

abbrev is_outside : Phase → ℕ
is_outside outside = 1
is_outside _ = 0

inside : {p : Phase} → is_outside p ≡ 0 → p ≢ outside
inside {p} e q = let f = ap is_outside q in omega (arith, e, f)

goes_on-MovesOn : (l : Locks) (p : Phase) → 0 < goes_on p → MovesOn l p
goes_on-MovesOn l entered h = (_, _, inside refl, count_in)
goes_on-MovesOn l counted h = (_, _, inside refl, unlock_in)
goes_on-MovesOn l gives_w h = (_, _, inside refl, give_w)
goes_on-MovesOn l uncounted h = (_, _, inside refl, unlock_out)
goes_on-MovesOn l writing h = (_, _, inside refl, unlock_store)
goes_on-MovesOn l outside h = absurd (omega arith)
goes_on-MovesOn l wants_w h = absurd (omega arith)
goes_on-MovesOn l reading h = absurd (omega arith)
goes_on-MovesOn l leaving h = absurd (omega arith)

abbrev counts_down : Phase → ℕ
counts_down leaving = 1
counts_down _ = 0

only_leaving : (p : Phase) → 0 < counts_down p → p ≡ leaving
only_leaving p h = ground arith

only_wants_w : (p : Phase) → 0 < waits p → p ≡ wants_w
only_wants_w p h = ground arith

only_reading : (p : Phase) → 0 < searches p → p ≡ reading
only_reading p h = ground arith

leaving-MovesOn : (l : Locks) → 0 < l.readcnt → MovesOn l leaving
leaving-MovesOn l h = go l.mutex l.w l.readcnt h
  where
    go : (m w r : ℕ) → 0 < r → MovesOn (locks m w r) leaving
    go m w zero h = absurd (omega arith)
    go m w (suc r) h = (_, _, inside refl, count_out)

wants_w-MovesOn : (l : Locks) → 0 < l.w → MovesOn l wants_w
wants_w-MovesOn l h = go l.mutex l.w l.readcnt h
  where
    go : (m w r : ℕ) → 0 < w → MovesOn (locks m w r) wants_w
    go m zero r h = absurd (omega arith)
    go m (suc w) r h = (_, _, inside refl, take_w)

reading-MovesOn : (l : Locks) → 0 < l.mutex → MovesOn l reading
reading-MovesOn l h = go l.mutex l.w l.readcnt h
  where
    go : (m w r : ℕ) → 0 < m → MovesOn (locks m w r) reading
    go zero w r h = absurd (omega arith)
    go (suc m) w r h = (_, _, inside refl, lock_out)

-- A thread that can move is a step of the whole.
steps :
    (l : Locks) (before after ps : List Phase) (p : Phase)
    → ps ≡ before ++ p ∷ after
    → MovesOn l p
    → (u : Threads) × Advances (record { shared = l; phases = ps }) u
steps l before after ps p split (m, q, inside, move) =
    subst (λ s. (u : Threads) × Advances (record { shared = l; phases = s }) u) (sym split)
      (_, advance before after inside move)

all_outside :
    (ps : List Phase)
    → tally goes_on ps ≡ 0
    → tally counts_down ps ≡ 0
    → tally waits ps ≡ 0
    → tally searches ps ≡ 0
    → AllOutside ps
all_outside [] g c k s = tt
all_outside (p ∷ ps) g c k s = (
  only_outside p (omega (arith, g)) (omega (arith, c)) (omega (arith, k)) (omega (arith, s)),
  all_outside ps (omega (arith, g)) (omega (arith, c)) (omega (arith, k)) (omega (arith, s)),
)
  where
    only_outside :
        (p : Phase) → goes_on p ≡ 0 → counts_down p ≡ 0 → waits p ≡ 0 → searches p ≡ 0 → p ≡ outside
    only_outside p g c k s = ground arith

-- With nobody in a phase that goes on or counts down, only a waiting reader holds `mutex`, nobody
-- stores, and nobody gives `w` back.
holders :
    (p : Phase)
    → (holds_mutex p + stores p ≤ goes_on p + counts_down p + waits p) × (gives p ≤ goes_on p)
holders p = ground arith

tally-holders :
    (ps : List Phase)
    → (tally holds_mutex ps + tally stores ps
        ≤ tally goes_on ps + tally counts_down ps + tally waits ps)
      × (tally gives ps ≤ tally goes_on ps)
tally-holders [] = omega arith
tally-holders (p ∷ ps) =
    let (h, g) = holders p in
    let (hs, gs) = tally-holders ps in (omega (arith, h, hs), omega (arith, g, gs))

-- Who moves.
advances :
    (l : Locks) (ps : List Phase)
    → IsSound (record { shared = l; phases = ps })
    → AllOutside ps ⊎ ((u : Threads) × Advances (record { shared = l; phases = ps }) u)
advances l ps a = elim (find_phase goes_on ps) [
  | inr (b, p, r, split, some) ↦ inr (steps l b r ps p split (goes_on-MovesOn l p some))
  | inl quiet ↦ elim (find_phase counts_down ps) [
    | inr (b, p, r, split, some) ↦
        let e = only_leaving p some in
        let t = ap (tally is_counted) split ∙ tally_at is_counted b r p in
        let c = ap is_counted e in
        inr (
          steps l b r ps leaving (rw (← e) split)
            (leaving-MovesOn l (omega (arith, a.right_count, t, c))))
    | inl up ↦ elim (find_phase waits ps) [
      | inr (b, p, r, split, some) ↦
          let e = only_wants_w p some in
          let t = ap (tally waits) split ∙ tally_at waits b r p in
          let one : l.readcnt ≡ 1 = a.first (omega (arith, t, some)) in
          let owned : some_of l.readcnt ≡ 1 = rw one in
          inr (
            steps l b r ps wants_w (rw (← e) split) (
              wants_w-MovesOn l (
                omega (
                  arith,
                  a.one_owner,
                  a.one_holder,
                  owned,
                  t,
                  some,
                  quiet,
                  up,
                  tally-holders ps,
                  tally-waits-le ps,
                ))))
      | inl none ↦ elim (find_phase searches ps) [
        | inr (b, p, r, split, some) ↦ inr (
            steps l b r ps reading (rw (← only_reading p some) split) (
              reading-MovesOn l (
                omega (arith, a.one_holder, quiet, up, none, tally-holders ps, tally-waits-le ps))))
        | inl still ↦ inl (all_outside ps quiet up none still)
      ]
    ]
  ]
]

-- However many threads run, and however their steps have interleaved: if some thread is inside the
-- code of the readers-writer lock, or searches or stores under it, then such a thread can make its
-- next step. So the lock never leaves them all waiting.
pub lock_progress :
    {n : ℕ} {t : Threads} → Reach n t → AllOutside t.phases ⊎ ((u : Threads) × Advances t u)
lock_progress {t = t} r = advances t.shared t.phases (Reach-IsSound r)
