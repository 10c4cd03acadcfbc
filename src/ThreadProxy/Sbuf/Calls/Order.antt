-- ===== src/ThreadProxy/Sbuf/Calls/Order.antt =====
-- What comes out of a bounded buffer, whatever the interleaving of its callers.
use mathlib.Core.List.{append_assoc}
use multiplexing_proxy.Prelude.{
  ℕ, zero, suc, ◌+◌, ◌^◌, ◌≤◌, ◌<◌, ◌≡◌, refl, ◌∙◌, List, [], ◌∷◌, ◌++◌, length, replicate, done,
  arith,
}
use multiplexing_proxy.ThreadProxy.Sbuf.{Sbuf}
use multiplexing_proxy.ThreadProxy.Sbuf.Calls.{
  Phase, outside, has_slot, can_put, has_put, announces, has_item, can_take, has_taken, frees,
  put_item, take_item, Callers, Step, pick, Reach, start, later,
}
use multiplexing_proxy.ThreadProxy.Sbuf.Calls.Sound.{
  reserves, returns, hides, promised, locks, tally, tally_at, IsSound, put_in, taken_out,
  put_item-done, take_item-done, Move-IsSound,
}

module _ {ℓ} {A : Type ℓ} where
  -- The shared buffer, the threads and the histories are sound together.
  record IsRun (t : Callers A) (n : ℕ) (q : List A) : Type ℓ where
    size : t.shared.n ≡ n
    order : t.inserted ≡ t.removed ++ q
    sound :
        IsSound t.shared q
          (tally reserves t.phases)
          (tally returns t.phases)
          (tally hides t.phases)
          (tally promised t.phases)
          (tally locks t.phases)

  Step-IsRun :
      {t u : Callers A} {n : ℕ} {q : List A} → Step t u → IsRun t n q → (q' : List A) × IsRun u n q'
  Step-IsRun {q = q}
        (pick before after inserted removed {sp = sp} {sp' = sp'} {p = p} {q = p'} {ins = ins}
          {outs = outs} move)
        h =
      let rest : List (Phase A) = before ++ after in
      let (q', order, same, sound) =
        Move-IsSound move q (tally reserves rest) (tally returns rest) (tally hides rest)
          (tally promised rest) (tally locks rest)
          (rw
            (
              ← tally_at reserves before after p,
              ← tally_at returns before after p,
              ← tally_at hides before after p,
              ← tally_at promised before after p,
              ← tally_at locks before after p,
            )
            h.sound) in
      (
        q',
        record {
          size = same ∙ h.size;
          order = rw (h.order, append_assoc removed q ins, order, append_assoc removed outs q');
          sound =
              rw
                (
                  tally_at reserves before after p',
                  tally_at returns before after p',
                  tally_at hides before after p',
                  tally_at promised before after p',
                  tally_at locks before after p',
                )
                sound;
        },
      )

  tally-outside : (f : Phase A → ℕ) (k : ℕ) → f outside ≡ 0 → tally f (replicate k outside) ≡ 0
  tally-outside f zero h = refl
  tally-outside f (suc k) h = omega (arith, h, tally-outside f k h)

  Reach-IsRun :
      {buf : List A} {n k : ℕ} {t : Callers A}
      → length buf ≡ n
      → 0 < n
      → Reach buf n k t
      → (q : List A) × IsRun t n q
  Reach-IsRun {k = k} whole some_room start = (
    [],
    record {
      size = refl;
      order = refl;
      sound = record {
        some_room = some_room;
        whole = whole;
        ahead = refl;
        window = tt;
        one = omega (arith, tally-outside locks k refl);
        free = omega (arith, tally-outside reserves k refl, tally-outside returns k refl);
        counted = omega (arith, tally-outside hides k refl, tally-outside promised k refl);
      };
    },
  )
  Reach-IsRun whole some_room (later r step) =
      let (q, h) = Reach-IsRun whole some_room r in Step-IsRun step h

  -- A thread with the lock can do what it is to do: the access is inside the array.
  abbrev pub Proceeds : Sbuf A → List (Phase A) → Type ℓ
  Proceeds sp [] = Unit
  Proceeds sp (can_put x ∷ ps) = ((sp' : Sbuf A) × (put_item sp x ≡ done sp')) × Proceeds sp ps
  Proceeds sp (can_take ∷ ps) =
      ((x : A) × (sp' : Sbuf A) × (take_item sp ≡ done (x, sp'))) × Proceeds sp ps
  Proceeds sp (p ∷ ps) = Proceeds sp ps

  takes :
      (sp : Sbuf A) (q : List A) {r e h d l : ℕ}
      → IsSound sp q r e h d l
      → sp.rear + 1 < 2 ^ 31
      → 0 < d
      → (x : A) × (sp' : Sbuf A) × (take_item sp ≡ done (x, sp'))
  takes sp [] s small some = absurd (omega (arith, s.counted))
  takes sp (y ∷ q) s small some = (y, taken_out sp, take_item-done sp y s small)

  proceed :
      (sp : Sbuf A) (q : List A) {r e h d l : ℕ} (ps : List (Phase A))
      → IsSound sp q r e h d l
      → sp.rear + 1 < 2 ^ 31
      → tally promised ps ≤ d
      → Proceeds sp ps
  proceed sp q [] s small le = tt
  proceed sp q (outside ∷ ps) s small le = proceed sp q ps s small (omega arith)
  proceed sp q (has_slot x ∷ ps) s small le = proceed sp q ps s small (omega arith)
  proceed sp q (can_put x ∷ ps) s small le =
      ((put_in sp x, put_item-done sp s x small), proceed sp q ps s small (omega arith))
  proceed sp q (has_put ∷ ps) s small le = proceed sp q ps s small (omega arith)
  proceed sp q (announces ∷ ps) s small le = proceed sp q ps s small (omega arith)
  proceed sp q (has_item ∷ ps) s small le = proceed sp q ps s small (omega arith)
  proceed sp q (can_take ∷ ps) s small le =
      (takes sp q s small (omega arith), proceed sp q ps s small (omega arith))
  proceed sp q (has_taken x ∷ ps) s small le = proceed sp q ps s small (omega arith)
  proceed sp q (frees x ∷ ps) s small le = proceed sp q ps s small (omega arith)

  -- However many threads call `sbuf_insert` and `sbuf_remove` on a buffer of `n` slots, and however
  -- their steps interleave, while fewer than 2^31 - 1 items have been put in: the items that
  -- were taken out are, in this order, the first of those that were put in; at most `n` are left in
  -- between; at most one thread is between its `P` and `V` of `mutex`; and each thread that is to
  -- put in or take out an item can do so without a fault.
  pub sbuf_order :
      {buf : List A} {n k : ℕ} {t : Callers A}
      → length buf ≡ n
      → 0 < n
      → Reach buf n k t
      → t.shared.rear + 1 < 2 ^ 31
      → (q : List A) × (t.inserted ≡ t.removed ++ q)
        × (length q ≤ n)
        × (tally locks t.phases ≤ 1)
        × Proceeds t.shared t.phases
  sbuf_order {t = t} whole some_room r small =
      let (q, h) = Reach-IsRun whole some_room r in
      (
        q,
        h.order,
        omega (arith, h.sound.free, h.size),
        omega (arith, h.sound.one),
        proceed t.shared q t.phases h.sound small (omega arith),
      )
