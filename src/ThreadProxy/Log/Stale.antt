-- ===== src/ThreadProxy/Log/Stale.antt =====
-- The log when `logThread` is late: a thread that has gone on to its next round.
use mathlib.Core.List.{append-nil}
use multiplexing_proxy.Prelude.{
  ℕ, ◌+◌, ◌^◌, ◌<◌, ◌≡◌, refl, ◌∙◌, List, [], ◌∷◌, ◌++◌, length, get_elem?, set, some, done, arith,
  length-set, get_elem?-set_self,
}
use multiplexing_proxy.Memory.{Bytes, c_str, calloc, IsText, calloc-Holds}
use multiplexing_proxy.ThreadProxy.Sbuf.Ring.{
  IsRing, insert-pushed, pushed, pushed-IsRing, take_log-logged, logged, logged-IsRing,
}
use multiplexing_proxy.ThreadProxy.Worker.{bufmax}
use multiplexing_proxy.ThreadProxy.Log.{Logging, Event, clears, enters, logs, step, steps}
use multiplexing_proxy.ThreadProxy.Log.Lines.{
  IsLogging, request, store_elem-done, load_elem-done, fills,
}

-- Single steps, in front of others.
enters-steps :
    (s : Logging) (i : ℕ) (events : List Event) {q : List ℕ}
    → IsRing s.entries q
    → 0 < s.entries.slots
    → s.entries.rear + 1 < 2 ^ 31
    → steps s (enters i ∷ events) ≡ steps (record s { entries = pushed s.entries i }) events
unfolding steps step
enters-steps s i events h free small = rw (insert-pushed s.entries i h free small)

clears-steps :
    (s : Logging) (i : ℕ) (events : List Event)
    → i < length s.buffers
    → steps s (clears i ∷ events)
      ≡ steps (record s { buffers = set s.buffers i (calloc bufmax) }) events
unfolding steps step
clears-steps s i events within = rw (store_elem-done s.buffers i (calloc bufmax) within)

logs-steps :
    (s : Logging) (i : ℕ) (r : List ℕ) (buf line : Bytes) (events : List Event)
    → IsRing s.entries (i ∷ r)
    → s.entries.rear + 1 < 2 ^ 31
    → get_elem? s.buffers i ≡ some buf
    → c_str buf ≡ done line
    → steps s (logs ∷ events)
      ≡ steps (record s { entries = logged s.entries; file = s.file ++ line }) events
unfolding steps step
logs-steps s i r buf line events h small there text =
    rw (take_log-logged s.entries i r h small) (rw (load_elem-done s.buffers i there) (rw text))

steps-end : (s : Logging) → steps s [] ≡ done s
unfolding steps
steps-end s = refl

-- Where no entry waits, fewer than 2^31 - 3 have been entered and two slots are free, and a
-- thread enters a line and begins its next round before logThread runs, both lines being strings
-- that fit in its buffer: the first line is not in the file. If the buffer is only cleared by
-- then, nothing is written for it; if the next line is read and entered by then, that line is
-- written twice.
pub log_stale :
    (s : Logging) (i : ℕ) (line next : Bytes)
    → IsLogging s []
    → i < length s.buffers
    → 1 < s.entries.n
    → 1 < s.entries.slots
    → s.entries.rear + 3 < 2 ^ 31
    → IsText line
    → length line < bufmax
    → IsText next
    → length next < bufmax
    → ((t : Logging) × (steps s (request i line ++ clears i ∷ logs ∷ []) ≡ done t)
        × (t.file ≡ s.file))
      × ((t : Logging) × (steps s (request i line ++ request i next ++ logs ∷ logs ∷ []) ≡ done t)
          × (t.file ≡ s.file ++ next ++ next))
log_stale s i line next h within room free small text fits text' fits' =
    let (buf, ran, held) = fills s i line (enters i ∷ clears i ∷ logs ∷ []) within text fits in
    let (buf₁, ran₁, _) =
      fills s i line (enters i ∷ (request i next ++ logs ∷ logs ∷ [])) within text fits in
    let entries₁ = pushed s.entries i in
    let ring₁ = pushed-IsRing s.entries i h.ring (omega arith) in
    let s₁ : Logging = record s { buffers = set s.buffers i buf; entries = entries₁ } in
    let t₁ : Logging = record s { buffers = set s.buffers i buf₁; entries = entries₁ } in
    let (buf₂, ran₂, held₂) =
      fills t₁ i next (enters i ∷ logs ∷ logs ∷ []) (omega (arith, length-set s.buffers i buf₁))
        text' fits' in
    let u : Logging = record t₁ { buffers = set t₁.buffers i buf₂ } in
    let u₁ : Logging = record u { entries = pushed entries₁ i } in
    let u₂ : Logging = record u₁ { entries = logged u₁.entries; file = s.file ++ next } in
    let ring₂ = pushed-IsRing entries₁ i ring₁ (omega arith) in
    let there : get_elem? u.buffers i ≡ some buf₂ =
      get_elem?-set_self t₁.buffers i buf₂ (omega (arith, length-set s.buffers i buf₁)) in
    (
      (
        _,
        ran
            ∙ enters-steps (record s { buffers = set s.buffers i buf }) i (clears i ∷ logs ∷ [])
                h.ring (omega arith) (omega arith)
            ∙ clears-steps s₁ i (logs ∷ []) (omega (arith, length-set s.buffers i buf))
            ∙ logs-steps (record s₁ { buffers = set s₁.buffers i (calloc bufmax) }) i []
                (calloc bufmax) [] [] ring₁ (omega arith)
                (get_elem?-set_self s₁.buffers i (calloc bufmax)
                  (omega (arith, length-set s.buffers i buf)))
                (calloc-Holds bufmax (omega arith)).text
            ∙ steps-end _,
        append-nil s.file,
      ),
      (
        _,
        ran₁
            ∙ enters-steps (record s { buffers = set s.buffers i buf₁ }) i
                (request i next ++ logs ∷ logs ∷ []) h.ring (omega arith) (omega arith)
            ∙ ran₂
            ∙ enters-steps u i (logs ∷ logs ∷ []) ring₁ (omega arith) (omega arith)
            ∙ logs-steps u₁ i (i ∷ []) buf₂ next (logs ∷ []) ring₂ (omega arith) there held₂.text
            ∙ logs-steps u₂ i [] buf₂ next [] (logged-IsRing u₁.entries i (i ∷ []) ring₂)
                (omega arith) there held₂.text
            ∙ steps-end _,
        refl,
      ),
    )
