-- ===== src/ThreadProxy/Log/Lines.antt =====
-- Which lines reach the log.
use mathlib.Core.List.{map-append}
use multiplexing_proxy.Prelude.{
  ℕ, suc, ◌+◌, ◌^◌, ◌<◌, ◌≡◌, ◌≢◌, refl, sym, ap, ◌∙◌, List, [], ◌∷◌, ◌++◌, map, length, get_elem?,
  set, some, done, starved, arith, length-set, get_elem?-set_self, get_elem?-set_ne, lt→ltb,
  set_again,
}
use multiplexing_proxy.Memory.{Bytes, calloc, IsText, Holds, put-Holds, length-calloc}
use multiplexing_proxy.ThreadProxy.Sbuf.{load_elem, store_elem}
use multiplexing_proxy.ThreadProxy.Sbuf.Ring.{
  IsRing, insert-pushed, pushed, pushed-IsRing, take_log-logged, logged, logged-IsRing,
  take_log_none,
}
use multiplexing_proxy.ThreadProxy.Worker.{bufmax}
use multiplexing_proxy.ThreadProxy.Log.{Logging, Event, clears, reads, enters, logs, step, steps}

-- Entries that are waiting: a thread, and the line that it read.
abbrev pub Waiting : Type 0
Waiting = List (ℕ × Bytes)

-- The buffer of each still holds the line.
abbrev pub Hold : List Bytes → Waiting → Type 0
Hold buffers [] = Unit
Hold buffers ((i, line) ∷ waiting) =
    ((buf : Bytes) × (get_elem? buffers i ≡ some buf) × Holds buf bufmax line)
    × Hold buffers waiting

-- The thread has no entry that is waiting.
abbrev pub Idle : ℕ → Waiting → Type 0
Idle i [] = Unit
Idle i ((j, line) ∷ waiting) = (j ≢ i) × Idle i waiting

abbrev pub threads_of : Waiting → List ℕ
threads_of waiting = map (λ (e : ℕ × Bytes). e.0) waiting

length-threads_of : (waiting : Waiting) → length (threads_of waiting) ≡ length waiting
length-threads_of [] = refl
length-threads_of (e ∷ waiting) = ap suc (length-threads_of waiting)

-- The entries are those that are waiting, and fewer than 2^31 have passed.
pub record IsLogging (s : Logging) (waiting : Waiting) : Type 0 where
  pub ring : IsRing s.entries (threads_of waiting)
  pub hold : Hold s.buffers waiting
  pub small : s.entries.rear + 1 < 2 ^ 31

Hold-set :
    (buffers : List Bytes) (i : ℕ) (buf : Bytes) (waiting : Waiting)
    → Idle i waiting
    → Hold buffers waiting
    → Hold (set buffers i buf) waiting
Hold-set buffers i buf [] idle h = tt
Hold-set buffers i buf ((j, line) ∷ waiting) idle ((b, there, held), h) = (
  (b, get_elem?-set_ne buffers buf (λ e. idle.0 (sym e)) ∙ there, held),
  Hold-set buffers i buf waiting idle.1 h,
)

Hold-concat :
    (buffers : List Bytes) (waiting : Waiting) (i : ℕ) (line buf : Bytes)
    → Hold buffers waiting
    → get_elem? buffers i ≡ some buf
    → Holds buf bufmax line
    → Hold buffers (waiting ++ (i, line) ∷ [])
Hold-concat buffers [] i line buf h there held = ((buf, there, held), tt)
Hold-concat buffers (e ∷ waiting) i line buf h there held =
    (h.0, Hold-concat buffers waiting i line buf h.1 there held)

-- What a thread does with a request line, up to its log entry.
abbrev pub request : ℕ → Bytes → List Event
request i line = clears i ∷ reads i line ∷ enters i ∷ []

pub store_elem-done :
    (buffers : List Bytes) (i : ℕ) (buf : Bytes)
    → i < length buffers
    → store_elem buffers i buf ≡ done (set buffers i buf)
store_elem-done buffers i buf h = rw (lt→ltb i (length buffers) h)

pub load_elem-done {ℓ} :
    {A : Type ℓ} (buf : List A) (i : ℕ) {x : A}
    → get_elem? buf i ≡ some x
    → load_elem buf i ≡ done x
load_elem-done buf i h = rw (h, load_elem)

-- Clearing and filling a thread's buffer.
pub fills :
    (s : Logging) (i : ℕ) (line : Bytes) (events : List Event)
    → i < length s.buffers
    → IsText line
    → length line < bufmax
    → (buf : Bytes) × (steps s (clears i ∷ reads i line ∷ events)
        ≡ steps (record s { buffers = set s.buffers i buf }) events)
      × Holds buf bufmax line
unfolding steps step
fills s i line events within text fits =
    let (buf, stored, held) = put-Holds (calloc bufmax) line (length-calloc bufmax) text fits in
    (
      buf,
      rw (store_elem-done s.buffers i (calloc bufmax) within) (
          rw
            (load_elem-done (set s.buffers i (calloc bufmax)) i
              (get_elem?-set_self s.buffers i (calloc bufmax) within))
            (rw stored (
              rw
                (store_elem-done (set s.buffers i (calloc bufmax)) i buf
                  (omega (arith, length-set s.buffers i (calloc bufmax))))
                (rw (set_again s.buffers i (calloc bufmax) buf))))),
      held,
    )

-- The state with another entry.
entered :
    (s : Logging) (waiting : Waiting) (i : ℕ) (line : Bytes)
    → IsLogging s waiting
    → Idle i waiting
    → i < length s.buffers
    → length waiting < s.entries.n
    → 0 < s.entries.slots
    → s.entries.rear + 2 < 2 ^ 31
    → IsText line
    → length line < bufmax
    → (t : Logging) × (steps s (request i line) ≡ done t)
      × IsLogging t (waiting ++ (i, line) ∷ [])
      × (t.file ≡ s.file)
unfolding steps step
entered s waiting i line h idle within room free small text fits =
    let (buf, ran, held) = fills s i line (enters i ∷ []) within text fits in
    (
      record s { buffers = set s.buffers i buf; entries = pushed s.entries i },
      ran ∙ rw (insert-pushed s.entries i h.ring free h.small),
      record {
        ring =
            rw named (pushed-IsRing s.entries i h.ring (omega (arith, length-threads_of waiting)));
        hold =
            Hold-concat (set s.buffers i buf) waiting i line buf
              (Hold-set s.buffers i buf waiting idle h.hold)
              (get_elem?-set_self s.buffers i buf within) held;
        small = omega arith;
      },
      refl,
    )
  where
    named : threads_of (waiting ++ (i, line) ∷ []) ≡ threads_of waiting ++ i ∷ []
    named = map-append (λ (e : ℕ × Bytes). e.0) waiting ((i, line) ∷ [])

-- One round of `logThread`: the oldest line that is waiting goes to the file, or it waits.
abbrev pub LogsNext : Logging → Waiting → Type 0
LogsNext s [] = step s logs ≡ starved
LogsNext s ((i, line) ∷ waiting) =
    (t : Logging) × (step s logs ≡ done t) × IsLogging t waiting × (t.file ≡ s.file ++ line)

log_next : (s : Logging) (waiting : Waiting) → IsLogging s waiting → LogsNext s waiting
unfolding step
log_next s [] h = rw (take_log_none s.entries h.ring)
log_next s ((i, line) ∷ waiting) h =
    let (buf, there, held) = h.hold.0 in
    (
      record s { entries = logged s.entries; file = s.file ++ line },
      rw (take_log-logged s.entries i (threads_of waiting) h.ring h.small)
          (rw (load_elem-done s.buffers i there) (rw held.text)),
      record {
        ring = logged-IsRing s.entries i (threads_of waiting) h.ring;
        hold = h.hold.1;
        small = h.small;
      },
      refl,
    )

-- While each thread has at most one entry that is waiting, and fewer than 2^31 - 2 have been
-- entered, the buffers and the entries together are a queue of lines: a thread that has no entry
-- there, with room in the array and a free slot counted, adds its line, a string that fits in its
-- buffer, behind the others and changes nothing in the file; a round of logThread writes the
-- oldest line, as it was read, or waits if there is none.
pub log_refines :
    (s : Logging) (waiting : Waiting) (i : ℕ) (line : Bytes)
    → IsLogging s waiting
    → Idle i waiting
    → i < length s.buffers
    → length waiting < s.entries.n
    → 0 < s.entries.slots
    → s.entries.rear + 2 < 2 ^ 31
    → IsText line
    → length line < bufmax
    → ((t : Logging) × (steps s (request i line) ≡ done t)
        × IsLogging t (waiting ++ (i, line) ∷ [])
        × (t.file ≡ s.file))
      × LogsNext s waiting
log_refines s waiting i line h idle within room free small text fits =
    (entered s waiting i line h idle within room free small text fits, log_next s waiting h)
