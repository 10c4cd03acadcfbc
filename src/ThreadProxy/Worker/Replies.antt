-- ===== src/ThreadProxy/Worker/Replies.antt =====
-- What the client gets from one round of `thread`.
use mathlib.Core.List.{append_assoc}
use multiplexing_proxy.Prelude.{
  ℕ, zero, suc, take, ◌+◌, ◌-◌, ◌≤◌, ◌<◌, ◌^◌, ◌≡◌, refl, sym, ap, ◌∙◌, Bool, true, false, ◌&&◌,
  ◌||◌, List, [], ◌∷◌, ◌++◌, length, drop, Option, none, some, done, ◌>>=◌, if◌then◌else◌, arith,
  length-append, ◌⊎◌, inl, inr, Bool-cases,
}
use multiplexing_proxy.Memory.{
  Bytes, c_str, slice, calloc, equal, terminated, IsText, c_str-append, length-calloc, calloc-Holds,
  Holds,
}
use multiplexing_proxy.EventProxy.Read.Pieces.{padded, put-padded}
use multiplexing_proxy.EventProxy.Request.{https}
use multiplexing_proxy.EventProxy.Request.Locate.{slice_at}
use multiplexing_proxy.EventProxy.Wire.{codes}
use multiplexing_proxy.ThreadProxy.Store.{Store, store, max_object_size}
use multiplexing_proxy.ThreadProxy.Relay.{Line, nothing}
use multiplexing_proxy.ThreadProxy.Relay.Copies.{AllText, all_bytes, relay_copies}
use multiplexing_proxy.ThreadProxy.Worker.{
  Round, vet, fetch, reply, serve, bufmax, status_405, status_400,
}

-- The method and the scheme that the proxy takes.
abbrev pub takes_method : Bytes → Bool
takes_method m = equal m (codes "GET") || (equal m (codes "get") || equal m (codes "Get"))

abbrev pub takes_scheme : Bytes → Bool
takes_scheme s = equal s (codes "http:") || equal s https

-- The status for a request line that begins with this method and this scheme.
abbrev pub refusal : Bytes → Bytes → Option Bytes
refusal method scheme =
    if takes_method method
    then (if takes_scheme scheme then none else some status_400)
    else some status_405

pub vet_lem :
    (method scheme rest : Bytes) (c : ℕ)
    → length method ≡ 3
    → length scheme ≡ 5
    → IsText method
    → IsText scheme
    → vet (method ++ c ∷ (scheme ++ rest)) ≡ done (refusal method scheme)
unfolding vet
vet_lem method scheme rest c three five okm oks =
    rw (slice_at [] method (c ∷ (scheme ++ rest)) 0 3 refl (sym three))
      (rw (c_str-append method [] okm) (rw second (rw (c_str-append scheme [] oks) (ground arith))))
  where
    second : slice (method ++ c ∷ (scheme ++ rest)) 4 5 ≡ done scheme
    second =
        ap (λ b. slice b 4 5) (sym (append_assoc method (c ∷ []) (scheme ++ rest)))
        ∙ slice_at (method ++ c ∷ []) scheme rest 4 5 (omega (arith, length-append method (c ∷ [])))
            (sym five)

refusal_lem :
    (method scheme : Bytes)
    → (takes_method method && takes_scheme scheme) ≡ false
    → refusal method scheme ≡ some (if takes_method method then status_400 else status_405)
refusal_lem method scheme h = elim (Bool-cases (takes_method method)) [
  | inl good ↦ rw good (rw (rw good at h))
  | inr bad ↦ rw bad
]

-- The string at the front of some bytes: what stands before the first NUL.
abbrev pub front_text : Bytes → Bytes
front_text [] = []
front_text (zero ∷ s) = []
front_text (suc c ∷ s) = suc c ∷ front_text s

c_str-front_text : (s : Bytes) → c_str (terminated s) ≡ done (front_text s)
unfolding c_str
c_str-front_text [] = refl
c_str-front_text (zero ∷ s) = refl
c_str-front_text (suc c ∷ s) = rw (c_str-front_text s) (ground arith)

-- The NULs behind a text add nothing to a piece of it.
front_text-calloc : (n i k : ℕ) → front_text (take n (drop i (calloc k))) ≡ []
unfolding calloc
front_text-calloc zero i k = refl
front_text-calloc (suc n) zero zero = refl
front_text-calloc (suc n) zero (suc k) = refl
front_text-calloc (suc n) (suc i) zero = refl
front_text-calloc (suc n) (suc i) (suc k) = front_text-calloc (suc n) i k

front_text-none : (n i : ℕ) → front_text (take n (drop i [])) ≡ []
front_text-none zero i = refl
front_text-none (suc n) zero = refl
front_text-none (suc n) (suc i) = refl

front_text-padded :
    (s : Bytes) (n i k : ℕ)
    → front_text (take n (drop i (s ++ calloc k))) ≡ front_text (take n (drop i s))
front_text-padded [] n i k = front_text-calloc n i k ∙ sym (front_text-none n i)
front_text-padded (c ∷ s) zero zero k = refl
front_text-padded (zero ∷ s) (suc n) zero k = refl
front_text-padded (suc c ∷ s) (suc n) zero k = ap (◌∷◌ (suc c)) (front_text-padded s n 0 k)
front_text-padded (c ∷ s) n (suc i) k = front_text-padded s n i k

-- The method and the scheme of a request line, wherever it ends.
abbrev pub method_of : Bytes → Bytes
method_of request_line = front_text (take 3 request_line)

abbrev pub scheme_of : Bytes → Bytes
scheme_of request_line = front_text (take 5 (drop 4 request_line))

-- The first nine bytes of the buffer that holds it.
piece_lem :
    (request_line : Bytes) (i n : ℕ)
    → length request_line < bufmax
    → i + n ≤ bufmax
    → slice (padded bufmax request_line) i n ≡ done (take n (drop i (padded bufmax request_line)))
unfolding slice
piece_lem request_line i n short inside = ground (
  arith,
  length-append request_line (calloc (bufmax - length request_line)),
  length-calloc (bufmax - length request_line),
)

vet_line :
    (request_line : Bytes)
    → length request_line < bufmax
    → vet (padded bufmax request_line)
      ≡ done (refusal (method_of request_line) (scheme_of request_line))
unfolding vet
vet_line request_line short = rw (piece_lem request_line 0 3 short (omega arith)) (
    rw (c_str-front_text (take 3 (padded bufmax request_line))) (
      rw (piece_lem request_line 4 5 short (omega arith)) (
        rw (c_str-front_text (take 5 (drop 4 (padded bufmax request_line)))) (
          rw
            (
              front_text-padded request_line 3 0 (bufmax - length request_line),
              front_text-padded request_line 5 4 (bufmax - length request_line),
            )
            (ground arith)))))

-- A request line of any length below BUFMAX, also an empty one, that does not have a method and a
-- scheme that the proxy takes (the string in its first three bytes, and the one in the five behind
-- the fourth) is answered with exactly one status line, 405 for the method and otherwise 400 for the
-- scheme; no server is asked, and the cache stays as it is.
pub serve_refuses :
    (env : Round) (cache : Store)
    → length env.request_line < bufmax
    → (takes_method (method_of env.request_line) && takes_scheme (scheme_of env.request_line))
      ≡ false
    → serve env cache
      ≡ done (record {
        sent = if takes_method (method_of env.request_line) then status_400 else status_405;
        server = none;
        cache = cache;
      })
unfolding serve reply
serve_refuses env cache short refused = rw (put-padded env.request_line bufmax short) (
    rw (vet_line env.request_line short)
      (rw (refusal_lem (method_of env.request_line) (scheme_of env.request_line) refused)))

-- The response of a server that takes the request, in lines that are strings and fit into `buf2`,
-- goes to the client byte for byte. If it is not smaller than MAX_OBJECT_SIZE, the cache stays as
-- it is; if it is smaller, the cache is what storing an object that holds exactly it gives.
pub fetch_relays :
    (env : Round) (cache : Store) (target : Bytes × Bytes × Bytes) (wire : Bytes)
    (lines later : List Line)
    → env.server_opens ≡ true
    → env.server_takes ≡ true
    → env.lines ≡ lines ++ nothing ∷ later
    → length env.buf2 < 2 ^ 32
    → AllText (length env.buf2) lines
    → ((max_object_size ≤ length (all_bytes lines))
        × (fetch env cache target wire
            ≡ done (record { sent = all_bytes lines; server = some target; cache = cache })))
      ⊎ ((length (all_bytes lines) < max_object_size)
          × (copy : Bytes) × Holds copy max_object_size (all_bytes lines)
          × (fetch env cache target wire ≡ (
              store cache env.blank copy wire env.now >>= λ stored.
              done (record { sent = all_bytes lines; server = some target; cache = stored }))))
unfolding fetch
fetch_relays env cache target wire lines later opens takes given small ok =
    let (t, ran, sent, kept) =
      relay_copies env.buf2 lines later (calloc max_object_size) small ok
        (calloc-Holds max_object_size (omega arith)) in
    elim kept [
      | inl (below, fits, held) ↦
          inr (below, t.cache_data, held, rw (opens, takes, given) (rw ran (rw (fits, sent))))
      | inr (over, big) ↦ inl (over, rw (opens, takes, given) (rw ran (rw (big, sent))))
    ]
