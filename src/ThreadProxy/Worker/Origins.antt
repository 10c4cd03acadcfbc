-- ===== src/ThreadProxy/Worker/Origins.antt =====
-- Where a reply of `thread` comes from: a refusal, a server, or the cache.
use multiplexing_proxy.Prelude.{
  ℕ, ◌^◌, ◌<◌, ◌≡◌, ◌⊎◌, inl, inr, refl, sym, ap, ◌∙◌, List, [], ◌∷◌, ◌++◌, length, Option, none,
  some, done, Bool-cases, done-injective, Ensures, Ensures-map, Ensures-seq, holds,
}
use multiplexing_proxy.Memory.{Bytes, c_str, put, calloc, terminated}
use multiplexing_proxy.EventProxy.Request.{Request, locate}
use multiplexing_proxy.EventProxy.Wire.{assemble}
use multiplexing_proxy.ThreadProxy.Store.{Entry, Store}
use multiplexing_proxy.ThreadProxy.Store.History.{AllKnown, KnownResult, store-Ensures}
use multiplexing_proxy.ThreadProxy.Relay.{Line, nothing}
use multiplexing_proxy.ThreadProxy.Relay.Copies.{AllText, all_bytes}
use multiplexing_proxy.ThreadProxy.Worker.{
  Round, Reply, bufmax, thread_constants, status_405, status_400, status_404, status_500, fetch,
  deliver,
}
use multiplexing_proxy.ThreadProxy.Worker.Replies.{fetch_relays}

-- A server that answers in lines that are strings and fit into `buf2`, to its end.
pub record IsPlain (env : Round) : Type 0 where
  pub lines : List Line
  pub later : List Line
  pub given : env.lines ≡ lines ++ nothing ∷ later
  pub small : length env.buf2 < 2 ^ 32
  pub text : AllText (length env.buf2) lines

-- What rounds have done: the server that was asked, if one was, with the request, and what the
-- client got.
abbrev pub Past : Type 0
Past = List (Option (Bytes × Bytes × Bytes) × Bytes)

-- In one of them, a server was sent this request, and the client got this text.
abbrev pub Answered : Past → Bytes → Bytes → Type 0
Answered [] wire text = ⊥
Answered ((server, sent) ∷ past) wire text =
    ((host port : Bytes) × (server ≡ some (host, port, wire)) × (sent ≡ text))
    ⊎ Answered past wire text

-- The request that a round would send to a server.
abbrev pub Asks : Round → Bytes → Type 0
Asks env wire =
    (buf object : Bytes) × (request : Request) × (put (calloc bufmax) (terminated env.request_line)
      ≡ done buf)
    × (locate buf ≡ done request)
    × (assemble thread_constants env.wire_stack request ≡ done object)
    × (c_str object ≡ done wire)

-- Where a reply comes from.
pub data Origin (past : Past) (env : Round) (r : Reply) : Type 0 where
  refused : r.server ≡ none → (r.sent ≡ status_405) ⊎ (r.sent ≡ status_400) → Origin past env r
  asked :
      (host port wire : Bytes)
      → Asks env wire
      → r.server ≡ some (host, port, wire)
      → Origin past env r
  cached :
      (wire : Bytes)
      → Asks env wire
      → r.server ≡ none
      → Answered past wire r.sent
      → Origin past env r

AllKnown-map :
    (G H : Bytes → Bytes → Type 0) (entries : List (Option Entry))
    → ((wire text : Bytes) → G wire text → H wire text)
    → AllKnown G entries
    → AllKnown H entries
AllKnown-map G H [] f h = tt
AllKnown-map G H (none ∷ entries) f h = AllKnown-map G H entries f h
AllKnown-map G H (some e ∷ entries) f ((wire, text, known, for), h) =
    ((wire, text, f wire text known, for), AllKnown-map G H entries f h)

-- The cache behind a round.
abbrev pub Keeps : Past → Reply → Type 0
Keeps past r = AllKnown (Answered ((r.server, r.sent) ∷ past)) r.cache.entries

pub unchanged : (past : Past) (r : Reply) → AllKnown (Answered past) r.cache.entries → Keeps past r
unchanged past r h =
    AllKnown-map (Answered past) (Answered ((r.server, r.sent) ∷ past)) r.cache.entries
      (λ wire text k. inr k) h

fetch-Keeps :
    (past : Past) (env : Round) (cache : Store) (host port wanted wire : Bytes)
    → IsPlain env
    → c_str wire ≡ done wanted
    → AllKnown (Answered past) cache.entries
    → Ensures
        (λ r. (r.server ≡ some (host, port, wanted)) × Keeps past r)
        (fetch env cache (host, port, wanted) wire)
fetch-Keeps past env cache host port wanted wire plain held h = elim (Bool-cases env.server_opens) [
  | inr closed ↦ unfold fetch in rw closed (holds (refl, unchanged past (kept status_404) h))
  | inl opens ↦ elim (Bool-cases env.server_takes) [
    | inr drops ↦
        unfold fetch in rw (opens, drops) (holds (refl, unchanged past (kept status_500) h))
    | inl takes ↦
        elim (fetch_relays env cache (host, port, wanted) wire plain.lines plain.later opens takes
          plain.given plain.small plain.text) [
            | inl (over, ran) ↦
                rw ran (holds (refl, unchanged past (kept (all_bytes plain.lines)) h))
            | inr (below, copy, whole, ran) ↦ rw ran (
                Ensures-seq
                  (store-Ensures
                    (Answered ((some (host, port, wanted), all_bytes plain.lines) ∷ past)) env.blank
                    copy wire env.now
                    (λ w t q q'. inl (
                      host,
                      port,
                      ap (λ x. some (host, port, x)) (done-injective (sym held ∙ q)),
                      done-injective (sym whole.text ∙ q'),
                    ))
                    cache
                    (AllKnown-map (Answered past)
                      (Answered ((some (host, port, wanted), all_bytes plain.lines) ∷ past))
                      cache.entries (λ w t k. inr k) h))
                  λ stored k. holds (refl, k))
          ]
  ]
]
  where
    kept : Bytes → Reply
    kept sent = record { sent = sent; server = some (host, port, wanted); cache = cache }

-- What is known of a round's reply and of the cache behind it.
abbrev pub IsGenuine : Past → Round → Reply → Type 0
IsGenuine past env r = Origin past env r × Keeps past r

pub deliver-IsGenuine :
    (past : Past) (env : Round) (cache : Store) (host port wanted wire : Bytes)
    (found : Option (ℕ × Bytes))
    → IsPlain env
    → c_str wire ≡ done wanted
    → Asks env wanted
    → KnownResult (Answered past) wanted found
    → AllKnown (Answered past) cache.entries
    → Ensures (IsGenuine past env) (deliver env cache (host, port, wanted) wire found)
unfolding deliver
deliver-IsGenuine past env cache host port wanted wire none plain held asks known h =
    Ensures-map (λ r (server, keeps). (asked host port wanted asks server, keeps))
      (fetch-Keeps past env cache host port wanted wire plain held h)
deliver-IsGenuine past env cache host port wanted wire (some (size, copy)) plain held asks
      (text, known, whole) h =
    rw whole (
      holds (
        cached wanted asks refl known,
        unchanged past (record { sent = text; server = none; cache = cache }) h,
      ))
