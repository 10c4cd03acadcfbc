-- ===== src/ThreadProxy/Worker/Session.antt =====
-- Rounds one after the other, on one cache: where each response comes from.
use multiplexing_proxy.Prelude.{
  ℕ, ◌≡◌, ◌⊎◌, inl, inr, refl, true, false, not, List, [], ◌∷◌, none, some, Result, done, ◌>>=◌,
  Bool, ◌&&◌, if◌then◌else◌, Ensures, Ensures->>=, Ensures-seq, Ensures-known, Ensures-value, holds,
}
use multiplexing_proxy.Memory.{Bytes, c_str, put, calloc, slice, terminated, equal}
use multiplexing_proxy.EventProxy.Request.{locate, choose_port, https}
use multiplexing_proxy.EventProxy.Wire.{assemble, codes}
use multiplexing_proxy.ThreadProxy.Store.{Store}
use multiplexing_proxy.ThreadProxy.Store.History.{
  empty_store, AllKnown, search-Ensures, replicate-AllKnown,
}
use multiplexing_proxy.ThreadProxy.Worker.{
  Round, Reply, bufmax, thread_constants, status_405, status_400, vet, answer, reply, serve,
}
use multiplexing_proxy.ThreadProxy.Worker.Origins.{
  IsPlain, Past, Answered, Origin, refused, unchanged, IsGenuine, deliver-IsGenuine,
}

-- The rounds of the loop in `thread`, on one cache.
unfoldable pub serve_all : Store → List Round → Result (List Reply)
serve_all cache [] = done []
serve_all cache (env ∷ rounds) = do
  r ← serve env cache
  replies ← serve_all r.cache rounds
  done (r ∷ replies)

abbrev pub AllPlain : List Round → Type 0
AllPlain [] = Unit
AllPlain (env ∷ rounds) = IsPlain env × AllPlain rounds

vet-Ensures :
    (buf : Bytes)
    → Ensures (λ s. (s ≡ none) ⊎ ((s ≡ some status_405) ⊎ (s ≡ some status_400))) (vet buf)
unfolding vet
vet-Ensures buf = Ensures->>= (slice buf 0 3) λ m. Ensures->>= (c_str (terminated m)) λ method.
    Ensures->>= (slice buf 4 5) λ b. Ensures->>= (c_str (terminated b)) λ scheme. holds (
      one_of
        (not (equal method (codes "GET"))
          && (not (equal method (codes "get")) && not (equal method (codes "Get"))))
        (not (equal scheme (codes "http:")) && not (equal scheme https)))
  where
    one_of :
        (p q : Bool)
        → ((if p then some status_405 else if q then some status_400 else none) ≡ none)
          ⊎ (((if p then some status_405 else if q then some status_400 else none)
                ≡ some status_405)
              ⊎ ((if p then some status_405 else if q then some status_400 else none)
                  ≡ some status_400))
    one_of true q = inr (inl refl)
    one_of false true = inr (inr refl)
    one_of false false = inl refl

answer-IsGenuine :
    (past : Past) (env : Round) (cache : Store) (buf : Bytes)
    → IsPlain env
    → put (calloc bufmax) (terminated env.request_line) ≡ done buf
    → AllKnown (Answered past) cache.entries
    → Ensures (IsGenuine past env) (answer env cache buf)
unfolding answer
answer-IsGenuine past env cache buf plain stored h = Ensures-known (locate buf) λ request located.
    Ensures-known (assemble thread_constants env.wire_stack request) λ wire assembled.
      Ensures->>= (choose_port request) λ port_number. Ensures->>= (c_str request.base_url) λ host.
        Ensures->>= (c_str port_number) λ port. Ensures-known (c_str wire) λ wanted held.
          Ensures-seq (search-Ensures (Answered past) wanted env.buf2 env.now cache.entries h)
            λ (found, entries) (known, kept).
              deliver-IsGenuine past env (record cache { entries = entries }) host port wanted wire
                found plain held (buf, wire, request, stored, located, assembled, held) known kept

serve-IsGenuine :
    (past : Past) (env : Round) (cache : Store)
    → IsPlain env
    → AllKnown (Answered past) cache.entries
    → Ensures (IsGenuine past env) (serve env cache)
unfolding serve reply
serve-IsGenuine past env cache plain h =
    Ensures-known (put (calloc bufmax) (terminated env.request_line)) λ buf stored.
      Ensures-seq (vet-Ensures buf) λ status which. elim which [
        | inl passes ↦ rw passes (answer-IsGenuine past env cache buf plain stored h)
        | inr (inl method) ↦ rw method (
            holds (
              refused refl (inl refl),
              unchanged past (record { sent = status_405; server = none; cache = cache }) h,
            ))
        | inr (inr scheme) ↦ rw scheme (
            holds (
              refused refl (inr refl),
              unchanged past (record { sent = status_400; server = none; cache = cache }) h,
            ))
      ]

-- Where each reply of a sequence of rounds comes from, the rounds before it being its past.
abbrev pub AllOrigins : Past → List Round → List Reply → Type 0
AllOrigins past [] replies = replies ≡ []
AllOrigins past (env ∷ rounds) [] = ⊥
AllOrigins past (env ∷ rounds) (r ∷ replies) =
    Origin past env r × AllOrigins ((r.server, r.sent) ∷ past) rounds replies

serve_all-AllOrigins :
    (past : Past) (cache : Store) (rounds : List Round)
    → AllPlain rounds
    → AllKnown (Answered past) cache.entries
    → Ensures (AllOrigins past rounds) (serve_all cache rounds)
unfolding serve_all
serve_all-AllOrigins past cache [] plain h = holds refl
serve_all-AllOrigins past cache (env ∷ rounds) plain h =
    Ensures-seq (serve-IsGenuine past env cache plain.0 h) λ r (origin, keeps).
      Ensures-seq (serve_all-AllOrigins ((r.server, r.sent) ∷ past) r.cache rounds plain.1 keeps)
        λ replies origins. holds (origin, origins)

-- For any rounds, one after the other, on a cache that begins empty, without a fault, where the
-- servers that are asked answer in lines that are strings and fit into `buf2`, which has less
-- than 2^32 bytes: each client gets the refusal of its request line, 405 or 400; or what the
-- proxy makes of asking a server, with the very request that its request line makes; or, without
-- a server, byte for byte what the client of an earlier round got for which a server was sent
-- that same request.
pub serve_all_genuine :
    (n : ℕ) (rounds : List Round) {replies : List Reply}
    → AllPlain rounds
    → serve_all (empty_store n) rounds ≡ done replies
    → AllOrigins [] rounds replies
serve_all_genuine n rounds plain ran =
    Ensures-value
      (serve_all-AllOrigins [] (empty_store n) rounds plain (replicate-AllKnown (Answered []) n))
      ran
