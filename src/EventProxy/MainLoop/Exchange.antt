-- ===== src/EventProxy/MainLoop/Exchange.antt =====
-- Four turns of the loop that carry one request to a server and its response back.
use mathlib.Core.List.{append_assoc}
use multiplexing_proxy.Prelude.{
  ℕ, ◌^◌, ◌<◌, ◌≡◌, refl, ◌∙◌, true, false, List, [], ◌∷◌, ◌++◌, length, get_elem?, set, some, none,
  done, ℤ, pos, minus_one, arith, set_again, get_elem?-set_self, get_elem?-bound,
}
use multiplexing_proxy.Memory.{Bytes}
use multiplexing_proxy.Platform.{Platform}
use multiplexing_proxy.EventProxy.Action.{
  Callback, null, block, EventAction, reading, writing, Call, free_event_action, free_pointer,
}
use multiplexing_proxy.EventProxy.Read.{Read}
use multiplexing_proxy.EventProxy.Srvread.{srvread_first_read}
use multiplexing_proxy.EventProxy.Cache.{IsEmpty}
use multiplexing_proxy.EventProxy.Clread.{Address}
use multiplexing_proxy.EventProxy.Clread.Whole.{
  request_text, server_text, IsRequest, Connects, ready_to_send, turns_to_server, clread_sends,
}
use multiplexing_proxy.EventProxy.MainLoop.{World, Slot, turn, run, call_back}
use multiplexing_proxy.EventProxy.MainLoop.Events.{turn_keeps, turn_drops}
use multiplexing_proxy.EventProxy.MainLoop.Parties.{
  Delivers, TakesRequest, Responds, TakesResponse, srvwrite_all, clwrite_all,
}

-- An event without an error for the action at `i`.
abbrev pub Targets : Slot → ℕ → Type 0
Targets slot i = (slot.target ≡ some i) × (slot.error ≡ false)

-- The world after the first callbacks: the action is `a`.
abbrev with_action : World → ℕ → EventAction → List Call → List Bytes → World
with_action w i a calls sent = record {
  heap = set w.heap i (some a);
  cache = w.cache;
  calls = w.calls ++ calls;
  sent = w.sent ++ sent;
}

-- One more turn of a connection.
turn_goes :
    (os : Platform) (w : World) (slot : Slot) (i : ℕ) {a₀ : EventAction} (a b : EventAction)
    (made more : List Call) (out : List Bytes) {sent : Bytes}
    → get_elem? w.heap i ≡ some (some a₀)
    → Targets slot i
    → call_back os slot.answers a.callback a w.cache
      ≡ done (record {
        handled = record { action = b; ends = false; calls = more; spawned = []; sent = sent };
        cache = w.cache;
      })
    → turn os (with_action w i a made out) (pos 1) (slot ∷ [])
      ≡ done (with_action w i b (made ++ more) (out ++ sent ∷ []))
turn_goes os w slot i a b made more out {sent} there (target, fine) ran =
    turn_keeps os (with_action w i a made out) slot
      (record {
        target = target;
        fine = fine;
        there = get_elem?-set_self w.heap i (some a) (get_elem?-bound w.heap i there);
      })
      ran refl refl
    ∙ simp (
      set_again w.heap i (some a) (some b),
      append_assoc w.calls made more,
      append_assoc w.sent out (sent ∷ []),
    )

-- The last turn.
turn_ends :
    (os : Platform) (w : World) (slot : Slot) (i : ℕ) {a₀ : EventAction} (a b : EventAction)
    (made freed : List Call) (out : List Bytes) {sent : Bytes}
    → get_elem? w.heap i ≡ some (some a₀)
    → Targets slot i
    → call_back os slot.answers a.callback a w.cache
      ≡ done (record {
        handled = record { action = b; ends = true; calls = []; spawned = []; sent = sent };
        cache = w.cache;
      })
    → free_event_action b ≡ done freed
    → turn os (with_action w i a made out) (pos 1) (slot ∷ [])
      ≡ done (record {
        heap = set w.heap i none;
        cache = w.cache;
        calls = w.calls ++ (made ++ freed);
        sent = w.sent ++ (out ++ sent ∷ []);
      })
turn_ends os w slot i a b made freed out {sent} there (target, fine) ran released =
    turn_drops os (with_action w i a made out) slot
      (record {
        target = target;
        fine = fine;
        there = get_elem?-set_self w.heap i (some a) (get_elem?-bound w.heap i there);
      })
      ran refl refl released
    ∙ simp (
      set_again w.heap i (some a) none,
      append_assoc w.calls made freed,
      append_assoc w.sent out (sent ∷ []),
    )

run_four :
    (os : Platform) (w : World) {w₁ w₂ w₃ w₄ : World} (n₁ n₂ n₃ n₄ : ℤ) (l₁ l₂ l₃ l₄ : List Slot)
    → turn os w n₁ l₁ ≡ done w₁
    → turn os w₁ n₂ l₂ ≡ done w₂
    → turn os w₂ n₃ l₃ ≡ done w₃
    → turn os w₃ n₄ l₄ ≡ done w₄
    → run os w ((n₁, l₁) ∷ (n₂, l₂) ∷ (n₃, l₃) ∷ (n₄, l₄) ∷ []) ≡ done w₄
unfolding run
run_four os w n₁ n₂ n₃ n₄ l₁ l₂ l₃ l₄ first second third fourth =
    rw first (rw second (rw third (rw fourth)))

module _ {a b c d : ℕ} {host target : Bytes} {x : ℕ} {headers : Bytes}
    (request : IsRequest a b c d host target x headers) where
  abbrev asked : Bytes
  asked = request_text a b c d host target x headers

  abbrev wire : Bytes
  wire = server_text host target headers

  -- For a new connection, at i, where the client sends a whole request with an http URL without a
  -- port, of a size that the code's objects have room for; where the server resolves and some
  -- address of it connects, and its response has a blank line and no NUL byte and is shorter than
  -- BUFMAX; where each of the two, the request without a NUL byte too, comes in one read that fits
  -- in tempBuf, with a NUL behind it, and both sides take all that they are sent; where the calls
  -- on descriptors work, the cache is empty, and malloc gives more than the length of the request
  -- to the server and less than 2^64 bytes: four turns of the loop carry out the exchange. In the
  -- first and the third turn nothing is sent; in the second the server gets the request, and in
  -- the last the client gets the bytes of the response. Then the action is gone from the heap, its
  -- buffer, its request and the descriptors are released, though the server's field is -1 by then
  -- and close is called on it, and the cache stays as it was.
  pub run_exchange :
      (os : Platform) (w : World) (i : ℕ) (act : EventAction) (s₁ s₂ s₃ s₄ : Slot)
      {tried later : List Address} {fd : ℤ} (more : List Read) (e : ℕ) (es : Bytes)
      (behind : List Read)
      → get_elem? w.heap i ≡ some (some act)
      → act.callback ≡ Callback.clread
      → act.url ≡ null
      → act.total_bytes_passed ≡ 0
      → IsEmpty w.cache
      → length wire < length (os.malloc (length wire))
      → length (os.malloc (length wire)) < 2 ^ 64
      → Targets s₁ i × Targets s₂ i × Targets s₃ i × Targets s₄ i
      → Delivers s₁.answers asked more
      → Connects s₁.answers.client tried later fd
      → TakesRequest s₂.answers.server (length wire)
      → Responds s₃.answers e es behind
      → TakesResponse s₄.answers (length (e ∷ es))
      → (url copy buffer : Bytes) × (run os w
            ((pos 1, s₁ ∷ []) ∷ (pos 1, s₂ ∷ []) ∷ (pos 1, s₃ ∷ []) ∷ (pos 1, s₄ ∷ []) ∷ [])
          ≡ done (record {
            heap = set w.heap i none;
            cache = w.cache;
            calls =
                w.calls
                ++ (turns_to_server asked host tried fd act.clientfd
                    ++ (Call.free copy ∷ Call.epoll_del fd ∷ Call.epoll_add fd reading ∷ [])
                    ++ (Call.close fd ∷ Call.epoll_add act.clientfd writing ∷ [])
                    ++ (Call.close act.clientfd
                        ∷ Call.close minus_one
                        ∷ Call.free buffer
                        ∷ Call.free url
                        ∷ Call.free_action
                        ∷ []));
            sent = w.sent ++ ([] ∷ wire ∷ [] ∷ (e ∷ es) ∷ []);
          }))
  unfolding call_back free_event_action free_pointer
  run_exchange os w i act s₁ s₂ s₃ s₄ {tried} {fd = fd} more e es behind there reads new start empty
        room small (t₁, t₂, t₃, t₄) delivers connects takes responds ends =
      let (url, copy, ran₁, held, _) =
        clread_sends request os s₁.answers.client connects s₁.answers.stack w.cache act more
          delivers.reads delivers.room delivers.nul new start empty room in
      let a₁ = ready_to_send act fd url copy wire in
      let ran₂ =
        srvwrite_all os s₂.answers.server a₁ copy wire refl refl refl held
          (omega (arith, held.size)) takes in
      let a₂ : EventAction = record a₁ {
        data_buf = null;
        total_data_size = 0;
        total_bytes_passed = 0;
        callback = Callback.srvread;
      } in
      let (buffer, ran₃, kept) =
        srvread_first_read os s₃.answers.temp e es behind s₃.answers.added a₂ refl refl
          responds.text responds.room responds.fits responds.nul responds.whole in
      let a₃ : EventAction = record a₁ {
        serverfd = minus_one;
        total_data_size = length (e ∷ es);
        total_bytes_passed = 0;
        data_buf = block buffer;
        callback = Callback.clwrite;
      } in
      let ran₄ =
        clwrite_all os s₄.answers a₃ buffer (e ∷ es) refl refl refl kept (omega (arith, kept.size))
          ends in
      let first : List Call = turns_to_server asked host tried fd act.clientfd in
      (
        url,
        copy,
        buffer,
        run_four os w (pos 1) (pos 1) (pos 1) (pos 1) (s₁ ∷ []) (s₂ ∷ []) (s₃ ∷ []) (s₄ ∷ [])
            (turn_keeps os w s₁ {a = act} (record { target = t₁.0; fine = t₁.1; there = there })
              (simp reads ran₁) refl refl)
            (turn_goes os w s₂ i a₁ a₂ first
              (Call.free copy ∷ Call.epoll_del fd ∷ Call.epoll_add fd reading ∷ []) ([] ∷ [])
              {sent = wire} there t₂ (rw ran₂ refl))
            (turn_goes os w s₃ i a₂ a₃ _ (Call.close fd ∷ Call.epoll_add act.clientfd writing ∷ [])
              ([] ∷ wire ∷ []) {sent = []} there t₃
              (rw responds.reads (rw ran₃ (rw responds.registered refl))))
            (turn_ends os w s₄ i a₃ (record a₃ { total_bytes_passed = length (e ∷ es) }) _
              (Call.close act.clientfd
                ∷ Call.close minus_one
                ∷ Call.free buffer
                ∷ Call.free url
                ∷ Call.free_action
                ∷ [])
              ([] ∷ wire ∷ [] ∷ []) {sent = e ∷ es} there t₄ (rw ran₄ refl) refl),
      )
