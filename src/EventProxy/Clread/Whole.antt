-- ===== src/EventProxy/Clread/Whole.antt =====
-- `clread` on a request that one read delivers whole: from the bytes of the client to an action
-- that is ready to send the request to the server.
use mathlib.Core.List.{append_assoc, append-nil}
use multiplexing_proxy.Prelude.{
  ℕ, ◌+◌, ◌-◌, ◌≤◌, ◌<◌, ◌≡◌, ap, ◌∙◌, false, true, List, [], ◌∷◌, ◌++◌, length, drop, some, done,
  ℤ, is_negative, arith, length-append, subst,
}
use multiplexing_proxy.Memory.{
  Bytes, c_str, calloc, contains, terminated, IsText, IsText-append, Holds, c_str-append,
  c_str-split, strcpy-Holds, length-calloc, calloc-Holds,
}
use multiplexing_proxy.Platform.{Platform}
use multiplexing_proxy.EventProxy.Action.{Callback, null, block, EventAction, writing, Call}
use multiplexing_proxy.EventProxy.Read.{Read, got, blank_line, bufmax}
use multiplexing_proxy.EventProxy.Read.Loops.{read_loop_last}
use multiplexing_proxy.EventProxy.Cache.{Cache, IsEmpty, search_cache-IsEmpty}
use multiplexing_proxy.EventProxy.Request.{wirelen, slash}
use multiplexing_proxy.EventProxy.Request.Locate.{IsHost, IsTarget}
use multiplexing_proxy.EventProxy.Request.Whole.{opening, request_buffer, locate_request}
use multiplexing_proxy.EventProxy.Request.Port.{no_port, port_80}
use multiplexing_proxy.EventProxy.Wire.{codes, assemble, event_constants}
use multiplexing_proxy.EventProxy.Wire.Text.{IsConstants, wire_text, assemble_lem}
use multiplexing_proxy.EventProxy.Clread.{
  Address, connected, ClientAnswers, Stack, clread, after_reading, act_on_request, act_on_search,
  contact_server, use_addresses, use_connection,
}
use multiplexing_proxy.EventProxy.Clread.Connect.{AllRefuse, closes, connect_first_lem}
use multiplexing_proxy.EventProxy.Clread.Miss.{start_server_sends}

-- A request as the client sends it, with its headers and the blank line: `x` is the first byte
-- behind the request line.
abbrev pub request_text : ℕ → ℕ → ℕ → ℕ → Bytes → Bytes → ℕ → Bytes → Bytes
request_text a b c d host target x headers =
    opening a b c d ++ (host ++ slash ∷ (target ++ b'\r' ∷ b'\n' ∷ x ∷ headers))

-- The request that goes to the server.
abbrev pub server_text : Bytes → Bytes → Bytes → Bytes
server_text host target headers = wire_text event_constants (target ++ b'0' ∷ []) host headers

event_constants-IsConstants : IsConstants event_constants
event_constants-IsConstants = record {
  user_agent_text = omega arith;
  connection_text = omega arith;
  proxy_connection_text = omega arith;
}

-- A whole request with an `http` URL without a port, of sizes that the code's objects have room
-- for.
pub record IsRequest (a b c d : ℕ) (host target : Bytes) (x : ℕ) (headers : Bytes) : Type 0 where
  pub whole_text : IsText (request_text a b c d host target x headers)
  pub fits : length (request_text a b c d host target x headers) < bufmax
  pub whole : contains (request_text a b c d host target x headers) blank_line ≡ true
  pub host_text : IsText host
  pub host_ok : IsHost host
  pub host_fits : length host < 194
  pub target_text : IsText target
  pub target_ok : IsTarget target
  pub headers_text : IsText headers
  pub wire_fits : length target + length host + length headers < 1800

-- The system resolves the host, connects to one of its addresses, and makes the descriptor
-- non-blocking and registers it.
pub record Connects (env : ClientAnswers) (tried later : List Address) (fd : ℤ) : Type 0 where
  pub found : env.addresses ≡ some (tried ++ connected fd ∷ later)
  pub refuse : AllRefuse tried
  pub nonblocking : is_negative env.nonblocking ≡ false
  pub first : is_negative env.epoll_first ≡ false
  pub second : is_negative env.epoll_second ≡ false

-- The action that is to send a request to the server.
abbrev pub ready_to_send : EventAction → ℤ → (url copy wire : Bytes) → EventAction
ready_to_send a' fd url copy wire = record a' {
  total_bytes_passed = 0;
  url = block url;
  serverfd = fd;
  callback = Callback.srvwrite;
  data_buf = block copy;
  total_data_size = length wire;
}

-- The calls on the way there.
abbrev pub turns_to_server : (logged host : Bytes) → List Address → (fd clientfd : ℤ) → List Call
turns_to_server logged host tried fd clientfd =
    Call.log logged
    ∷ (((Call.resolve host (codes "80") ∷ closes tried)
          ++ Call.set_nonblocking fd ∷ Call.epoll_add fd writing ∷ [])
        ++ Call.epoll_del clientfd ∷ [])

module _ {a b c d : ℕ} {host target : Bytes} {x : ℕ} {headers : Bytes}
    (request : IsRequest a b c d host target x headers) where
  abbrev sent_text : Bytes
  sent_text = request_text a b c d host target x headers

  abbrev wire_out : Bytes
  wire_out = server_text host target headers

  -- The buffer that `locate` reads.
  buffer_lem :
      (buf : Bytes)
      → Holds buf bufmax sent_text
      → (rest : Bytes) × (buf ≡ request_buffer (opening a b c d) host target x headers rest)
  buffer_lem buf held =
      let (rest, split) = c_str-split buf held.text in
      (
        rest,
        split
            ∙ append_assoc (opening a b c d)
                (host ++ slash ∷ (target ++ b'\r' ∷ b'\n' ∷ x ∷ headers)) (0 ∷ rest)
            ∙ ap (λ s. opening a b c d ++ s)
                (append_assoc host (slash ∷ (target ++ b'\r' ∷ b'\n' ∷ x ∷ headers)) (0 ∷ rest)
                  ∙ ap (λ s. host ++ slash ∷ s)
                      (append_assoc target (b'\r' ∷ b'\n' ∷ x ∷ headers) (0 ∷ rest))),
      )

  -- The request for the server is assembled.
  assembled :
      (stack headers' : Bytes)
      → Holds headers' wirelen headers
      → (wire : Bytes) × (assemble event_constants stack
            (no_port (terminated host) (terminated (target ++ b'0' ∷ [])) headers')
          ≡ done wire)
        × Holds wire (wirelen + length stack) (server_text host target headers)
  assembled stack headers' held =
      assemble_lem event_constants stack _ event_constants-IsConstants
        (c_str-append (target ++ b'0' ∷ []) []
          (IsText-append target (b'0' ∷ []) request.target_text (omega arith)))
        (c_str-append host [] request.host_text) held.text request.host_fits
        (omega (arith, request.wire_fits, length-append target (b'0' ∷ [])))

  module _ (os : Platform) (env : ClientAnswers) {tried later : List Address} {fd : ℤ}
      (answers : Connects env tried later fd) where
    -- The server is resolved and connected to.
    contacted :
        (a' : EventAction) (headers' wire : Bytes) {n : ℕ} {text : Bytes}
        → Holds wire n text
        → length text < length (os.malloc (length text))
        → (copy : Bytes) × (contact_server os env a'
              (no_port (terminated host) (terminated (target ++ b'0' ∷ [])) headers')
              wire
            ≡ done (record {
              action = record a' {
                serverfd = fd;
                callback = Callback.srvwrite;
                data_buf = block copy;
                total_data_size = length text;
              };
              ends = false;
              calls =
                  ((Call.resolve host (codes "80") ∷ closes tried)
                    ++ Call.set_nonblocking fd ∷ Call.epoll_add fd writing ∷ [])
                  ++ Call.epoll_del a'.clientfd ∷ [];
              spawned = [];
              sent = [];
            }))
          × Holds copy (length (os.malloc (length text))) text
    unfolding contact_server use_addresses use_connection
    contacted a' headers' wire held room =
        let (port, chosen, eighty) =
          port_80 (terminated host) (terminated (target ++ b'0' ∷ [])) headers' in
        let asked : List Call = Call.resolve host (codes "80") ∷ [] in
        let (connects, _) = connect_first_lem tried asked fd later answers.refuse in
        let (copy, ran, whole) =
          start_server_sends os env a' wire fd (asked ++ closes tried) held room answers.first
            answers.second in
        (
          copy,
          rw chosen (
              rw (c_str-append host [] request.host_text)
                (rw eighty (simp answers.found (rw connects (rw answers.nonblocking ran))))),
          whole,
        )

    acted :
        (stack : Stack) (cache : Cache) (a' : EventAction) (url : Bytes)
        → Holds url bufmax sent_text
        → IsEmpty cache
        → length wire_out < length (os.malloc (length wire_out))
        → (copy : Bytes) × (act_on_request os env stack cache a' url
            ≡ done (record {
              handled = record {
                action = ready_to_send a' fd url copy wire_out;
                ends = false;
                calls = turns_to_server sent_text host tried fd a'.clientfd;
                spawned = [];
                sent = [];
              };
              cache = cache;
            }))
          × Holds copy (length (os.malloc (length wire_out))) wire_out
    unfolding act_on_request act_on_search
    acted stack cache a' url held empty room =
        let (buf, copied, in_buf) =
          strcpy-Holds (calloc bufmax) url (length-calloc bufmax) held.text request.fits in
        let (rest, split) = buffer_lem buf in_buf in
        let (headers', located, passed) =
          locate_request a b c d x host target headers rest request.host_ok request.target_ok
            request.headers_text (omega (arith, request.wire_fits)) in
        let (wire, built, whole) = assembled stack.wire headers' passed in
        let (copy, ran, kept) =
          contacted (record a' { total_bytes_passed = 0; url = block url }) headers' wire whole
            room in
        (
          copy,
          rw copied (
              rw held.text (
                rw split (
                  rw located (
                    rw built (
                      rw whole.text (
                        rw (search_cache-IsEmpty wire_out stack.buf2 env.now cache empty)
                          (rw ran))))))),
          kept,
        )

    -- For a new action: where one read delivers a whole request with an `http` URL without a
    -- port, whose parts the code's objects have room for, `tempBuf` holds a NUL behind it, the
    -- cache is empty, the server resolves and some address connects, the calls on the descriptors
    -- work, and `malloc` gives a byte more than the length of the request to the server: `clread`
    -- logs the client's bytes, closes the sockets that did not connect, moves the epoll set from
    -- the client's descriptor to the server's, and leaves an action that is ready for `srvwrite`:
    -- its buffer holds the request to the server, which reads: the path and version with a '0'
    -- behind them, the host and the proxy's three headers where the client's text does not show
    -- them, and the client's headers without their first byte.
    pub clread_sends :
        (stack : Stack) (cache : Cache) (a' : EventAction) (more : List Read)
        → env.reads ≡ got sent_text ∷ more
        → length sent_text ≤ length stack.temp
        → c_str (drop (length sent_text) stack.temp) ≡ done []
        → a'.url ≡ null
        → a'.total_bytes_passed ≡ 0
        → IsEmpty cache
        → length wire_out < length (os.malloc (length wire_out))
        → (url copy : Bytes) × (clread os env stack cache a'
            ≡ done (record {
              handled = record {
                action = ready_to_send a' fd url copy wire_out;
                ends = false;
                calls = turns_to_server sent_text host tried fd a'.clientfd;
                spawned = [];
                sent = [];
              };
              cache = cache;
            }))
          × Holds copy (length (os.malloc (length wire_out))) wire_out
          × Holds url bufmax sent_text
    unfolding clread after_reading
    clread_sends stack cache a' more given room nul unset start empty space =
        let (url, ran, held) =
          read_loop_last os (calloc bufmax) stack.temp (bufmax - 1) 0 a (drop 1 sent_text) more
            {tail = []} (calloc-Holds bufmax (omega arith)) request.whole_text room nul
            (omega (arith, request.fits, ap length (append-nil sent_text)))
            (rw (append-nil sent_text) request.whole) in
        let url_held = subst (λ s. Holds url bufmax s) (append-nil sent_text) held in
        let (copy, acts, kept) = acted stack cache a' url url_held empty space in
        (url, copy, simp (unset, start, given) (rw ran acts), kept, url_held)
