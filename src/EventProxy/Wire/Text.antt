-- ===== src/EventProxy/Wire/Text.antt =====
-- The text that `assemble` builds.
use mathlib.Core.List.{append-nil}
use multiplexing_proxy.Prelude.{
  ℕ, zero, suc, ◌+◌, ◌≤◌, ◌<◌, ◌≡◌, refl, [], ◌++◌, length, done, if◌then◌else◌, arith,
  length-append, Bool-cases, inl, inr,
}
use multiplexing_proxy.Memory.{
  Bytes, c_str, strcat, calloc, contains, terminated, Holds, IsText, strcat-Holds, calloc-Holds,
  c_str-append, length-calloc,
}
use multiplexing_proxy.EventProxy.Request.{Request, wirelen}
use multiplexing_proxy.EventProxy.Wire.{
  Constants, codes, crlf, append_literal, append_unless, host_header, append_host, assemble,
}

-- An object of `n` bytes that holds the string `w`, of at most `m` bytes.
record Built (buf : Bytes) (n : ℕ) (w : Bytes) (m : ℕ) : Type 0 where
  held : Holds buf n w
  bound : length w ≤ m

append-Built :
    (wire src : Bytes) {n m : ℕ} {w s : Bytes} (k : ℕ)
    → Built wire n w m
    → c_str src ≡ done s
    → length s ≤ k
    → m + k < n
    → (r : Bytes) × (strcat wire src ≡ done r) × Built r n (w ++ s) (m + k)
append-Built wire src {w} {s} k b q le fits =
    let (r, ran, held) = strcat-Holds wire src b.held q (omega (arith, b.bound)) in
    (r, ran, record { held = held; bound = omega (arith, length-append w s, b.bound) })

blank-Built : (n : ℕ) (stack : Bytes) → 0 < n → Built (calloc n ++ stack) (n + length stack) [] 0
unfolding calloc c_str
blank-Built zero stack h = absurd (omega arith)
blank-Built (suc n) stack h = record {
  held = record {
    size = omega (arith, length-append (calloc (suc n)) stack, length-calloc (suc n));
    text = refl;
  };
  bound = omega arith;
}

append_literal-Built :
    (wire text : Bytes) {n m : ℕ} {w : Bytes}
    → Built wire n w m
    → IsText text
    → m + length text < n
    → (r : Bytes) × (append_literal wire text ≡ done r) × Built r n (w ++ text) (m + length text)
unfolding append_literal
append_literal-Built wire text b ok fits =
    append-Built wire (terminated text) (length text) b (c_str-append text [] ok) (omega arith) fits

-- A header that is added only where the client did not send it.
abbrev pub unless : Bytes → Bytes → Bytes → Bytes
unless headers name text = if contains headers name then [] else text

append_unless-Built :
    (headers name text wire : Bytes) {n m : ℕ} {w : Bytes}
    → Built wire n w m
    → IsText text
    → m + length text < n
    → (r : Bytes) × (append_unless headers name text wire ≡ done r)
      × Built r n (w ++ unless headers name text) (m + length text)
unfolding append_unless
append_unless-Built headers name text wire {n} {m} {w} b ok fits =
    elim (Bool-cases (contains headers name)) [
      | inl there ↦ (
        wire,
        rw there,
        record {
          held = rw (there, append-nil w) b.held;
          bound = rw (there, append-nil w) (omega (arith, b.bound));
        },
      )
      | inr missing ↦
          let (r, ran, built) = append_literal-Built wire text b ok fits in
          (r, rw missing ran, rw missing built)
    ]

host_header-Holds :
    (base : Bytes) {host : Bytes}
    → c_str base ≡ done host
    → length host < 194
    → (r : Bytes) × (host_header base ≡ done r) × Holds r 200 (codes "Host: " ++ host)
unfolding host_header append_literal
host_header-Holds base q fits =
    let (l, labelled, held) =
      strcat-Holds (calloc 200) (terminated (codes "Host: ")) {s = codes "Host: "}
        (calloc-Holds 200 (omega arith)) (c_str-append (codes "Host: ") [] (omega arith))
        (omega arith) in
    let (r, ran, both) = strcat-Holds l base held q (omega arith) in (r, rw labelled ran, both)

append_host-Built :
    (headers base wire : Bytes) {host : Bytes} {n m : ℕ} {w : Bytes}
    → Built wire n w m
    → c_str base ≡ done host
    → length host < 194
    → m + (6 + length host) < n
    → (r : Bytes) × (append_host headers base wire ≡ done r)
      × Built r n
          (w ++ unless headers (codes "Host:") (codes "Host: " ++ host))
          (m + (6 + length host))
unfolding append_host
append_host-Built headers base wire {host} {n} {m} {w} b q short fits =
    elim (Bool-cases (contains headers (codes "Host:"))) [
      | inl there ↦ (
        wire,
        rw there,
        record {
          held = rw (there, append-nil w) b.held;
          bound = rw (there, append-nil w) (omega (arith, b.bound));
        },
      )
      | inr missing ↦
          let (l, built, label) = host_header-Holds base q short in
          let (r, ran, more) =
            append-Built wire l (6 + length host) b label.text (omega arith) fits in
          (r, rw missing (rw built ran), rw missing more)
    ]

-- The three header lines are strings.
pub record IsConstants (k : Constants) : Type 0 where
  pub user_agent_text : IsText k.user_agent
  pub connection_text : IsText k.connection
  pub proxy_connection_text : IsText k.proxy_connection

-- The request for the server, as text.
abbrev pub wire_text : Constants → Bytes → Bytes → Bytes → Bytes
wire_text k uri host headers =
    codes "GET /"
    ++ uri
    ++ crlf
    ++ unless headers (codes "Host:") (codes "Host: " ++ host)
    ++ unless headers (codes "Connection:") k.connection
    ++ unless headers (codes "Proxy-Connection:") k.proxy_connection
    ++ unless headers (codes "User-Agent:") k.user_agent
    ++ headers
    ++ codes "\r\n\r\n"

-- If the parts of the request are strings, the host is shorter than 194 bytes, and all parts and
-- constants together fit in reqWire, then the request is assembled without a fault, and it reads:
-- the request line with the URI; then of the four header lines each whose name with its colon
-- (Host, Connection, Proxy-Connection, User-Agent) occurs nowhere in the text of the client's
-- headers, so that a Proxy-Connection of the client's also keeps Connection: close out; then the
-- client's headers; then a blank line; with nothing between these parts.
pub assemble_lem :
    (k : Constants) (stack : Bytes) (r : Request) {uri host headers : Bytes}
    → IsConstants k
    → c_str r.uri ≡ done uri
    → c_str r.base_url ≡ done host
    → c_str r.headers ≡ done headers
    → length host < 194
    → 17
        + length uri
        + length host
        + length k.connection
        + length k.proxy_connection
        + length k.user_agent
        + length headers
      < wirelen + length stack
    → (wire : Bytes) × (assemble k stack r ≡ done wire)
      × Holds wire (wirelen + length stack) (wire_text k uri host headers)
unfolding assemble
assemble_lem k stack r {uri} {host} {headers} ok quri qhost qheaders short fits =
    let (w₀, e₀, b₀) =
      append_literal-Built (calloc wirelen ++ stack) (codes "GET /")
        (blank-Built wirelen stack (omega arith)) (omega arith) (omega arith) in
    let (w₁, e₁, b₁) = append-Built w₀ r.uri (length uri) b₀ quri (omega arith) (omega arith) in
    let (w₂, e₂, b₂) = append_literal-Built w₁ crlf b₁ (omega arith) (omega arith) in
    let (w₃, e₃, b₃) = append_host-Built headers r.base_url w₂ b₂ qhost short (omega arith) in
    let (w₄, e₄, b₄) =
      append_unless-Built headers (codes "Connection:") k.connection w₃ b₃ ok.connection_text
        (omega arith) in
    let (w₅, e₅, b₅) =
      append_unless-Built headers (codes "Proxy-Connection:") k.proxy_connection w₄ b₄
        ok.proxy_connection_text (omega arith) in
    let (w₆, e₆, b₆) =
      append_unless-Built headers (codes "User-Agent:") k.user_agent w₅ b₅ ok.user_agent_text
        (omega arith) in
    let (w₇, e₇, b₇) =
      append-Built w₆ r.headers (length headers) b₆ qheaders (omega arith) (omega arith) in
    let (w₈, e₈, b₈) = append_literal-Built w₇ (codes "\r\n\r\n") b₇ (omega arith) (omega arith) in
    (w₈, rw qheaders (rw e₀ (rw e₁ (rw e₂ (rw e₃ (rw e₄ (rw e₅ (rw e₆ (rw e₇ e₈)))))))), b₈.held)
