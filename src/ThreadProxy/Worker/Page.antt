-- ===== src/ThreadProxy/Worker/Page.antt =====
-- What `thread` makes of a request line for a page of a server.
use mathlib.Core.List.{append_assoc}
use multiplexing_proxy.Prelude.{
  ℕ, ◌+◌, ◌<◌, ◌≡◌, refl, ap, ◌∙◌, true, [], ◌∷◌, ◌++◌, length, none, done, ◌>>=◌, arith,
  length-append,
}
use multiplexing_proxy.Memory.{
  Bytes, equal, c_str, terminated, IsText, IsText-append, c_str-append, put-calloc, Holds,
}
use multiplexing_proxy.EventProxy.Request.{slash, wirelen}
use multiplexing_proxy.EventProxy.Request.Locate.{IsHost, IsTarget}
use multiplexing_proxy.EventProxy.Request.Port.{no_port, port_80}
use multiplexing_proxy.EventProxy.Request.Whole.{opening, line_rest, request_buffer, locate_request}
use multiplexing_proxy.EventProxy.Wire.{codes, assemble}
use multiplexing_proxy.EventProxy.Wire.Text.{IsConstants, wire_text, assemble_lem}
use multiplexing_proxy.ThreadProxy.Store.{Store, search}
use multiplexing_proxy.ThreadProxy.Worker.{
  Round, bufmax, thread_constants, answer, reply, serve, deliver,
}
use multiplexing_proxy.ThreadProxy.Worker.Replies.{takes_method, refusal, vet_lem}

-- `GET http://host/target\r\n`, with any method of three bytes and any byte behind it.
abbrev pub page_line : ℕ → ℕ → ℕ → ℕ → Bytes → Bytes → Bytes
page_line a b c d host target = opening a b c d ++ (host ++ slash ∷ (target ++ b'\r' ∷ b'\n' ∷ []))

thread_constants-IsConstants : IsConstants thread_constants
thread_constants-IsConstants = record {
  user_agent_text = omega arith;
  connection_text = omega arith;
  proxy_connection_text = omega arith;
}

-- The request that goes to the server.
abbrev pub page_wire : Bytes → Bytes → Bytes
page_wire host target = wire_text thread_constants (target ++ b'0' ∷ []) host []

-- A page that the proxy asks a server for: the words of the request line that it accepts.
pub record IsPage (env : Round) (a b c d : ℕ) (host target : Bytes) : Type 0 where
  pub line : env.request_line ≡ page_line a b c d host target
  pub short : length env.request_line + 1 < bufmax
  pub method : IsText (a ∷ b ∷ c ∷ [])
  pub taken : takes_method (a ∷ b ∷ c ∷ []) ≡ true
  pub host_text : IsText host
  pub host_ok : IsHost host
  pub host_fits : length host < 194
  pub target_text : IsText target
  pub target_ok : IsTarget target
  pub wire_fits : length target + length host < 1800

module _ {env : Round} {a b c d : ℕ} {host target : Bytes}
    (page : IsPage env a b c d host target) where
  -- The request for the server is assembled.
  assembled :
      (headers : Bytes)
      → Holds headers wirelen []
      → (wire : Bytes) × (assemble thread_constants env.wire_stack
            (no_port (terminated host) (terminated (target ++ b'0' ∷ [])) headers)
          ≡ done wire)
        × Holds wire (wirelen + length env.wire_stack) (page_wire host target)
  assembled headers held =
      assemble_lem thread_constants env.wire_stack _ thread_constants-IsConstants
        (c_str-append (target ++ b'0' ∷ []) []
          (IsText-append target (b'0' ∷ []) page.target_text (omega arith)))
        (c_str-append host [] page.host_text) held.text page.host_fits
        (omega (arith, page.wire_fits, length-append target (b'0' ∷ [])))

  abbrev target_of : Bytes × Bytes × Bytes
  target_of = (host, codes "80", page_wire host target)

  -- What `serve` does with what the search for the request finds.
  pub serve_page :
      (cache : Store)
      → (wire : Bytes) × (c_str wire ≡ done (page_wire host target))
        × (serve env cache ≡ (
            search (page_wire host target) env.buf2 env.now cache.entries >>= λ r.
            deliver env
              (record cache { entries = r.1 })
              (host, codes "80", page_wire host target)
              wire
              r.0))
  unfolding serve reply answer
  serve_page cache =
      let (rest, stored) = put-calloc env.request_line bufmax page.short in
      let (headers, located, held) =
        locate_request a b c d 0 host target [] rest page.host_ok page.target_ok tt (omega arith) in
      let (wire, built, whole) = assembled headers held in
      let (port, chosen, eighty) =
        port_80 (terminated host) (terminated (target ++ b'0' ∷ [])) headers in
      let buffer : env.request_line ++ 0 ∷ 0 ∷ rest
          ≡ request_buffer (opening a b c d) host target 0 [] rest =
        ap (λ s. s ++ 0 ∷ 0 ∷ rest) page.line ∙ regroup rest in
      let passed =
        vet_lem (a ∷ b ∷ c ∷ []) (codes "http:")
          (slash ∷ slash ∷ (host ++ line_rest target 0 [] rest)) d refl refl page.method
          (omega arith) in
      (
        wire,
        whole.text,
        rw stored (
            rw buffer (
              rw passed (
                rw (accepted, reply)
                  (rw located (
                    rw built (
                      rw chosen
                        (rw (c_str-append host [] page.host_text, eighty, whole.text)))))))),
      )
    where
      regroup :
          (rest : Bytes)
          → page_line a b c d host target ++ 0 ∷ 0 ∷ rest
            ≡ request_buffer (opening a b c d) host target 0 [] rest
      regroup rest =
          append_assoc (opening a b c d) (host ++ slash ∷ (target ++ b'\r' ∷ b'\n' ∷ []))
            (0 ∷ 0 ∷ rest)
          ∙ ap (λ s. opening a b c d ++ s)
              (append_assoc host (slash ∷ (target ++ b'\r' ∷ b'\n' ∷ [])) (0 ∷ 0 ∷ rest)
                ∙ ap (λ s. host ++ slash ∷ s)
                    (append_assoc target (b'\r' ∷ b'\n' ∷ []) (0 ∷ 0 ∷ rest)))

      accepted : refusal (a ∷ b ∷ c ∷ []) (codes "http:") ≡ none
      accepted = rw page.taken (unfold equal in refl)
