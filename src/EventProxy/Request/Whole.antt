-- ===== src/EventProxy/Request/Whole.antt =====
-- What `locate` makes of a whole request.
use mathlib.Core.List.{append_assoc}
use native.Mathlib.Nat.{zero-add}
use multiplexing_proxy.Prelude.{
  ℕ, ◌+◌, ◌<◌, ◌≡◌, refl, sym, ap, ◌∙◌, [], ◌∷◌, ◌++◌, length, drop, done, fault, arith,
  length-append, drop-length-append,
}
use multiplexing_proxy.Memory.{
  Bytes, c_str, calloc, equal, terminated, Holds, IsText, strcpy-Holds, c_str-append, length-calloc,
}
use multiplexing_proxy.EventProxy.Request.{
  locate, after_scheme, scan_authority, split_authority, after_authority, scan_uri, uri_text, slash,
  wirelen,
}
use multiplexing_proxy.EventProxy.Request.Locate.{
  IsHost, IsTarget, scan_authority_lem, scan_uri_lem, slice_at, set_last,
}

-- The first eleven bytes: a method of three bytes, a byte, and `http://`.
abbrev pub opening : ℕ → ℕ → ℕ → ℕ → Bytes
opening a b c d = a ∷ b ∷ c ∷ d ∷ b'h' ∷ b't' ∷ b't' ∷ b'p' ∷ b':' ∷ slash ∷ slash ∷ []

-- What the buffer holds behind the host: the path, the end of the line, and the header block,
-- whose first byte is `x`.
abbrev pub line_rest : Bytes → ℕ → Bytes → Bytes → Bytes
line_rest target x headers rest = slash ∷ (target ++ b'\r' ∷ b'\n' ∷ x ∷ (headers ++ 0 ∷ rest))

abbrev pub request_buffer : Bytes → Bytes → Bytes → ℕ → Bytes → Bytes → Bytes
request_buffer first host target x headers rest = first ++ (host ++ line_rest target x headers rest)

pub scheme_found : (a b c d : ℕ) (back : Bytes) → after_scheme (opening a b c d ++ back) ≡ done 11
unfolding after_scheme c_str equal
scheme_found a b c d back = rw (
    slice_at (a ∷ b ∷ c ∷ d ∷ []) (b'h' ∷ b't' ∷ b't' ∷ b'p' ∷ b':' ∷ []) (slash ∷ slash ∷ back) 4 5
      refl refl)

-- Without a port, the authority is the host.
pub whole_host :
    (first host back : Bytes) (at : ℕ)
    → at ≡ length first
    → split_authority (first ++ (host ++ back)) at (length host) 0
      ≡ done (terminated host, calloc 8)
unfolding split_authority
whole_host first host back at placed = rw (slice_at first host back at (length host) placed refl)

-- What follows the authority, in any request: `first` is what stands in front of it.
module _ (first authority target headers rest : Bytes) (x at : ℕ) (placed : at ≡ length first) where
  abbrev whole : Bytes
  whole = request_buffer first authority target x headers rest

  -- What stands in front of the path, the path with the line's end, and what follows.
  abbrev front : Bytes
  front = (first ++ authority) ++ slash ∷ []

  abbrev behind : Bytes
  behind = x ∷ (headers ++ 0 ∷ rest)

  abbrev start_of : ℕ
  start_of = at + length authority + 1

  length-front : start_of ≡ length front
  length-front = omega (
    arith,
    placed,
    length-append first authority,
    length-append (first ++ authority) (slash ∷ []),
  )

  from_authority_end : whole ≡ (first ++ authority) ++ (slash ∷ (target ++ b'\r' ∷ b'\n' ∷ behind))
  from_authority_end = sym (append_assoc first authority (line_rest target x headers rest))

  authority_left : after_authority whole (at + length authority) ≡ done start_of
  unfolding after_authority equal
  authority_left = rw from_authority_end (
      rw (
        slice_at (first ++ authority) (slash ∷ []) (target ++ b'\r' ∷ b'\n' ∷ behind)
          (at + length authority) 1 (omega (arith, placed, length-append first authority)) refl))

  from_path : whole ≡ front ++ (target ++ b'\r' ∷ b'\n' ∷ behind)
  from_path =
      from_authority_end
      ∙ sym (append_assoc (first ++ authority) (slash ∷ []) (target ++ b'\r' ∷ b'\n' ∷ behind))

  from_line_end : whole ≡ front ++ ((target ++ b'\r' ∷ []) ++ b'\n' ∷ behind)
  from_line_end =
      from_path ∙ ap (λ s. front ++ s) (sym (append_assoc target (b'\r' ∷ []) (b'\n' ∷ behind)))

  from_headers : whole ≡ (front ++ (target ++ b'\r' ∷ b'\n' ∷ x ∷ [])) ++ (headers ++ 0 ∷ rest)
  from_headers =
      from_path
      ∙ ap (λ s. front ++ s)
          (sym (append_assoc target (b'\r' ∷ b'\n' ∷ x ∷ []) (headers ++ 0 ∷ rest)))
      ∙ sym (append_assoc front (target ++ b'\r' ∷ b'\n' ∷ x ∷ []) (headers ++ 0 ∷ rest))

  path_scanned : IsTarget target → scan_uri (drop start_of whole) 0 ≡ done (length target)
  path_scanned ok =
      rw (from_path, length-front, drop-length-append front (target ++ b'\r' ∷ b'\n' ∷ behind))
        (scan_uri_lem target behind 0 ok ∙ ap done (zero-add (length target)))

  path_copied : uri_text whole start_of (length target) ≡ done (terminated (target ++ b'0' ∷ []))
  unfolding uri_text
  path_copied = rw from_line_end (
      rw
        (slice_at front (target ++ b'\r' ∷ []) (b'\n' ∷ behind) start_of (length target + 1)
          length-front (omega (arith, length-append target (b'\r' ∷ []))))
        (rw (append_assoc target (b'\r' ∷ []) (0 ∷ []), set_last target b'\r' 0 b'0')
          (ap done (sym (append_assoc target (b'0' ∷ []) (0 ∷ []))))))

  headers_dropped : drop (start_of + (length target + 1) + 2) whole ≡ headers ++ 0 ∷ rest
  headers_dropped =
      ap (drop (start_of + (length target + 1) + 2)) from_headers
      ∙ rw passed (drop-length-append before (headers ++ 0 ∷ rest))
    where
      before : Bytes
      before = front ++ (target ++ b'\r' ∷ b'\n' ∷ x ∷ [])

      passed : start_of + (length target + 1) + 2 ≡ length before
      passed = omega (
        arith,
        length-front,
        length-append front (target ++ b'\r' ∷ b'\n' ∷ x ∷ []),
        length-append target (b'\r' ∷ b'\n' ∷ x ∷ []),
      )

  -- The parts, by those of the authority.
  pub locate_found :
      {host port : Bytes} {spot : ℕ}
      → after_scheme whole ≡ done at
      → scan_authority at (drop at whole) 0 0 ≡ done (length authority, spot)
      → split_authority whole at (length authority) spot ≡ done (host, port)
      → IsTarget target
      → IsText headers
      → length headers < wirelen
      → (h : Bytes) × (locate whole
          ≡ done (record {
            base_url = host;
            port_number = port;
            port_spot = spot;
            uri = terminated (target ++ b'0' ∷ []);
            headers = h;
          }))
        × Holds h wirelen headers
  unfolding locate
  locate_found scheme scanned split okt oks short =
      let (h, copied, held) =
        strcpy-Holds (calloc wirelen) (headers ++ 0 ∷ rest) (length-calloc wirelen)
          (c_str-append headers rest oks) short in
      (
        h,
        rw scheme (
            rw scanned (
              rw split (
                rw authority_left
                  (rw (path_scanned okt) (rw path_copied (rw (headers_dropped, copied))))))),
        held,
      )

  -- Where the authority cannot be split, there is no request.
  pub locate_stops :
      {n spot : ℕ}
      → after_scheme whole ≡ done at
      → scan_authority at (drop at whole) 0 0 ≡ done (n, spot)
      → split_authority whole at n spot ≡ fault
      → locate whole ≡ fault
  unfolding locate
  locate_stops scheme scanned split = rw scheme (rw scanned (rw split))

-- For a request line with an `http` URL without a port, with a path, and ended by "\r\n", where the
-- headers without their first byte are shorter than 2000 bytes: `locate` finds the host, and no
-- port; the URI that it takes is the path and the version with a '0' behind the version's last
-- byte; and the headers that it passes on are the client's without their first byte.
pub locate_request :
    (a b c d x : ℕ) (host target headers rest : Bytes)
    → IsHost host
    → IsTarget target
    → IsText headers
    → length headers < wirelen
    → (h : Bytes) × (locate (request_buffer (opening a b c d) host target x headers rest)
        ≡ done (record {
          base_url = terminated host;
          port_number = calloc 8;
          port_spot = 0;
          uri = terminated (target ++ b'0' ∷ []);
          headers = h;
        }))
      × Holds h wirelen headers
locate_request a b c d x host target headers rest okh okt oks short =
    locate_found (opening a b c d) host target headers rest x 11 refl
      (scheme_found a b c d (host ++ line_rest target x headers rest))
      (scan_authority_lem 11 host (target ++ b'\r' ∷ b'\n' ∷ x ∷ (headers ++ 0 ∷ rest)) 0 okh
        ∙ ap (λ (n : ℕ). done (n, 0)) (zero-add (length host)))
      (whole_host (opening a b c d) host (line_rest target x headers rest) 11 refl) okt oks short
