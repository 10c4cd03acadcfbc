-- ===== src/ThreadProxy/Worker/Twice.antt =====
-- Two rounds of `thread` for the same page.
use multiplexing_proxy.Prelude.{
  ℕ, ◌+◌, ◌<◌, ◌^◌, ◌≡◌, refl, ◌∙◌, true, List, [], ◌∷◌, ◌++◌, length, Option, none, some, done,
  arith, length-append, inl, inr,
}
use multiplexing_proxy.Memory.{Bytes, c_str, contains, starts_with, slice, Holds, c_str-split}
use multiplexing_proxy.EventProxy.Request.Locate.{slice_at}
use multiplexing_proxy.EventProxy.Wire.{codes}
use multiplexing_proxy.ThreadProxy.Store.{
  Entry, Store, search, max_cache_size, max_object_size, wirelen,
}
use multiplexing_proxy.ThreadProxy.Store.Found.{HasFree, Absent, Finds, store-search}
use multiplexing_proxy.ThreadProxy.Relay.{Line, nothing}
use multiplexing_proxy.ThreadProxy.Relay.Copies.{AllText, all_bytes}
use multiplexing_proxy.ThreadProxy.Worker.{Round, fetch, deliver, serve}
use multiplexing_proxy.ThreadProxy.Worker.Replies.{fetch_relays}
use multiplexing_proxy.ThreadProxy.Worker.Page.{IsPage, page_wire, serve_page}

-- A search for a request that no entry is for.
search-Absent :
    (wanted buf2 : Bytes) (now : ℕ) (entries : List (Option Entry))
    → Absent wanted entries
    → search wanted buf2 now entries ≡ done (none, entries)
unfolding search
search-Absent wanted buf2 now [] absent = refl
search-Absent wanted buf2 now (none ∷ entries) absent =
    rw (search-Absent wanted buf2 now entries absent)
search-Absent wanted buf2 now (some e ∷ entries) ((key, q, other), absent) =
    rw (q, other, search-Absent wanted buf2 now entries absent)

-- Sending the part of an object that a string fills.
slice-Holds : (buf : Bytes) {n : ℕ} (s : Bytes) → Holds buf n s → slice buf 0 (length s) ≡ done s
slice-Holds buf s held =
    let (rest, split) = c_str-split buf held.text in
    rw split (slice_at [] s (0 ∷ rest) 0 (length s) refl refl)

-- The server opens, takes the request, and sends these lines, which are strings.
pub record IsServed (env : Round) (lines later : List Line) : Type 0 where
  pub opens : env.server_opens ≡ true
  pub takes : env.server_takes ≡ true
  pub given : env.lines ≡ lines ++ nothing ∷ later
  pub small : length env.buf2 < 2 ^ 32
  pub text : AllText (length env.buf2) lines

-- The cache has room for a response of `n` bytes to a request it has no entry for, in a new entry
-- of the size that `malloc` is asked for.
pub record HasRoom (env : Round) (cache : Store) (n : ℕ) (wire : Bytes) : Type 0 where
  pub room : cache.current + n < max_cache_size
  pub free : HasFree cache.entries
  pub absent : Absent wire cache.entries
  pub content_size : length env.blank.content ≡ max_object_size
  pub request_size : length env.blank.request ≡ wirelen

length-page_wire :
    (host target : Bytes)
    → length target + length host < 1800
    → length (page_wire host target) < wirelen
unfolding contains starts_with
length-page_wire host target h = simp (length-append) (omega arith)

module _ {host target : Bytes} where
  -- The second round: a page that the cache has.
  serve_again :
      {env : Round} {a b c d : ℕ} (cache : Store) (text : Bytes)
      → IsPage env a b c d host target
      → Finds (page_wire host target) env.buf2 env.now text cache.entries
      → (r : List (Option Entry)) × (serve env cache
          ≡ done (record { sent = text; server = none; cache = record cache { entries = r } }))
  unfolding deliver
  serve_again cache text page (copy, r, found, held) =
      let (wire, q, ran) = serve_page page cache in
      (r, ran ∙ rw found (rw (slice-Holds copy text held)))

  -- The first round: a page that the cache does not have.
  serve_new :
      {env : Round} {a b c d : ℕ} (cache : Store)
      → IsPage env a b c d host target
      → Absent (page_wire host target) cache.entries
      → (wire : Bytes) × (c_str wire ≡ done (page_wire host target))
        × (serve env cache ≡ fetch env cache (host, codes "80", page_wire host target) wire)
  unfolding deliver
  serve_new {env} cache page absent =
      let (wire, q, ran) = serve_page page cache in
      (
        wire,
        q,
        ran ∙ rw (search-Absent (page_wire host target) env.buf2 env.now cache.entries absent),
      )

  -- Where two clients ask for the same page, by request lines with any method that the proxy
  -- takes and an http URL without a port, of a size that the code's objects have room for; where
  -- the cache has room for the response and a free slot and no entry for the request, and a new
  -- entry has the sizes that malloc was asked for; and where the server of the first opens, takes
  -- the request and answers with lines that are strings, each shorter than buf2, which has less
  -- than 2^32 bytes, and together
  -- smaller than MAX_OBJECT_SIZE and than the buf2 of the second: the first client gets the
  -- response of the server byte for byte, its length is added to the count of the cache, and the
  -- second client gets the same bytes from the cache, and no server is asked.
  pub serve_twice :
      {first second : Round} {a b c d e f g h : ℕ} (cache : Store) (lines later : List Line)
      → IsPage first a b c d host target
      → IsPage second e f g h host target
      → IsServed first lines later
      → HasRoom first cache (length (all_bytes lines)) (page_wire host target)
      → length (all_bytes lines) < max_object_size
      → length (all_bytes lines) < length second.buf2
      → (kept again : Store) × (serve first cache
          ≡ done (record {
            sent = all_bytes lines;
            server = some (host, codes "80", page_wire host target);
            cache = kept;
          }))
        × (serve second kept
            ≡ done (record { sent = all_bytes lines; server = none; cache = again }))
        × (kept.current ≡ cache.current + length (all_bytes lines))
        × (again.current ≡ kept.current)
  serve_twice {first} {second} cache lines later page₁ page₂ served has small fits =
      let (wire, q, ran) = serve_new cache page₁ has.absent in
      elim (fetch_relays first cache (host, codes "80", page_wire host target) wire lines later
        served.opens served.takes served.given served.small served.text) [
          | inl (over, _) ↦ absurd (omega arith)
          | inr (_, copy, held, fetched) ↦
              let (kept, stored, counted, found) =
                store-search first.blank copy wire second.buf2 first.now second.now held.text q
                  (omega (arith, has.content_size))
                  (omega (arith, has.request_size, length-page_wire host target page₁.wire_fits))
                  fits cache has.room has.free has.absent in
              let (r, served_again) = serve_again kept (all_bytes lines) page₂ found in
              (
                kept,
                record kept { entries = r },
                ran ∙ fetched ∙ rw stored,
                served_again,
                counted,
                refl,
              )
        ]
