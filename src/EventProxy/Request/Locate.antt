-- ===== src/EventProxy/Request/Locate.antt =====
-- The parts that `locate` finds in a request "GET http://host/path version\r\n" with headers.
use native.Mathlib.Nat.{zero-add}
use multiplexing_proxy.Prelude.{
  ℕ, ◌+◌, ◌≡◌, ◌≢◌, refl, ap, ◌∙◌, ◌==◌, true, false, [], ◌∷◌, ◌++◌, length, set, done, leb, arith,
  length-append, drop-length-append, take-length-append,
}
use multiplexing_proxy.Memory.{Bytes, slice}
use multiplexing_proxy.EventProxy.Request.{scan_authority, scan_uri, slash, space}

-- A host without a port: no '/', no space, no ':'.
abbrev pub IsHost : Bytes → Type 0
IsHost [] = Unit
IsHost (c ∷ s) = (c ≢ slash) × (c ≢ space) × (c ≢ b':') × IsHost s

-- A path and version: no '\r', no '\n'.
abbrev pub IsTarget : Bytes → Type 0
IsTarget [] = Unit
IsTarget (c ∷ s) = (c ≢ b'\r') × (c ≢ b'\n') × IsTarget s

-- A piece of the authority without '/', space or ':' is passed over.
pub scan_authority_skip :
    (at : ℕ) (piece tail : Bytes) (n spot : ℕ)
    → IsHost piece
    → scan_authority at (piece ++ tail) n spot ≡ scan_authority at tail (n + length piece) spot
unfolding scan_authority
scan_authority_skip at [] tail n spot h = ap (λ k. scan_authority at tail k spot) (omega arith)
scan_authority_skip at (c ∷ piece) tail n spot h =
    rw (other, other', other'')
      (scan_authority_skip at piece tail (n + 1) spot h.3
        ∙ ap (λ k. scan_authority at tail k spot) (omega arith))
  where
    other : (c == slash) ≡ false
    other = ground (arith, h.0)

    other' : (c == space) ≡ false
    other' = ground (arith, h.1)

    other'' : (c == b':') ≡ false
    other'' = ground (arith, h.2)

pub scan_authority_end :
    (at : ℕ) (tail : Bytes) (n spot : ℕ) → scan_authority at (slash ∷ tail) n spot ≡ done (n, spot)
unfolding scan_authority
scan_authority_end at tail n spot = refl

pub scan_authority_lem :
    (at : ℕ) (host tail : Bytes) (n : ℕ)
    → IsHost host
    → scan_authority at (host ++ slash ∷ tail) n 0 ≡ done (n + length host, 0)
scan_authority_lem at host tail n h =
    scan_authority_skip at host (slash ∷ tail) n 0 h
    ∙ scan_authority_end at tail (n + length host) 0

-- With a port, the last ':' is where the host ends.
pub scan_authority_port :
    (at : ℕ) (host digits tail : Bytes)
    → IsHost host
    → IsHost digits
    → scan_authority at (host ++ b':' ∷ (digits ++ slash ∷ tail)) 0 0
      ≡ done (length host + 1 + length digits, at + length host)
unfolding scan_authority
scan_authority_port at host digits tail h k =
    scan_authority_skip at host (b':' ∷ (digits ++ slash ∷ tail)) 0 0 h
    ∙ ap (λ k. scan_authority at (b':' ∷ (digits ++ slash ∷ tail)) k 0) (zero-add (length host))
    ∙ scan_authority_skip at digits (slash ∷ tail) (length host + 1) (at + length host) k
    ∙ scan_authority_end at tail (length host + 1 + length digits) (at + length host)

pub scan_uri_lem :
    (target tail : Bytes) (n : ℕ)
    → IsTarget target
    → scan_uri (target ++ b'\r' ∷ b'\n' ∷ tail) n ≡ done (n + length target)
unfolding scan_uri
scan_uri_lem [] tail n h = ground arith
scan_uri_lem (c ∷ []) tail n h = ground arith
scan_uri_lem (c ∷ d ∷ target) tail n h = ground (arith, scan_uri_lem (d ∷ target) tail (n + 1) h.2)

-- A piece of an object, found by what stands in front of it.
pub slice_at :
    (front piece back : Bytes) (i n : ℕ)
    → i ≡ length front
    → n ≡ length piece
    → slice (front ++ (piece ++ back)) i n ≡ done piece
unfolding slice
slice_at front piece back i n e f =
    rw (e, f)
      (rw (drop-length-append front (piece ++ back), take-length-append piece back)
        (rw (inside) refl))
  where
    inside : leb (length front + length piece) (length (front ++ (piece ++ back))) ≡ true
    inside = ground (arith, length-append front (piece ++ back), length-append piece back)

pub set_last : (s : Bytes) (c d e : ℕ) → set (s ++ c ∷ d ∷ []) (length s) e ≡ s ++ e ∷ d ∷ []
set_last [] c d e = refl
set_last (x ∷ s) c d e = ap (◌∷◌ x) (set_last s c d e)
