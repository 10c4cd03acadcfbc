-- ===== src/EventProxy/Request/Authority.antt =====
-- The parts of a request up to the authority: the two schemes, and a port.
use mathlib.Core.List.{append_assoc}
use native.Mathlib.Nat.{zero-add}
use multiplexing_proxy.Prelude.{
  ℕ, suc, ◌+◌, ◌-◌, ◌<◌, ◌≤◌, ◌≡◌, refl, sym, ap, ◌∙◌, Bool, true, false, Option, none, some, [],
  ◌∷◌, ◌++◌, length, drop, set, done, fault, arith, length-append, drop-length-append, lt→ltb,
  ¬lt→ltb, Result, ◌>>=◌, Ends, returns, faults,
}
use multiplexing_proxy.Memory.{
  Bytes, c_str, calloc, equal, terminated, put, slice, Holds, IsText, put-drop, put-Ends,
  drop-calloc_suc, c_str-append, length-calloc,
}
use multiplexing_proxy.EventProxy.Wire.{codes}
use multiplexing_proxy.EventProxy.Request.{
  Request, after_scheme, scan_authority, split_authority, choose_port, slash,
}
use multiplexing_proxy.EventProxy.Request.Locate.{
  IsHost, scan_authority_lem, scan_authority_port, slice_at,
}
use multiplexing_proxy.EventProxy.Request.Whole.{opening, scheme_found}

-- The first twelve bytes, with `https://`.
abbrev pub opening_secure : ℕ → ℕ → ℕ → ℕ → Bytes
opening_secure a b c d = a ∷ b ∷ c ∷ d ∷ (codes "https://")

-- The first bytes of a request, by whether its scheme is https, and where the host begins.
abbrev pub first_bytes : Bool → ℕ → ℕ → ℕ → ℕ → Bytes
first_bytes false a b c d = opening a b c d
first_bytes true a b c d = opening_secure a b c d

abbrev pub host_start : Bool → ℕ
host_start false = 11
host_start true = 12

pub host_start-length :
    (secure : Bool) (a b c d : ℕ) → host_start secure ≡ length (first_bytes secure a b c d)
host_start-length false a b c d = refl
host_start-length true a b c d = refl

pub scheme_passed :
    (secure : Bool) (a b c d : ℕ) (back : Bytes)
    → after_scheme (first_bytes secure a b c d ++ back) ≡ done (host_start secure)
unfolding after_scheme c_str equal
scheme_passed false a b c d back = scheme_found a b c d back
scheme_passed true a b c d back =
    rw (slice_at (a ∷ b ∷ c ∷ d ∷ []) (codes "https") (codes "://" ++ back) 4 5 refl refl)

-- The authority of a URL, with or without a port.
abbrev pub authority : Bytes → Option Bytes → Bytes
authority host none = host
authority host (some digits) = host ++ b':' ∷ digits

-- A port that fits into `portNumber[8]`.
abbrev pub IsPort : Option Bytes → Type 0
IsPort none = Unit
IsPort (some digits) = IsHost digits × IsText digits × (length digits < 8)

abbrev pub port_or_80 : Option Bytes → Bytes
port_or_80 none = codes "80"
port_or_80 (some digits) = digits

always_faults {ℓ κ} :
    {A : Type ℓ} {B : Type κ} {m : Result A} → Ends m → ◌≡◌ {A = Result B} (m >>= λ _. fault) fault
always_faults returns = refl
always_faults faults = refl

pub later : (secure : Bool) → 0 < host_start secure
later false = omega arith
later true = omega arith

pub host_scanned :
    (first host tail : Bytes) (at : ℕ)
    → at ≡ length first
    → IsHost host
    → scan_authority at (drop at (first ++ (host ++ slash ∷ tail))) 0 0 ≡ done (length host, 0)
host_scanned first host tail at placed h =
    rw (placed, drop-length-append)
      (scan_authority_lem (length first) host tail 0 h
        ∙ ap (λ (n : ℕ). done (n, 0)) (zero-add (length host)))

pub choose_given : (r : Request) → 0 < r.port_spot → choose_port r ≡ done r.port_number
unfolding choose_port
choose_given r given = ground arith

set_at : (s : Bytes) (c : ℕ) (r : Bytes) (e : ℕ) → set (s ++ c ∷ r) (length s) e ≡ s ++ e ∷ r
set_at [] c r e = refl
set_at (x ∷ s) c r e = ap (◌∷◌ x) (set_at s c r e)

module _ (first host digits back : Bytes) (at : ℕ) (placed : at ≡ length first) where
  abbrev with_port : Bytes
  with_port = first ++ ((host ++ b':' ∷ digits) ++ slash ∷ back)

  port_behind : with_port ≡ (first ++ (host ++ b':' ∷ [])) ++ (digits ++ slash ∷ back)
  port_behind = simp append_assoc

  host_in_front : with_port ≡ first ++ (host ++ (b':' ∷ (digits ++ slash ∷ back)))
  host_in_front = simp append_assoc

  authority_length : length (host ++ b':' ∷ digits) ≡ length host + 1 + length digits
  authority_length = omega (arith, length-append host (b':' ∷ digits))

  pub port_scanned :
      IsHost host
      → IsHost digits
      → scan_authority at (drop at with_port) 0 0
        ≡ done (length (host ++ b':' ∷ digits), at + length host)
  port_scanned h k =
      rw (host_in_front, placed, drop-length-append)
        (scan_authority_port (length first) host digits back h k
          ∙ ap (λ (n : ℕ). done (n, length first + length host)) (sym authority_length))

  -- The port's bytes, and where they are cut off.
  digits_sliced :
      (m : ℕ) → m ≡ at + length host → slice with_port (m + 1) (length digits) ≡ done digits
  digits_sliced m e = rw port_behind (
      slice_at (first ++ (host ++ b':' ∷ [])) digits (slash ∷ back) (m + 1) (length digits)
        (omega (
          arith,
          placed,
          e,
          length-append first (host ++ b':' ∷ []),
          length-append host (b':' ∷ []),
        ))
        refl)

  host_sliced : slice with_port at (length host) ≡ done host
  host_sliced =
      rw host_in_front
        (slice_at first host (b':' ∷ (digits ++ slash ∷ back)) at (length host) placed refl)

  abbrev port_object : Bytes
  port_object = digits ++ 0 ∷ calloc (8 - length digits - 1)

  port_stored : length digits < 8 → put (calloc 8) digits ≡ done port_object
  port_stored short =
      put-drop (calloc 8) digits (omega (arith, length-calloc 8))
      ∙ rw (drop-calloc_suc (length digits) 8 short) refl

  port_object-Holds : IsText digits → length digits < 8 → Holds port_object 8 digits
  port_object-Holds text short = record {
    size = omega (
      arith,
      length-append digits (0 ∷ calloc (8 - length digits - 1)),
      length-calloc (8 - length digits - 1),
    );
    text = c_str-append digits (calloc (8 - length digits - 1)) text;
  }

  pub port_split :
      0 < at
      → length digits < 8
      → split_authority with_port at (length (host ++ b':' ∷ digits)) (at + length host)
        ≡ done (terminated host, port_object)
  unfolding split_authority
  port_split later short = rw spot_eq (
      rw port_length (
        rw (digits_sliced (suc m) (omega (arith, spot_eq))) (
          rw (port_stored short) (
            rw host_length (
              rw host_sliced (
                rw (lt→ltb (length digits) 8 short)
                  (ap (λ p. done (terminated host, p)) (set_at digits 0 _ 0))))))))
    where
      m : ℕ
      m = at + length host - 1

      spot_eq : at + length host ≡ suc m
      spot_eq = omega arith

      port_length : at + length (host ++ b':' ∷ digits) - (suc m + 1) ≡ length digits
      port_length = omega (arith, authority_length)

      host_length : length (host ++ b':' ∷ digits) - (length digits + 1) ≡ length host
      host_length = omega (arith, authority_length)

  pub port_overflow :
      0 < at
      → 8 ≤ length digits
      → split_authority with_port at (length (host ++ b':' ∷ digits)) (at + length host) ≡ fault
  unfolding split_authority
  port_overflow later long = rw spot_eq (
      rw port_length (
        rw (digits_sliced (suc m) (omega (arith, spot_eq))) (
          rw (host_length, host_sliced, ¬lt→ltb (length digits) 8 (λ short. omega arith))
            (always_faults (put-Ends (calloc 8) digits)))))
    where
      m : ℕ
      m = at + length host - 1

      spot_eq : at + length host ≡ suc m
      spot_eq = omega arith

      port_length : at + length (host ++ b':' ∷ digits) - (suc m + 1) ≡ length digits
      port_length = omega (arith, authority_length)

      host_length : length (host ++ b':' ∷ digits) - (length digits + 1) ≡ length host
      host_length = omega (arith, authority_length)
