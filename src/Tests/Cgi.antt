-- ===== src/Tests/Cgi.antt =====
-- The CGI programs at concrete inputs.
use multiplexing_proxy.Prelude.{refl, ◌≡◌, [], ◌∷◌, ◌++◌, length, some, done, pos, arith}
use multiplexing_proxy.Memory.{Bytes, calloc, length-calloc}
use multiplexing_proxy.Tiny.Print.{decimal, Sprintf, IsAppending}
use multiplexing_proxy.Tiny.Print.Decimal.{spelled, length-decimal}
use multiplexing_proxy.EventProxy.Wire.{codes}
use multiplexing_proxy.Cgi.Adder.{adder}
use multiplexing_proxy.Cgi.Adder.Sum.{sum_page, header_end, adder_lem}
use multiplexing_proxy.Cgi.Slow.{slow, sleeps, writes}
use multiplexing_proxy.Cgi.Slow.Length.{third, alphabet, slow_lem}

-- A library whose `sprintf(buf, "%s…", buf)` appends.
abbrev pub appends_in_place : Sprintf
appends_in_place = record { extend = λ s t. done (s ++ t) }

pub appends_in_place-IsAppending : IsAppending appends_in_place
appends_in_place-IsAppending = record { appends = λ s t fits. refl }

adder_lem_example :
    (digits : Bytes) × (body : Bytes) × (adder appends_in_place
        (some (decimal 15 ++ b'&' ∷ (decimal 27 ++ 0 ∷ [])))
        (calloc 64)
        (calloc 64)
      ≡ done ((codes "Connection: close\r\nContent-length: " ++ (digits ++ header_end)) ++ body))
    × (body ≡ sum_page (decimal 15) (decimal 27) (decimal 42))
    × (spelled 0 (digits ++ header_end) ≡ length body)
adder_lem_example =
    adder_lem appends_in_place 15 27 [] (calloc 64) (calloc 64) appends_in_place-IsAppending
      (omega arith) (omega (arith, length-calloc 64, length-decimal 15 1 (omega arith)))
      (omega (arith, length-calloc 64, length-decimal 27 1 (omega arith)))

slow_lem_example :
    (digits : Bytes) × (slow
        (some (decimal 2 ++ b'&' ∷ ((decimal 3 ++ third (some (codes "x"))) ++ 0 ∷ [])))
        (calloc 64)
        (calloc 64)
      ≡ done (
          sleeps (pos 2)
          ∷ writes (codes "Connection: close\r\nContent-length: " ++ (digits ++ header_end))
          ∷ sleeps (pos 2)
          ∷ writes (alphabet 0 3)
          ∷ []))
    × (spelled 0 (digits ++ header_end) ≡ 3)
    × (length (alphabet 0 3) ≡ 3)
slow_lem_example =
    slow_lem 2 3 (some (codes "x")) [] (calloc 64) (calloc 64) (omega arith) (omega arith)
      (omega arith) (omega (arith, length-calloc 64, length-decimal 2 0 (omega arith)))
      (omega (arith, length-calloc 64, length-decimal 3 0 (omega arith)))
