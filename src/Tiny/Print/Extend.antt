-- ===== src/Tiny/Print/Extend.antt =====
-- What a run of `sprintf(buf, "%s…", buf)` leaves, on a system where each call appends.
use mathlib.Core.List.{append_assoc, append-nil}
use multiplexing_proxy.Prelude.{
  ◌<◌, ◌≡◌, ap, sym, ◌∙◌, List, [], ◌∷◌, ◌++◌, length, done, arith, length-append,
}
use multiplexing_proxy.Memory.{Bytes}
use multiplexing_proxy.Tiny.Print.{maxbuf, Sprintf, IsAppending, extend_all}

abbrev pub texts : List Bytes → Bytes
texts [] = []
texts (t ∷ ts) = t ++ texts ts

pub extend_all_lem :
    (sp : Sprintf) (s : Bytes) (ts : List Bytes)
    → IsAppending sp
    → length (s ++ texts ts) < maxbuf
    → extend_all sp s ts ≡ done (s ++ texts ts)
unfolding extend_all
extend_all_lem sp s [] h fits = ap done (sym (append-nil s))
extend_all_lem sp s (t ∷ ts) h fits =
    rw
      (h.appends s t (
        omega (
          arith,
          fits,
          length-append s t,
          length-append s (t ++ texts ts),
          length-append t (texts ts),
        )))
      (extend_all_lem sp (s ++ t) ts h
          (omega (arith, fits, ap length (append_assoc s t (texts ts))))
        ∙ ap done (append_assoc s t (texts ts)))
