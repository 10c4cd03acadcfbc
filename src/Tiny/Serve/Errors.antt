-- ===== src/Tiny/Serve/Errors.antt =====
-- The page that `clienterror` sends.
use mathlib.Core.List.{append_assoc}
use multiplexing_proxy.Prelude.{
  ap, ◌∙◌, ◌+◌, ◌<◌, ◌≡◌, refl, List, [], ◌∷◌, ◌++◌, length, done, arith, lt→ltb, length-append,
}
use multiplexing_proxy.Memory.{Bytes}
use multiplexing_proxy.EventProxy.Wire.{codes}
use multiplexing_proxy.Tiny.Print.{decimal, printed, maxbuf, Sprintf, IsAppending, extend_all}
use multiplexing_proxy.Tiny.Print.Extend.{texts, extend_all_lem}
use multiplexing_proxy.Tiny.Print.Decimal.{spelled, spelled-decimal}
use multiplexing_proxy.Tiny.Serve.{Action, send, error_body, clienterror}

abbrev pub status_line : Bytes → Bytes → Bytes
status_line errnum shortmsg =
    codes "HTTP/1.0 " ++ (errnum ++ (codes " " ++ (shortmsg ++ codes "\r\n")))

-- Its body.
abbrev pub page_text : Bytes → Bytes → Bytes → Bytes → Bytes
page_text cause errnum shortmsg longmsg =
    codes "<html><title>Tiny Error</title><body bgcolor=ffffff>\r\n"
    ++ (errnum
        ++ (codes ": "
            ++ (shortmsg
                ++ (codes "\r\n<p>"
                    ++ (longmsg
                        ++ (codes ": "
                            ++ (cause ++ codes "\r\n<hr><em>The Tiny Web server</em>\r\n")))))))

-- A whole error page: a status line, two headers, of which a client reads the length of what
-- follows them, and the body.
pub record IsErrorPage (cause errnum shortmsg longmsg : Bytes) (sent : List Action) : Type 0 where
  pub digits : Bytes
  pub page :
      sent
      ≡ send (status_line errnum shortmsg)
        ∷ send (codes "Content-type: text/html\r\n")
        ∷ send (codes "Content-length: " ++ (digits ++ codes "\r\n\r\n"))
        ∷ send (page_text cause errnum shortmsg longmsg)
        ∷ []
  pub size :
      spelled 0 (digits ++ codes "\r\n\r\n") ≡ length (page_text cause errnum shortmsg longmsg)

body_parts : Bytes → Bytes → Bytes → Bytes → List Bytes
body_parts cause errnum shortmsg longmsg =
    codes "<body bgcolor=ffffff>\r\n"
    ∷ (errnum ++ (codes ": " ++ (shortmsg ++ codes "\r\n")))
    ∷ (codes "<p>" ++ (longmsg ++ (codes ": " ++ (cause ++ codes "\r\n"))))
    ∷ codes "<hr><em>The Tiny Web server</em>\r\n"
    ∷ []

body_whole :
    (cause errnum shortmsg longmsg : Bytes)
    → codes "<html><title>Tiny Error</title>" ++ texts (body_parts cause errnum shortmsg longmsg)
      ≡ page_text cause errnum shortmsg longmsg
unfolding body_parts
body_whole cause errnum shortmsg longmsg = rw (
  append_assoc errnum (codes ": " ++ (shortmsg ++ codes "\r\n")),
  append_assoc shortmsg (codes "\r\n"),
  append_assoc longmsg (codes ": " ++ (cause ++ codes "\r\n")),
  append_assoc cause (codes "\r\n"),
)

-- Where the texts are short enough for the buffers and `sprintf(buf, "%s…", buf)` appends, the page
-- is whole.
pub clienterror_lem :
    (sp : Sprintf) (cause errnum shortmsg longmsg : Bytes)
    → IsAppending sp
    → length cause + length errnum + length shortmsg + length longmsg < 8000
    → (sent : List Action) × (clienterror sp cause errnum shortmsg longmsg ≡ done sent)
      × IsErrorPage cause errnum shortmsg longmsg sent
unfolding clienterror error_body printed spelled body_parts
clienterror_lem sp cause errnum shortmsg longmsg appending short = (
  _,
  rw built (rw (lt→ltb (length (status_line errnum shortmsg)) maxbuf status_fits) refl),
  record {
    digits = decimal (length (page_text cause errnum shortmsg longmsg));
    page = refl;
    size = spelled-decimal (length (page_text cause errnum shortmsg longmsg)) (codes "\r\n\r\n");
  },
)
  where
    whole :
        codes "<html><title>Tiny Error</title>" ++ texts (body_parts cause errnum shortmsg longmsg)
        ≡ page_text cause errnum shortmsg longmsg
    whole = body_whole cause errnum shortmsg longmsg

    body_fits : length (page_text cause errnum shortmsg longmsg) < maxbuf
    body_fits = omega (
      arith,
      length-append errnum,
      length-append shortmsg,
      length-append longmsg,
      length-append cause,
    )

    built :
        extend_all sp
          (codes "<html><title>Tiny Error</title>")
          (body_parts cause errnum shortmsg longmsg)
        ≡ done (page_text cause errnum shortmsg longmsg)
    built =
        extend_all_lem sp (codes "<html><title>Tiny Error</title>")
          (body_parts cause errnum shortmsg longmsg) appending
          (omega (arith, ap length whole, body_fits))
        ∙ ap done whole

    status_fits : length (status_line errnum shortmsg) < maxbuf
    status_fits = omega (arith, length-append errnum, length-append shortmsg)
