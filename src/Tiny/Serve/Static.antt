-- ===== src/Tiny/Serve/Static.antt =====
-- The header that `serve_static` sends.
use mathlib.Core.List.{append_assoc, append-nil}
use multiplexing_proxy.Prelude.{
  List, ap, ◌∙◌, ◌^◌, ◌≤◌, ◌<◌, ◌≡◌, [], ◌∷◌, ◌++◌, length, done, arith, length-append,
}
use multiplexing_proxy.Memory.{Bytes}
use multiplexing_proxy.EventProxy.Wire.{codes}
use multiplexing_proxy.Tiny.Uri.{get_filetype}
use multiplexing_proxy.Tiny.Print.{decimal, printed, maxbuf, Sprintf, IsAppending}
use multiplexing_proxy.Tiny.Print.Extend.{texts, extend_all_lem}
use multiplexing_proxy.Tiny.Print.Decimal.{spelled, spelled-decimal, length-decimal}
use multiplexing_proxy.Tiny.Serve.{send, static_header, serve_static}

-- In front of the size.
abbrev pub header_front : Bytes
header_front =
    codes "HTTP/1.0 200 OK\r\nServer: Tiny Web Server\r\nConnection: close\r\nContent-length: "

-- Behind it.
abbrev pub header_back : Bytes → Bytes
header_back filename = codes "\r\nContent-type: " ++ (get_filetype filename ++ codes "\r\n\r\n")

length-get_filetype : (filename : Bytes) → length (get_filetype filename) ≤ 10
unfolding get_filetype
length-get_filetype filename = ground arith

header_of : Bytes → Bytes → List Bytes
header_of filename digits =
    codes "Server: Tiny Web Server\r\n"
    ∷ codes "Connection: close\r\n"
    ∷ (codes "Content-length: " ++ (digits ++ codes "\r\n"))
    ∷ (codes "Content-type: " ++ (get_filetype filename ++ codes "\r\n\r\n"))
    ∷ []

header_whole :
    (filename digits : Bytes)
    → codes "HTTP/1.0 200 OK\r\n" ++ texts (header_of filename digits)
      ≡ header_front ++ (digits ++ header_back filename)
unfolding header_of
header_whole filename digits =
    rw (append-nil (get_filetype filename ++ codes "\r\n\r\n"), append_assoc digits (codes "\r\n"))

-- A file of less than 2^31 bytes is served, on a system where `sprintf(buf, "%s…", buf)` appends: the
-- header fits in its buffer, and a client that reads the digits behind "Content-length: " reads the
-- number of the bytes that follow the header.
pub serve_static_lem :
    (sp : Sprintf) (filename content : Bytes)
    → IsAppending sp
    → length content < 2 ^ 31
    → (digits : Bytes) × (serve_static sp filename content
        ≡ done (send (header_front ++ (digits ++ header_back filename)) ∷ send content ∷ []))
      × (spelled 0 (digits ++ header_back filename) ≡ length content)
      × (length (header_front ++ (digits ++ header_back filename)) < maxbuf)
unfolding serve_static static_header printed spelled header_of
serve_static_lem sp filename content appending small =
    let digits : Bytes = decimal (length content) in
    let whole = header_whole filename digits in
    let fits : length (header_front ++ (digits ++ header_back filename)) < maxbuf = omega (
      arith,
      length-append digits (header_back filename),
      length-append (get_filetype filename) (codes "\r\n\r\n"),
      length-get_filetype filename,
      length-decimal (length content) 9 (omega arith),
    ) in
    (
      digits,
      rw (
          extend_all_lem sp (codes "HTTP/1.0 200 OK\r\n") (header_of filename digits) appending
            (omega (arith, ap length whole, fits))
          ∙ ap done whole),
      spelled-decimal (length content) (header_back filename),
      fits,
    )
