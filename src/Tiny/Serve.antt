-- ===== src/Tiny/Serve.antt =====
-- `serve_static`, `serve_dynamic` and `clienterror` of proxylab-handout/tiny/tiny.c: what they
-- send.
pub mod Static
pub mod Errors
use multiplexing_proxy.Prelude.{ℕ, List, [], ◌∷◌, ◌++◌, length, Result, done, ◌>>=◌}
use multiplexing_proxy.Memory.{Bytes}
use multiplexing_proxy.EventProxy.Wire.{codes}
use multiplexing_proxy.Tiny.Uri.{get_filetype}
use multiplexing_proxy.Tiny.Print.{decimal, printed, Sprintf, extend_all}

-- What a connection does: bytes for the client, in the order in which they are written, and a CGI
-- program that is run with its arguments, whose output follows.
pub data Action : Type 0 where
  send : Bytes → Action
  run_cgi : (filename cgiargs : Bytes) → Action

-- The header that `serve_static` builds, piece by piece, in one buffer.
unfoldable pub static_header : Sprintf → Bytes → ℕ → Result Bytes
unfolding get_filetype decimal printed extend_all
static_header sp filename filesize = do
  first ← printed (codes "HTTP/1.0 200 OK\r\n")
  extend_all sp first (
      codes "Server: Tiny Web Server\r\n"
      ∷ codes "Connection: close\r\n"
      ∷ (codes "Content-length: " ++ (decimal filesize ++ codes "\r\n"))
      ∷ (codes "Content-type: " ++ (get_filetype filename ++ codes "\r\n\r\n"))
      ∷ [])

-- `content` is the mapped file, of `filesize` bytes.
unfoldable pub serve_static : Sprintf → Bytes → Bytes → Result (List Action)
unfolding static_header
serve_static sp filename content = do
  header ← static_header sp filename (length content)
  done (send header ∷ send content ∷ [])

unfoldable pub serve_dynamic : Bytes → Bytes → List Action
serve_dynamic filename cgiargs =
    send (codes "HTTP/1.0 200 OK\r\n")
    ∷ send (codes "Server: Tiny Web Server\r\n")
    ∷ run_cgi filename cgiargs
    ∷ []

-- The page that `clienterror` sends. In C, `""ffffff""` ends one literal and begins the next, so
-- no quotes stand in the text.
unfoldable pub error_body : Sprintf → Bytes → Bytes → Bytes → Bytes → Result Bytes
unfolding printed extend_all
error_body sp cause errnum shortmsg longmsg = do
  first ← printed (codes "<html><title>Tiny Error</title>")
  extend_all sp first (
      codes "<body bgcolor=ffffff>\r\n"
      ∷ (errnum ++ (codes ": " ++ (shortmsg ++ codes "\r\n")))
      ∷ (codes "<p>" ++ (longmsg ++ (codes ": " ++ (cause ++ codes "\r\n"))))
      ∷ codes "<hr><em>The Tiny Web server</em>\r\n"
      ∷ [])

unfoldable pub clienterror : Sprintf → Bytes → Bytes → Bytes → Bytes → Result (List Action)
unfolding error_body printed decimal
clienterror sp cause errnum shortmsg longmsg = do
  body ← error_body sp cause errnum shortmsg longmsg
  status ← printed (codes "HTTP/1.0 " ++ (errnum ++ (codes " " ++ (shortmsg ++ codes "\r\n"))))
  let size = codes "Content-length: " ++ (decimal (length body) ++ codes "\r\n\r\n")
  done (send status ∷ send (codes "Content-type: text/html\r\n") ∷ send size ∷ send body ∷ [])
