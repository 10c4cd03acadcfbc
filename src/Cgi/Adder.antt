-- ===== src/Cgi/Adder.antt =====
-- `main` of proxylab-handout/tiny/cgi-bin/adder.c.
pub mod Sum
use multiplexing_proxy.Prelude.{
  ℕ, ◌+◌, List, [], ◌∷◌, ◌++◌, length, drop, Option, none, some, Result, done, fault, ◌>>=◌, ℤ, pos,
}
use multiplexing_proxy.Memory.{Bytes, c_str, strcpy, put_at}
use multiplexing_proxy.EventProxy.Wire.{codes}
use multiplexing_proxy.Tiny.Uri.{index}
use multiplexing_proxy.Tiny.Print.{decimal, printed, Sprintf, extend_all}
use multiplexing_proxy.Cgi.Atoi.{atoi, add_int, int_text}

-- `p = strchr(buf, '&'); *p = '\0';`: the string is cut there, and what follows is at the next
-- offset. Without a '&', `p` is NULL.
unfoldable pub cut_at_and : Bytes → Option ℕ → Result (Bytes × ℕ)
cut_at_and buf none = fault
cut_at_and buf (some i) = put_at buf i (0 ∷ []) >>= λ cut. done (cut, i + 1)

unfoldable pub cut_and : Bytes → Result (Bytes × ℕ)
unfolding cut_at_and
cut_and buf = c_str buf >>= λ text. cut_at_and buf (index text b'&')

-- The two arguments, by way of `arg1` and `arg2`.
unfoldable pub arguments : Bytes → Bytes → Bytes → Bytes → Result (ℤ × ℤ)
arguments left right arg1 arg2 = do
  first ← strcpy arg1 left
  second ← strcpy arg2 right
  text1 ← c_str first
  text2 ← c_str second
  n1 ← atoi text1
  n2 ← atoi text2
  done (n1, n2)

-- The page, which `sprintf` builds in `content`.
unfoldable pub page : Sprintf → Bytes → Bytes → Bytes → Result Bytes
unfolding printed extend_all
page sp n1 n2 sum = do
  first ← printed (codes "Welcome to add.com: ")
  extend_all sp first (
      codes "THE Internet addition portal.\r\n<p>"
      ∷ (codes "The answer is: "
          ++ (n1 ++ (codes " + " ++ (n2 ++ (codes " = " ++ (sum ++ codes "\r\n<p>"))))))
      ∷ codes "Thanks for visiting!\r\n"
      ∷ [])

-- What the program writes, in front of a body: the header.
abbrev pub cgi_header : ℕ → Bytes
cgi_header size =
    codes "Connection: close\r\n"
    ++ (codes "Content-length: "
        ++ (decimal size ++ (codes "\r\n" ++ codes "Content-type: text/html\r\n\r\n")))

unfoldable pub respond_sum : Sprintf → ℤ × ℤ → Result Bytes
unfolding page
respond_sum sp (n1, n2) = do
  sum ← add_int n1 n2
  content ← page sp (int_text n1) (int_text n2) (int_text sum)
  done (cgi_header (length content) ++ content)

-- The whole output. `query` is what `getenv("QUERY_STRING")` gives.
unfoldable pub adder : Sprintf → Option Bytes → Bytes → Bytes → Result Bytes
adder sp none arg1 arg2 = respond_sum sp (pos 0, pos 0)
adder sp (some query) arg1 arg2 = do
  (cut, next) ← cut_and query
  (n1, n2) ← arguments cut (drop next cut) arg1 arg2
  respond_sum sp (n1, n2)
