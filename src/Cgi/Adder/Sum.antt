-- ===== src/Cgi/Adder/Sum.antt =====
-- What `adder` answers to a query of two numbers.
use mathlib.Core.List.{append_assoc}
use multiplexing_proxy.Prelude.{
  ℕ, List, ◌+◌, ◌^◌, ◌≤◌, ◌<◌, ◌≡◌, refl, sym, ap, ◌∙◌, [], ◌∷◌, ◌++◌, length, drop, some, done,
  arith, pos, length-append, drop-length-append,
}
use multiplexing_proxy.Memory.{
  Bytes, c_str, IsText, IsText-append, c_str-append, strcpy-Holds, put_at-append, put,
}
use multiplexing_proxy.EventProxy.Wire.{codes}
use multiplexing_proxy.Tiny.Uri.{index}
use multiplexing_proxy.Tiny.Print.{decimal, printed, maxbuf, Sprintf, IsAppending}
use multiplexing_proxy.Tiny.Print.Extend.{texts, extend_all_lem}
use multiplexing_proxy.Tiny.Print.Decimal.{
  AllDigits, decimal-AllDigits, digits-IsText, length-decimal, spelled, spelled-decimal,
}
use multiplexing_proxy.Cgi.Atoi.{add_int, in_int, int_text, atoi-decimal}
use multiplexing_proxy.Cgi.Adder.{cut_and, arguments, page, cgi_header, respond_sum, adder}

pub index_digits : (s tail : Bytes) → AllDigits s → index (s ++ b'&' ∷ tail) b'&' ≡ some (length s)
unfolding index
index_digits [] tail h = refl
index_digits (c ∷ s) tail h = ground (arith, index_digits s tail h.1)

-- Cutting behind the digits.
pub cut_and_lem :
    (left right rest : Bytes)
    → AllDigits left
    → IsText right
    → cut_and (left ++ b'&' ∷ (right ++ 0 ∷ rest))
      ≡ done (left ++ 0 ∷ (right ++ 0 ∷ rest), length left + 1)
unfolding cut_and put
cut_and_lem left right rest digits ok =
    rw whole (rw (index_digits left right digits, put_at-append left _ _))
  where
    whole : c_str (left ++ b'&' ∷ (right ++ 0 ∷ rest)) ≡ done (left ++ b'&' ∷ right)
    whole =
        ap c_str (sym (append_assoc left (b'&' ∷ right) (0 ∷ rest)))
        ∙ c_str-append (left ++ b'&' ∷ right) rest
            (IsText-append left (b'&' ∷ right) (digits-IsText left digits) (omega arith, ok))

pub behind_cut : (left tail : Bytes) (c : ℕ) → drop (length left + 1) (left ++ c ∷ tail) ≡ tail
behind_cut left tail c =
    rw (← length-append left (c ∷ []), ← append_assoc left (c ∷ []) tail)
      (drop-length-append (left ++ c ∷ []) tail)

pub arguments_lem :
    (a b : ℕ) (left right arg1 arg2 : Bytes)
    → c_str left ≡ done (decimal a)
    → c_str right ≡ done (decimal b)
    → a < 2 ^ 31
    → b < 2 ^ 31
    → length (decimal a) < length arg1
    → length (decimal b) < length arg2
    → arguments left right arg1 arg2 ≡ done (pos a, pos b)
unfolding arguments
arguments_lem a b left right arg1 arg2 ql qr sa sb fa fb =
    let (_, copied, held) = strcpy-Holds arg1 left refl ql fa in
    let (_, copied', held') = strcpy-Holds arg2 right refl qr fb in
    rw copied
      (rw copied' (rw held.text (rw held'.text (rw (atoi-decimal a sa) (rw (atoi-decimal b sb))))))

-- The texts of the page are all short.
fits : (a : ℕ) → a < 2 ^ 31 → length (decimal a) ≤ 10
fits a h = length-decimal a 9 (omega arith)

-- The page, as one text.
abbrev pub sum_page : Bytes → Bytes → Bytes → Bytes
sum_page x y z =
    codes "Welcome to add.com: THE Internet addition portal.\r\n<p>The answer is: "
    ++ (x
        ++ (codes " + " ++ (y ++ (codes " = " ++ (z ++ codes "\r\n<p>Thanks for visiting!\r\n")))))

length-sum_page :
    (x y z : Bytes)
    → length x ≤ 10
    → length y ≤ 10
    → length z ≤ 10
    → length (sum_page x y z) < maxbuf
length-sum_page x y z hx hy hz = omega (arith, length-append x, length-append y, length-append z)

page_parts : Bytes → Bytes → Bytes → List Bytes
page_parts x y z =
    codes "THE Internet addition portal.\r\n<p>"
    ∷ (codes "The answer is: "
        ++ (x ++ (codes " + " ++ (y ++ (codes " = " ++ (z ++ codes "\r\n<p>"))))))
    ∷ codes "Thanks for visiting!\r\n"
    ∷ []

page_whole :
    (x y z : Bytes) → codes "Welcome to add.com: " ++ texts (page_parts x y z) ≡ sum_page x y z
unfolding page_parts
page_whole x y z = rw (
  append_assoc x (codes " + " ++ (y ++ (codes " = " ++ (z ++ codes "\r\n<p>")))),
  append_assoc y (codes " = " ++ (z ++ codes "\r\n<p>")),
  append_assoc z (codes "\r\n<p>"),
)

page_lem :
    (sp : Sprintf) (x y z : Bytes)
    → IsAppending sp
    → length x ≤ 10
    → length y ≤ 10
    → length z ≤ 10
    → page sp x y z ≡ done (sum_page x y z)
unfolding page printed page_parts
page_lem sp x y z appending hx hy hz =
    extend_all_lem sp (codes "Welcome to add.com: ") (page_parts x y z) appending
      (omega (arith, ap length (page_whole x y z), length-sum_page x y z hx hy hz))
    ∙ ap done (page_whole x y z)

pub add_int_pos : (a b : ℕ) → a + b < 2 ^ 31 → add_int (pos a) (pos b) ≡ done (pos (a + b))
unfolding add_int in_int
add_int_pos a b h = ground arith

-- What stands between the length of the page and the page.
abbrev pub header_end : Bytes
header_end = codes "\r\nContent-type: text/html\r\n\r\n"

pub header_whole :
    (n : ℕ)
    → cgi_header n ≡ codes "Connection: close\r\nContent-length: " ++ (decimal n ++ header_end)
header_whole n = refl

respond_sum_lem :
    (sp : Sprintf) (a b : ℕ)
    → IsAppending sp
    → a + b < 2 ^ 31
    → respond_sum sp (pos a, pos b)
      ≡ done (
          cgi_header (length (sum_page (decimal a) (decimal b) (decimal (a + b))))
          ++ sum_page (decimal a) (decimal b) (decimal (a + b)))
unfolding respond_sum int_text
respond_sum_lem sp a b appending small = rw (add_int_pos a b small) (
    rw (
      page_lem sp (decimal a) (decimal b) (decimal (a + b)) appending (fits a (omega arith))
        (fits b (omega arith)) (fits (a + b) small)))

-- For a query of two decimal numbers with an '&' between them, whose digits fit into the two
-- arrays and whose sum is an `int`, on a system where `sprintf(buf, "%s…", buf)` appends: `adder`
-- writes the three header lines, an empty line and the page that shows the two numbers and their
-- sum, all in decimal, and a client that reads the digits behind "Content-length: " reads the
-- number of bytes of that page.
pub adder_lem :
    (sp : Sprintf) (a b : ℕ) (rest arg1 arg2 : Bytes)
    → IsAppending sp
    → a + b < 2 ^ 31
    → length (decimal a) < length arg1
    → length (decimal b) < length arg2
    → (digits : Bytes) × (body : Bytes) × (adder sp
          (some (decimal a ++ b'&' ∷ (decimal b ++ 0 ∷ rest)))
          arg1
          arg2
        ≡ done ((codes "Connection: close\r\nContent-length: " ++ (digits ++ header_end)) ++ body))
      × (body ≡ sum_page (decimal a) (decimal b) (decimal (a + b)))
      × (spelled 0 (digits ++ header_end) ≡ length body)
unfolding adder spelled
adder_lem sp a b rest arg1 arg2 appending small fa fb = (
  decimal (length body),
  body,
  rw
      (cut_and_lem (decimal a) (decimal b) rest (decimal-AllDigits a)
        (digits-IsText (decimal b) (decimal-AllDigits b)))
      (rw (behind_cut (decimal a) (decimal b ++ 0 ∷ rest) 0) (
        rw
          (arguments_lem a b (decimal a ++ 0 ∷ (decimal b ++ 0 ∷ rest)) (decimal b ++ 0 ∷ rest) arg1
            arg2
            (c_str-append (decimal a) (decimal b ++ 0 ∷ rest)
              (digits-IsText (decimal a) (decimal-AllDigits a)))
            (c_str-append (decimal b) rest (digits-IsText (decimal b) (decimal-AllDigits b)))
            (omega arith) (omega arith) fa fb)
          (respond_sum_lem sp a b appending small
            ∙ ap (λ (h : Bytes). done (h ++ body)) (header_whole (length body))))),
  refl,
  spelled-decimal (length body) header_end,
)
  where
    body : Bytes
    body = sum_page (decimal a) (decimal b) (decimal (a + b))
