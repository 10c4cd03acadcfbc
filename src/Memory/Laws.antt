-- ===== src/Memory/Laws.antt =====
-- The string functions, in terms of the strings that the objects hold.
use mathlib.Core.List.{append_assoc}
use multiplexing_proxy.Prelude.{
  >>=-assoc, ℕ, zero, suc, ◌+◌, ◌-◌, ◌≤◌, ◌<◌, ◌≡◌, ◌≢◌, inl, inr, refl, ap, ◌∙◌, [], ◌∷◌, ◌++◌,
  length, drop, Result, done, fault, starved, ◌>>=◌, ◌==◌, arith, length-append, length-drop,
  length-replicate, Bool-cases,
}
use multiplexing_proxy.Memory.Strings.{
  Bytes, c_str, put, put_at, terminated, strcpy, strcat, calloc,
}

-- No byte of a string is NUL.
abbrev pub IsText : Bytes → Type 0
IsText [] = Unit
IsText (c ∷ cs) = (c ≢ 0) × IsText cs

pub IsText-append : (s t : Bytes) → IsText s → IsText t → IsText (s ++ t)
IsText-append [] t hs ht = ht
IsText-append (c ∷ s) t hs ht = (hs.0, IsText-append s t hs.1 ht)

-- An object of `n` bytes that holds the string `s`.
pub record Holds (buf : Bytes) (n : ℕ) (s : Bytes) : Type 0 where
  pub size : length buf ≡ n
  pub text : c_str buf ≡ done s

pub c_str-append : (s r : Bytes) → IsText s → c_str (s ++ 0 ∷ r) ≡ done s
unfolding c_str
c_str-append [] r h = refl
c_str-append (c ∷ s) r h = ground (arith, c_str-append s r h.1)

-- What reading a string says of its first byte.
data First (c : ℕ) (cs s : Bytes) : Type 0 where
  nul : c ≡ 0 → s ≡ [] → First c cs s
  byte : (t : Bytes) → c ≢ 0 → c_str cs ≡ done t → s ≡ c ∷ t → First c cs s

c_str-First : (c : ℕ) (cs : Bytes) {s : Bytes} → c_str (c ∷ cs) ≡ done s → First c cs s
c_str-First c cs {s} e = go (c_str cs) refl
  where
    go : (r : Result Bytes) → c_str cs ≡ r → First c cs s
    go (done t) q = elim (Bool-cases (c == 0)) [
      | inl z ↦ nul (ground arith) (unfold c_str in ground arith)
      | inr nz ↦ byte t (ground arith) q (unfold c_str in ground arith)
    ]
    go fault q = nul (unfold c_str in ground arith) (unfold c_str in ground arith)
    go starved q = nul (unfold c_str in ground arith) (unfold c_str in ground arith)

pub c_str-IsText : (buf : Bytes) {s : Bytes} → c_str buf ≡ done s → IsText s
c_str-IsText [] e = unfold c_str in cc
c_str-IsText (c ∷ cs) e = elim (c_str-First c cs e) [
  | nul z q ↦ rw q tt
  | byte t nz r q ↦ rw q (nz, c_str-IsText cs r)
]

-- A string and its NUL stand at the front of the object.
pub c_str-split : (buf : Bytes) {s : Bytes} → c_str buf ≡ done s → (r : Bytes) × (buf ≡ s ++ 0 ∷ r)
c_str-split [] e = unfold c_str in absurd (cc)
c_str-split (c ∷ cs) e = elim (c_str-First c cs e) [
  | nul z q ↦ (cs, rw (q, z))
  | byte t nz r q ↦ let (rest, p) = c_str-split cs r in (rest, rw (q, p))
]

pub put-drop :
    (dst src : Bytes) → length src ≤ length dst → put dst src ≡ done (src ++ drop (length src) dst)
unfolding put
put-drop dst [] h = refl
put-drop [] (c ∷ src) h = absurd (omega arith)
put-drop (x ∷ dst) (c ∷ src) h = rw (put-drop dst src (omega arith))

pub put-fault : (dst src : Bytes) → length dst < length src → put dst src ≡ fault
unfolding put
put-fault dst [] h = absurd (omega arith)
put-fault [] (c ∷ src) h = refl
put-fault (x ∷ dst) (c ∷ src) h = rw (put-fault dst src (omega arith))

pub >>=-done {ℓ} : {A : Type ℓ} (m : Result A) → m ≡ (m >>= λ a. done a)
>>=-done (done a) = refl
>>=-done fault = refl
>>=-done starved = refl

pub put_at-append :
    (front rest src : Bytes)
    → put_at (front ++ rest) (length front) src ≡ (put rest src >>= (λ d. done (front ++ d)))
unfolding put_at
put_at-append [] rest src = >>=-done (put rest src)
put_at-append (x ∷ front) rest src =
    rw (put_at-append front rest src) (>>=-assoc (put rest src) _ _)

pub c_str-prepend :
    (d r : Bytes) {s : Bytes} → IsText d → c_str r ≡ done s → c_str (d ++ r) ≡ done (d ++ s)
unfolding c_str
c_str-prepend [] r h q = q
c_str-prepend (c ∷ d) r h q = ground (arith, c_str-prepend d r h.1 q)

pub c_str-terminated : (s r : Bytes) → IsText s → c_str (terminated s ++ r) ≡ done s
c_str-terminated s r h = rw (append_assoc s (0 ∷ []) r) (c_str-append s r h)

length-terminated : (s : Bytes) → length (terminated s) ≡ length s + 1
length-terminated s = length-append s (0 ∷ [])

length-cover :
    (t dst : Bytes) → length t ≤ length dst → length (t ++ drop (length t) dst) ≡ length dst
length-cover t dst h =
    omega (arith, length-append t (drop (length t) dst), length-drop (length t) dst)

-- Storing a string and its NUL at the front of an object that has room.
pub put-Holds :
    (dst s : Bytes) {n : ℕ}
    → length dst ≡ n
    → IsText s
    → length s < n
    → (r : Bytes) × (put dst (terminated s) ≡ done r) × Holds r n s
put-Holds dst s {n} size text fits =
    let room : length (terminated s) ≤ length dst = omega (arith, length-terminated s) in
    (
      terminated s ++ drop (length (terminated s)) dst,
      put-drop dst (terminated s) room,
      record {
        size = length-cover (terminated s) dst room ∙ size;
        text = c_str-terminated s (drop (length (terminated s)) dst) text;
      },
    )

-- `strcpy` of a string that fits makes the object hold it.
pub strcpy-Holds :
    (dst src : Bytes) {n : ℕ} {s : Bytes}
    → length dst ≡ n
    → c_str src ≡ done s
    → length s < n
    → (r : Bytes) × (strcpy dst src ≡ done r) × Holds r n s
unfolding strcpy
strcpy-Holds dst src {n} {s} size q fits =
    let (r, stored, held) = put-Holds dst s size (c_str-IsText src q) fits in (r, rw q stored, held)

-- It is a fault for one that does not fit.
pub strcpy-fault :
    (dst src : Bytes) {s : Bytes}
    → c_str src ≡ done s
    → length dst ≤ length s
    → strcpy dst src ≡ fault
unfolding strcpy
strcpy-fault dst src {s} q full =
    rw q (put-fault dst (terminated s) (omega (arith, length-terminated s)))

-- `strcat` appends where the object has room.
pub strcat-Holds :
    (dst src : Bytes) {n : ℕ} {d s : Bytes}
    → Holds dst n d
    → c_str src ≡ done s
    → length d + length s < n
    → (r : Bytes) × (strcat dst src ≡ done r) × Holds r n (d ++ s)
unfolding strcat
strcat-Holds dst src {n} {d} {s} h q fits =
    let (rest, split) = c_str-split dst h.text in
    let total : length dst ≡ length d + suc (length rest) =
      ap length split ∙ length-append d (0 ∷ rest) in
    let (r, stored, held) =
      put-Holds (0 ∷ rest) s {n = suc (length rest)} refl (c_str-IsText src q)
        (omega (arith, total, h.size)) in
    (
      d ++ r,
      rw (h.text, q) (rw split (put_at-append d (0 ∷ rest) (terminated s) ∙ rw stored)),
      record {
        size = omega (arith, length-append d r, held.size, total, h.size);
        text = c_str-prepend d r (c_str-IsText dst h.text) held.text;
      },
    )

-- A cleared object holds the empty string.
pub calloc-Holds : (n : ℕ) → 0 < n → Holds (calloc n) n []
unfolding calloc c_str
calloc-Holds zero h = absurd (omega arith)
calloc-Holds (suc n) h = record { size = length-replicate (suc n) 0; text = refl }

pub length-calloc : (n : ℕ) → length (calloc n) ≡ n
unfolding calloc
length-calloc n = length-replicate n 0

pub drop-calloc_suc : (k n : ℕ) → k < n → drop k (calloc n) ≡ 0 ∷ calloc (n - k - 1)
unfolding calloc
drop-calloc_suc k zero h = absurd (omega arith)
drop-calloc_suc zero (suc n) h = ap (λ (m : ℕ). 0 ∷ calloc m) (omega arith)
drop-calloc_suc (suc k) (suc n) h =
    drop-calloc_suc k n (omega arith) ∙ ap (λ (m : ℕ). 0 ∷ calloc m) (omega arith)

pub calloc_suc : (n : ℕ) → 0 < n → calloc n ≡ 0 ∷ calloc (n - 1)
unfolding calloc
calloc_suc zero h = absurd (omega arith)
calloc_suc (suc n) h = ap (λ (m : ℕ). 0 ∷ calloc m) (omega arith)

pub drop-calloc : (k n : ℕ) → k ≤ n → drop k (calloc n) ≡ calloc (n - k)
unfolding calloc
drop-calloc zero n h = ap calloc (omega arith)
drop-calloc (suc k) zero h = absurd (omega arith)
drop-calloc (suc k) (suc n) h = drop-calloc k n (omega arith) ∙ ap calloc (omega arith)

pub c_str-drop-calloc : (k n : ℕ) → k < n → c_str (drop k (calloc n)) ≡ done []
unfolding c_str
c_str-drop-calloc k n h = rw (drop-calloc_suc k n h)

-- A cleared object that is larger than a string and its NUL by one or more: what holds both.
pub put-calloc :
    (s : Bytes) (n : ℕ)
    → length s + 1 < n
    → (rest : Bytes) × (put (calloc n) (terminated s) ≡ done (s ++ 0 ∷ 0 ∷ rest))
put-calloc s n h = (
  calloc (n - length (terminated s) - 1),
  put-drop (calloc n) (terminated s) (omega (arith, length-terminated s, length-calloc n))
      ∙ rw (drop-calloc_suc (length (terminated s)) n (omega (arith, length-terminated s)))
          (ap done (append_assoc s (0 ∷ []) _)),
)
