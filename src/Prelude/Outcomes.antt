-- ===== src/Prelude/Outcomes.antt =====
-- What a piece of C does: it ends with a value, does something undefined, or waits for an answer
-- of the system that has not come.
use mathlib.Core.Path.{◌≡◌, refl, ap, subst}
use mathlib.Core.Bool.{Bool, true, false}
use multiplexing_proxy.Prelude.Tests.{if◌then◌else◌}

pub data Result {ℓ} (A : Type ℓ) : Type ℓ where
  done : A → Result A
  fault : Result A
  starved : Result A

infixl 5 ◌>>=◌ ◌>>◌
abbrev pub ◌>>=◌ {ℓ κ} : {A : Type ℓ} {B : Type κ} → Result A → (A → Result B) → Result B
done a >>= f = f a
fault >>= f = fault
starved >>= f = starved

abbrev pub ◌>>◌ {ℓ} : {B : Type ℓ} → Result (Unit {0}) → Result B → Result B
m >> k = m >>= λ _. k

-- Inversion of a bind that succeeds.
pub >>=-eq-done {ℓ κ} :
    {A : Type ℓ} {B : Type κ} (m : Result A) (f : A → Result B) {b : B}
    → (m >>= f) ≡ done b
    → (a : A) × (m ≡ done a) × (f a ≡ done b)
>>=-eq-done (done a) f h = (a, refl, h)
>>=-eq-done fault f h = cc
>>=-eq-done starved f h = cc

value_or {ℓ} : {A : Type ℓ} → A → Result A → A
value_or d (done a) = a
value_or d _ = d

pub done-injective {ℓ} : {A : Type ℓ} {a b : A} → done a ≡ done b → a ≡ b
unfolding value_or
done-injective {a} e = ap (value_or a) e

-- A statement about the value, if there is one.
pub data Ensures {ℓ κ} {A : Type ℓ} (P : A → Type κ) : Result A → Type (ℓ ⊔ κ) where
  holds : {a : A} → P a → Ensures P (done a)
  faulted : Ensures P fault
  waiting : Ensures P starved

-- What holds whatever the first part gives.
pub Ensures->>= {ℓ κ μ} :
    {A : Type ℓ} {B : Type κ} {P : B → Type μ} (m : Result A) {f : A → Result B}
    → ((a : A) → Ensures P (f a))
    → Ensures P (m >>= f)
Ensures->>= (done a) h = h a
Ensures->>= fault h = faulted
Ensures->>= starved h = waiting

-- What holds by a fact about the first part.
pub Ensures-seq {ℓ κ μ ν} :
    {A : Type ℓ} {B : Type κ} {Q : A → Type ν} {P : B → Type μ} {m : Result A} {f : A → Result B}
    → Ensures Q m
    → ((a : A) → Q a → Ensures P (f a))
    → Ensures P (m >>= f)
Ensures-seq (holds q) h = h _ q
Ensures-seq faulted h = faulted
Ensures-seq waiting h = waiting

-- Inversion, over a variable index.
pub Ensures-value {ℓ κ} :
    {A : Type ℓ} {P : A → Type κ} {m : Result A} {a : A} → Ensures P m → m ≡ done a → P a
Ensures-value {P} (holds p) e = subst P (done-injective e) p
Ensures-value faulted e = cc
Ensures-value waiting e = cc

-- A weaker statement.
pub Ensures-map {ℓ κ μ} :
    {A : Type ℓ} {P : A → Type κ} {Q : A → Type μ} {m : Result A}
    → ((a : A) → P a → Q a)
    → Ensures P m
    → Ensures Q m
Ensures-map f (holds p) = holds (f _ p)
Ensures-map f faulted = faulted
Ensures-map f waiting = waiting

-- What holds by the value of the first part.
pub Ensures-known {ℓ κ μ} :
    {A : Type ℓ} {B : Type κ} {P : B → Type μ} (m : Result A) {f : A → Result B}
    → ((a : A) → m ≡ done a → Ensures P (f a))
    → Ensures P (m >>= f)
Ensures-known (done a) h = h a refl
Ensures-known fault h = faulted
Ensures-known starved h = waiting

-- Two statements about one value.
pub Ensures-both {ℓ κ μ} :
    {A : Type ℓ} {P : A → Type κ} {Q : A → Type μ} {m : Result A}
    → Ensures P m
    → Ensures Q m
    → Ensures (λ a. P a × Q a) m
Ensures-both (holds p) (holds q) = holds (p, q)
Ensures-both faulted faulted = faulted
Ensures-both waiting waiting = waiting

-- Two ways to go on that agree on what the first part can give.
pub >>=-Ensures-ext {ℓ κ μ} :
    {A : Type ℓ} {B : Type κ} {P : A → Type μ} {m : Result A} {f g : A → Result B}
    → Ensures P m
    → ((a : A) → P a → f a ≡ g a)
    → (m >>= f) ≡ (m >>= g)
>>=-Ensures-ext (holds p) same = same _ p
>>=-Ensures-ext faulted same = refl
>>=-Ensures-ext waiting same = refl

pub >>=-assoc {ℓ κ μ} :
    {A : Type ℓ} {B : Type κ} {C : Type μ} (m : Result A) (f : A → Result B) (g : B → Result C)
    → ((m >>= f) >>= g) ≡ (m >>= λ a. f a >>= g)
>>=-assoc (done a) f g = refl
>>=-assoc fault f g = refl
>>=-assoc starved f g = refl

pub >>=-ext {ℓ κ} :
    {A : Type ℓ} {B : Type κ} (m : Result A) {f g : A → Result B}
    → ((a : A) → f a ≡ g a)
    → (m >>= f) ≡ (m >>= g)
>>=-ext (done a) same = same a
>>=-ext fault same = refl
>>=-ext starved same = refl

-- What does not wait for an answer that has not come.
pub data Ends {ℓ} {A : Type ℓ} : Result A → Type ℓ where
  returns : {a : A} → Ends (done a)
  faults : Ends fault

pub Ends->>= {ℓ κ} :
    {A : Type ℓ} {B : Type κ} {m : Result A} {f : A → Result B}
    → Ends m
    → ((a : A) → Ends (f a))
    → Ends (m >>= f)
Ends->>= returns h = h _
Ends->>= faults h = faults

pub if-Ends {ℓ} :
    {A : Type ℓ} (test : Bool) {m n : Result A} → Ends m → Ends n → Ends (if test then m else n)
if-Ends true h k = h
if-Ends false h k = k
