-- ===== src/Base/Result.antt =====
-- Calls that may raise: `err` carries the exception.
use mathlib.Core.Path.{◌≡◌, refl, subst}
use mathlib.Core.Bool.{Bool, true, false}
use product_intelligence.Base.Tests.{if◌then◌else◌}

pub data Result (E : Type 0) (A : Type 0) : Type 0 where
  ok : A → Result E A
  err : E → Result E A

infixl 5 ◌>>=◌
abbrev pub ◌>>=◌ : {E A B : Type 0} → Result E A → (A → Result E B) → Result E B
ok result >>= next = next result
err raised >>= next = err raised

-- What holds of the result of a call that did not raise.
pub data Ensures {E A : Type 0} (P : A → Type 0) : Result E A → Type 0 where
  returns : {result : A} → P result → Ensures P (ok result)
  raises : {raised : E} → Ensures P (err raised)

pub Ensures->>= :
    {E A B : Type 0} {P : A → Type 0} {Q : B → Type 0} {m : Result E A} {next : A → Result E B}
    → Ensures P m
    → ((result : A) → P result → Ensures Q (next result))
    → Ensures Q (m >>= next)
Ensures->>= (returns {result} h) rule = rule result h
Ensures->>= raises rule = raises

pub Ensures-any : {E A : Type 0} (m : Result E A) → Ensures (λ _. Unit {0}) m
Ensures-any (ok result) = returns tt
Ensures-any (err raised) = raises

-- Whatever comes before.
pub Ensures-after :
    {E A B : Type 0} {Q : B → Type 0} (m : Result E A) {next : A → Result E B}
    → ((result : A) → Ensures Q (next result))
    → Ensures Q (m >>= next)
Ensures-after (ok result) rule = rule result
Ensures-after (err raised) rule = raises

pub Ensures-ok :
    {E A : Type 0} {P : A → Type 0} {m : Result E A} {result : A}
    → Ensures P m
    → m ≡ ok result
    → P result
Ensures-ok {P = P} (returns h) e = subst P (cc) h
Ensures-ok raises e = cc

pub Ensures-if :
    {E A : Type 0} {P : A → Type 0} (test : Bool) {m n : Result E A}
    → Ensures P m
    → Ensures P n
    → Ensures P (if test then m else n)
Ensures-if true h k = h
Ensures-if false h k = k

pub Ensures-self : {E A : Type 0} (m : Result E A) → Ensures (λ result. m ≡ ok result) m
Ensures-self (ok result) = returns refl
Ensures-self (err raised) = raises

-- `if not test: raise raised`, and then `m`.
pub Ensures-unless :
    {E A : Type 0} {P : A → Type 0} (test : Bool) {m : Result E A} (raised : E)
    → (test ≡ true → Ensures P m)
    → Ensures P (if test then m else err raised)
Ensures-unless true raised h = h refl
Ensures-unless false raised h = raises
