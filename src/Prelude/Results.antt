-- ===== src/Prelude/Results.antt =====
-- `std::result::Result`, and the outcome of running code that may loop or panic.
use mathlib.Core.Path.{◌≡◌, refl, ap}

-- `Result<T, E>`.
pub data Result (A E : Type 0) : Type 0 where
  ok : A → Result A E
  err : E → Result A E

-- `out_of_fuel` stands for a loop that has not ended within its fuel, `panicked` for a panic or for
-- code marked unreachable that is reached.
pub data Run (A : Type 0) : Type 0 where
  done : A → Run A
  out_of_fuel panicked : Run A

infixl 5 ◌>>=◌
abbrev pub ◌>>=◌ : {A B : Type 0} → Run A → (A → Run B) → Run B
done a >>= f = f a
out_of_fuel >>= f = out_of_fuel
panicked >>= f = panicked

pub bind_assoc :
    {A B C : Type 0} (m : Run A) (f : A → Run B) (g : B → Run C)
    → (m >>= f >>= g) ≡ (m >>= λ a. f a >>= g)
bind_assoc (done a) f g = refl
bind_assoc out_of_fuel f g = refl
bind_assoc panicked f g = refl

-- What follows a run, in two parts.
pub bind_then :
    {A B C : Type 0} (m : Run A) (k : A → Run B) (g : B → Run C) (k' : A → Run C)
    → ((a : A) → k' a ≡ (k a >>= g))
    → (m >>= k') ≡ (m >>= k >>= g)
bind_then (done a) k g k' h = h a
bind_then out_of_fuel k g k' h = refl
bind_then panicked k g k' h = refl

pub done-injective : {A : Type 0} {a b : A} → done a ≡ done b → a ≡ b
done-injective {A} {a} h = ap (value_or a) h
  where
    value_or : A → Run A → A
    value_or d (done x) = x
    value_or d _ = d

-- A run that goes on after a first part gave what that part gave.
pub bind-eq-done :
    {A B : Type 0} (m : Run A) (f : A → Run B) (b : B)
    → (m >>= f) ≡ done b
    → (a : A) × (m ≡ done a) × (f a ≡ done b)
bind-eq-done (done a) f b h = (a, refl, h)
bind-eq-done out_of_fuel f b h = cc
bind-eq-done panicked f b h = cc

-- The property holds of the result, if there is one.
abbrev pub Ensures : {A : Type 0} → (A → Type 0) → Run A → Type 0
Ensures P (done a) = P a
Ensures P out_of_fuel = Unit
Ensures P panicked = Unit

pub Ensures-bind :
    {A B : Type 0} (P : B → Type 0) (m : Run A) (f : A → Run B)
    → ((a : A) → Ensures P (f a))
    → Ensures P (m >>= f)
Ensures-bind P (done a) f h = h a
Ensures-bind P out_of_fuel f h = tt
Ensures-bind P panicked f h = tt

-- The run does not panic, and its value, if it has one, is good.
abbrev pub Safe : {A : Type 0} → (A → Type 0) → Run A → Type 0
Safe Good (done x) = Good x
Safe Good out_of_fuel = Unit
Safe Good panicked = ⊥

pub Safe-bind :
    {A B : Type 0} (Good : A → Type 0) (Better : B → Type 0) (m : Run A) (k : A → Run B)
    → Safe Good m
    → ((x : A) → Good x → Safe Better (k x))
    → Safe Better (m >>= k)
Safe-bind Good Better (done x) k safe next = next x safe
Safe-bind Good Better out_of_fuel k safe next = tt
Safe-bind Good Better panicked k safe next = safe

-- The run returns a good value.
abbrev pub Returns : {A : Type 0} → (A → Type 0) → Run A → Type 0
Returns Good (done x) = Good x
Returns Good out_of_fuel = ⊥
Returns Good panicked = ⊥

pub Returns-bind :
    {A B : Type 0} (Good : A → Type 0) (Better : B → Type 0) (m : Run A) (k : A → Run B)
    → Returns Good m
    → ((x : A) → Good x → Returns Better (k x))
    → Returns Better (m >>= k)
Returns-bind Good Better (done x) k good next = next x good
Returns-bind Good Better out_of_fuel k good next = good
Returns-bind Good Better panicked k good next = good

pub Returns-map :
    {A : Type 0} (Good Better : A → Type 0) (m : Run A)
    → ((x : A) → Good x → Better x)
    → Returns Good m
    → Returns Better m
Returns-map Good Better (done x) h good = h x good
Returns-map Good Better out_of_fuel h good = good
Returns-map Good Better panicked h good = good

pub Returns-inv :
    {A : Type 0} (Good : A → Type 0) (m : Run A) → Returns Good m → (x : A) × (m ≡ done x) × Good x
Returns-inv Good (done x) good = (x, refl, good)
Returns-inv Good out_of_fuel good = absurd good
Returns-inv Good panicked good = absurd good
