-- ===== src/Prelude/Outcome.antt =====
-- What a Go call gives back: a value, an error value, or a panic.
use mathlib.Core.Path.{◌≡◌, refl, ap}
use mathlib.Core.Bool.{Bool, true, false}

pub data Result {ℓ} (E : Type 0) (A : Type ℓ) : Type ℓ where
  ok : A → Result E A
  err : E → Result E A
  panicked : Result E A

-- `if !test { return err }`
abbrev pub guard : {E : Type 0} → Bool → E → Result E (Unit {0})
guard false failure = err failure
guard true failure = ok tt

infixl 5 ◌>>=◌ ◌>>◌
abbrev pub ◌>>=◌ {ℓ κ} :
    {E : Type 0} {A : Type ℓ} {B : Type κ} → Result E A → (A → Result E B) → Result E B
panicked >>= next = panicked
err failure >>= next = err failure
ok value >>= next = next value

-- A runtime check of Go (an index or a slice bound), or an explicit `panic`.
abbrev pub check : {E : Type 0} → Bool → Result E (Unit {0})
check true = ok tt
check false = panicked

abbrev pub ◌>>◌ {ℓ} : {E : Type 0} {B : Type ℓ} → Result E (Unit {0}) → Result E B → Result E B
first >> next = first >>= λ done. next

-- `fmt.Errorf("...: %w", err)`
abbrev pub map_err {ℓ} : {E F : Type 0} {A : Type ℓ} → (E → F) → Result E A → Result F A
map_err f (ok a) = ok a
map_err f (err e) = err (f e)
map_err f panicked = panicked

-- Inversion of a successful bind, for proofs where the parts stay shut.
pub >>=-eq-ok {ℓ κ} :
    {E : Type 0} {A : Type ℓ} {B : Type κ} (first : Result E A) (next : A → Result E B) {b : B}
    → (first >>= next) ≡ ok b
    → (a : A) × (first ≡ ok a) × (next a ≡ ok b)
>>=-eq-ok panicked next same = cc
>>=-eq-ok (err failure) next same = cc
>>=-eq-ok (ok a) next same = (a, refl, same)

pub ok-injective {ℓ} :
    {E : Type 0} {A : Type ℓ} {a b : A} → ◌≡◌ {A = Result E A} (ok a) (ok b) → a ≡ b
ok-injective h = cc

pub map_err-eq-ok {ℓ} :
    {E F : Type 0} {A : Type ℓ} (f : E → F) (m : Result E A) (a : A) → map_err f m ≡ ok a → m ≡ ok a
map_err-eq-ok f (ok b) a h = ap ok (ok-injective h)
map_err-eq-ok f (err e) a h = cc
map_err-eq-ok f panicked a h = cc

-- No panic.
abbrev pub IsSafe {ℓ} : {E : Type 0} {A : Type ℓ} → Result E A → Type 0
IsSafe (ok a) = Unit
IsSafe (err e) = Unit
IsSafe panicked = ⊥

pub >>=-IsSafe {ℓ κ} :
    {E : Type 0} {A : Type ℓ} {B : Type κ} (m : Result E A) (f : A → Result E B)
    → IsSafe m
    → ((a : A) → m ≡ ok a → IsSafe (f a))
    → IsSafe (m >>= f)
>>=-IsSafe (ok a) f safe next = next a refl
>>=-IsSafe (err e) f safe next = tt
>>=-IsSafe panicked f safe next = absurd safe

pub guard-IsSafe : {E : Type 0} (test : Bool) (e : E) → IsSafe (guard test e)
guard-IsSafe true e = tt
guard-IsSafe false e = tt

pub guard-eq-ok : {E : Type 0} (test : Bool) (e : E) → guard test e ≡ ok tt → test ≡ true
guard-eq-ok true e h = refl
guard-eq-ok false e h = cc

pub check-eq-ok : {E : Type 0} (test : Bool) → check {E = E} test ≡ ok tt → test ≡ true
check-eq-ok true h = refl
check-eq-ok false h = cc

pub ok-IsSafe {ℓ} : {E : Type 0} {A : Type ℓ} (m : Result E A) (a : A) → m ≡ ok a → IsSafe m
ok-IsSafe (ok b) a h = tt
ok-IsSafe (err e) a h = tt
ok-IsSafe panicked a h = cc

pub map_err-IsSafe {ℓ} :
    {E F : Type 0} {A : Type ℓ} (f : E → F) (m : Result E A) → IsSafe m → IsSafe (map_err f m)
map_err-IsSafe f (ok a) h = tt
map_err-IsSafe f (err e) h = tt
map_err-IsSafe f panicked h = h

pub after_guard-IsSafe {ℓ} :
    {E : Type 0} {A : Type ℓ} (test : Bool) (e : E) (next : Result E A)
    → IsSafe next
    → IsSafe (guard test e >> next)
after_guard-IsSafe true e next safe = safe
after_guard-IsSafe false e next safe = tt
