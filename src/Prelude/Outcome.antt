-- ===== src/Prelude/Outcome.antt =====
-- The three ways a Rust call ends: `Ok`, `Err`, or a panic that names its message.
use Prim.Native.String.{String}
use mathlib.Core.Path.{◌≡◌, refl}
use mathlib.Core.Bool.{Bool, true, false, not}
use mathlib.Core.Option.{Option, none, some}

pub data Result {ℓ} (E A : Type ℓ) : Type ℓ where
  ok : A → Result E A
  err : E → Result E A
  panic : String → Result E A

-- A guest program has no error value: it returns or panics.
abbrev pub Guest : Type 0 → Type 0
Guest A = Result ⊥ A

infixl 5 ◌>>=◌
infixr 5 ◌>>◌
abbrev pub ◌>>=◌ {ℓ} : {E A B : Type ℓ} → Result E A → (A → Result E B) → Result E B
ok a >>= f = f a
err e >>= f = err e
panic m >>= f = panic m

abbrev pub ◌>>◌ : {E B : Type 0} → Result E (Unit {0}) → Result E B → Result E B
m >> k = m >>= λ _. k

-- `ensure!(cond, error)`
abbrev pub ensure : {E : Type 0} → Bool → E → Result E (Unit {0})
ensure true e = ok tt
ensure false e = err e

-- `assert!(cond, message)`
abbrev pub assert : {E : Type 0} → Bool → String → Result E (Unit {0})
assert true m = ok tt
assert false m = panic m

-- `option.expect(message)`
abbrev pub expect {ℓ} : {E A : Type ℓ} → Option A → String → Result E A
expect (some a) m = ok a
expect none m = panic m

-- `option.ok_or(error)`
abbrev pub ok_or {ℓ} : {E A : Type ℓ} → Option A → E → Result E A
ok_or (some a) e = ok a
ok_or none e = err e

-- `result.map_err(f)`
abbrev pub map_err {ℓ} : {E F A : Type ℓ} → (E → F) → Result E A → Result F A
map_err f (ok a) = ok a
map_err f (err e) = err (f e)
map_err f (panic m) = panic m

module _ {ℓ} {E A B : Type ℓ} where
  pub >>=-eq-ok :
      (r : Result E A) (k : A → Result E B) {y : B}
      → (r >>= k) ≡ ok y
      → (x : A) × (r ≡ ok x) × (k x ≡ ok y)
  >>=-eq-ok (panic m) k h = cc
  >>=-eq-ok (err e) k h = cc
  >>=-eq-ok (ok x) k h = (x, refl, h)

module _ {E : Type 0} where
  pub ensure-eq-ok : (b : Bool) (e : E) {u : Unit {0}} → ensure b e ≡ ok u → b ≡ true
  ensure-eq-ok true e h = refl
  ensure-eq-ok false e h = cc

  pub ensure-bind :
      {B : Type 0} (b : Bool) (e : E) (k : Result E B) {r : B}
      → (ensure b e >> k) ≡ ok r
      → (b ≡ true) × (k ≡ ok r)
  ensure-bind true e k h = (refl, h)
  ensure-bind false e k h = cc

module _ {E F A : Type 0} where
  pub map_err-eq-ok : (f : E → F) (m : Result E A) {a : A} → map_err f m ≡ ok a → m ≡ ok a
  map_err-eq-ok f (ok x) h = cc
  map_err-eq-ok f (err e) h = cc
  map_err-eq-ok f (panic s) h = cc

pub assert-eq-ok :
    {E : Type 0} (b : Bool) (m : String) {u : Unit {0}} → assert {E = E} b m ≡ ok u → b ≡ true
assert-eq-ok true m h = refl
assert-eq-ok false m h = cc

pub assert-not :
    {E : Type 0} (b : Bool) (m : String) {u : Unit {0}}
    → assert {E = E} (not b) m ≡ ok u
    → b ≡ false
assert-not false m h = refl
assert-not true m h = cc

module _ {E A : Type 0} where
  pub ok_or-eq-ok : (o : Option A) (e : E) {a : A} → ok_or o e ≡ ok a → o ≡ some a
  ok_or-eq-ok (some x) e h = cc
  ok_or-eq-ok none e h = cc

  pub expect-eq-ok : (o : Option A) (m : String) {a : A} → expect {E = E} o m ≡ ok a → o ≡ some a
  expect-eq-ok (some x) m h = cc
  expect-eq-ok none m h = cc

-- `option?`
unfoldable pub and_then {ℓ κ} : {A : Type ℓ} {B : Type κ} → Option A → (A → Option B) → Option B
and_then (some a) f = f a
and_then none f = none

module _ {ℓ κ} {A : Type ℓ} {B : Type κ} where
  pub and_then-eq-some :
      (o : Option A) (f : A → Option B) {b : B}
      → and_then o f ≡ some b
      → (a : A) × (o ≡ some a) × (f a ≡ some b)
  unfolding and_then
  and_then-eq-some (some a) f h = (a, refl, h)
  and_then-eq-some none f h = cc

  pub and_then-some : {o : Option A} (f : A → Option B) {a : A} → o ≡ some a → and_then o f ≡ f a
  unfolding and_then
  and_then-some f h = rw h
