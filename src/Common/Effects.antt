-- ===== src/Common/Effects.antt =====
-- Runs of C code: a value, undefined behaviour, which ends the run as `fault`, or a wait for a
-- mutex that another thread holds, `blocked`.
use Prim.Native.Nat.{ℕ, zero, suc, ◌-◌, ◌^◌, ◌<◌, ◌≤◌}
use mathlib.Core.Path.{◌≡◌, refl}
use mathlib.Core.Logic.{◌⊎◌, inl, inr}
use mathlib.Core.List.{List, [], ◌∷◌, ◌++◌}
use mathlib.Core.Option.{Option, none, some}
use native.Mathlib.Omega.{arith}
use pht.Common.Lists.{length, get_elem?, set}
use pht.Common.Tests.{leb, if◌then◌else◌}

pub data Run {ℓ} (A : Type ℓ) : Type ℓ where
  fault blocked : Run A
  ok : A → Run A

infixl 5 ◌>>=◌ ◌>>◌
abbrev pub ◌>>=◌ {ℓ κ} : {A : Type ℓ} {B : Type κ} (m : Run A) (k : A → Run B) → Run B
fault >>= k = fault
blocked >>= k = blocked
ok a >>= k = k a

abbrev pub ◌>>◌ {ℓ κ} : {A : Type ℓ} {B : Type κ} → Run A → Run B → Run B
m >> k = m >>= λ _. k

-- The run ends normally, in a value that satisfies `P`.
abbrev pub Returns {ℓ κ} : {A : Type ℓ} (m : Run A) (P : A → Type κ) → Type (ℓ ⊔ κ)
Returns {A} m P = (value : A) × (m ≡ ok value) × P value

pub bind-Returns {ℓ κ μ ν} :
    {A : Type ℓ} {B : Type κ} {P : A → Type μ} {Q : B → Type ν} (m : Run A) (k : A → Run B)
    → Returns m P
    → ((a : A) → P a → Returns (k a) Q)
    → Returns (m >>= k) Q
bind-Returns m k (a, runs, p) go = rw runs (go a p)

-- A run that needs the value, `fault` on `NULL`.
abbrev pub deref {ℓ} : {A : Type ℓ} → Option A → Run A
deref none = fault
deref (some a) = ok a

-- The largest value of a C `int`.
abbrev pub int_max : ℕ
int_max = 2 ^ 31 - 1

-- An `int` result, undefined where it does not fit.
abbrev pub as_int : ℕ → Run ℕ
as_int n = if leb n int_max then ok n else fault

module _ {ℓ} {A : Type ℓ} where
  -- `xs[i]` and `xs[i] = v`, undefined out of bounds.
  abbrev pub load : List A → ℕ → Run A
  load [] i = fault
  load (x ∷ xs) zero = ok x
  load (x ∷ xs) (suc i) = load xs i

  abbrev pub prepend : A → Run (List A) → Run (List A)
  prepend x r = r >>= λ xs. ok (x ∷ xs)

  abbrev pub store : List A → ℕ → A → Run (List A)
  store [] i v = fault
  store (x ∷ xs) zero v = ok (v ∷ xs)
  store (x ∷ xs) (suc i) v = prepend x (store xs i v)

  pub load-append : (xs ys : List A) (y : A) → load (xs ++ y ∷ ys) (length xs) ≡ ok y
  load-append [] ys y = refl
  load-append (x ∷ xs) ys y = load-append xs ys y

  pub store-append :
      (xs ys : List A) (y v : A) → store (xs ++ y ∷ ys) (length xs) v ≡ ok (xs ++ v ∷ ys)
  store-append [] ys y v = refl
  store-append (x ∷ xs) ys y v = rw (store-append xs ys y v)

  pub load-get : (xs : List A) (i : ℕ) {a : A} → get_elem? xs i ≡ some a → load xs i ≡ ok a
  load-get [] i h = cc
  load-get (x ∷ xs) zero h = cc
  load-get (x ∷ xs) (suc i) h = load-get xs i h

  pub store-set : (xs : List A) (i : ℕ) (v : A) → i < length xs → store xs i v ≡ ok (set xs i v)
  store-set [] i v h = elim h [ ]
  store-set (x ∷ xs) zero v h = refl
  store-set (x ∷ xs) (suc i) v h = rw (store-set xs i v (omega arith))

  pub load-fault : (xs : List A) (i : ℕ) → length xs ≤ i → load xs i ≡ fault
  load-fault [] i h = refl
  load-fault (x ∷ xs) zero h = absurd (omega arith)
  load-fault (x ∷ xs) (suc i) h = load-fault xs i (omega arith)

-- A C pointer: `NULL`, one that was never initialised, or one to an `A`.
pub data Ptr {ℓ} (A : Type ℓ) : Type ℓ where
  null : Ptr A
  wild : Ptr A
  ref : A → Ptr A

-- What a call that reads through the pointer gets.
abbrev pub target {ℓ} : {A : Type ℓ} → Ptr A → Run A
target null = fault
target wild = fault
target (ref a) = ok a

-- A continuation that treats the tail of an array alike commutes with `prepend`.
module _ {A : Type 0} (x : A) (K K' : List A → Run (List A)) where
  pub prepend-bind :
      ((xs : List A) → K (x ∷ xs) ≡ prepend x (K' xs))
      → (r : Run (List A)) → (prepend x r >>= K) ≡ prepend x (r >>= K')
  prepend-bind alike fault = refl
  prepend-bind alike blocked = refl
  prepend-bind alike (ok xs) = alike xs

  pub prepend-bind_load :
      {B : Type 0}
      → ((xs : List A) → K (x ∷ xs) ≡ prepend x (K' xs))
      → (l : Run B) (s : B → Run (List A))
      → (l >>= λ b. prepend x (s b) >>= K) ≡ prepend x (l >>= λ b. s b >>= K')
  prepend-bind_load alike fault s = refl
  prepend-bind_load alike blocked s = refl
  prepend-bind_load alike (ok b) s = prepend-bind alike (s b)

pub >>=_assoc :
    {A B C : Type 0} (m : Run A) (f : A → Run B) (g : B → Run C)
    → (m >>= f >>= g) ≡ (m >>= λ a. f a >>= g)
>>=_assoc fault f g = refl
>>=_assoc blocked f g = refl
>>=_assoc (ok a) f g = refl

-- To split on a run, and to take apart a run of two steps that ended.
pub Run-cases : {B : Type 0} (r : Run B) → ((b : B) × (r ≡ ok b)) ⊎ ((r ≡ fault) ⊎ (r ≡ blocked))
Run-cases (ok b) = inl (b, refl)
Run-cases fault = inr (inl refl)
Run-cases blocked = inr (inr refl)

pub bind-ok :
    {B C : Type 0} (r : Run B) (k : B → Run C) {c : C}
    → (r >>= k) ≡ ok c
    → (b : B) × (r ≡ ok b) × (k b ≡ ok c)
bind-ok (ok b) k e = (b, refl, e)
bind-ok fault k e = cc
bind-ok blocked k e = cc

pub deref-ok : {B : Type 0} (o : Option B) {b : B} → deref o ≡ ok b → o ≡ some b
deref-ok none e = cc
deref-ok (some b) e = cc
