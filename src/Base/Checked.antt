-- ===== src/Base/Checked.antt =====
-- Computations that may read outside a vector, which is undefined in the source: `none`.
use mathlib.Core.Path.{◌≡◌, refl, subst}
use mathlib.Core.Bool.{Bool, true, false}
use le_kv.Base.Tests.{if◌then◌else◌}
use mathlib.Core.Option.{Option, none, some}

infixl 5 ◌>>=◌
abbrev pub ◌>>=◌ {ℓ κ} : {A : Type ℓ} {B : Type κ} → Option A → (A → Option B) → Option B
none >>= f = none
some a >>= f = f a

pub >>=-eq-some {ℓ κ} :
    {A : Type ℓ} {B : Type κ} (m : Option A) (f : A → Option B) {b : B}
    → (m >>= f) ≡ some b
    → (a : A) × (m ≡ some a) × (f a ≡ some b)
>>=-eq-some none f h = cc
>>=-eq-some (some a) f h = (a, refl, h)

-- What holds of the one holds of the other.
pub some-elim : {A : Type 0} (P : A → Type 0) (x y : A) → some x ≡ some y → P x → P y
some-elim P x y e p = let same : x ≡ y = cc in subst P same p

-- Of an `if` with one branch that returns.
pub if-some :
    {A : Type 0} (c : Bool) (x y : A)
    → (if c then some x else none) ≡ some y
    → (c ≡ true) × (some x ≡ some y)
if-some true x y e = (refl, e)
if-some false x y e = cc

pub if-none :
    {A : Type 0} (c : Bool) (x y : A)
    → (if c then none else some x) ≡ some y
    → (c ≡ false) × (some x ≡ some y)
if-none true x y e = cc
if-none false x y e = (refl, e)

-- What holds of the other branch holds of an `if` that goes there.
pub if-false :
    {A : Type 0} (P : A → Type 0) (c : Bool) (x y : A) → c ≡ false → P y → P (if c then x else y)
if-false P true x y e h = cc
if-false P false x y e h = h

pub if-true :
    {A : Type 0} (P : A → Type 0) (c : Bool) (x y : A) → c ≡ true → P x → P (if c then x else y)
if-true P true x y e h = h
if-true P false x y e h = cc
