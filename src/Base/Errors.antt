-- ===== src/Base/Errors.antt =====
-- A call that raises or returns, over any type of exceptions.
use mathlib.Core.Path.{◌≡◌, refl}
use mathlib.Core.Bool.{Bool, true, false}

pub data Except {ℓ κ} (E : Type κ) (A : Type ℓ) : Type (ℓ ⊔ κ) where
  raise : E → Except E A
  ok : A → Except E A

-- `if b: raise exception`
abbrev pub raise_if {κ} : {E : Type κ} → Bool → E → Except E (Unit {0})
raise_if false exception = ok tt
raise_if true exception = raise exception

abbrev pub is_ok {ℓ κ} : {E : Type κ} {A : Type ℓ} → Except E A → Bool
is_ok (raise exception) = false
is_ok (ok value) = true

infixl 5 ◌>>=◌ ◌>>◌
-- What follows is not run after an exception.
abbrev pub ◌>>=◌ {ℓ κ μ} :
    {E : Type κ} {A : Type ℓ} {B : Type μ} → Except E A → (A → Except E B) → Except E B
raise exception >>= next = raise exception
ok value >>= next = next value

abbrev pub ◌>>◌ {ℓ κ} : {E : Type κ} {B : Type ℓ} → Except E (Unit {0}) → Except E B → Except E B
first >> next = first >>= λ done. next

pub ok-injective {ℓ κ} :
    {E : Type κ} {A : Type ℓ} {x y : A} → ◌≡◌ {A = Except E A} (ok x) (ok y) → x ≡ y
ok-injective h = cc

-- A chain that returns has returned at its first call.
pub >>=-eq-ok {ℓ κ μ} :
    {E : Type κ} {A : Type ℓ} {B : Type μ} (call : Except E A) (next : A → Except E B) {last : B}
    → (call >>= next) ≡ ok last
    → (value : A) × (call ≡ ok value) × (next value ≡ ok last)
>>=-eq-ok (raise exception) next returns = cc
>>=-eq-ok (ok value) next returns = (value, refl, returns)

pub >>-eq-ok {ℓ κ} :
    {E : Type κ} {B : Type ℓ} (call : Except E (Unit {0})) (next : Except E B) {last : B}
    → (call >> next) ≡ ok last
    → (call ≡ ok tt) × (next ≡ ok last)
>>-eq-ok (raise exception) next returns = cc
>>-eq-ok (ok value) next returns = (refl, returns)

pub raise_if-eq-ok {κ} :
    {E : Type κ} (b : Bool) (e : E) {u : Unit {0}} → raise_if b e ≡ ok u → b ≡ false
raise_if-eq-ok true e h = cc
raise_if-eq-ok false e h = refl

pub is_ok-eq {κ} : {E : Type κ} (call : Except E (Unit {0})) → is_ok call ≡ true → call ≡ ok tt
is_ok-eq (raise exception) h = cc
is_ok-eq (ok value) h = refl
