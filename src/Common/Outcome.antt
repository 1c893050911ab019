-- ===== src/Common/Outcome.antt =====
-- What a run of the code comes to.
use mathlib.Core.Path.{◌≡◌, refl}
use mathlib.Core.Logic.{◌≢◌}

pub data Outcome {ℓ} (A : Type ℓ) : Type ℓ where
  -- It returns a value.
  ok : A → Outcome A
  -- It copies bytes that were never written, writes past an array, or divides by zero.
  undefined : Outcome A
  -- The model ran out of fuel: no run of the code.
  stuck : Outcome A

-- `abbrev`, so that `ok a >>= f` computes wherever it stands.
infixl 5 ◌>>=◌
abbrev pub ◌>>=◌ {ℓ κ} : {A : Type ℓ} {B : Type κ} → Outcome A → (A → Outcome B) → Outcome B
ok a >>= f = f a
undefined >>= f = undefined
stuck >>= f = stuck

pub >>=-assoc {ℓ κ μ} :
    {A : Type ℓ} {B : Type κ} {C : Type μ} (m : Outcome A) (f : A → Outcome B) (g : B → Outcome C)
    → (m >>= f >>= g) ≡ (m >>= λ a. f a >>= g)
>>=-assoc (ok a) f g = refl
>>=-assoc undefined f g = refl
>>=-assoc stuck f g = refl

-- A run that ends by returning is no more stuck than what comes before it.
pub >>=-ne-stuck {ℓ κ} :
    {A : Type ℓ} {B : Type κ} (m : Outcome A) (f : A → B)
    → m ≢ stuck
    → (m >>= λ a. ok (f a)) ≢ stuck
>>=-ne-stuck (ok a) f h = λ e. cc
>>=-ne-stuck undefined f h = λ e. cc
>>=-ne-stuck stuck f h = absurd (h refl)
