-- ===== src/Prelude/Action.antt =====
-- Methods that change a state and may throw. What was written before a throw stays written, so
-- the state comes back beside the error too. An `Error` is its message.
use Prim.Native.String.{String}
use mathlib.Core.Bool.{Bool, true, false}
use gemini_agent_lib.Prelude.Tests.{if◌then◌else◌}
use mathlib.Core.Path.{◌≡◌, refl, subst}

pub data Outcome {ℓ} (A : Type ℓ) : Type ℓ where
  returned : A → Outcome A
  thrown : String → Outcome A

abbrev pub Action {ℓ} : Type ℓ → Type ℓ → Type ℓ
Action S A = S → Outcome A × S

module _ {ℓ} {S A : Type ℓ} where
  abbrev pub pure : A → Action S A
  pure a s = (returned a, s)

  abbrev pub throw : String → Action S A
  throw e s = (thrown e, s)

  abbrev pub handled : Outcome A × S → (String → Action S A) → Outcome A × S
  handled (returned a, s) h = (returned a, s)
  handled (thrown e, s) h = h e s

  -- `try { m } catch (error) { h }`
  abbrev pub try_catch : Action S A → (String → Action S A) → Action S A
  try_catch m h s = handled (m s) h

module _ {ℓ} {S A B : Type ℓ} where
  abbrev pub continue : Outcome A × S → (A → Action S B) → Outcome B × S
  continue (returned a, s) f = f a s
  continue (thrown e, s) f = (thrown e, s)

  infixl 10 ◌>>=◌ ◌>>◌
  abbrev pub ◌>>=◌ : Action S A → (A → Action S B) → Action S B
  ◌>>=◌ m f s = continue (m s) f

  abbrev pub ◌>>◌ : Action S A → Action S B → Action S B
  m >> n = m >>= λ _. n

module _ {ℓ} {S A : Type ℓ} where
  -- A handler that only returns a value leaves the state alone.
  pub handled-pure : (p : Outcome A × S) (g : String → A) → (handled p (λ e. pure (g e))).1 ≡ p.1
  handled-pure (returned a, s) g = refl
  handled-pure (thrown e, s) g = refl

  pub continue-pure :
      {B : Type ℓ} (p : Outcome A × S) (g : A → B) → (continue p (λ a. pure (g a))).1 ≡ p.1
  continue-pure (returned a, s) g = refl
  continue-pure (thrown e, s) g = refl

-- What holds of the value and the state if the action returned.
abbrev pub Returns {ℓ κ} : {A S : Type ℓ} → (A → S → Type κ) → Outcome A × S → Type κ
Returns P (returned a, s) = P a s
Returns P (thrown e, s) = Unit

module _ {ℓ} {A S : Type ℓ} where
  pub Returns-use :
      (P : A → S → Type ℓ) (p : Outcome A × S) (a : A) (s : S)
      → Returns P p
      → p ≡ (returned a, s)
      → P a s
  Returns-use P p a s h e = subst (Returns P) e h

  pub Returns-continue :
      {B : Type ℓ} (P : A → S → Type ℓ) (Q : B → S → Type ℓ) (p : Outcome A × S)
      (m : A → Action S B)
      → Returns P p
      → ((a : A) (s : S) → P a s → Returns Q (m a s))
      → Returns Q (continue p m)
  Returns-continue P Q (returned a, s) m h k = k a s h
  Returns-continue P Q (thrown e, s) m h k = tt

-- The action returned, and this holds of the value and the state.
abbrev pub Yields {ℓ} : {A S : Type ℓ} → (A → S → Type 0) → Outcome A × S → Type 0
Yields P (returned a, s) = P a s
Yields P (thrown e, s) = ⊥

module _ {ℓ} {A S : Type ℓ} where
  pub Yields-returned :
      (P : A → S → Type 0) (p : Outcome A × S)
      → Yields P p
      → (a : A) × (p ≡ (returned a, p.1)) × P a p.1
  Yields-returned P (returned a, s) h = (a, refl, h)
  Yields-returned P (thrown e, s) h = absurd h

  pub Yields-continue :
      {B : Type ℓ} (P : A → S → Type 0) (Q : B → S → Type 0) (p : Outcome A × S)
      (m : A → Action S B)
      → Yields P p
      → ((a : A) (s : S) → P a s → Yields Q (m a s))
      → Yields Q (continue p m)
  Yields-continue P Q (returned a, s) m h k = k a s h
  Yields-continue P Q (thrown e, s) m h k = absurd h

  pub Yields-handled :
      (P : A → S → Type 0) (p : Outcome A × S) (m : String → Action S A)
      → Returns P p
      → ((e : String) (s : S) → Yields P (m e s))
      → Yields P (handled p m)
  Yields-handled P (returned a, s) m h k = h
  Yields-handled P (thrown e, s) m h k = k e s

-- What holds of the value and the state if the action returned, and of the state if it threw.
abbrev pub Ends {ℓ κ} : {A S : Type ℓ} → (S → Type κ) → (A → S → Type κ) → Outcome A × S → Type κ
Ends P Q (returned a, s) = Q a s
Ends P Q (thrown e, s) = P s

module _ {ℓ κ} {A S : Type ℓ} where
  pub Ends-continue :
      {B : Type ℓ} (P : S → Type κ) (Q : A → S → Type κ) (R : B → S → Type κ) (p : Outcome A × S)
      (m : A → Action S B)
      → Ends P Q p
      → ((a : A) (s : S) → Q a s → Ends P R (m a s))
      → Ends P R (continue p m)
  Ends-continue P Q R (returned a, s) m h k = k a s h
  Ends-continue P Q R (thrown e, s) m h k = h

  pub Ends-handled :
      (P : S → Type κ) (Q : A → S → Type κ) (p : Outcome A × S) (m : String → Action S A)
      → Ends P Q p
      → ((e : String) (s : S) → P s → Ends P Q (m e s))
      → Ends P Q (handled p m)
  Ends-handled P Q (returned a, s) m h k = h
  Ends-handled P Q (thrown e, s) m h k = k e s h

  pub Ends-always : (P : S → Type κ) (p : Outcome A × S) → P p.1 → Ends P (λ a s. P s) p
  Ends-always P (returned a, s) h = h
  Ends-always P (thrown e, s) h = h

  pub Ends-state : (P : S → Type κ) (p : Outcome A × S) → Ends P (λ a s. P s) p → P p.1
  Ends-state P (returned a, s) h = h
  Ends-state P (thrown e, s) h = h

  -- both branches of a test
  pub Ends-if :
      (P : S → Type κ) (Q : A → S → Type κ) (b : Bool) (p q : Outcome A × S)
      → Ends P Q p
      → Ends P Q q
      → Ends P Q (if b then p else q)
  Ends-if P Q true p q h k = h
  Ends-if P Q false p q h k = k
