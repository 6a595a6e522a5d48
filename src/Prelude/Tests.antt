-- ===== src/Prelude/Tests.antt =====
-- Boolean tests on numbers and texts, as `if` reads them, and `==` for every type that the
-- sources compare.
use Prim.Native.Nat.{◌≤◌, ◌<◌, ℕ, compare, Ordering}
use Prim.Native.String.{String}
use mathlib.Core.Path.{◌≡◌, refl, ap}
use mathlib.Core.Logic.{◌↔◌, ◌⊎◌, inl, inr}
use mathlib.Core.Option.{Option, none, some}
use mathlib.Core.Bool.{Bool, true, false, ◌&&◌}
use native.Mathlib.Decide.{ℕ_discrete}
use native.Mathlib.Omega.{arith}
use text.Mathlib.Text.{◌==◌ as str_eq}
use text.Mathlib.TextEquality.{eq_iff}

abbrev pub ltb : ℕ → ℕ → Bool
ltb a b = elim (compare a b) [ Ordering.lt ↦ true | _ ↦ false ]

abbrev pub leb : ℕ → ℕ → Bool
leb a b = elim (compare a b) [ Ordering.gt ↦ false | _ ↦ true ]

abbrev pub same_number : ℕ → ℕ → Bool
same_number a b = elim (compare a b) [ Ordering.eq ↦ true | _ ↦ false ]

infix 1 if◌then◌else◌
abbrev pub if◌then◌else◌ {ℓ} : {A : Type ℓ} → Bool → A → A → A
if true then x else y = x
if false then x else y = y

pub same_number_iff : (a b : ℕ) → (same_number a b ≡ true) ↔ (a ≡ b)
same_number_iff a b = (λ h. ground arith, λ h. ground arith)

pub Bool-cases : (b : Bool) → (b ≡ true) ⊎ (b ≡ false)
Bool-cases true = inl refl
Bool-cases false = inr refl

-- A property of an `if`, from its branches.
pub if_intro {ℓ κ} :
    {A : Type ℓ} (P : A → Type κ) (b : Bool) {x y : A}
    → (b ≡ true → P x)
    → (b ≡ false → P y)
    → P (if b then x else y)
if_intro P true t f = t refl
if_intro P false t f = f refl

pub eq_or_lt : (a b : ℕ) → a ≤ b → (b ≡ a) ⊎ (a < b)
eq_or_lt a b h = elim (ℕ_discrete b a) [ yes e ↦ inl e | no n ↦ inr (omega arith) ]

pub Option-cases {ℓ} : {A : Type ℓ} (o : Option A) → (o ≡ none) ⊎ ((a : A) × (o ≡ some a))
Option-cases none = inl refl
Option-cases (some a) = inr (a, refl)

-- A type that Python compares by value.
pub record Eq {ℓ} (A : Type ℓ) : Type ℓ where
  pub same : A → A → Bool
  pub agrees : (a b : A) → (same a b ≡ true) ↔ (a ≡ b)

instance abbrev pub string_eq : Eq String
string_eq = record { agrees = eq_iff; same = str_eq }

instance abbrev pub number_eq : Eq ℕ
number_eq = record { agrees = same_number_iff; same = same_number }

module _ {ℓ} {A : Type ℓ} ⦃values : Eq A⦄ where
  infix 50 ◌==◌
  abbrev pub ◌==◌ : A → A → Bool
  a == b = values.same a b

module _ {ℓ κ} {A : Type ℓ} {B : Type κ} ⦃first : Eq A⦄ ⦃second : Eq B⦄ where
  abbrev pub same_pair : A × B → A × B → Bool
  same_pair (a, b) (c, d) = first.same a c && second.same b d

  pub same_pair_iff : (p q : A × B) → (same_pair p q ≡ true) ↔ (p ≡ q)
  same_pair_iff (a, b) (c, d) = (
    λ h.
        both ((first.agrees a c).0 (ground (arith, h))) ((second.agrees b d).0 (ground (arith, h))),
    λ h.
        apart ((first.agrees a c).1 (ap (λ (p : A × B). p.0) h))
          ((second.agrees b d).1 (ap (λ (p : A × B). p.1) h)),
  )
    where
      both : a ≡ c → b ≡ d → (let p : A × B = (a, b) in p) ≡ (c, d)
      both e f = cc

      apart :
          first.same a c ≡ true
          → second.same b d ≡ true
          → (first.same a c && second.same b d) ≡ true
      apart e f = ground (arith, e, f)

  instance abbrev pub pair_eq : Eq (A × B)
  pair_eq = record { same = same_pair; agrees = same_pair_iff }
