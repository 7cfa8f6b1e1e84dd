-- ===== src/Common/Tests.antt =====
-- Boolean tests on the native numbers and on texts, the conditional, and case splits.
use Prim.Native.Nat.{ℕ, ◌<◌, compare, Ordering}
use Prim.Native.String.{String}
use mathlib.Core.Path.{◌≡◌, refl}
use mathlib.Core.Logic.{◌↔◌, ◌⊎◌, inl, inr}
use mathlib.Core.Bool.{Bool, true, false, ◌&&◌}
use mathlib.Core.Option.{Option, none, some}
use native.Mathlib.Omega.{arith}
use text.Mathlib.Text.{◌==◌ as text_eq}
use text.Mathlib.TextEquality.{eq_iff}

abbrev pub ltb : ℕ → ℕ → Bool
ltb a b = elim (compare a b) [ Ordering.lt ↦ true | _ ↦ false ]

abbrev pub leb : ℕ → ℕ → Bool
leb a b = elim (compare a b) [ Ordering.gt ↦ false | _ ↦ true ]

abbrev pub nat_eq : ℕ → ℕ → Bool
nat_eq a b = elim (compare a b) [ Ordering.eq ↦ true | _ ↦ false ]

infix 1 if◌then◌else◌
abbrev pub if◌then◌else◌ {ℓ} : {A : Type ℓ} → Bool → A → A → A
if true then x else y = x
if false then x else y = y

pub ltb→lt : (a b : ℕ) → ltb a b ≡ true → a < b
ltb→lt a b h = ground arith

pub lt→ltb : (a b : ℕ) → a < b → ltb a b ≡ true
lt→ltb a b h = ground arith

pub nat_eq_iff : (a b : ℕ) → (nat_eq a b ≡ true) ↔ (a ≡ b)
nat_eq_iff a b = ground arith

-- A comparable type in Go's sense: `same` is its operator `==`.
pub record Comparable {ℓ} (T : Type ℓ) : Type ℓ where
  pub same : T → T → Bool
  pub same_iff : (left right : T) → (same left right ≡ true) ↔ (left ≡ right)

infix 50 ◌==◌
abbrev pub ◌==◌ {ℓ} : {T : Type ℓ} ⦃cmp : Comparable T⦄ → T → T → Bool
◌==◌ ⦃cmp⦄ left right = cmp.same left right

pub same_refl {ℓ} : {T : Type ℓ} ⦃cmp : Comparable T⦄ (x : T) → (x == x) ≡ true
same_refl ⦃cmp⦄ x = (cmp.same_iff x x).1 refl

instance abbrev pub text_comparable : Comparable String
text_comparable = record { same = text_eq; same_iff = eq_iff }

-- Go's `s == ""`.
abbrev pub is_blank : String → Bool
is_blank s = s == ""

-- k8s.io/apimachinery/pkg/types.NamespacedName, the key of every map of the program.
pub record NamespacedName : Type 0 where
  pub namespace : String
  pub name : String

abbrev pub key_eq : NamespacedName → NamespacedName → Bool
key_eq a b = text_eq a.namespace b.namespace && text_eq a.name b.name

pub key_eq_iff : (a b : NamespacedName) → (key_eq a b ≡ true) ↔ (a ≡ b)
key_eq_iff a b = ground (arith, eq_iff a.namespace b.namespace, eq_iff a.name b.name)

instance abbrev pub namespaced_name_comparable : Comparable NamespacedName
namespaced_name_comparable = record { same = key_eq; same_iff = key_eq_iff }

pub and_parts : (a b : Bool) → (a && b) ≡ true → (a ≡ true) × (b ≡ true)
and_parts a b h = (ground arith, ground arith)

-- To split on a computed value and keep the equation.
pub Bool-cases : (b : Bool) → (b ≡ true) ⊎ (b ≡ false)
Bool-cases true = inl refl
Bool-cases false = inr refl

pub Option-cases {ℓ} : {A : Type ℓ} (o : Option A) → (o ≡ none) ⊎ ((a : A) × (o ≡ some a))
Option-cases none = inl refl
Option-cases (some a) = inr (a, refl)

pub Sum-cases {ℓ κ} :
    {A : Type ℓ} {B : Type κ} (x : A ⊎ B) → ((a : A) × (x ≡ inl a)) ⊎ ((b : B) × (x ≡ inr b))
Sum-cases (inl a) = inl (a, refl)
Sum-cases (inr b) = inr (b, refl)

-- For a listed call of a tactic: what a result has, if there is one.
pub with_result {ℓ} :
    {A : Type 0} {P : A → Type ℓ} (o : Option A)
    → ((x : A) → o ≡ some x → P x)
    → (o ≡ none) ⊎ ((x : A) × (o ≡ some x) × P x)
with_result none h = inl refl
with_result (some x) h = inr (x, refl, h x refl)
