-- ===== src/Base/Switch.antt =====
-- C's `switch` whose cases all end in `break` or `return`: the first entry with the key wins.
use Prim.Native.Nat.{ℕ}
use mathlib.Core.Path.{◌≡◌, refl, sym, subst}
use mathlib.Core.List.{List, [], ◌∷◌}
use mathlib.Core.Logic.{◌≢◌, inl, inr}
use dol_recomp.Base.Tests.{◌==◌, if◌then◌else◌, Bool-cases, ==_iff}

module _ {ℓ} {A : Type ℓ} where
  unfoldable pub switch : ℕ → List (ℕ × A) → A → A
  switch n [] default = default
  switch n ((k, a) ∷ cases) default = if n == k then a else switch n cases default

-- Every branch of a table has a property.
abbrev pub AllCases {ℓ κ} : {A : Type ℓ} → (A → Type κ) → List (ℕ × A) → Type κ
AllCases P [] = Unit
AllCases P ((k, a) ∷ cases) = P a × AllCases P cases

pub switch-AllCases {ℓ κ} :
    {A : Type ℓ} (P : A → Type κ) (n : ℕ) (cases : List (ℕ × A)) {default : A}
    → AllCases P cases
    → P default
    → P (switch n cases default)
unfolding switch
switch-AllCases P n [] h d = d
switch-AllCases P n ((k, a) ∷ cases) h d = elim (Bool-cases (n == k)) [
  | inl e ↦ rw e h.0
  | inr e ↦ rw e (switch-AllCases P n cases h.1 d)
]

-- No key of a table is the value.
abbrev pub NoKey {ℓ} : {A : Type ℓ} → ℕ → List (ℕ × A) → Type 0
NoKey n [] = Unit
NoKey n ((k, a) ∷ cases) = (n ≢ k) × NoKey n cases

pub switch-NoKey {ℓ} :
    {A : Type ℓ} (n : ℕ) (cases : List (ℕ × A)) (default : A)
    → NoKey n cases
    → switch n cases default ≡ default
unfolding switch
switch-NoKey n [] default h = refl
switch-NoKey n ((k, a) ∷ cases) default h = elim (Bool-cases (n == k)) [
  | inl e ↦ absurd (h.0 ((==_iff n k).0 e))
  | inr e ↦ rw e (switch-NoKey n cases default h.1)
]

-- Every branch of a table has a property that names its key.
abbrev pub AllKeyed {ℓ κ} : {A : Type ℓ} → (ℕ → A → Type κ) → List (ℕ × A) → Type κ
AllKeyed P [] = Unit
AllKeyed P ((k, a) ∷ cases) = P k a × AllKeyed P cases

pub switch-AllKeyed {ℓ κ} :
    {A : Type ℓ} (P : ℕ → A → Type κ) (n : ℕ) (cases : List (ℕ × A)) {default : A}
    → AllKeyed P cases
    → P n default
    → P n (switch n cases default)
unfolding switch
switch-AllKeyed P n [] h d = d
switch-AllKeyed P n ((k, a) ∷ cases) h d = elim (Bool-cases (n == k)) [
  | inl e ↦ rw e (subst (λ m. P m a) (sym ((==_iff n k).0 e)) h.0)
  | inr e ↦ rw e (switch-AllKeyed P n cases h.1 d)
]
