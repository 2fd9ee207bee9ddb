-- ===== src/Base/Set.antt =====
-- `HashSet` of numbers as a list.
use Prim.Native.Nat.{ℕ}
use mathlib.Core.Path.{◌≡◌, refl}
use mathlib.Core.Logic.{ite}
use mathlib.Core.List.{List, [], ◌∷◌}
use mathlib.Core.Bool.{Bool, true, false}
use native.Mathlib.Omega.{arith}
use native.Mathlib.Decide.{ℕ_discrete}
use multiplayer_kit.Base.Tests.{if◌then◌else◌}

unfoldable pub member : ℕ → List ℕ → Bool
unfolding ℕ_discrete
member c [] = false
member c (x ∷ s) = ite (ℕ_discrete x c) true (member c s)

unfoldable pub set_insert : ℕ → List ℕ → List ℕ
unfolding member
set_insert c s = if member c s then s else c ∷ s

unfoldable pub set_remove : ℕ → List ℕ → List ℕ
unfolding ℕ_discrete
set_remove c [] = []
set_remove c (x ∷ s) = ite (ℕ_discrete x c) (set_remove c s) (x ∷ set_remove c s)

abbrev pub is_empty {ℓ} : {A : Type ℓ} → List A → Bool
is_empty [] = true
is_empty (x ∷ xs) = false

pub member-set_insert :
    (c j : ℕ) (s : List ℕ) → member j (set_insert c s) ≡ ite (ℕ_discrete c j) true (member j s)
unfolding set_insert member
member-set_insert c j s = ground arith

pub member-set_remove :
    (c j : ℕ) (s : List ℕ) → member j (set_remove c s) ≡ ite (ℕ_discrete c j) false (member j s)
unfolding set_remove member
member-set_remove c j [] = ground arith
member-set_remove c j (x ∷ s) = ground (arith, member-set_remove c j s)

pub set_remove_missing : (c : ℕ) (s : List ℕ) → member c s ≡ false → set_remove c s ≡ s
unfolding set_remove member
set_remove_missing c [] h = refl
set_remove_missing c (x ∷ s) h = ground (arith, set_remove_missing c s)

pub member_empty : (c : ℕ) (s : List ℕ) → is_empty s ≡ true → member c s ≡ false
unfolding member
member_empty c [] h = refl
member_empty c (x ∷ s) h = cc

pub set_insert_not_empty : (c : ℕ) (s : List ℕ) → is_empty (set_insert c s) ≡ false
unfolding set_insert member
set_insert_not_empty c [] = refl
set_insert_not_empty c (x ∷ s) = ground arith

pub set_remove-set_insert :
    (c : ℕ) (s : List ℕ) → member c s ≡ false → set_remove c (set_insert c s) ≡ s
unfolding set_insert set_remove
set_remove-set_insert c s h = ground (arith, set_remove_missing c s)
