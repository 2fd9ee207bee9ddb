-- ===== src/Base/Map.antt =====
-- Maps (`DashMap`, `HashMap`) as association lists. The order of the list stands for the order in
-- which an iteration happens to visit the entries; no statement depends on which order it is.
use Prim.Native.Nat.{suc}
use mathlib.Core.Path.{◌≡◌, refl, subst}
use mathlib.Core.Logic.{ite, ◌⊎◌, inl, inr}
use mathlib.Core.Option.{Option, none, some}
use mathlib.Core.List.{List, [], ◌∷◌}
use mathlib.Core.Bool.{Bool}
use native.Mathlib.Omega.{arith}
use multiplayer_kit.Base.Lists.{length}
use multiplayer_kit.Base.Tests.{is_some}

abbrev pub Map : Type 0 → Type 0 → Type 0
Map K V = List (K × V)

module _ {K V : Type 0} (d : Discrete K) where
  unfoldable pub get : K → Map K V → Option V
  get k [] = none
  get k ((j, v) ∷ m) = ite (d j k) (some v) (get k m)

  -- A key that is there keeps its place.
  unfoldable pub insert : K → V → Map K V → Map K V
  insert k v [] = (k, v) ∷ []
  insert k v ((j, w) ∷ m) = ite (d j k) ((k, v) ∷ m) ((j, w) ∷ insert k v m)

  unfoldable pub remove : K → Map K V → Map K V
  remove k [] = []
  remove k ((j, w) ∷ m) = ite (d j k) (remove k m) ((j, w) ∷ remove k m)

  abbrev pub contains_key : K → Map K V → Bool
  contains_key k m = is_some (get k m)

  pub get-insert :
      (k j : K) (v : V) (m : Map K V) → get j (insert k v m) ≡ ite (d k j) (some v) (get j m)
  unfolding get insert
  get-insert k j v [] = refl
  get-insert k j v ((i, w) ∷ m) = ground (arith, get-insert k j v m)

  pub get-insert_self : (k : K) (v : V) (m : Map K V) → get k (insert k v m) ≡ some v
  get-insert_self k v m = ground (arith, get-insert k k v m)

  pub get-remove : (k j : K) (m : Map K V) → get j (remove k m) ≡ ite (d k j) none (get j m)
  unfolding get remove
  get-remove k j [] = ground arith
  get-remove k j ((i, w) ∷ m) = ground (arith, get-remove k j m)

  -- No key stands twice.
  unfoldable pub Distinct : Map K V → Type 0
  Distinct [] = Unit
  Distinct ((k, v) ∷ m) = (get k m ≡ none) × Distinct m

  -- Inserting what is there changes nothing.
  pub insert_same : (k : K) (v : V) (m : Map K V) → get k m ≡ some v → insert k v m ≡ m
  unfolding get insert
  insert_same k v [] h = absurd (cc)
  insert_same k v ((j, w) ∷ m) h = ground (arith, insert_same k v m)

  pub insert-Distinct : (k : K) (v : V) (m : Map K V) → Distinct m → Distinct (insert k v m)
  unfolding get insert Distinct
  insert-Distinct k v [] h = (refl, tt)
  insert-Distinct k v ((j, w) ∷ m) h = ground (arith, insert-Distinct k v m h.1, get-insert k j v m)

  pub remove-Distinct : (k : K) (m : Map K V) → Distinct m → Distinct (remove k m)
  unfolding get remove Distinct
  remove-Distinct k [] h = tt
  remove-Distinct k ((j, w) ∷ m) h = ground (arith, remove-Distinct k m h.1, get-remove k j m)

  pub length-insert_new :
      (k : K) (v : V) (m : Map K V) → get k m ≡ none → length (insert k v m) ≡ suc (length m)
  unfolding get insert
  length-insert_new k v [] h = refl
  length-insert_new k v ((j, w) ∷ m) h = ground (arith, length-insert_new k v m)

  pub length-insert_old :
      (k : K) (v w : V) (m : Map K V) → get k m ≡ some w → length (insert k v m) ≡ length m
  unfolding get insert
  length-insert_old k v w [] h = cc
  length-insert_old k v w ((j, u) ∷ m) h = ground (arith, length-insert_old k v w m)

  pub remove_missing : (k : K) (m : Map K V) → get k m ≡ none → remove k m ≡ m
  unfolding get remove
  remove_missing k [] h = refl
  remove_missing k ((j, w) ∷ m) h = ground (arith, remove_missing k m)

  pub length-remove :
      (k : K) (v : V) (m : Map K V)
      → Distinct m
      → get k m ≡ some v
      → length m ≡ suc (length (remove k m))
  unfolding get remove Distinct
  length-remove k v [] h e = cc
  length-remove k v ((j, w) ∷ m) h e = ground (arith, length-remove k v m h.1, remove_missing k m)

  pub remove-insert : (k : K) (v : V) (m : Map K V) → get k m ≡ none → remove k (insert k v m) ≡ m
  unfolding get insert remove
  remove-insert k v [] h = ground arith
  remove-insert k v ((j, w) ∷ m) h = ground (arith, remove-insert k v m)

  -- Each value of the map has the property.
  abbrev pub Every {ℓ} : (V → Type ℓ) → Map K V → Type ℓ
  Every P m = (k : K) (v : V) → get k m ≡ some v → P v

  insert_cases :
      (k j : K) (v w : V) (m : Map K V)
      → get j (insert k v m) ≡ some w
      → (v ≡ w) ⊎ (get j m ≡ some w)
  insert_cases k j v w m h = ground (arith, get-insert k j v m)

  pub insert-Every {ℓ} :
      (P : V → Type ℓ) (k : K) (v : V) (m : Map K V) → P v → Every P m → Every P (insert k v m)
  insert-Every P k v m p all j w h = elim (insert_cases k j v w m h) [
    | inl e ↦ subst P e p
    | inr old ↦ all j w old
  ]

  pub remove-Every {ℓ} : (P : V → Type ℓ) (k : K) (m : Map K V) → Every P m → Every P (remove k m)
  remove-Every P k m all j w h = all j w (ground (arith, get-remove k j m))
