-- ===== src/Base/Map.antt =====
-- A Go map as an association list. The order of the entries stands for the order in which a
-- `range` loop meets them, which Go leaves open: a theorem about all maps covers every order.
use Prim.Native.Nat.{suc}
use mathlib.Core.Path.{◌≡◌, refl, ap, subst}
use mathlib.Core.Bool.{true}
use mathlib.Core.Option.{Option, none, some}
use mathlib.Core.List.{List, [], ◌∷◌, map}
use native.Mathlib.Omega.{arith}
use mathlib.Core.Logic.{inl, inr}
use filecoin.Base.Tests.{if◌then◌else◌, Eq, Bool-cases}
use filecoin.Base.Lists.{length, In, here, there}

abbrev pub Map {ℓ} : Type 0 → Type ℓ → Type ℓ
Map K V = List (K × V)

abbrev pub values {ℓ} : {K : Type 0} {V : Type ℓ} → Map K V → List V
values = map (λ p. p.1)

pub beq_refl : {K : Type 0} ⦃e : Eq K⦄ (k : K) → e.beq k k ≡ true
beq_refl ⦃e⦄ k = (e.beq_iff k k).1 refl

module _ {ℓ} {K : Type 0} {V : Type ℓ} ⦃e : Eq K⦄ where
  -- m[k], with the second result of Go's lookup as `none`
  unfoldable pub find : K → Map K V → Option V
  find k [] = none
  find k ((j, v) ∷ m) = if e.beq j k then some v else find k m

  -- delete(m, k)
  unfoldable pub erase : K → Map K V → Map K V
  erase k [] = []
  erase k ((j, v) ∷ m) = let rest = erase k m in if e.beq j k then rest else (j, v) ∷ rest

  -- m[k] = v
  unfoldable pub put : K → V → Map K V → Map K V
  unfolding erase
  put k v m = (k, v) ∷ erase k m

  pub find-erase :
      (k j : K) (m : Map K V) → find j (erase k m) ≡ (if e.beq k j then none else find j m)
  unfolding find erase
  find-erase k j [] = ground arith
  find-erase k j ((i, v) ∷ m) =
      ground (arith, find-erase k j m, e.beq_iff k j, e.beq_iff i j, e.beq_iff i k)

  pub find-put :
      (k j : K) (v : V) (m : Map K V)
      → find j (put k v m) ≡ (if e.beq k j then some v else find j m)
  unfolding find put
  find-put k j v m = ground (arith, find-erase k j m)

  pub find-put_self : (k : K) (v : V) (m : Map K V) → find k (put k v m) ≡ some v
  unfolding find put
  find-put_self k v m = ground (arith, beq_refl k)

  -- No key stands twice.
  abbrev pub Distinct : Map K V → Type ℓ
  Distinct [] = Unit
  Distinct ((k, v) ∷ m) = (find k m ≡ none) × Distinct m

  pub erase-Distinct : (k : K) (m : Map K V) → Distinct m → Distinct (erase k m)
  unfolding erase
  erase-Distinct k [] d = tt
  erase-Distinct k ((j, v) ∷ m) d = ground (arith, erase-Distinct k m d.1, find-erase k j m)

  pub put-Distinct : (k : K) (v : V) (m : Map K V) → Distinct m → Distinct (put k v m)
  unfolding put
  put-Distinct k v m d = ground (arith, find-erase k k m, beq_refl k, erase-Distinct k m d)

  pub erase-none : (k : K) (m : Map K V) → find k m ≡ none → erase k m ≡ m
  unfolding find erase
  erase-none k [] h = refl
  erase-none k ((j, v) ∷ m) h = ground (arith, erase-none k m)

  pub length-erase :
      (k : K) (m : Map K V) (w : V)
      → Distinct m
      → find k m ≡ some w
      → suc (length (erase k m)) ≡ length m
  unfolding find erase
  length-erase k [] w d h = cc
  length-erase k ((j, v) ∷ m) w d h =
      ground (arith, e.beq_iff j k, length-erase k m w d.1, erase-none k m)

  -- What holds of every entry.
  abbrev pub AllEntries {κ} : (K → V → Type κ) → Map K V → Type κ
  AllEntries P [] = Unit
  AllEntries P ((k, v) ∷ m) = P k v × AllEntries P m

  pub erase-AllEntries {κ} :
      (P : K → V → Type κ) (k : K) (m : Map K V) → AllEntries P m → AllEntries P (erase k m)
  unfolding erase
  erase-AllEntries P k [] h = tt
  erase-AllEntries P k ((j, v) ∷ m) h = ground (arith, erase-AllEntries P k m h.1)

  pub put-AllEntries {κ} :
      (P : K → V → Type κ) (k : K) (v : V) (m : Map K V)
      → P k v
      → AllEntries P m
      → AllEntries P (put k v m)
  unfolding put
  put-AllEntries P k v m p h = (p, erase-AllEntries P k m h)

  pub find-AllEntries {κ} :
      (P : K → V → Type κ) (k : K) (m : Map K V) (v : V)
      → AllEntries P m
      → find k m ≡ some v
      → P k v
  unfolding find
  find-AllEntries P k [] v h q = absurd (cc)
  find-AllEntries P k ((j, w) ∷ m) v h q =
      ground (arith, e.beq_iff j k, find-AllEntries P k m v h.1)

  pub AllEntries-mono {κ κ'} :
      (P : K → V → Type κ) (Q : K → V → Type κ') (m : Map K V)
      → ((k : K) (v : V) → P k v → Q k v)
      → AllEntries P m
      → AllEntries Q m
  AllEntries-mono P Q [] f h = tt
  AllEntries-mono P Q ((k, v) ∷ m) f h = (f k v h.0, AllEntries-mono P Q m f h.1)

  pub length-put_new :
      (k : K) (v : V) (m : Map K V) → find k m ≡ none → length (put k v m) ≡ suc (length m)
  unfolding put
  length-put_new k v m e = ap (λ l. suc (length l)) (erase-none k m e)

  pub length-put_over :
      (k : K) (v w : V) (m : Map K V)
      → Distinct m
      → find k m ≡ some w
      → length (put k v m) ≡ length m
  unfolding put
  length-put_over k v w m d e = length-erase k m w d e

  pub entries_found : (m : Map K V) → Distinct m → AllEntries (λ k v. find k m ≡ some v) m
  unfolding find
  entries_found [] d = tt
  entries_found ((j, w) ∷ m) d = (
    ground (arith, beq_refl j),
    AllEntries-mono _ _ m (λ k v h. ground (arith, h, d.0, e.beq_iff j k)) (entries_found m d.1),
  )

  pub find-In : (k : K) (m : Map K V) (v : V) → find k m ≡ some v → In v (values m)
  unfolding find
  find-In k [] v h = absurd (cc)
  find-In k ((j, w) ∷ m) v h = elim (Bool-cases (e.beq j k)) [
    | inl y ↦ let same : w ≡ v = ground (arith, y, h) in subst (λ x. In x (w ∷ values m)) same here
    | inr y ↦ there (find-In k m v (ground (arith, y, h)))
  ]
