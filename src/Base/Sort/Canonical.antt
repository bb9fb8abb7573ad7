-- ===== src/Base/Sort/Canonical.antt =====
-- Sorting by a strict total order has one result for each collection of elements.
use mathlib.Core.Path.{◌≡◌, refl, subst, ◌∙◌}
use mathlib.Core.Logic.{inl, inr, ∥∥₁_elim}
use mathlib.Core.Bool.{Bool, true, false}
use mathlib.Core.List
use mathlib.Core.List.{List, [], ◌∷◌, Perm, Permᴰ}
use native.Mathlib.Omega.{arith}
use filecoin.Base.Tests.{Bool-cases}
use filecoin.Base.Lists.{All, In, here, there}
use filecoin.Base.Sort.{insert_by, sort_by}

-- `less` is a strict total order on the elements that satisfy `Good`.
pub record StrictTotal {ℓ κ} {A : Type ℓ} (less : A → A → Bool) (Good : A → Type κ)
    : Type (ℓ ⊔ κ) where
  pub asym : (a b : A) → Good a → Good b → less a b ≡ true → less b a ≡ false
  pub tri : (a b : A) → Good a → Good b → less a b ≡ false → less b a ≡ false → a ≡ b
  pub trans :
      (a b c : A) → Good a → Good b → Good c → less a b ≡ true → less b c ≡ true → less a c ≡ true

module _ {ℓ κ} {A : Type ℓ} (less : A → A → Bool) (Good : A → Type κ) where
  pub insert_by-All : (x : A) (xs : List A) → Good x → All Good xs → All Good (insert_by less x xs)
  unfolding insert_by
  insert_by-All x [] gx g = (gx, tt)
  insert_by-All x (y ∷ ys) gx g = ground (arith, insert_by-All x ys gx g.1)

  pub sort_by-All : (xs : List A) → All Good xs → All Good (sort_by less xs)
  unfolding sort_by
  sort_by-All [] g = tt
  sort_by-All (x ∷ xs) g = insert_by-All x (sort_by less xs) g.0 (sort_by-All xs g.1)

module _ {ℓ κ} {A : Type ℓ} (less : A → A → Bool) (Good : A → Type κ)
    (o : StrictTotal less Good) where
  insert_swap :
      (x y : A) (zs : List A)
      → Good x
      → Good y
      → All Good zs
      → insert_by less x (insert_by less y zs) ≡ insert_by less y (insert_by less x zs)
  unfolding insert_by
  insert_swap x y [] gx gy g = ground (arith, o.asym x y gx gy, o.tri x y gx gy)
  insert_swap x y (z ∷ zs) gx gy g = ground (
    arith,
    insert_swap x y zs gx gy g.1,
    o.asym x y gx gy,
    o.tri x y gx gy,
    o.trans z y x g.0 gy gx,
    o.trans z x y g.0 gx gy,
  )

  All-Permᴰ : {xs ys : List A} → Permᴰ xs ys → All Good xs → All Good ys
  All-Permᴰ Permᴰ.nil g = tt
  All-Permᴰ (Permᴰ.cons e p) g = (subst Good e g.0, All-Permᴰ p g.1)
  All-Permᴰ (Permᴰ.swap e f) g = (subst Good f g.1.0, (subst Good e g.0, g.1.1))
  All-Permᴰ (Permᴰ.trans p q) g = All-Permᴰ q (All-Permᴰ p g)

  sort_by-Permᴰ : {xs ys : List A} → Permᴰ xs ys → All Good xs → sort_by less xs ≡ sort_by less ys
  unfolding sort_by
  sort_by-Permᴰ Permᴰ.nil g = refl
  sort_by-Permᴰ (Permᴰ.cons e p) g = cc (e, sort_by-Permᴰ p g.1)
  sort_by-Permᴰ (Permᴰ.swap {a} {b} {l = l} e f) g =
      cc (e, f, insert_swap a b (sort_by less l) g.0 g.1.0 (sort_by-All less Good l g.1.1))
  sort_by-Permᴰ (Permᴰ.trans p q) g = sort_by-Permᴰ p g ∙ sort_by-Permᴰ q (All-Permᴰ p g)

  -- The order of the input does not change the result.
  pub sort_by-eq_of_perm :
      IsSet A → (xs ys : List A) → Perm xs ys → All Good xs → sort_by less xs ≡ sort_by less ys
  sort_by-eq_of_perm s xs ys p g = ∥∥₁_elim p (List.is_set s _ _) (λ q. sort_by-Permᴰ q g)

module _ {ℓ} {A : Type ℓ} (less : A → A → Bool) where
  pub sort_by-cons :
      (x : A) (xs : List A) → (y : A) × (ys : List A) × (sort_by less (x ∷ xs) ≡ y ∷ ys)
  unfolding sort_by insert_by
  sort_by-cons x xs = insert_by-cons (sort_by less xs)
    where
      insert_by-cons : (zs : List A) → (y : A) × (ys : List A) × (insert_by less x zs ≡ y ∷ ys)
      insert_by-cons [] = (x, [], refl)
      insert_by-cons (z ∷ zs) = elim (Bool-cases (less z x)) [
        | inl e ↦ (z, insert_by less x zs, rw e)
        | inr e ↦ (x, z ∷ zs, rw e)
      ]

  insert_by-new : (y : A) (zs : List A) → In y (insert_by less y zs)
  unfolding insert_by
  insert_by-new y [] = here
  insert_by-new y (z ∷ zs) = elim (Bool-cases (less z y)) [
    | inl e ↦ rw e (there (insert_by-new y zs))
    | inr e ↦ rw e here
  ]

  insert_by-old : {x : A} (y : A) (zs : List A) → In x zs → In x (insert_by less y zs)
  unfolding insert_by
  insert_by-old y [] i = elim i [ ]
  insert_by-old y (z ∷ zs) here = elim (Bool-cases (less z y)) [
    | inl e ↦ rw e here
    | inr e ↦ rw e (there here)
  ]
  insert_by-old y (z ∷ zs) (there i) = elim (Bool-cases (less z y)) [
    | inl e ↦ rw e (there (insert_by-old y zs i))
    | inr e ↦ rw e (there (there i))
  ]

  pub sort_by-In : {x : A} (xs : List A) → In x xs → In x (sort_by less xs)
  unfolding sort_by
  sort_by-In [] i = elim i [ ]
  sort_by-In (y ∷ ys) here = insert_by-new y (sort_by less ys)
  sort_by-In (y ∷ ys) (there i) = insert_by-old y (sort_by less ys) (sort_by-In ys i)
