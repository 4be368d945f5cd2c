-- ===== src/Base/Sort.antt =====
-- Queries over a list of rows: WHERE by a Boolean test, ORDER BY by insertion sort, and the
-- membership of their results.
use mathlib.Core.Path.{◌≡◌, refl, ap, ◌∙◌}
use Prim.Native.Nat.{suc, ◌≤◌}
use native.Mathlib.Omega.{arith}
use mathlib.Core.Logic.{◌⊎◌, inl, inr}
use mathlib.Core.Bool.{Bool, true, false}
use mathlib.Core.List.{List, [], ◌∷◌, ◌++◌, Memᴰ}
use mathlib.Core.List.Memᴰ
use gateway_login.Base.Bools.{Bool-cases, if◌then◌else◌}
use gateway_login.Base.Lists.{select, length}

module _ {ℓ} {A : Type ℓ} where
  pub mem-select :
      (p : A → Bool) {a : A} {xs : List A} → Memᴰ a xs → p a ≡ true → Memᴰ a (select p xs)
  mem-select p (Memᴰ.head {x} e) t = rw (← e, t) (Memᴰ.head refl)
  mem-select p (Memᴰ.tail {x} h) t = elim (Bool-cases (p x)) [
    | inl here ↦ rw here (Memᴰ.tail (mem-select p h t))
    | inr gone ↦ rw gone (mem-select p h t)
  ]

  pub length-select : (p : A → Bool) (xs : List A) → length (select p xs) ≤ length xs
  length-select p [] = omega arith
  length-select p (x ∷ xs) = elim (Bool-cases (p x)) [
    | inl here ↦ rw here (omega (arith, length-select p xs))
    | inr gone ↦ rw gone (omega (arith, length-select p xs))
  ]

  pub select-mem :
      (p : A → Bool) (a : A) (xs : List A) → Memᴰ a (select p xs) → Memᴰ a xs × (p a ≡ true)
  select-mem p a [] h = absurd (Memᴰ.not-nil h)
  select-mem p a (x ∷ xs) h = elim (Bool-cases (p x)) [
    | inl here ↦ kept here (Memᴰ.cases_cons (rw here at h)) (select-mem p a xs)
    | inr gone ↦ let (l, t) = select-mem p a xs (rw gone at h) in (Memᴰ.tail l, t)
  ]
    where
      kept :
          p x ≡ true
          → (a ≡ x) ⊎ Memᴰ a (select p xs)
          → (Memᴰ a (select p xs) → Memᴰ a xs × (p a ≡ true))
          → Memᴰ a (x ∷ xs) × (p a ≡ true)
      kept t (inl e) ih = (Memᴰ.head e, rw e t)
      kept t (inr l) ih = let (m, u) = ih l in (Memᴰ.tail m, u)

-- Sorting by a Boolean order `le`.
module _ {ℓ} {A : Type ℓ} (le : A → A → Bool) where
  unfoldable pub insert_by : A → List A → List A
  insert_by a [] = a ∷ []
  insert_by a (x ∷ xs) = let rest = insert_by a xs in if le a x then a ∷ x ∷ xs else x ∷ rest

  unfoldable pub sort_by : List A → List A
  unfolding insert_by
  sort_by [] = []
  sort_by (x ∷ xs) = insert_by x (sort_by xs)

  length-insert_by : (a : A) (xs : List A) → length (insert_by a xs) ≡ suc (length xs)
  unfolding insert_by
  length-insert_by a [] = refl
  length-insert_by a (x ∷ xs) = elim (Bool-cases (le a x)) [
    | inl first ↦ rw first
    | inr later ↦ rw later (ap suc (length-insert_by a xs))
  ]

  pub length-sort_by : (xs : List A) → length (sort_by xs) ≡ length xs
  unfolding sort_by
  length-sort_by [] = refl
  length-sort_by (x ∷ xs) = length-insert_by x (sort_by xs) ∙ ap suc (length-sort_by xs)

  mem-insert_by_self : (a : A) (xs : List A) → Memᴰ a (insert_by a xs)
  unfolding insert_by
  mem-insert_by_self a [] = Memᴰ.head refl
  mem-insert_by_self a (x ∷ xs) = elim (Bool-cases (le a x)) [
    | inl first ↦ rw first (Memᴰ.head refl)
    | inr later ↦ rw later (Memᴰ.tail (mem-insert_by_self a xs))
  ]

  mem-insert_by : (b : A) {a : A} {xs : List A} → Memᴰ a xs → Memᴰ a (insert_by b xs)
  unfolding insert_by
  mem-insert_by b (Memᴰ.head {x} e) = elim (Bool-cases (le b x)) [
    | inl first ↦ rw first (Memᴰ.tail (Memᴰ.head e))
    | inr later ↦ rw later (Memᴰ.head e)
  ]
  mem-insert_by b (Memᴰ.tail {x} h) = elim (Bool-cases (le b x)) [
    | inl first ↦ rw first (Memᴰ.tail (Memᴰ.tail h))
    | inr later ↦ rw later (Memᴰ.tail (mem-insert_by b h))
  ]

  pub mem-sort_by : {a : A} {xs : List A} → Memᴰ a xs → Memᴰ a (sort_by xs)
  unfolding sort_by
  mem-sort_by {a} (Memᴰ.head {x} {xs} e) = rw e (mem-insert_by_self x (sort_by xs))
  mem-sort_by (Memᴰ.tail {x} h) = mem-insert_by x (mem-sort_by h)

  insert_by-mem : (a b : A) (xs : List A) → Memᴰ a (insert_by b xs) → (a ≡ b) ⊎ Memᴰ a xs
  unfolding insert_by
  insert_by-mem a b [] h = Memᴰ.cases_cons h
  insert_by-mem a b (x ∷ xs) h = elim (Bool-cases (le b x)) [
    | inl first ↦ Memᴰ.cases_cons (rw first at h)
    | inr later ↦ out (Memᴰ.cases_cons (rw later at h)) (insert_by-mem a b xs)
  ]
    where
      out :
          (a ≡ x) ⊎ Memᴰ a (insert_by b xs)
          → (Memᴰ a (insert_by b xs) → (a ≡ b) ⊎ Memᴰ a xs)
          → (a ≡ b) ⊎ Memᴰ a (x ∷ xs)
      out (inl e) ih = inr (Memᴰ.head e)
      out (inr l) ih = elim (ih l) [ inl e ↦ inl e | inr m ↦ inr (Memᴰ.tail m) ]

  pub sort_by-mem : (a : A) (xs : List A) → Memᴰ a (sort_by xs) → Memᴰ a xs
  unfolding sort_by
  sort_by-mem a [] h = h
  sort_by-mem a (x ∷ xs) h = out (insert_by-mem a x (sort_by xs) h) (sort_by-mem a xs)
    where
      out : (a ≡ x) ⊎ Memᴰ a (sort_by xs) → (Memᴰ a (sort_by xs) → Memᴰ a xs) → Memᴰ a (x ∷ xs)
      out (inl e) ih = Memᴰ.head e
      out (inr l) ih = Memᴰ.tail (ih l)

-- Sorted: each element is below all that follow it.
module _ {ℓ κ} {A : Type ℓ} (R : A → A → Type κ) where
  abbrev pub IsSorted : List A → Type (ℓ ⊔ κ)
  IsSorted [] = Unit
  IsSorted (x ∷ xs) = ((y : A) → Memᴰ y xs → R x y) × IsSorted xs

  pub IsSorted-append :
      (xs ys : List A) (a b : A) → IsSorted (xs ++ ys) → Memᴰ a xs → Memᴰ b ys → R a b
  IsSorted-append (x ∷ xs) ys a b h (Memᴰ.head e) m = rw e (h.0 b (Memᴰ.append_right xs m))
  IsSorted-append (x ∷ xs) ys a b h (Memᴰ.tail l) m = IsSorted-append xs ys a b h.1 l m
  IsSorted-append [] ys a b h l m = absurd (Memᴰ.not-nil l)

  -- `le` decides an order that contains `R`'s facts both ways.
  module _ (le : A → A → Bool) (trans : (a b c : A) → R a b → R b c → R a c)
      (holds : (a b : A) → le a b ≡ true → R a b) (total : (a b : A) → le a b ≡ false → R b a) where
    insert_by-IsSorted : (a : A) (xs : List A) → IsSorted xs → IsSorted (insert_by le a xs)
    unfolding insert_by
    insert_by-IsSorted a [] h = (λ y l. absurd (Memᴰ.not-nil l), tt)
    insert_by-IsSorted a (x ∷ xs) h = elim (Bool-cases (le a x)) [
      | inl first ↦ rw first (below (holds a x first), h)
      | inr later ↦ rw later (over (total a x later), insert_by-IsSorted a xs h.1)
    ]
      where
        pick : (y : A) → R a x → (y ≡ x) ⊎ Memᴰ y xs → R a y
        pick y r (inl e) = rw e r
        pick y r (inr l) = trans a x y r (h.0 y l)

        below : R a x → (y : A) → Memᴰ y (x ∷ xs) → R a y
        below r y l = pick y r (Memᴰ.cases_cons l)

        place : (y : A) → R x a → (y ≡ a) ⊎ Memᴰ y xs → R x y
        place y r (inl e) = rw e r
        place y r (inr l) = h.0 y l

        over : R x a → (y : A) → Memᴰ y (insert_by le a xs) → R x y
        over r y l = place y r (insert_by-mem le y a xs l)

    pub sort_by-IsSorted : (xs : List A) → IsSorted (sort_by le xs)
    unfolding sort_by
    sort_by-IsSorted [] = tt
    sort_by-IsSorted (x ∷ xs) = insert_by-IsSorted x (sort_by le xs) (sort_by-IsSorted xs)
