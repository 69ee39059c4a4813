-- ===== src/Base/Sort.antt =====
-- `sorted(items, key=…)`: a stable sort, by a test that says when one item must stand before
-- another. Each item is put in front of those that need not stand before it.
use mathlib.Core.Path.{◌≡◌}
use mathlib.Core.Logic.{inl, inr}
use mathlib.Core.Bool.{Bool, true, false}
use mathlib.Core.List.{List, [], ◌∷◌, Perm}
use mathlib.Core.List.Perm
use japan_agent.Base.Tests.{if◌then◌else◌, Bool-cases}
use japan_agent.Base.Lists.{All}

module _ {A : Type 0} (before : A → A → Bool) where
  unfoldable pub insert_sorted : A → List A → List A
  insert_sorted x [] = x ∷ []
  insert_sorted x (y ∷ ys) =
      let rest = insert_sorted x ys in if before y x then y ∷ rest else x ∷ y ∷ ys

  unfoldable pub sort : List A → List A
  unfolding insert_sorted
  sort [] = []
  sort (x ∷ xs) = insert_sorted x (sort xs)

  -- Nothing later must stand before the item.
  abbrev pub IsFirst : A → List A → Type 0
  IsFirst x ys = All (λ y. before y x ≡ false) ys

  -- No item must stand before an earlier one.
  abbrev pub Ascending : List A → Type 0
  Ascending [] = Unit
  Ascending (x ∷ xs) = IsFirst x xs × Ascending xs

  insert-perm : (x : A) (ys : List A) → Perm (insert_sorted x ys) (x ∷ ys)
  unfolding insert_sorted
  insert-perm x [] = Perm.rfl
  insert-perm x (y ∷ ys) = elim (Bool-cases (before y x)) [
    | inl later ↦ rw later (Perm.trans (Perm.cons y (insert-perm x ys)) (Perm.swap x y ys))
    | inr here ↦ rw here Perm.rfl
  ]

  -- The sorted list has the same items.
  pub sort-perm : (xs : List A) → Perm (sort xs) xs
  unfolding sort
  sort-perm [] = Perm.rfl
  sort-perm (x ∷ xs) = Perm.trans (insert-perm x (sort xs)) (Perm.cons x (sort-perm xs))

  insert-All : (P : A → Type 0) (x : A) (ys : List A) → P x → All P ys → All P (insert_sorted x ys)
  unfolding insert_sorted
  insert-All P x [] h k = (h, tt)
  insert-All P x (y ∷ ys) h (k, ks) = elim (Bool-cases (before y x)) [
    | inl later ↦ rw later (k, insert-All P x ys h ks)
    | inr here ↦ rw here (h, (k, ks))
  ]

  -- What holds of every item holds of every item of the sorted list.
  pub sort-All : (P : A → Type 0) (xs : List A) → All P xs → All P (sort xs)
  unfolding sort
  sort-All P [] h = tt
  sort-All P (x ∷ xs) (h, hs) = insert-All P x (sort xs) h (sort-All P xs hs)

  module _ (apart : (a b : A) → before a b ≡ true → before b a ≡ false)
      (chained : (a b c : A) → before b a ≡ false → before c b ≡ false → before c a ≡ false) where
    IsFirst-trans : (x y : A) (zs : List A) → before y x ≡ false → IsFirst y zs → IsFirst x zs
    IsFirst-trans x y [] h k = tt
    IsFirst-trans x y (z ∷ zs) h (k, ks) = (chained x y z h k, IsFirst-trans x y zs h ks)

    insert-IsFirst :
        (y x : A) (zs : List A) → before x y ≡ false → IsFirst y zs → IsFirst y (insert_sorted x zs)
    unfolding insert_sorted
    insert-IsFirst y x [] h k = (h, tt)
    insert-IsFirst y x (z ∷ zs) h (k, ks) = elim (Bool-cases (before z x)) [
      | inl later ↦ rw later (k, insert-IsFirst y x zs h ks)
      | inr here ↦ rw here (h, (k, ks))
    ]

    insert-Ascending : (x : A) (ys : List A) → Ascending ys → Ascending (insert_sorted x ys)
    unfolding insert_sorted
    insert-Ascending x [] h = (tt, tt)
    insert-Ascending x (y ∷ ys) (first, rest) = elim (Bool-cases (before y x)) [
      | inl later ↦
          rw later (insert-IsFirst y x ys (apart y x later) first, insert-Ascending x ys rest)
      | inr here ↦ rw here ((here, IsFirst-trans x y ys here first), (first, rest))
    ]

    -- The sorted list ascends.
    pub sort-Ascending : (xs : List A) → Ascending (sort xs)
    unfolding sort
    sort-Ascending [] = tt
    sort-Ascending (x ∷ xs) = insert-Ascending x (sort xs) (sort-Ascending xs)
