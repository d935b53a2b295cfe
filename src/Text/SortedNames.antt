-- ===== src/Text/SortedNames.antt =====
-- Sorting entries keeps the names that they carry.
use fogros2_sgc.Base.{insert_by, sort_by, ◌≡◌, refl, Bool, false, ◌||◌, List, [], ◌∷◌, map, arith}
use fogros2_sgc.Text.{Text, ◌==◌, eq_iff}
use fogros2_sgc.Text.Sets.{Distinct, contains}

module _ {A : Type 0} (name : A → Text) (le : A → A → Bool) where
  contains-map-insert_by :
      (x : A) (xs : List A) (a : Text)
      → contains (map name (insert_by le x xs)) a ≡ (name x == a || contains (map name xs) a)
  unfolding insert_by contains
  contains-map-insert_by x [] a = refl
  contains-map-insert_by x (y ∷ ys) a = ground (arith, contains-map-insert_by x ys a)

  pub contains-map-sort_by :
      (xs : List A) (a : Text) → contains (map name (sort_by le xs)) a ≡ contains (map name xs) a
  unfolding sort_by contains
  contains-map-sort_by [] a = refl
  contains-map-sort_by (x ∷ xs) a =
      ground (arith, contains-map-insert_by x (sort_by le xs) a, contains-map-sort_by xs a)

  Distinct-map-insert_by :
      (x : A) (xs : List A)
      → contains (map name xs) (name x) ≡ false
      → Distinct (map name xs)
      → Distinct (map name (insert_by le x xs))
  unfolding insert_by contains
  Distinct-map-insert_by x [] h d = (refl, tt)
  Distinct-map-insert_by x (y ∷ ys) h d = ground (
    arith,
    contains-map-insert_by x ys (name y),
    eq_iff (name x) (name y),
    eq_iff (name y) (name x),
    Distinct-map-insert_by x ys,
  )

  pub Distinct-map-sort_by :
      (xs : List A) → Distinct (map name xs) → Distinct (map name (sort_by le xs))
  unfolding sort_by
  Distinct-map-sort_by [] d = tt
  Distinct-map-sort_by (x ∷ xs) d =
      Distinct-map-insert_by x (sort_by le xs) (ground (arith, contains-map-sort_by xs (name x)))
        (Distinct-map-sort_by xs d.1)
