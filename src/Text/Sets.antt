-- ===== src/Text/Sets.antt =====
-- Sets and maps of texts: `HashSet` as a list read through `contains`, `HashMap` as an association
-- list read through `lookup`.
use fogros2_sgc.Base.{
  ℕ, suc, ◌≡◌, refl, Bool, true, false, ◌&&◌, ◌||◌, List, [], ◌∷◌, ◌++◌, Option, none, some, arith,
  if◌then◌else◌, insert_by, sort_by, take, zero, retain,
}
use fogros2_sgc.Text.{Text, ◌==◌, eq_iff, le_text}

unfoldable pub contains : List Text → Text → Bool
contains [] a = false
contains (x ∷ xs) a = x == a || contains xs a

-- No text stands twice in the list.
abbrev pub Distinct : List Text → Type 0
Distinct [] = Unit {0}
Distinct (x ∷ xs) = (contains xs x ≡ false) × Distinct xs

-- `Vec::sort` and `Vec::dedup`, which drops repeated neighbours.
unfoldable pub sort : List Text → List Text
unfolding sort_by insert_by le_text
sort = sort_by le_text

-- The first of each run of equal texts, when `last` came before.
pub dedup_from : Text → List Text → List Text
dedup_from last [] = []
dedup_from last (x ∷ xs) = let rest = dedup_from x xs in if last == x then rest else x ∷ rest

unfoldable pub dedup : List Text → List Text
unfolding dedup_from ◌==◌
dedup [] = []
dedup (x ∷ xs) = x ∷ dedup_from x xs

pub contains-append :
    (xs ys : List Text) (a : Text) → contains (xs ++ ys) a ≡ (contains xs a || contains ys a)
unfolding contains
contains-append [] ys a = refl
contains-append (x ∷ xs) ys a = ground (arith, contains-append xs ys a)

pub Distinct-concat :
    (xs : List Text) (a : Text) → contains xs a ≡ false → Distinct xs → Distinct (xs ++ a ∷ [])
unfolding contains
Distinct-concat [] a h d = (refl, tt)
Distinct-concat (x ∷ xs) a h d = (
  ground (arith, contains-append xs (a ∷ []) x, eq_iff x a, eq_iff a x),
  Distinct-concat xs a (ground arith) d.1,
)

pub contains-insert_by :
    (le : Text → Text → Bool) (x : Text) (xs : List Text) (a : Text)
    → contains (insert_by le x xs) a ≡ (x == a || contains xs a)
unfolding insert_by contains
contains-insert_by le x [] a = refl
contains-insert_by le x (y ∷ ys) a = ground (arith, contains-insert_by le x ys a)

pub contains-sort_by :
    (le : Text → Text → Bool) (xs : List Text) (a : Text)
    → contains (sort_by le xs) a ≡ contains xs a
unfolding sort_by contains
contains-sort_by le [] a = refl
contains-sort_by le (x ∷ xs) a =
    ground (arith, contains-insert_by le x (sort_by le xs) a, contains-sort_by le xs a)

pub Distinct-insert_by :
    (le : Text → Text → Bool) (x : Text) (xs : List Text)
    → contains xs x ≡ false
    → Distinct xs
    → Distinct (insert_by le x xs)
unfolding insert_by contains
Distinct-insert_by le x [] h d = (refl, tt)
Distinct-insert_by le x (y ∷ ys) h d =
    ground (arith, contains-insert_by le x ys y, eq_iff x y, eq_iff y x, Distinct-insert_by le x ys)

pub Distinct-sort_by :
    (le : Text → Text → Bool) (xs : List Text) → Distinct xs → Distinct (sort_by le xs)
unfolding sort_by
Distinct-sort_by le [] d = tt
Distinct-sort_by le (x ∷ xs) d =
    Distinct-insert_by le x (sort_by le xs) (ground (arith, contains-sort_by le xs x))
      (Distinct-sort_by le xs d.1)

pub contains-take :
    (n : ℕ) (xs : List Text) (a : Text) → contains (take n xs) a ≡ true → contains xs a ≡ true
unfolding contains
contains-take zero xs a h = absurd (cc)
contains-take (suc n) [] a h = h
contains-take (suc n) (x ∷ xs) a h = ground (arith, contains-take n xs a)

pub Distinct-take : (n : ℕ) (xs : List Text) → Distinct xs → Distinct (take n xs)
Distinct-take zero xs d = tt
Distinct-take (suc n) [] d = tt
Distinct-take (suc n) (x ∷ xs) d = (ground (arith, contains-take n xs x), Distinct-take n xs d.1)

contains-dedup_from :
    (l : Text) (xs : List Text) (a : Text)
    → (l == a || contains (dedup_from l xs) a) ≡ (l == a || contains xs a)
unfolding dedup_from contains
contains-dedup_from l [] a = refl
contains-dedup_from l (x ∷ xs) a = ground (arith, contains-dedup_from x xs a, eq_iff l x)

pub contains-dedup : (xs : List Text) (a : Text) → contains (dedup xs) a ≡ contains xs a
unfolding dedup contains
contains-dedup [] a = refl
contains-dedup (x ∷ xs) a = contains-dedup_from x xs a

dedup_from-Distinct :
    (l : Text) (xs : List Text) → contains xs l ≡ false → Distinct xs → dedup_from l xs ≡ xs
unfolding dedup_from contains
dedup_from-Distinct l [] h d = refl
dedup_from-Distinct l (x ∷ xs) h d =
    ground (arith, dedup_from-Distinct x xs, eq_iff l x, eq_iff x l)

pub dedup-Distinct : (xs : List Text) → Distinct xs → dedup xs ≡ xs
unfolding dedup
dedup-Distinct [] d = refl
dedup-Distinct (x ∷ xs) d = ground (arith, dedup_from-Distinct x xs d.0 d.1)

pub contains-retain :
    (p : Text → Bool) (xs : List Text) (a : Text)
    → contains (retain p xs) a ≡ (p a && contains xs a)
unfolding retain contains
contains-retain p [] a = ground arith
contains-retain p (x ∷ xs) a = ground (arith, contains-retain p xs a, eq_iff x a)

pub Distinct-retain : (p : Text → Bool) (xs : List Text) → Distinct xs → Distinct (retain p xs)
unfolding retain
Distinct-retain p [] d = tt
Distinct-retain p (x ∷ xs) d = ground (arith, contains-retain p xs x, Distinct-retain p xs)

-- A `HashMap<String, V>`.
module _ {ℓ} {V : Type ℓ} where
  unfoldable pub lookup : Text → List (Text × V) → Option V
  lookup key [] = none
  lookup key (entry ∷ entries) = if entry.0 == key then some entry.1 else lookup key entries

  unfoldable pub remove : Text → List (Text × V) → List (Text × V)
  remove key [] = []
  remove key (entry ∷ entries) =
      let rest = remove key entries in if entry.0 == key then rest else entry ∷ rest

  pub lookup-remove :
      (key other : Text) (entries : List (Text × V))
      → lookup other (remove key entries) ≡ (if key == other then none else lookup other entries)
  unfolding lookup remove
  lookup-remove key other [] = ground arith
  lookup-remove key other (entry ∷ entries) = ground (
    arith,
    lookup-remove key other entries,
    eq_iff key other,
    eq_iff entry.0 key,
    eq_iff entry.0 other,
  )

  unfoldable pub insert : Text → V → List (Text × V) → List (Text × V)
  insert key value [] = (key, value) ∷ []
  insert key value (entry ∷ entries) =
      let rest = insert key value entries in
      if entry.0 == key then (key, value) ∷ entries else entry ∷ rest

  pub lookup-insert :
      (key other : Text) (value : V) (entries : List (Text × V))
      → lookup other (insert key value entries)
        ≡ (if key == other then some value else lookup other entries)
  unfolding insert lookup
  lookup-insert key other value [] = refl
  lookup-insert key other value (entry ∷ entries) = ground (
    arith,
    lookup-insert key other value entries,
    eq_iff key other,
    eq_iff entry.0 key,
    eq_iff entry.0 other,
  )
