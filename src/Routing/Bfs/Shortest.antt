-- ===== src/Routing/Bfs/Shortest.antt =====
-- The depths of `bfs_intermediates_with_depth` are those of shortest walks.
use fogros2_sgc.Base.{ℕ, ◌+◌, ◌≤◌, ◌≡◌, ◌⊎◌, inl, inr, Bool, true, List, [], ◌∷◌, ◌++◌, arith}
use fogros2_sgc.Text.{Text}
use fogros2_sgc.Routing.Bfs.{Search}
use fogros2_sgc.Routing.{Edge, joined}

-- A walk along accepted children, with its number of edges.
pub data WalkOf (accept : Text → Bool) (es : List Edge) (root : Text) : ℕ → Text → Type 0 where
  here : WalkOf accept es root 0 root
  step :
      {n : ℕ} {u v : Text}
      → WalkOf accept es root n u
      → joined es u v ≡ true
      → accept v ≡ true
      → WalkOf accept es root (n + 1) v

abbrev pub Entries : Type 0
Entries = List (Text × ℕ)

-- The name is listed at the depth.
abbrev pub Listed : Text → ℕ → Entries → Type 0
Listed v d [] = ⊥
Listed v d (n ∷ L) = ((n.0 ≡ v) × (n.1 ≡ d)) ⊎ Listed v d L

abbrev pub AllLe : ℕ → Entries → Type 0
AllLe k [] = Unit {0}
AllLe k (n ∷ L) = (n.1 ≤ k) × AllLe k L

abbrev pub AllGe : ℕ → Entries → Type 0
AllGe k [] = Unit {0}
AllGe k (n ∷ L) = (k ≤ n.1) × AllGe k L

-- The shallow ones come first.
abbrev pub Sorted : Entries → Type 0
Sorted [] = Unit {0}
Sorted (n ∷ L) = AllGe n.1 L × Sorted L

-- The name is listed at the depth or above.
abbrev pub Within : Text → ℕ → Entries → Type 0
Within v k [] = ⊥
Within v k (n ∷ L) = ((n.0 ≡ v) × (n.1 ≤ k)) ⊎ Within v k L

pub AllLe-concat :
    (k : ℕ) (L : Entries) (n : Text × ℕ) → n.1 ≤ k → AllLe k L → AllLe k (L ++ n ∷ [])
AllLe-concat k [] n h a = (h, tt)
AllLe-concat k (m ∷ L) n h a = (a.0, AllLe-concat k L n h a.1)

pub AllGe-concat :
    (k : ℕ) (L : Entries) (n : Text × ℕ) → k ≤ n.1 → AllGe k L → AllGe k (L ++ n ∷ [])
AllGe-concat k [] n h a = (h, tt)
AllGe-concat k (m ∷ L) n h a = (a.0, AllGe-concat k L n h a.1)

pub AllLe-more : (k k' : ℕ) (L : Entries) → k ≤ k' → AllLe k L → AllLe k' L
AllLe-more k k' [] h a = tt
AllLe-more k k' (n ∷ L) h a = (omega (arith, a.0, h), AllLe-more k k' L h a.1)

pub Sorted-concat : (L : Entries) (n : Text × ℕ) → AllLe n.1 L → Sorted L → Sorted (L ++ n ∷ [])
Sorted-concat [] n a s = (tt, tt)
Sorted-concat (m ∷ L) n a s = (AllGe-concat m.1 L n a.0 s.0, Sorted-concat L n a.1 s.1)

pub Within-more : (v : Text) (k k' : ℕ) (L : Entries) → k ≤ k' → Within v k L → Within v k' L
Within-more v k k' [] h w = absurd w
Within-more v k k' (n ∷ L) h (inl a) = inl (a.0, omega (arith, a.1, h))
Within-more v k k' (n ∷ L) h (inr w) = inr (Within-more v k k' L h w)

pub Within-left : (v : Text) (k : ℕ) (L M : Entries) → Within v k L → Within v k (L ++ M)
Within-left v k [] M w = absurd w
Within-left v k (n ∷ L) M (inl a) = inl a
Within-left v k (n ∷ L) M (inr w) = inr (Within-left v k L M w)

pub Within-last :
    (v : Text) (k : ℕ) (L : Entries) (n : Text × ℕ) → n.0 ≡ v → n.1 ≤ k → Within v k (L ++ n ∷ [])
Within-last v k [] n e h = inl (e, h)
Within-last v k (m ∷ L) n e h = inr (Within-last v k L n e h)

module _ (accept : Text → Bool) (es : List Edge) (root : Text) where
  abbrev pub AllWalk : Entries → Type 0
  AllWalk [] = Unit {0}
  AllWalk (n ∷ L) = WalkOf accept es root n.1 n.0 × AllWalk L

  pub AllWalk-concat :
      (L : Entries) (n : Text × ℕ)
      → WalkOf accept es root n.1 n.0
      → AllWalk L
      → AllWalk (L ++ n ∷ [])
  AllWalk-concat [] n w a = (w, tt)
  AllWalk-concat (m ∷ L) n w a = (a.0, AllWalk-concat L n w a.1)

  abbrev pub Held : Text → ℕ → Search (Text × ℕ) → Type 0
  Held v k s = Within v k s.out ⊎ Within v k s.queue

  -- The accepted children of the entries are held, one deeper at most.
  abbrev pub Closed : Search (Text × ℕ) → Entries → Type 0
  Closed s [] = Unit {0}
  Closed s (n ∷ L) =
      ((v : Text) → joined es n.0 v ≡ true → accept v ≡ true → Held v (n.1 + 1) s) × Closed s L

  pub Closed-map :
      (s s' : Search (Text × ℕ)) (L : Entries)
      → ((v : Text) (k : ℕ) → Held v k s → Held v k s')
      → Closed s L
      → Closed s' L
  Closed-map s s' [] h c = tt
  Closed-map s s' (n ∷ L) h c = (λ v j a. h v (n.1 + 1) (c.0 v j a), Closed-map s s' L h c.1)

  pub Closed-concat :
      (s : Search (Text × ℕ)) (L : Entries) (n : Text × ℕ)
      → ((v : Text) → joined es n.0 v ≡ true → accept v ≡ true → Held v (n.1 + 1) s)
      → Closed s L
      → Closed s (L ++ n ∷ [])
  Closed-concat s [] n h c = (h, tt)
  Closed-concat s (m ∷ L) n h c = (c.0, Closed-concat s L n h c.1)
