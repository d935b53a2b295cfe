-- ===== src/Routing/Bfs/Walk.antt =====
-- What the breadth-first loops find: the names that a walk of accepted children leads to, each once.
use fogros2_sgc.Base.{
  ℕ, zero, suc, ◌≡◌, refl, ap, subst, inl, inr, Bool, true, false, not, ◌&&◌, ◌||◌, none, some,
  List, [], ◌∷◌, ◌++◌, arith, Bool-cases, Option-cases, List-cases,
}
use fogros2_sgc.Text.{Text, eq_iff, eq_refl}
use mathlib.Core.List.{append-nil, append_assoc, map-append}
use fogros2_sgc.Text.Sets.{contains, contains-append, lookup, Distinct, Distinct-concat}
use fogros2_sgc.Routing.{Edge, joined}
use fogros2_sgc.Routing.Children.{ChildMap, children_at, build_children_map}
use fogros2_sgc.Routing.Children.Lemmas.{contains-children_at}
use fogros2_sgc.Routing.Bfs.{
  Search, Mode, names, enter, enter_all, expand, search_loop, start, enough,
}
use fogros2_sgc.Routing.Bfs.Fuel.{search-queue}

-- The nodes below the root along accepted children.
pub data Walk (accept : Text → Bool) (es : List Edge) (root : Text) : Text → Type 0 where
  here : Walk accept es root root
  step :
      {u v : Text}
      → Walk accept es root u
      → joined es u v ≡ true
      → accept v ≡ true
      → Walk accept es root v

module _ {A : Type 0} (mode : Mode A)
    (name_next : (n : A) (c : Text) → mode.name (mode.next n c) ≡ c) (es : List Edge)
    (root : A) where
  abbrev children : ChildMap
  children = build_children_map es

  record Inv (s : Search A) : Type 0 where
    listed : s.seen ≡ names mode (s.out ++ s.queue)
    distinct : Distinct s.seen
    rooted : contains s.seen (mode.name root) ≡ true
    sound : (v : Text) → contains s.seen v ≡ true → Walk mode.accept es (mode.name root) v

  -- All that the inner loop does to the set.
  contains-enter_all :
      (n : A) (s : Search A) (cs : List Text) (v : Text)
      → contains (enter_all mode n s cs).seen v
        ≡ (contains s.seen v || mode.accept v && contains cs v)
  unfolding enter_all contains
  contains-enter_all n s [] v = ground arith
  contains-enter_all n s (c ∷ cs) v =
      unfold enter in
      ground (
        arith,
        contains-enter_all n (enter mode n s c) cs v,
        contains-append s.seen (c ∷ []) v,
        eq_iff c v,
      )

  enter_all-out : (n : A) (s : Search A) (cs : List Text) → (enter_all mode n s cs).out ≡ s.out
  unfolding enter_all enter
  enter_all-out n s [] = refl
  enter_all-out n s (c ∷ cs) = ground (arith, enter_all-out n (enter mode n s c) cs)

  names-concat :
      (xs ys : List A) (a : A)
      → names mode (xs ++ (ys ++ a ∷ [])) ≡ names mode (xs ++ ys) ++ mode.name a ∷ []
  names-concat xs ys a =
      rw (← append_assoc xs ys (a ∷ [])) (map-append mode.name (xs ++ ys) (a ∷ []))

  Walk-concat :
      (seen : List Text) (c v : Text)
      → ((u : Text) → contains seen u ≡ true → Walk mode.accept es (mode.name root) u)
      → Walk mode.accept es (mode.name root) c
      → contains (seen ++ c ∷ []) v ≡ true
      → Walk mode.accept es (mode.name root) v
  unfolding contains
  Walk-concat seen c v sound w k = elim (Bool-cases (contains seen v)) [
    | inl old ↦ sound v old
    | inr new ↦
        subst (Walk mode.accept es (mode.name root))
          (ground (arith, contains-append seen (c ∷ []) v, eq_iff c v)) w
  ]

  enter-Inv :
      (n : A) (s : Search A) (c : Text)
      → Walk mode.accept es (mode.name root) (mode.name n)
      → joined es (mode.name n) c ≡ true
      → Inv s
      → Inv (enter mode n s c)
  unfolding enter
  enter-Inv n s c w j h = elim (Bool-cases (mode.accept c && not (contains s.seen c))) [
    | inl new ↦
        rw (new, enter)
          (record {
            listed =
                rw (names-concat s.out s.queue (mode.next n c), name_next n c)
                  (ap (λ l. l ++ c ∷ []) h.listed);
            distinct = Distinct-concat s.seen c (ground arith) h.distinct;
            rooted = ground (arith, contains-append s.seen (c ∷ []) (mode.name root), h.rooted);
            sound = λ v k. Walk-concat s.seen c v h.sound (Walk.step w j (ground arith)) k;
          })
    | inr old ↦ rw (old, enter) h
  ]

  enter_all-Inv :
      (n : A) (s : Search A) (cs : List Text)
      → Walk mode.accept es (mode.name root) (mode.name n)
      → ((c : Text) → contains cs c ≡ true → joined es (mode.name n) c ≡ true)
      → Inv s
      → Inv (enter_all mode n s cs)
  unfolding enter_all contains
  enter_all-Inv n s [] w j h = h
  enter_all-Inv n s (c ∷ cs) w j h =
      enter_all-Inv n (enter mode n s c) cs w (λ d k. j d (ground arith))
        (enter-Inv n s c w (j c (ground (arith, eq_refl c))) h)

  -- One round, with `n` at the head of the queue.
  abbrev popped : Search A → A → List A → Search A
  popped s n rest = record s { queue = rest; out = s.out ++ n ∷ [] }

  popped-Inv :
      (s : Search A) (n : A) (rest : List A) → s.queue ≡ n ∷ rest → Inv s → Inv (popped s n rest)
  popped-Inv s n rest e h = record {
    listed = rw append_assoc (rw (← e) h.listed);
    distinct = h.distinct;
    rooted = h.rooted;
    sound = h.sound;
  }

  pub contains-expand :
      (n : A) (s : Search A) (v : Text)
      → contains (expand mode children n s).seen v
        ≡ (contains s.seen v || mode.accept v && joined es (mode.name n) v)
  unfolding expand contains
  contains-expand n s v = elim (Option-cases (lookup (mode.name n) children)) [
    | inl e ↦ rw (e, expand) (ground (arith, at e))
    | inr (cs, e) ↦ rw (e, expand) (ground (arith, contains-enter_all n s cs v, known cs e))
  ]
    where
      at : lookup (mode.name n) children ≡ none → joined es (mode.name n) v ≡ false
      at e =
          rw (← contains-children_at es (mode.name n) v) (unfold children_at in rw (e, children_at))

      known :
          (cs : List Text)
          → lookup (mode.name n) children ≡ some cs
          → contains cs v ≡ joined es (mode.name n) v
      known cs e =
          rw (← contains-children_at es (mode.name n) v) (unfold children_at in rw (e, children_at))

  pub expand-out : (n : A) (s : Search A) → (expand mode children n s).out ≡ s.out
  unfolding expand
  expand-out n s = elim (Option-cases (lookup (mode.name n) children)) [
    | inl e ↦ rw (e, expand)
    | inr (cs, e) ↦ rw (e, expand) (enter_all-out n s cs)
  ]

  expand-Inv :
      (n : A) (s : Search A)
      → Walk mode.accept es (mode.name root) (mode.name n)
      → Inv s
      → Inv (expand mode children n s)
  unfolding expand
  expand-Inv n s w h = elim (Option-cases (lookup (mode.name n) children)) [
    | inl e ↦ rw (e, expand) h
    | inr (cs, e) ↦
        rw (e, expand)
          (enter_all-Inv n s cs w
            (λ c k.
              rw (← contains-children_at es (mode.name n) c)
                (unfold children_at in rw (e, children_at) k))
            h)
  ]

  -- The accepted children of what left the queue are in the set.
  abbrev Closed : Search A → Type 0
  Closed s =
      (u v : Text)
      → contains (names mode s.out) u ≡ true
      → joined es u v ≡ true
      → mode.accept v ≡ true
      → contains s.seen v ≡ true

  expand-Closed :
      (s : Search A) (n : A) (rest : List A)
      → Closed s
      → Closed (expand mode children n (popped s n rest))
  unfolding contains
  expand-Closed s n rest h u v k j a = ground (
    arith,
    contains-expand n (popped s n rest) v,
    ap (λ o. contains (names mode o) u) (expand-out n (popped s n rest)),
    map-append mode.name s.out (n ∷ []),
    contains-append (names mode s.out) (mode.name n ∷ []) u,
    eq_iff (mode.name n) u,
    h u v,
  )

  head_seen :
      (s : Search A) (n : A) (rest : List A)
      → s.queue ≡ n ∷ rest
      → Inv s
      → contains s.seen (mode.name n) ≡ true
  unfolding contains
  head_seen s n rest e h =
      rw (h.listed, e, map-append mode.name s.out (n ∷ rest))
        (ground (
          arith,
          contains-append (names mode s.out) (mode.name n ∷ names mode rest) (mode.name n),
          eq_refl (mode.name n),
        ))

  loop-Inv :
      (fuel : ℕ) (s : Search A)
      → Inv s
      → Closed s
      → Inv (search_loop mode children fuel s) × Closed (search_loop mode children fuel s)
  unfolding search_loop
  loop-Inv zero s h c = (h, c)
  loop-Inv (suc fuel) s h c = elim (List-cases s.queue) [
    | inl e ↦ rw (e, search_loop) (h, c)
    | inr (n, rest, e) ↦
        rw (e, search_loop)
          (loop-Inv fuel (expand mode children n (popped s n rest))
            (expand-Inv n (popped s n rest) (h.sound (mode.name n) (head_seen s n rest e h))
              (popped-Inv s n rest e h))
            (expand-Closed s n rest c))
  ]

  abbrev found : Search A
  found = search_loop mode children (enough es) (start mode root)

  start-Inv : Inv (start mode root)
  unfolding contains
  start-Inv = record {
    listed = refl;
    distinct = (refl, tt);
    rooted = ground (arith, eq_refl (mode.name root));
    sound = λ v k.
        subst (Walk mode.accept es (mode.name root)) (ground (arith, eq_iff (mode.name root) v))
          Walk.here;
  }

  found-Inv : Inv found × Closed found
  unfolding contains
  found-Inv = loop-Inv (enough es) (start mode root) start-Inv (λ u v k j a. absurd (cc))

  -- At the end the set holds what left the queue, in that order.
  pub seen-eq-out : found.seen ≡ names mode found.out
  seen-eq-out = rw (found-Inv.0.listed, search-queue mode es root, append-nil)

  pub seen-Distinct : Distinct found.seen
  seen-Distinct = found-Inv.0.distinct

  pub seen_sound :
      (v : Text) → contains found.seen v ≡ true → Walk mode.accept es (mode.name root) v
  seen_sound = found-Inv.0.sound

  pub seen_complete :
      {v : Text} → Walk mode.accept es (mode.name root) v → contains found.seen v ≡ true
  seen_complete Walk.here = found-Inv.0.rooted
  seen_complete (Walk.step {u} {v} w j a) =
      found-Inv.1 u v (rw (← seen-eq-out) (seen_complete w)) j a
