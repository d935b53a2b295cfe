-- ===== src/Routing/Bfs/Levels.antt =====
-- One round of `bfs_intermediates_with_depth`: the queue holds two levels at most.
use fogros2_sgc.Base.{
  ℕ, ◌+◌, ◌≤◌, ◌≡◌, sym, subst, inl, inr, Bool, true, not, ◌&&◌, List, [], ◌∷◌, ◌++◌, arith,
  Bool-cases, Option-cases,
}
use fogros2_sgc.Text.{Text, eq_iff, eq_refl}
use fogros2_sgc.Routing.Bfs.{expand, Search, Mode, enter, enter_all}
use fogros2_sgc.Routing.Bfs.Shortest.{
  AllLe-more, Closed, Within, Within-more, WalkOf, Entries, AllLe, AllGe, Sorted, AllWalk, Held,
  AllLe-concat, AllGe-concat, Sorted-concat, Within-left, Within-last, AllWalk-concat,
}
use fogros2_sgc.Text.Sets.{lookup, contains, contains-append}
use fogros2_sgc.Routing.{Edge, joined}
use fogros2_sgc.Routing.Children.{ChildMap, build_children_map, children_at}
use fogros2_sgc.Routing.Children.Lemmas.{contains-children_at}

module _ (accept : Text → Bool) (es : List Edge) (root : Text) where
  abbrev pub mode : Mode (Text × ℕ)
  mode = record { name = λ n. n.0; next = λ n c. (c, n.1 + 1); accept = accept }

  abbrev pub Walks : Entries → Type 0
  Walks = AllWalk accept es root

  -- While an entry of depth d is expanded.
  pub record Level (d : ℕ) (s : Search (Text × ℕ)) : Type 0 where
    pub sorted_out : Sorted s.out
    pub low : AllLe d s.out
    pub sorted : Sorted s.queue
    pub least : AllGe d s.queue
    pub most : AllLe (d + 1) s.queue
    pub walks_out : Walks s.out
    pub walks : Walks s.queue
    pub held : (v : Text) → contains s.seen v ≡ true → Held accept es root v (d + 1) s
    pub root_held : Held accept es root root 0 s

  enter-Held :
      (n : Text × ℕ) (s : Search (Text × ℕ)) (c v : Text) (k : ℕ)
      → Held accept es root v k s
      → Held accept es root v k (enter mode n s c)
  unfolding enter
  enter-Held n s c v k h = elim (Bool-cases (accept c && not (contains s.seen c))) [
    | inl new ↦
        rw (new, enter)
          (elim h [ inl a ↦ inl a | inr w ↦ inr (Within-left v k s.queue ((c, n.1 + 1) ∷ []) w) ])
    | inr old ↦ rw (old, enter) h
  ]

  enter-Level :
      (n : Text × ℕ) (s : Search (Text × ℕ)) (c : Text)
      → WalkOf accept es root n.1 n.0
      → joined es n.0 c ≡ true
      → Level n.1 s
      → Level n.1 (enter mode n s c)
  unfolding enter contains
  enter-Level n s c w j h = elim (Bool-cases (accept c && not (contains s.seen c))) [
    | inl new ↦
        let q = s.queue ++ (c, n.1 + 1) ∷ [] in
        rw (new, enter)
          (record {
            sorted_out = h.sorted_out;
            low = h.low;
            sorted = Sorted-concat s.queue (c, n.1 + 1) h.most h.sorted;
            least = AllGe-concat n.1 s.queue (c, n.1 + 1) (omega arith) h.least;
            most = AllLe-concat (n.1 + 1) s.queue (c, n.1 + 1) (omega arith) h.most;
            walks_out = h.walks_out;
            walks =
                AllWalk-concat accept es root s.queue (c, n.1 + 1) (WalkOf.step w j (ground arith))
                  h.walks;
            held = λ v k. elim (Bool-cases (contains s.seen v)) [
              | inl old ↦ elim (h.held v old) [
                | inl a ↦ inl a
                | inr b ↦ inr (Within-left v (n.1 + 1) s.queue ((c, n.1 + 1) ∷ []) b)
              ]
              | inr fresh ↦ inr (
                  Within-last v (n.1 + 1) s.queue (c, n.1 + 1)
                    (ground (arith, contains-append s.seen (c ∷ []) v, eq_iff c v)) (omega arith))
            ];
            root_held = elim h.root_held [
              | inl a ↦ inl a
              | inr b ↦ inr (Within-left root 0 s.queue ((c, n.1 + 1) ∷ []) b)
            ];
          })
    | inr old ↦ rw (old, enter) h
  ]

  enter_all-Level :
      (n : Text × ℕ) (s : Search (Text × ℕ)) (cs : List Text)
      → WalkOf accept es root n.1 n.0
      → ((c : Text) → contains cs c ≡ true → joined es n.0 c ≡ true)
      → Level n.1 s
      → Level n.1 (enter_all mode n s cs)
        × ((v : Text) (k : ℕ)
            → Held accept es root v k s
            → Held accept es root v k (enter_all mode n s cs))
  unfolding enter_all contains
  enter_all-Level n s [] w j h = (h, λ v k x. x)
  enter_all-Level n s (c ∷ cs) w j h =
      let (later, grows) =
        enter_all-Level n (enter mode n s c) cs w (λ d k. j d (ground arith))
          (enter-Level n s c w (j c (ground (arith, eq_refl c))) h) in
      (later, λ v k x. grows v k (enter-Held n s c v k x))

  abbrev pub children : ChildMap
  children = build_children_map es

  pub expand-Level :
      (n : Text × ℕ) (s : Search (Text × ℕ))
      → WalkOf accept es root n.1 n.0
      → Level n.1 s
      → Level n.1 (expand mode children n s)
        × ((v : Text) (k : ℕ)
            → Held accept es root v k s
            → Held accept es root v k (expand mode children n s))
  unfolding expand
  expand-Level n s w h = elim (Option-cases (lookup n.0 children)) [
    | inl e ↦ rw (e, expand) (h, λ v k x. x)
    | inr (cs, e) ↦
        rw (e, expand)
          (enter_all-Level n s cs w
            (λ c k.
              rw (← contains-children_at es n.0 c) (unfold children_at in rw (e, children_at) k))
            h)
  ]

  -- Between two rounds.
  pub record Ready (s : Search (Text × ℕ)) : Type 0 where
    pub sorted_now : Sorted s.out
    pub walks_now : Walks s.out
    pub closed_now : Closed accept es root s s.out
    pub root_now : Held accept es root root 0 s
    pub head : (n : Text × ℕ) (rest : Entries) → s.queue ≡ n ∷ rest → Level n.1 s

  -- One round, with `n` off the queue.
  abbrev pub popped : Search (Text × ℕ) → Text × ℕ → Entries → Search (Text × ℕ)
  popped s n rest = record s { queue = rest; out = s.out ++ n ∷ [] }

  pub popped-Held :
      (s : Search (Text × ℕ)) (n : Text × ℕ) (rest : Entries)
      → s.queue ≡ n ∷ rest
      → (v : Text) (k : ℕ) → Held accept es root v k s
      → Held accept es root v k (popped s n rest)
  popped-Held s n rest e v k (inl a) = inl (Within-left v k s.out (n ∷ []) a)
  popped-Held s n rest e v k (inr b) = elim (subst (Within v k) e b) [
    | inl x ↦ inl (Within-last v k s.out n x.0 x.1)
    | inr y ↦ inr y
  ]

  pub popped-Level :
      (s : Search (Text × ℕ)) (n : Text × ℕ) (rest : Entries)
      → s.queue ≡ n ∷ rest
      → Level n.1 s
      → Level n.1 (popped s n rest)
  popped-Level s n rest e h =
      let sorted : Sorted (n ∷ rest) = subst Sorted e h.sorted in
      let most : AllLe (n.1 + 1) (n ∷ rest) = subst (AllLe (n.1 + 1)) e h.most in
      let walks : Walks (n ∷ rest) = subst Walks e h.walks in
      record {
        sorted_out = Sorted-concat s.out n h.low h.sorted_out;
        low = AllLe-concat n.1 s.out n (omega arith) h.low;
        sorted = sorted.1;
        least = sorted.0;
        most = most.1;
        walks_out = AllWalk-concat accept es root s.out n walks.0 h.walks_out;
        walks = walks.1;
        held = λ v k. popped-Held s n rest e v (n.1 + 1) (h.held v k);
        root_held = popped-Held s n rest e root 0 h.root_held;
      }

  -- The next head is at most one deeper than the one before.
  pub Level-next :
      (d : ℕ) (s : Search (Text × ℕ)) (n : Text × ℕ) (rest : Entries)
      → s.queue ≡ n ∷ rest
      → Level d s
      → Level n.1 s
  Level-next d s n rest e h =
      let sorted : Sorted (n ∷ rest) = subst Sorted e h.sorted in
      let least : AllGe d (n ∷ rest) = subst (AllGe d) e h.least in
      let up : d ≤ n.1 = least.0 in
      let up1 : d + 1 ≤ n.1 + 1 = omega (arith, up) in
      record {
        sorted_out = h.sorted_out;
        low = AllLe-more d n.1 s.out up h.low;
        sorted = h.sorted;
        least = subst (AllGe n.1) (sym e) (omega arith, sorted.0);
        most = AllLe-more (d + 1) (n.1 + 1) s.queue up1 h.most;
        walks_out = h.walks_out;
        walks = h.walks;
        held = λ v k. elim (h.held v k) [
          | inl a ↦ inl (Within-more v (d + 1) (n.1 + 1) s.out up1 a)
          | inr b ↦ inr (Within-more v (d + 1) (n.1 + 1) s.queue up1 b)
        ];
        root_held = h.root_held;
      }
