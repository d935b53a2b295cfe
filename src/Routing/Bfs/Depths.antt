-- ===== src/Routing/Bfs/Depths.antt =====
-- The loop of `bfs_intermediates_with_depth` finds shortest walks.
use fogros2_sgc.Base.{
  ℕ, zero, suc, ◌+◌, ◌≤◌, ◌≡◌, refl, sym, subst, ◌∙◌, ◌↔◌, inl, inr, Bool, true, false, List, [],
  ◌∷◌, ◌++◌, map, arith, List-cases,
}
use fogros2_sgc.Text.{Text, eq_iff}
use fogros2_sgc.Routing.Bfs.{
  Search, expand, search_loop, start, enough, bfs_intermediates_with_depth,
}
use fogros2_sgc.Routing.Bfs.Reached.{bfs_with_depth_reaches}
use fogros2_sgc.Routing.Bfs.Fuel.{search-queue}
use fogros2_sgc.Routing.Bfs.Walk.{contains-expand, expand-out}
use fogros2_sgc.Routing.Bfs.Levels.{
  mode, Walks, Ready, popped, popped-Held, popped-Level, Level-next, expand-Level, children,
}
use fogros2_sgc.Routing.Bfs.Shortest.{
  WalkOf, Entries, Listed, Sorted, Within, AllWalk, Held, Closed, Within-more, Closed-map,
  Closed-concat,
}
use fogros2_sgc.Text.Sets.{contains, Distinct}
use fogros2_sgc.Routing.{Edge, RoutingState, joined, is_intermediate}
use fogros2_sgc.Routing.Children.{build_children_map}

module _ (accept : Text → Bool) (es : List Edge) (root : Text) where
  round-Ready :
      (s : Search (Text × ℕ)) (n : Text × ℕ) (rest : Entries)
      → s.queue ≡ n ∷ rest
      → Ready accept es root s
      → Ready accept es root (
          expand (mode accept es root) (children accept es root) n (popped accept es root s n rest))
  round-Ready s n rest e h =
      let level = h.head n rest e in
      let walks : Walks accept es root (n ∷ rest) = subst (Walks accept es root) e level.walks in
      let (after, grows) =
        expand-Level accept es root n (popped accept es root s n rest) walks.0
          (popped-Level accept es root s n rest e level) in
      let s' =
        expand (mode accept es root) (children accept es root) n (popped accept es root s n rest) in
      let closed : Closed accept es root s' (s.out ++ n ∷ []) =
        Closed-concat accept es root s' s.out n
          (λ v j a. after.held v (
            contains-expand (mode accept es root) (λ m c. refl) es (root, 0) n
              (popped accept es root s n rest) v
            ∙ ground (arith, j, a)))
          (Closed-map accept es root s s' s.out
            (λ v k x. grows v k (popped-Held accept es root s n rest e v k x)) h.closed_now) in
      record {
        sorted_now = after.sorted_out;
        walks_now = after.walks_out;
        closed_now =
            subst (Closed accept es root s')
              (sym (
                expand-out (mode accept es root) (λ m c. refl) es (root, 0) n
                  (popped accept es root s n rest)))
              closed;
        root_now = after.root_held;
        head = λ m r q. Level-next accept es root n.1 s' m r q after;
      }

  loop-Ready :
      (fuel : ℕ) (s : Search (Text × ℕ))
      → Ready accept es root s
      → Ready accept es root (search_loop (mode accept es root) (children accept es root) fuel s)
  unfolding search_loop
  loop-Ready zero s h = h
  loop-Ready (suc fuel) s h = elim (List-cases s.queue) [
    | inl e ↦ rw (e, search_loop) h
    | inr (n, rest, e) ↦
        rw (e, search_loop)
          (loop-Ready fuel
            (expand (mode accept es root) (children accept es root) n
              (popped accept es root s n rest))
            (round-Ready s n rest e h))
  ]

  start-Ready : Ready accept es root (start (mode accept es root) (root, 0))
  unfolding contains
  start-Ready = record {
    sorted_now = tt;
    walks_now = tt;
    closed_now = tt;
    root_now = inr (inl (refl, omega arith));
    head = λ n rest e.
        Level-next accept es root 0 (start (mode accept es root) (root, 0)) n rest e (record {
          sorted_out = tt;
          low = tt;
          sorted = (tt, tt);
          least = (omega arith, tt);
          most = (omega arith, tt);
          walks_out = tt;
          walks = (WalkOf.here, tt);
          held = λ v k. inr (inl (ground (arith, k, eq_iff root v), omega arith));
          root_held = inr (inl (refl, omega arith));
        });
  }

  found : Search (Text × ℕ)
  found =
      search_loop (mode accept es root) (children accept es root) (enough es)
        (start (mode accept es root) (root, 0))

  found-Ready : Ready accept es root found
  unfolding found
  found-Ready = loop-Ready (enough es) (start (mode accept es root) (root, 0)) start-Ready

  found-queue : found.queue ≡ []
  unfolding found
  found-queue = search-queue (mode accept es root) es (root, 0)

  found-Within : (v : Text) (k : ℕ) → Held accept es root v k found → Within v k found.out
  found-Within v k (inl a) = a
  found-Within v k (inr b) = absurd (subst (Within v k) found-queue b)

  Closed-Held :
      (L : Entries) (u v : Text) (k : ℕ)
      → Closed accept es root found L
      → Within u k L
      → joined es u v ≡ true
      → accept v ≡ true
      → Held accept es root v (k + 1) found
  Closed-Held [] u v k c w j a = absurd w
  Closed-Held (n ∷ L) u v k c (inl (e, le)) j a =
      elim (c.0 v (subst (λ t. joined es t v ≡ true) (sym e) j) a) [
        | inl w ↦ inl (Within-more v (n.1 + 1) (k + 1) found.out (omega (arith, le)) w)
        | inr w ↦ inr (Within-more v (n.1 + 1) (k + 1) found.queue (omega (arith, le)) w)
      ]
  Closed-Held (n ∷ L) u v k c (inr w) j a = Closed-Held L u v k c.1 w j a

  -- A walk leads to an entry that is not deeper than the walk is long.
  WalkOf-Within : {k : ℕ} {v : Text} → WalkOf accept es root k v → Within v k found.out
  WalkOf-Within WalkOf.here = found-Within root 0 found-Ready.root_now
  WalkOf-Within (WalkOf.step {n} {u} {v} w j a) =
      found-Within v (n + 1)
        (Closed-Held found.out u v n found-Ready.closed_now (WalkOf-Within w) j a)

Within-Listed : (v : Text) (k : ℕ) (L : Entries) → Within v k L → (d : ℕ) × Listed v d L × (d ≤ k)
Within-Listed v k [] w = absurd w
Within-Listed v k (n ∷ L) (inl (e, le)) = (n.1, inl (e, refl), le)
Within-Listed v k (n ∷ L) (inr w) = let (d, l, le) = Within-Listed v k L w in (d, inr l, le)

Listed-contains :
    (v : Text) (d : ℕ) (L : Entries)
    → Listed v d L
    → contains (map (λ (n : Text × ℕ). n.0) L) v ≡ true
unfolding contains
Listed-contains v d [] l = absurd l
Listed-contains v d (n ∷ L) (inl (e, same)) = ground (arith, (eq_iff n.0 v).1 e)
Listed-contains v d (n ∷ L) (inr l) = ground (arith, Listed-contains v d L l)

not_twice :
    (u v : Text) (d : ℕ) (L : Entries)
    → contains (map (λ (n : Text × ℕ). n.0) L) u ≡ false
    → u ≡ v
    → Listed v d L
    → ⊥
not_twice u v d L fresh e l =
    let gone : contains (map (λ (n : Text × ℕ). n.0) L) v ≡ false =
      subst (λ t. contains (map (λ (n : Text × ℕ). n.0) L) t ≡ false) e fresh in
    ground (arith, gone, Listed-contains v d L l)

Listed-once :
    (v : Text) (d e : ℕ) (L : Entries)
    → Distinct (map (λ (n : Text × ℕ). n.0) L)
    → Listed v d L
    → Listed v e L
    → d ≡ e
Listed-once v d e [] once l m = absurd l
Listed-once v d e (n ∷ L) once (inl (p, q)) (inl (p', q')) = sym q ∙ q'
Listed-once v d e (n ∷ L) once (inl (p, q)) (inr m) = absurd (not_twice n.0 v e L once.0 p m)
Listed-once v d e (n ∷ L) once (inr l) (inl (p, q)) = absurd (not_twice n.0 v d L once.0 p l)
Listed-once v d e (n ∷ L) once (inr l) (inr m) = Listed-once v d e L once.1 l m

module _ (accept : Text → Bool) (es : List Edge) (root : Text) where
  Listed-walk :
      (v : Text) (d : ℕ) (L : Entries)
      → AllWalk accept es root L
      → Listed v d L
      → WalkOf accept es root d v
  Listed-walk v d [] w l = absurd l
  Listed-walk v d (n ∷ L) w (inl (e, same)) =
      subst (λ k. WalkOf accept es root k v) same (subst (WalkOf accept es root n.1) e w.0)
  Listed-walk v d (n ∷ L) w (inr l) = Listed-walk v d L w.1 l

-- `bfs_intermediates_with_depth` lists no node twice, the nodes by their depth, and a node at a depth
-- exactly if a walk of that many publishers and proxies leads from the root to the node and no walk is
-- shorter.
pub bfs_depth_shortest :
    (st : RoutingState) (root : Text)
    → let L = bfs_intermediates_with_depth st root (build_children_map st.edges) in
      Distinct (map (λ (n : Text × ℕ). n.0) L)
      × Sorted L
      × ((v : Text) (d : ℕ)
          → Listed v d L ↔ (
              WalkOf (is_intermediate st) st.edges root d v
              × ((k : ℕ) → WalkOf (is_intermediate st) st.edges root k v → d ≤ k)))
unfolding bfs_intermediates_with_depth found
bfs_depth_shortest st root = (
  once,
  ready.sorted_now,
  λ v d. (
    λ l. (
      Listed-walk accept st.edges root v d L ready.walks_now l,
      λ k w.
          let (e, m, le) = Within-Listed v k L (WalkOf-Within accept st.edges root w) in
          let same : d ≡ e = Listed-once v d e L once l m in omega (arith, same, le),
    ),
    λ h.
        let (e, m, le) = Within-Listed v d L (WalkOf-Within accept st.edges root h.0) in
        let deep : d ≤ e = h.1 e (Listed-walk accept st.edges root v e L ready.walks_now m) in
        let same : e ≡ d = omega (arith, le, deep) in subst (λ k. Listed v k L) same m,
  ),
)
  where
    accept : Text → Bool
    accept = is_intermediate st

    ready : Ready accept st.edges root (found accept st.edges root)
    ready = found-Ready accept st.edges root

    L : Entries
    L = (found accept st.edges root).out

    once : Distinct (
        map
          (λ (n : Text × ℕ). n.0)
          (bfs_intermediates_with_depth st root (build_children_map st.edges)))
    once = (bfs_with_depth_reaches st root).0
