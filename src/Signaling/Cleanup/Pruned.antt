-- ===== src/Signaling/Cleanup/Pruned.antt =====
-- What the signaling server's cleanup leaves of the routing state.
use fogros2_sgc.Base.{
  ℕ, ◌-◌, ◌≤◌, ◌≡◌, ◌↔◌, true, not, ◌&&◌, ◌||◌, List, [], ◌∷◌, arith, ltb, length, retain,
}
use fogros2_sgc.Text.{Text, ◌==◌}
use fogros2_sgc.Signaling.Cleanup.{Stored, prune, without, unregisters}
use fogros2_sgc.Routing.Tree.Detach.{joined-detach}
use fogros2_sgc.Routing.{joined, RoutingState}
use fogros2_sgc.Routing.Tree.Valid.{IsValid, detach-IsValid}
use fogros2_sgc.Routing.Bfs.Walk.{Walk}
use fogros2_sgc.Text.Sets.{contains, Distinct-retain, contains-retain}
use fogros2_sgc.Routing.Tree.{detach}

-- The state as core/src/routing.rs reads it: the time stamps are gone.
abbrev pub core_view : Stored → RoutingState
core_view st = record {
  publishers = st.publishers;
  proxies = st.proxies;
  edges = st.edges;
  attach_ms = [];
}

-- Without a node, a state keeps exactly the edges that do not touch the node or what is below it, and
-- exactly the registrations of other nodes.
pub prune_iff :
    (st : Stored) (node : Text)
    → ((p c : Text)
        → (joined (prune st node).edges p c ≡ true) ↔ (
            (joined st.edges p c ≡ true)
            × ¬ Walk (λ v. true) st.edges node p
            × ¬ Walk (λ v. true) st.edges node c))
      × ((v : Text)
          → contains (prune st node).proxies v ≡ (not (v == node) && contains st.proxies v))
      × ((v : Text)
          → contains (prune st node).publishers v ≡ (not (v == node) && contains st.publishers v))
unfolding prune detach
prune_iff st node = (
  λ p c. joined-detach (core_view st) node p c,
  λ v. contains-retain (λ p. not (p == node)) st.proxies v,
  λ v. contains-retain (λ p. not (p == node)) st.publishers v,
)

pub prune-IsValid :
    (f : ℕ) (st : Stored) (node : Text)
    → IsValid f (core_view st)
    → IsValid f (core_view (prune st node))
unfolding prune detach
prune-IsValid f st node h =
    let kept = detach-IsValid f (core_view st) node h in
    record {
      publishers_distinct =
          Distinct-retain (λ p. not (p == node)) st.publishers h.publishers_distinct;
      proxies_distinct = Distinct-retain (λ p. not (p == node)) st.proxies h.proxies_distinct;
      edges_distinct = kept.edges_distinct;
      fanout_kept = kept.fanout_kept;
    }

without-less : (node : Text) (xs : List Text) → length (without node xs) ≤ length xs
unfolding retain
without-less node [] = omega arith
without-less node (x ∷ xs) = ground (arith, without-less node xs)

without-fewer :
    (node : Text) (xs : List Text) → ltb 0 (length xs - length (without node xs)) ≡ contains xs node
unfolding retain contains
without-fewer node [] = ground arith
without-fewer node (x ∷ xs) = ground (arith, without-fewer node xs, without-less node xs)

-- The entry of the name map is dropped exactly for a registered proxy or publisher.
pub unregisters_iff :
    (st : Stored) (node : Text)
    → unregisters st node ≡ (contains st.proxies node || contains st.publishers node)
unregisters_iff st node = cc (without-fewer node st.proxies, without-fewer node st.publishers)
