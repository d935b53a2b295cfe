-- ===== src/Topics/Reconcile.antt =====
-- After each pass of the loop, the open connections are exactly the node's edges.
use fogros2_sgc.Base.{
  ◌≡◌, sym, ap, ◌∙◌, inl, inr, Bool, not, ◌&&◌, ◌||◌, List, [], ◌∷◌, ◌++◌, map, arith, Bool-cases,
  retain,
}
use fogros2_sgc.Text.{Text, ◌==◌, eq_iff}
use fogros2_sgc.Topics.{
  Manager, has_key, reconcile, handle_connection_added, handle_connection_removed, remove_all,
  add_all, edge_texts, relevant, difference,
}
use fogros2_sgc.Name.{
  show_name, GdpName, Connection, IsBytes, show_connection, connection_id, is_node_involved,
}
use fogros2_sgc.Routing.Update.Connections.{AllBytes}
use fogros2_sgc.Name.RoundTrip.{connection_id-injective}
use fogros2_sgc.Text.Sets.{contains, contains-append, contains-retain}
use fogros2_sgc.Topics.Handlers.{
  AllMade, AllMade-head, AllMade-tail, added-key, removed-key, same-ids,
}

module _ (topic me : GdpName) (topic_bytes : IsBytes topic) where
  -- The connections are open whose texts the predicate holds of.
  abbrev Tracks : Manager → (Text → Bool) → Type 0
  Tracks m P =
      (c : Connection)
      → IsBytes c.publisher
      → IsBytes c.subscriber
      → has_key m.connections (connection_id topic c) ≡ P (show_connection c)

  remove_all-Tracks :
      (ss : List Text) (m : Manager) (P : Text → Bool)
      → AllMade me ss
      → Tracks m P
      → Tracks (remove_all topic me m ss) (λ s. P s && not (contains ss s))
  unfolding remove_all contains
  remove_all-Tracks [] m P made h c p q = ground (arith, h c p q)
  remove_all-Tracks (s ∷ ss) m P made h c p q =
      let first = AllMade-head me s ss made in
      let step : Tracks (handle_connection_removed topic me m s) (λ t. P t && not (s == t)) =
        λ d r t.
          rw
            (
              removed-key topic me topic_bytes m s first (connection_id topic d),
              same-ids topic me topic_bytes first.connection d first.publisher_bytes
                  first.subscriber_bytes r t,
              h d r t,
              ← first.text,
            )
            (ground arith) in
      let rest =
        remove_all-Tracks ss (handle_connection_removed topic me m s) (λ t. P t && not (s == t))
          (AllMade-tail me s ss made) step c p q in
      ground (arith, rest)

  add_all-Tracks :
      (ss : List Text) (m : Manager) (P : Text → Bool)
      → AllMade me ss
      → Tracks m P
      → Tracks (add_all topic me m ss) (λ s. P s || contains ss s)
  unfolding add_all contains
  add_all-Tracks [] m P made h c p q = ground (arith, h c p q)
  add_all-Tracks (s ∷ ss) m P made h c p q =
      let first = AllMade-head me s ss made in
      let step : Tracks (handle_connection_added topic me m s) (λ t. P t || s == t) = λ d r t.
        rw
          (
            added-key topic me topic_bytes m s first (connection_id topic d),
            same-ids topic me topic_bytes first.connection d first.publisher_bytes
                first.subscriber_bytes r t,
            h d r t,
            ← first.text,
          )
          (ground arith) in
      let rest =
        add_all-Tracks ss (handle_connection_added topic me m s) (λ t. P t || s == t)
          (AllMade-tail me s ss made) step c p q in
      ground (arith, rest)

  edge_texts-contains :
      (cs : List Connection) (set : List Text) (s : Text)
      → contains (edge_texts set cs) s ≡ (contains set s || contains (map show_connection cs) s)
  unfolding edge_texts contains
  edge_texts-contains [] set s = ground arith
  edge_texts-contains (c ∷ cs) set s = elim (Bool-cases (contains set (show_connection c))) [
    | inl e ↦
        rw (e, edge_texts)
          (ground (arith, edge_texts-contains cs set s, eq_iff (show_connection c) s))
    | inr e ↦
        rw (e, edge_texts)
          (ground (
            arith,
            edge_texts-contains cs (set ++ show_connection c ∷ []) s,
            contains-append set (show_connection c ∷ []) s,
          ))
  ]

  relevant-contains :
      (cs : List Connection) (c : Connection)
      → AllBytes cs
      → IsBytes c.publisher
      → IsBytes c.subscriber
      → contains (map show_connection (relevant me cs)) (show_connection c)
        ≡ (is_node_involved c me && contains (map show_connection cs) (show_connection c))
  unfolding relevant retain contains
  relevant-contains [] c h p q = ground arith
  relevant-contains (d ∷ cs) c h p q = ground (
    arith,
    relevant-contains cs c h.2 p q,
    eq_iff (show_connection d) (show_connection c),
    involved,
  )
    where
      involved :
          show_connection d ≡ show_connection c → is_node_involved d me ≡ is_node_involved c me
      involved e =
          ap (λ x. is_node_involved x me)
            (connection_id-injective topic topic d c topic_bytes topic_bytes h.0 h.1 p q
              (unfold connection_id in ap (λ t. show_name topic ++ b'-' ∷ t) e)).1

  relevant-AllMade :
      (cs : List Connection) → AllBytes cs → AllMade me (map show_connection (relevant me cs))
  unfolding relevant retain contains
  relevant-AllMade [] h s e = absurd (cc)
  relevant-AllMade (c ∷ cs) h s e = elim (Bool-cases (is_node_involved c me)) [
    | inr apart ↦ relevant-AllMade cs h.2 s (rw (apart, relevant) at e)
    | inl mine ↦ elim (Bool-cases (show_connection c == s)) [
      | inl same ↦ record {
        connection = c;
        publisher_bytes = h.0;
        subscriber_bytes = h.1;
        involved = mine;
        text = sym ((eq_iff (show_connection c) s).0 same);
      }
      | inr other ↦ relevant-AllMade cs h.2 s (rw other at (rw (mine, relevant) at e))
    ]
  ]

  -- The manager's set holds texts of the node's connections, and exactly these are open.
  pub record InSync (m : Manager) : Type 0 where
    pub made : AllMade me m.edge_set
    pub tracks : Tracks m (contains m.edge_set)

  -- In whichever order the sets are walked, a pass of the loop on edges of four-byte names takes a
  -- manager whose open connections are those of its edge set to one of the same kind, and leaves open
  -- exactly the connections of the edges that involve the node.
  pub reconcile-InSync :
      (order : List Text → List Text) (is_publisher is_proxy : Bool) (all_edges : List Connection)
      (m : Manager)
      → ((xs : List Text) (s : Text) → contains (order xs) s ≡ contains xs s)
      → AllBytes all_edges
      → InSync m
      → let m' = reconcile topic me order is_publisher is_proxy all_edges m in
        InSync m'
        × ((c : Connection)
            → IsBytes c.publisher
            → IsBytes c.subscriber
            → has_key m'.connections (connection_id topic c) ≡ (
                is_node_involved c me
                && contains (map show_connection all_edges) (show_connection c)))
  unfolding reconcile
  reconcile-InSync order is_publisher is_proxy all_edges m same bytes h = (
    record { made = new_made; tracks = opened },
    λ c p q.
        opened c p q
        ∙ edge_texts-contains (relevant me all_edges) [] (show_connection c)
        ∙ relevant-contains all_edges c bytes p q,
  )
    where
      new : List Text
      new = edge_texts [] (relevant me all_edges)

      new_made : AllMade me new
      new_made s e =
          relevant-AllMade all_edges bytes s
            (sym (edge_texts-contains (relevant me all_edges) [] s) ∙ e)

      gone : List Text
      gone = order (difference m.edge_set new)

      come : List Text
      come = order (difference new m.edge_set)

      in_gone : (s : Text) → contains gone s ≡ (not (contains new s) && contains m.edge_set s)
      in_gone s =
          same (difference m.edge_set new) s
          ∙ contains-retain (λ t. not (contains new t)) m.edge_set s

      in_come : (s : Text) → contains come s ≡ (not (contains m.edge_set s) && contains new s)
      in_come s =
          same (difference new m.edge_set) s
          ∙ contains-retain (λ t. not (contains m.edge_set t)) new s

      m1 : Manager
      m1 = remove_all topic me m gone

      opened : Tracks (add_all topic me m1 come) (contains new)
      opened c p q =
          let s = show_connection c in
          let kept =
            remove_all-Tracks gone m (contains m.edge_set)
              (λ t e. h.made t (ground (arith, in_gone t))) h.tracks in
          let all =
            add_all-Tracks come m1 (λ t. contains m.edge_set t && not (contains gone t))
              (λ t e. new_made t (ground (arith, in_come t))) kept c p q in
          all ∙ ground (arith, in_gone s, in_come s)
