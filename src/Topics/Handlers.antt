-- ===== src/Topics/Handlers.antt =====
-- What the handlers of one added or removed connection do to the open connections.
use fogros2_sgc.Base.{
  ℕ, ◌≡◌, refl, ap, inl, inr, true, not, ◌&&◌, ◌||◌, some, List, ◌∷◌, ◌++◌, arith, Bool-cases,
  Option-cases,
}
use fogros2_sgc.Text.{Text, ◌==◌, eq_iff, eq_refl}
use fogros2_sgc.Topics.{
  Manager, has_key, handle_connection_added, handle_connection_removed, establish_connection,
}
use fogros2_sgc.Name.{
  parse_connection, show_name, GdpName, Connection, IsBytes, show_connection, connection_id,
  is_node_involved,
}
use fogros2_sgc.Name.RoundTrip.{connection_from_str-show, connection_id-injective}
use fogros2_sgc.Text.Sets.{contains, insert, lookup, remove, lookup-insert, lookup-remove}

-- The text of a connection of the node, its names of four bytes.
pub record Made (me : GdpName) (s : Text) : Type 0 where
  pub connection : Connection
  pub publisher_bytes : IsBytes connection.publisher
  pub subscriber_bytes : IsBytes connection.subscriber
  pub involved : is_node_involved connection me ≡ true
  pub text : s ≡ show_connection connection

abbrev pub AllMade : GdpName → List Text → Type 0
AllMade me ss = (s : Text) → contains ss s ≡ true → Made me s

pub AllMade-tail : (me : GdpName) (s : Text) (ss : List Text) → AllMade me (s ∷ ss) → AllMade me ss
unfolding contains
AllMade-tail me s ss h t e = h t (ground arith)

pub AllMade-head : (me : GdpName) (s : Text) (ss : List Text) → AllMade me (s ∷ ss) → Made me s
unfolding contains
AllMade-head me s ss h = h s (ground (arith, eq_refl s))

has_key-remove :
    (k j : Text) (m : List (Text × ℕ)) → has_key (remove k m) j ≡ (not (k == j) && has_key m j)
has_key-remove k j m = elim (Bool-cases (k == j)) [
  | inl e ↦ rw (lookup-remove k j m, has_key) (rw e refl)
  | inr e ↦ rw (lookup-remove k j m, has_key) (rw e refl)
]

has_key-insert :
    (k j : Text) (v : ℕ) (m : List (Text × ℕ)) → has_key (insert k v m) j ≡ (k == j || has_key m j)
has_key-insert k j v m = elim (Bool-cases (k == j)) [
  | inl e ↦ rw (lookup-insert k j v m, has_key) (rw e refl)
  | inr e ↦ rw (lookup-insert k j v m, has_key) (rw e refl)
]

parse-Made : (me : GdpName) (s : Text) (h : Made me s) → parse_connection s ≡ some h.connection
unfolding parse_connection
parse-Made me s h =
    rw h.text (rw (connection_from_str-show h.connection h.publisher_bytes h.subscriber_bytes) refl)

module _ (topic me : GdpName) (topic_bytes : IsBytes topic) where
  pub removed-key :
      (m : Manager) (s : Text) (h : Made me s) (k : Text)
      → has_key (handle_connection_removed topic me m s).connections k
        ≡ (not (connection_id topic h.connection == k) && has_key m.connections k)
  unfolding handle_connection_removed
  removed-key m s h k =
      elim (Option-cases (lookup (connection_id topic h.connection) m.connections)) [
        | inl e ↦
            rw (parse-Made me s h, handle_connection_removed)
              (rw (e, handle_connection_removed)
                (elim (Bool-cases (connection_id topic h.connection == k)) [
                  | inl same ↦
                      rw (← (eq_iff (connection_id topic h.connection) k).0 same)
                        (rw (e, has_key) (ground arith))
                  | inr other ↦ rw other refl
                ]))
        | inr (v, e) ↦
            rw (parse-Made me s h, handle_connection_removed)
              (rw (e, handle_connection_removed)
                (has_key-remove (connection_id topic h.connection) k m.connections))
      ]

  pub added-key :
      (m : Manager) (s : Text) (h : Made me s) (k : Text)
      → has_key (handle_connection_added topic me m s).connections k
        ≡ (connection_id topic h.connection == k || has_key m.connections k)
  unfolding handle_connection_added establish_connection
  added-key m s h k = elim (Bool-cases (has_key m.connections (connection_id topic h.connection))) [
    | inl there ↦
        rw (parse-Made me s h, handle_connection_added)
          (rw (h.involved, handle_connection_added)
            (rw (there, handle_connection_added)
              (elim (Bool-cases (connection_id topic h.connection == k)) [
                | inl same ↦
                    rw same (rw (← (eq_iff (connection_id topic h.connection) k).0 same) there)
                | inr other ↦ rw other refl
              ])))
    | inr new ↦
        rw (parse-Made me s h, handle_connection_added)
          (rw (h.involved, handle_connection_added)
            (rw (new, handle_connection_added)
              (has_key-insert (connection_id topic h.connection) k m.next_shutdown m.connections)))
  ]

  pub same-ids :
      (c d : Connection)
      → IsBytes c.publisher
      → IsBytes c.subscriber
      → IsBytes d.publisher
      → IsBytes d.subscriber
      → (connection_id topic c == connection_id topic d) ≡ (show_connection c == show_connection d)
  same-ids c d p q r s = ground (
    arith,
    eq_iff (connection_id topic c) (connection_id topic d),
    eq_iff (show_connection c) (show_connection d),
    down,
    up,
  )
    where
      down : connection_id topic c ≡ connection_id topic d → show_connection c ≡ show_connection d
      down e =
          ap show_connection
            (connection_id-injective topic topic c d topic_bytes topic_bytes p q r s e).1

      up : show_connection c ≡ show_connection d → connection_id topic c ≡ connection_id topic d
      up e = unfold connection_id in ap (λ t. show_name topic ++ b'-' ∷ t) e
