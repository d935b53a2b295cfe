-- ===== src/Routing/Update/Subscribe/Attach.antt =====
-- Pass 1 of `subscribe` keeps the invariant, also when it goes on after a lost compare-and-swap
-- with the state already changed: each node gets at most one more child.
use fogros2_sgc.Base.{
  ℕ, ◌≤◌, ◌≡◌, subst, inl, inr, Bool, true, false, not, ◌&&◌, List, [], ◌∷◌, arith, ltb, Bool-cases,
  length,
}
use fogros2_sgc.Text.{Text, eq_iff, eq_refl}
use fogros2_sgc.Redis.{Env}
use fogros2_sgc.Routing.Update.{Codec}
use fogros2_sgc.Routing.{add_edge_unique, joined, RoutingState, Edge}
use fogros2_sgc.Routing.Update.Keeps.{GoodValue, IsFaithful}
use fogros2_sgc.Routing.Tree.Valid.{attach-IsValid, IsValid}
use fogros2_sgc.Name.{GdpName}
use fogros2_sgc.Redis.Rely.{Rely}
use fogros2_sgc.Routing.Fanout.{fanout}
use fogros2_sgc.Routing.Edges.{joined-add, degree-add-le, degree, DistinctEdges}
use fogros2_sgc.Text.Sets.{Distinct, contains}
use fogros2_sgc.Routing.Update.Subscribe.{is_skipped, attach_pass}
use fogros2_sgc.Routing.Update.Subscribe.Parts.{commit_or-Leaves, is_skipped-holds, Leaves}
use fogros2_sgc.Routing.Children.{children_at, build_children_map}
use fogros2_sgc.Routing.Children.Lemmas.{length-children_at}

-- The edges of the first list are still there.
abbrev pub Keeps : List Edge → RoutingState → Type 0
Keeps es st = (p c : Text) → joined es p c ≡ true → joined st.edges p c ≡ true

abbrev pub Result1 : ℕ → List Edge → RoutingState → Type 0
Result1 f es st = IsValid f st × Keeps es st

module _ (env : Env) (codec : Codec RoutingState) (faithful : IsFaithful codec) (topic : GdpName)
    (rely : Rely env (GoodValue env codec faithful (fanout env.fanout_factor) topic))
    (url topic_name : Text) (subscriber old : Text) (attempt : ℕ) (es : List Edge)
    (distinct : DistinctEdges es) where
  open rely use {holds}

  abbrev f : ℕ
  f = fanout env.fanout_factor

  -- The nodes that are still to be tried have no more children than before.
  abbrev Untouched : List Text → RoutingState → Type 0
  Untouched ns st = (n : Text) → contains ns n ≡ true → degree st.edges n ≤ degree es n

  Untouched-rest :
      (n : Text) (ns : List Text) (st : RoutingState) → Untouched (n ∷ ns) st → Untouched ns st
  unfolding contains
  Untouched-rest n ns st u m k = u m (ground arith)

  Untouched-add :
      (n : Text) (ns : List Text) (st : RoutingState)
      → contains ns n ≡ false
      → Untouched (n ∷ ns) st
      → Untouched ns (add_edge_unique st n subscriber)
  unfolding contains
  Untouched-add n ns st new u m k = ground (arith, degree-add-le st n subscriber m, u m, eq_iff n m)

  pub attach_pass-Leaves :
      (ns : List Text) (st : RoutingState) (w : env.World)
      → Distinct ns
      → Untouched ns st
      → Result1 f es st
      → holds w
      → Leaves env codec faithful f topic rely url topic_name (Result1 f es) (
          attach_pass env codec url topic topic_name subscriber old attempt
            (build_children_map es)
            ns
            st
            w)
  unfolding attach_pass
  attach_pass-Leaves [] st w d u v h = (h, λ t e. subst (Result1 f es) (ground arith) v)
  attach_pass-Leaves (n ∷ ns) st w d u v h = elim (Bool-cases go) [
    | inr full ↦
        rw (full, attach_pass)
          (attach_pass-Leaves ns st skip.1 d.1 (Untouched-rest n ns st u) v skipped)
    | inl try ↦
        rw (try, attach_pass)
          (commit_or-Leaves env codec faithful f topic rely url topic_name (Result1 f es) old
            attempt st' _ skip.1 (valid try) skipped
            (λ x hx.
              attach_pass-Leaves ns st' x d.1 (Untouched-add n ns st d.0 u) (valid try, keeps) hx))
  ]
    where
      skip : Bool × env.World
      skip = is_skipped env codec url topic topic_name st n w

      skipped : holds skip.1
      skipped = is_skipped-holds env codec faithful f topic rely url topic_name st n w h

      go : Bool
      go = not skip.0 && ltb (length (children_at (build_children_map es) n)) f

      st' : RoutingState
      st' = add_edge_unique st n subscriber

      valid : go ≡ true → IsValid f st'
      valid try =
          attach-IsValid f st n subscriber v.0
            (unfold contains in ground (arith, length-children_at es n distinct, u n, eq_refl n))

      keeps : Keeps es st'
      keeps p c j = ground (arith, joined-add st n subscriber p c, v.1 p c j)
