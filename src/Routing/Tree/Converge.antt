-- ===== src/Routing/Tree/Converge.antt =====
-- States up to the order of their edges and their time stamps, and what disconnects do to them.
use fogros2_sgc.Base.{◌≡◌, refl, sym, ◌∙◌, ◌↔◌, Bool, true, false, List}
use fogros2_sgc.Text.{Text}
use mathlib.Core.Quot
use mathlib.Core.Quot.{Quot, Quot-set}
use fogros2_sgc.Routing.{Edge, joined, RoutingState}
use fogros2_sgc.Routing.Bfs.Walk.{Walk}
use fogros2_sgc.Routing.Tree.{detach}
use fogros2_sgc.Routing.Tree.Detach.{joined-detach}

-- The same edges are there, and the registries are the same.
abbrev pub SameTree : RoutingState → RoutingState → Type 0
SameTree st st' =
    ((p c : Text) → joined st.edges p c ≡ joined st'.edges p c)
    × (st.publishers ≡ st'.publishers)
    × (st.proxies ≡ st'.proxies)

abbrev pub TreeView : Type 0
TreeView = Quot SameTree

both : (x y : Bool) → ((x ≡ true) ↔ (y ≡ true)) → x ≡ y
both true y h = sym (h.0 refl)
both false true h = h.1 refl
both false false h = refl

abbrev Below : List Edge → Text → Text → Type 0
Below es = Walk (λ v. true) es

Below-map :
    (es fs : List Edge) (root : Text)
    → ((u v : Text) → joined es u v ≡ true → joined fs u v ≡ true)
    → {v : Text} → Below es root v
    → Below fs root v
Below-map es fs root h Walk.here = Walk.here
Below-map es fs root h (Walk.step {u} {v} w j t) = Walk.step (Below-map es fs root h w) (h u v j) t

-- `detach` looks at the edges alone, and at which of them are there.
pub detach-joined :
    (n : Text) (s s' : RoutingState)
    → ((u v : Text) → joined s.edges u v ≡ joined s'.edges u v)
    → (p c : Text) → joined (detach s n).edges p c ≡ joined (detach s' n).edges p c
detach-joined n s s' same p c = both _ _ (go s s' same, go s' s (λ u v. sym (same u v)))
  where
    go :
        (x y : RoutingState)
        → ((u v : Text) → joined x.edges u v ≡ joined y.edges u v)
        → joined (detach x n).edges p c ≡ true
        → joined (detach y n).edges p c ≡ true
    go x y eq j =
        let (there, far_p, far_c) = (joined-detach x n p c).0 j in
        let back : (v : Text) → Below y.edges n v → Below x.edges n v =
          λ v. Below-map y.edges x.edges n (λ u w e. eq u w ∙ e) in
        (joined-detach y n p c).1
          (sym (eq p c) ∙ there, λ w. far_p (back p w), λ w. far_c (back c w))

pub detach-SameTree :
    (n : Text) (st st' : RoutingState) → SameTree st st' → SameTree (detach st n) (detach st' n)
detach-SameTree n st st' h =
    (detach-joined n st st' h.0, unfold detach in h.1, unfold detach in h.2)

-- `disconnect` of the program, on states up to their order.
unfoldable pub detach_view : Text → TreeView → TreeView
detach_view n =
    Quot.lift Quot-set (λ st. Quot.mk (detach st n))
      (λ st st' h. Quot.sound (detach-SameTree n st st' h))

module _ (st : RoutingState) (a b : Text) where
  -- What is below one node and not below the other stays below it.
  Below-kept :
      {v : Text} → ¬ Below st.edges a v → Below st.edges b v → Below (detach st a).edges b v
  Below-kept far Walk.here = Walk.here
  Below-kept far (Walk.step {u} {v} w j t) =
      let far_u : ¬ Below st.edges a u = λ x. far (Walk.step x j t) in
      Walk.step (Below-kept far_u w) ((joined-detach st a u v).1 (j, far_u, far)) t

  Below-less : {v : Text} → Below (detach st a).edges b v → Below st.edges b v
  Below-less = Below-map (detach st a).edges st.edges b (λ u v j. ((joined-detach st a u v).0 j).0)

  joined-detach_two :
      (p c : Text)
      → (joined (detach (detach st a) b).edges p c ≡ true) ↔ (
          (joined st.edges p c ≡ true)
          × ((¬ Below st.edges a p) × (¬ Below st.edges a c))
          × ((¬ Below st.edges b p) × (¬ Below st.edges b c)))
  joined-detach_two p c = (
    λ j.
        let (once, far_p, far_c) = (joined-detach (detach st a) b p c).0 j in
        let (there, a_p, a_c) = (joined-detach st a p c).0 once in
        (there, (a_p, a_c), (λ w. far_p (Below-kept a_p w), λ w. far_c (Below-kept a_c w))),
    λ h. (joined-detach (detach st a) b p c).1 (
      (joined-detach st a p c).1 (h.0, h.1.0, h.1.1),
      λ w. h.2.0 (Below-less w),
      λ w. h.2.1 (Below-less w),
    ),
  )

pub detach-swap :
    (st : RoutingState) (a b : Text) → SameTree (detach (detach st a) b) (detach (detach st b) a)
detach-swap st a b =
    (λ p c. both _ _ (go a b p c, go b a p c), unfold detach in refl, unfold detach in refl)
  where
    go :
        (x y p c : Text)
        → joined (detach (detach st x) y).edges p c ≡ true
        → joined (detach (detach st y) x).edges p c ≡ true
    go x y p c j =
        let h = (joined-detach_two st x y p c).0 j in
        (joined-detach_two st y x p c).1 (h.0, h.2, h.1)

pub detach-again : (st : RoutingState) (a : Text) → SameTree (detach (detach st a) a) (detach st a)
detach-again st a = (
  λ p c. both _ _ (
    λ j. ((joined-detach (detach st a) a p c).0 j).0,
    λ j.
        let (there, far_p, far_c) = (joined-detach st a p c).0 j in
        (joined-detach_two st a a p c).1 (there, (far_p, far_c), (far_p, far_c)),
  ),
  unfold detach in refl,
  unfold detach in refl,
)

-- Two disconnects in either order give the same tree, up to the order of the edges and the time
-- stamps, and a disconnect that is made twice is made once.
pub detach_view-order :
    (a b : Text) (t : TreeView)
    → (detach_view a (detach_view b t) ≡ detach_view b (detach_view a t))
      × (detach_view a (detach_view a t) ≡ detach_view a t)
unfolding detach_view
detach_view-order a b =
    Quot.ind (λ t. hlevel Quot-set)
      λ st. (Quot.sound (detach-swap st b a), Quot.sound (detach-again st a))
