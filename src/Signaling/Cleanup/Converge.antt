-- ===== src/Signaling/Cleanup/Converge.antt =====
-- The signaling server's cleanup next to `disconnect` of core/src/routing.rs, on states up to the order
-- of their edges and their time stamps.
use fogros2_sgc.Base.{◌≡◌, refl, sym, ap, ◌∙◌}
use fogros2_sgc.Text.{Text}
use mathlib.Core.Quot
use mathlib.Core.Quot.{Quot, Quot-set}
use fogros2_sgc.Signaling.Cleanup.{Stored, prune, without}
use fogros2_sgc.Signaling.Cleanup.Pruned.{core_view}
use fogros2_sgc.Routing.{RoutingState, joined}
use fogros2_sgc.Routing.Tree.{detach}
use fogros2_sgc.Routing.Tree.Converge.{
  TreeView, SameTree, detach_view, detach-SameTree, detach-swap, detach-again, detach-joined,
}

-- What the signaling server reads of a state.
abbrev pub stored_view : RoutingState → Stored
stored_view st = record { publishers = st.publishers; proxies = st.proxies; edges = st.edges }

abbrev pub cleaned : Text → RoutingState → RoutingState
cleaned n st = core_view (prune (stored_view st) n)

cleaned-joined :
    (n : Text) (st : RoutingState) (p c : Text)
    → joined (cleaned n st).edges p c ≡ joined (detach st n).edges p c
unfolding prune detach
cleaned-joined n st p c = refl

pub cleaned-SameTree :
    (n : Text) (st st' : RoutingState) → SameTree st st' → SameTree (cleaned n st) (cleaned n st')
cleaned-SameTree n st st' h = (
  λ p c.
      cleaned-joined n st p c
      ∙ ((detach-SameTree n st st' h).0 p c ∙ sym (cleaned-joined n st' p c)),
  unfold prune in ap (without n) h.1,
  unfold prune in ap (without n) h.2,
)

unfoldable pub cleaned_view : Text → TreeView → TreeView
cleaned_view n =
    Quot.lift Quot-set (λ st. Quot.mk (cleaned n st))
      (λ st st' h. Quot.sound (cleaned-SameTree n st st' h))

cleaned-swap :
    (st : RoutingState) (a b : Text) → SameTree (cleaned a (detach st b)) (detach (cleaned a st) b)
cleaned-swap st a b = (
  λ p c.
      cleaned-joined a (detach st b) p c
      ∙ ((detach-swap st b a).0 p c
          ∙ sym (detach-joined b (cleaned a st) (detach st a) (cleaned-joined a st) p c)),
  unfold prune detach in refl,
  unfold prune detach in refl,
)

detach-cleaned : (st : RoutingState) (a : Text) → SameTree (detach (cleaned a st) a) (cleaned a st)
detach-cleaned st a = (
  λ p c.
      detach-joined a (cleaned a st) (detach st a) (cleaned-joined a st) p c
      ∙ ((detach-again st a).0 p c ∙ sym (cleaned-joined a st p c)),
  unfold prune detach in refl,
  unfold prune detach in refl,
)

-- A cleanup of one node by the signaling server and a disconnect of another, in either order, give the
-- same tree, up to the order of the edges and the time stamps, and a disconnect of a node after its
-- cleanup changes nothing.
pub cleaned_view-order :
    (a b : Text) (t : TreeView)
    → (cleaned_view a (detach_view b t) ≡ detach_view b (cleaned_view a t))
      × (detach_view a (cleaned_view a t) ≡ cleaned_view a t)
unfolding detach_view cleaned_view
cleaned_view-order a b =
    Quot.ind (λ t. hlevel Quot-set)
      λ st. (Quot.sound (cleaned-swap st a b), Quot.sound (detach-cleaned st a))
