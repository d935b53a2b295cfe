-- ===== src/Routing/Bfs/Fuel.antt =====
-- The breadth-first loops end with an empty queue within their fuel: each round takes an entry off
-- the queue, and each entry put there uses up a name that was not seen.
use fogros2_sgc.Base.{
  ℕ, zero, suc, ◌+◌, ◌≤◌, ◌≡◌, ap, inl, inr, true, false, List, [], ◌∷◌, ◌++◌, arith, if◌then◌else◌,
  length, length-append, List-cases, Option-cases,
}
use fogros2_sgc.Text.{Text, eq_iff, eq_refl}
use fogros2_sgc.Text.Sets.{contains, contains-append, lookup}
use fogros2_sgc.Routing.{Edge, joined}
use fogros2_sgc.Routing.Children.{ChildMap, children_at, build_children_map}
use fogros2_sgc.Routing.Children.Lemmas.{contains-children_at}
use fogros2_sgc.Routing.Bfs.{Search, Mode, enter, enter_all, expand, search_loop, start, enough}

-- How many edges lead to a name that is not in the set.
abbrev pub unseen : List Text → List Edge → ℕ
unseen seen [] = 0
unseen seen (e ∷ es) = let rest = unseen seen es in if contains seen e.child then rest else suc rest

unseen-le : (seen : List Text) (es : List Edge) → unseen seen es ≤ length es
unseen-le seen [] = omega arith
unseen-le seen (e ∷ es) = ground (arith, unseen-le seen es)

unseen-concat-le :
    (seen : List Text) (c : Text) (es : List Edge) → unseen (seen ++ c ∷ []) es ≤ unseen seen es
unfolding contains
unseen-concat-le seen c [] = omega arith
unseen-concat-le seen c (e ∷ es) =
    ground (arith, unseen-concat-le seen c es, contains-append seen (c ∷ []) e.child)

unseen-concat :
    (seen : List Text) (p c : Text) (es : List Edge)
    → joined es p c ≡ true
    → contains seen c ≡ false
    → suc (unseen (seen ++ c ∷ []) es) ≤ unseen seen es
unfolding joined contains
unseen-concat seen p c [] h new = absurd (cc)
unseen-concat seen p c (e ∷ es) h new = ground (
  arith,
  unseen-concat seen p c es,
  unseen-concat-le seen c es,
  contains-append seen (c ∷ []) e.child,
  eq_iff e.child c,
  eq_refl c,
)

module _ {A : Type 0} (mode : Mode A) (es : List Edge) where
  abbrev work : Search A → ℕ
  work s = unseen s.seen es + length s.queue

  enter-work :
      (n : A) (s : Search A) (p c : Text) → joined es p c ≡ true → work (enter mode n s c) ≤ work s
  unfolding enter
  enter-work n s p c h =
      ground (arith, unseen-concat s.seen p c es h, length-append s.queue (mode.next n c ∷ []))

  enter_all-work :
      (n : A) (s : Search A) (p : Text) (cs : List Text)
      → ((c : Text) → contains cs c ≡ true → joined es p c ≡ true)
      → work (enter_all mode n s cs) ≤ work s
  unfolding enter_all contains
  enter_all-work n s p [] h = omega arith
  enter_all-work n s p (c ∷ cs) h = omega (
    arith,
    enter-work n s p c (h c (ground (arith, eq_refl c))),
    enter_all-work n (enter mode n s c) p cs (λ d k. h d (ground arith)),
  )

  abbrev children : ChildMap
  children = build_children_map es

  expand-work : (n : A) (s : Search A) → work (expand mode children n s) ≤ work s
  unfolding expand
  expand-work n s = elim (Option-cases (lookup (mode.name n) children)) [
    | inl e ↦ rw (e, expand) (omega arith)
    | inr (cs, e) ↦
        rw (e, expand)
          (enter_all-work n s (mode.name n) cs (λ c h.
            rw (← contains-children_at es (mode.name n) c)
              (unfold children_at in rw (e, children_at) h)))
  ]

  loop-queue :
      (fuel : ℕ) (s : Search A) → work s ≤ fuel → (search_loop mode children fuel s).queue ≡ []
  unfolding search_loop
  loop-queue zero s h = elim (List-cases s.queue) [
    | inl e ↦ e
    | inr (n, rest, e) ↦ absurd (omega (arith, ap length e))
  ]
  loop-queue (suc fuel) s h = elim (List-cases s.queue) [
    | inl e ↦ rw (e, search_loop) e
    | inr (n, rest, e) ↦
        rw (e, search_loop)
          (loop-queue fuel
            (expand mode children n (record s { queue = rest; out = s.out ++ n ∷ [] }))
            (omega (
              arith,
              ap length e,
              expand-work n (record s { queue = rest; out = s.out ++ n ∷ [] }),
            )))
  ]

  pub search-queue :
      (root : A) → (search_loop mode children (enough es) (start mode root)).queue ≡ []
  search-queue root =
      loop-queue (enough es) (start mode root) (omega (arith, unseen-le (mode.name root ∷ []) es))
