-- ===== src/Routing/Update/Subscribe/Parts.antt =====
-- The parts of `subscribe` keep a property that the server's clients rely on: asking for proxies,
-- and the compare-and-swap with what follows a lost one.
use fogros2_sgc.Base.{ℕ, ◌≡◌, refl, ◌⊎◌, inl, inr, Bool, true, false, some, List, [], ◌∷◌, arith}
use fogros2_sgc.Text.{Text, eq_refl}
use fogros2_sgc.Redis.{atomic_update, is_proxy_alive, Env}
use fogros2_sgc.Routing.Update.{cas_backoff, to_json, routing_key, Codec}
use fogros2_sgc.Routing.{RoutingState}
use fogros2_sgc.Routing.Update.Keeps.{to_json-Good, GoodValue, IsFaithful}
use fogros2_sgc.Name.{GdpName}
use fogros2_sgc.Redis.Rely.{atomic_update-holds, is_proxy_alive-holds, Rely}
use fogros2_sgc.Routing.Update.Subscribe.{
  Flow, commit_or, parent_is_usable, find_unused, is_skipped,
}
use fogros2_sgc.Text.Sets.{contains}
use fogros2_sgc.Routing.Tree.Valid.{IsValid}
use fogros2_sgc.Base.Result.{Result-cases, Result}

module _ (env : Env) (codec : Codec RoutingState) (faithful : IsFaithful codec) (f : ℕ)
    (topic : GdpName) (rely : Rely env (GoodValue env codec faithful f topic))
    (url topic_name : Text) where
  open rely use {holds}

  alive-holds : (p : Text) (w : env.World) → holds w → holds (is_proxy_alive env url topic p w).1
  alive-holds p w h =
      is_proxy_alive-holds env (GoodValue env codec faithful f topic) rely url topic p w h

  parent_is_usable-holds :
      (st : RoutingState) (n : Text) (w : env.World)
      → holds w
      → holds (parent_is_usable env codec url topic topic_name st n w).1
  unfolding parent_is_usable
  parent_is_usable-holds st n w h = ground (arith, alive-holds n w h)

  pub is_skipped-holds :
      (st : RoutingState) (n : Text) (w : env.World)
      → holds w
      → holds (is_skipped env codec url topic topic_name st n w).1
  unfolding is_skipped
  is_skipped-holds st n w h = ground (arith, parent_is_usable-holds st n w h)

  pub find_unused-holds :
      (used ps : List Text) (w : env.World)
      → holds w
      → holds (find_unused env codec url topic topic_name used ps w).1
  unfolding find_unused
  find_unused-holds used [] w h = h
  find_unused-holds used (p ∷ ps) w h = ground (
    arith,
    find_unused-holds used ps w h,
    find_unused-holds used ps (is_proxy_alive env url topic p w).1 (alive-holds p w h),
    alive-holds p w h,
  )

  -- The proxy that is found is unused, and registered.
  pub find_unused-fresh :
      (used ps : List Text) (w : env.World) (q : Text)
      → (find_unused env codec url topic topic_name used ps w).0 ≡ some q
      → (contains used q ≡ false) × (contains ps q ≡ true)
  unfolding find_unused contains
  find_unused-fresh used [] w q e = absurd (cc)
  find_unused-fresh used (p ∷ ps) w q e = ground (
    arith,
    find_unused-fresh used ps w q,
    find_unused-fresh used ps (is_proxy_alive env url topic p w).1 q,
    eq_refl p,
  )

  -- What a loop may leave behind: a property of the state that it goes on with.
  abbrev pub Leaves : (RoutingState → Type 0) → Flow × env.World → Type 0
  Leaves P r = holds r.1 × ((st : RoutingState) → r.0 ≡ Flow.continued st → P st)

  pub commit_or-Leaves :
      (P : RoutingState → Type 0) (old : Text) (attempt : ℕ) (st : RoutingState)
      (again : env.World → Flow × env.World) (w : env.World)
      → IsValid f st
      → holds w
      → ((v : env.World) → holds v → Leaves P (again v))
      → Leaves P (commit_or env codec url topic topic_name old attempt st again w)
  unfolding commit_or
  commit_or-Leaves P old attempt st again w valid h k = elim (Result-cases r.0) [
    | inl (true, e) ↦ rw (e, commit_or) (after, λ t c. absurd (cc))
    | inl (false, e) ↦
        rw (e, commit_or)
          (k (cas_backoff env attempt r.1) (unfold cas_backoff in rely.on_sleep _ r.1 after))
    | inr (x, e) ↦ rw (e, commit_or) (after, λ t c. absurd (cc))
  ]
    where
      r : Result env.RedisError Bool × env.World
      r = atomic_update env url (routing_key topic) (to_json codec st) old 1 w

      after : holds r.1
      after =
          atomic_update-holds env (GoodValue env codec faithful f topic) rely url
            (routing_key topic) (to_json codec st) old 1 w
            (to_json-Good env codec faithful f topic st (routing_key topic) valid) h

pub Flow-cases :
    (x : Flow)
    → ((r : Result Text (Unit {0})) × (x ≡ Flow.returned r))
      ⊎ ((st : RoutingState) × (x ≡ Flow.continued st))
Flow-cases (Flow.returned r) = inl (r, refl)
Flow-cases (Flow.continued st) = inr (st, refl)
