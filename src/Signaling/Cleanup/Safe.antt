-- ===== src/Signaling/Cleanup/Safe.antt =====
-- `disconnect_node` writes only valid states, whatever else happens at the server.
use fogros2_sgc.Base.{
  ℕ, zero, suc, ◌≡◌, refl, sym, subst, ◌∙◌, inl, inr, Bool, true, false, Option, some, [], ◌++◌,
  Bool-cases, Option-cases,
}
use fogros2_sgc.Text.{Text, codes}
use fogros2_sgc.Signaling.Cleanup.{
  unregisters, prune, finish, disconnect_node, node_rounds, Stored, read_stored, stored_json,
}
use fogros2_sgc.Routing.Tree.Valid.{blank-IsValid, IsValid}
use fogros2_sgc.Redis.{hdel, connect, get, or_default, try_atomic_update, Env}
use fogros2_sgc.Routing.Update.{Codec}
use fogros2_sgc.Text.Blank.{is_blank}
use fogros2_sgc.Signaling.Cleanup.Pruned.{prune-IsValid, core_view}
use fogros2_sgc.Redis.Rely.{Rely, connect-holds, try_atomic_update-holds}
use fogros2_sgc.Base.Result.{err, ok, Result, Result-cases}

-- serde reads back what it wrote.
pub record StoredBack (codec : Codec Stored) (st : Stored) : Type 0 where
  pub written : Text
  pub writes : codec.to_string st ≡ some written
  pub reads : codec.from_str written ≡ some st
  pub not_blank : is_blank written ≡ false

abbrev pub ReadsStored : Codec Stored → Type 0
ReadsStored codec = (st : Stored) → StoredBack codec st

read-written :
    (codec : Codec Stored) (st : Stored)
    → StoredBack codec st
    → read_stored codec (stored_json codec st) ≡ some st
unfolding read_stored stored_json
read-written codec st b = rw (b.writes, stored_json) (rw (b.not_blank, b.reads) refl)

-- What the signaling server reads under the key, if it can parse it, is a valid state.
abbrev pub GoodStored : Codec Stored → ℕ → Text → Text → Text → Type 0
GoodStored codec f key k v =
    k ≡ key → (st : Stored) → read_stored codec v ≡ some st → IsValid f (core_view st)

pub some-injective : (x y : Stored) → some x ≡ some y → x ≡ y
some-injective x y e = cc

pub read_stored-nil :
    (codec : Codec Stored)
    → read_stored codec [] ≡ some (record { publishers = []; proxies = []; edges = [] })
unfolding read_stored
read_stored-nil codec = refl

module _ (env : Env) (codec : Codec Stored) (faithful : ReadsStored codec) (f : ℕ) (key url : Text)
    (rely : Rely env (GoodStored codec f key)) where
  open rely use {holds, on_query, on_get}

  finish-holds :
      (con : env.Conn) (node : Text) (st : Stored) (r : Result env.RedisError Bool)
      (again : env.World → env.World) (w : env.World)
      → ((v : env.World) → holds v → holds (again v))
      → holds w
      → holds (finish env codec url con node st r again w)
  unfolding finish
  finish-holds con node st (err e) again w k h = h
  finish-holds con node st (ok false) again w k h = k w h
  finish-holds con node st (ok true) again w k h = elim (Bool-cases (unregisters st node)) [
    | inl e ↦ rw (e, finish) (on_query (Unit {0}) con (hdel (codes "gdpname_map") node) w tt h)
    | inr e ↦ rw (e, finish) h
  ]

  -- What a reply of GET is taken for.
  abbrev text_of : Result env.RedisError (Option Text) → Text
  text_of (ok v) = or_default v
  text_of (err e) = []

  empty-IsValid : (st : Stored) → read_stored codec [] ≡ some st → IsValid f (core_view st)
  empty-IsValid st e =
      subst (λ s. IsValid f (core_view s)) (some-injective _ st (sym (read_stored-nil codec) ∙ e))
        (blank-IsValid f)

  reply-IsValid :
      (con : env.Conn) (w : env.World) (st : Stored)
      → holds w
      → read_stored codec (text_of (env.query (Option Text) con (get key) w).0) ≡ some st
      → IsValid f (core_view st)
  reply-IsValid con w st h e = elim (Result-cases (env.query (Option Text) con (get key) w).0) [
    | inl (v, r) ↦ on_get con key w v h r refl st (rw r at e)
    | inr (x, r) ↦ empty-IsValid st (rw r at e)
  ]

  written-good :
      (st : Stored) → IsValid f (core_view st) → GoodStored codec f key key (stored_json codec st)
  written-good st h _ st' e =
      subst (λ s. IsValid f (core_view s))
        (some-injective st st' (sym (read-written codec st (faithful st)) ∙ e)) h

  node_rounds-holds :
      (node : Text) (rounds : ℕ) (w : env.World)
      → holds w
      → holds (node_rounds env codec url key node rounds w)
  unfolding node_rounds
  node_rounds-holds node zero w h = h
  node_rounds-holds node (suc rounds) w h = elim (Result-cases (connect env url w).0) [
    | inr (x, e) ↦ rw (e, node_rounds) (connect-holds env (GoodStored codec f key) rely url w h)
    | inl (con, e) ↦
        let w1 = (connect env url w).1 in
        let h1 = connect-holds env (GoodStored codec f key) rely url w h in
        let h2 = on_query (Option Text) con (get key) w1 tt h1 in
        let w2 = (env.query (Option Text) con (get key) w1).1 in
        let old = text_of (env.query (Option Text) con (get key) w1).0 in
        elim (Option-cases (read_stored codec old)) [
          | inl r ↦ rw (e, node_rounds) (rw (r, node_rounds) h2)
          | inr (st, r) ↦
              let new = stored_json codec (prune st node) in
              let h3 =
                try_atomic_update-holds env (GoodStored codec f key) rely url key new old w2
                  (written-good (prune st node)
                    (prune-IsValid f st node (reply-IsValid con w1 st h1 r)))
                  h2 in
              rw (e, node_rounds)
                (rw (r, node_rounds)
                  (finish-holds con node st (try_atomic_update env url key new old w2).0
                    (node_rounds env codec url key node rounds)
                    (try_atomic_update env url key new old w2).1 (node_rounds-holds node rounds)
                    h3))
        ]
  ]

-- With a codec that reads back the states it writes, and on a server that keeps what the signaling
-- server reads under the topic's key valid as long as this client writes valid states,
-- `disconnect_node` does so, however many rounds it takes and wherever it gives up.
pub disconnect_node-holds :
    (env : Env) (codec : Codec Stored) (f : ℕ) (url topic_gdp node : Text)
    → ReadsStored codec
    → (rely : Rely env (GoodStored codec f (topic_gdp ++ codes "-routing"))) → (w : env.World)
    → rely.holds w
    → rely.holds (disconnect_node env codec url topic_gdp node w)
unfolding disconnect_node
disconnect_node-holds env codec f url topic_gdp node faithful rely w h =
    node_rounds-holds env codec faithful f (topic_gdp ++ codes "-routing") url rely node 32 w h
