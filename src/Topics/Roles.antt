-- ===== src/Topics/Roles.antt =====
-- What setting up a topic registers, on a server that no other client uses.
use fogros2_sgc.Base.{◌≡◌, refl, sym, ap, subst, ◌∙◌, inl, inr, false, ◌&&◌, ◌||◌, Bool-cases}
use fogros2_sgc.Text.{codes, Text, ◌==◌, eq_iff}
use fogros2_sgc.Routing.Update.{Codec, routing_key}
use fogros2_sgc.Topics.Setup.{Digest, get_gdp_name_from_topic, setup_topic}
use fogros2_sgc.Name.{GdpName, show_name}
use fogros2_sgc.Redis.{Env}
use fogros2_sgc.Routing.Update.Quiet.{
  stored, Quiet, register_proxy-Offers, register_publisher-Publishes,
}
use fogros2_sgc.Routing.Update.Keeps.{IsFaithful}
use fogros2_sgc.Routing.{RoutingState}
use fogros2_sgc.Text.Sets.{contains}

module _ (env : Env) (codec : Codec RoutingState) (url : Text) (sha256 : Text → Digest)
    (topic_name topic_type role secret : Text) (me : GdpName) where
  -- The GDP name of the topic.
  abbrev topic_gdp : GdpName
  topic_gdp = get_gdp_name_from_topic sha256 topic_name topic_type secret

  module _ (quiet : Quiet env url (routing_key topic_gdp)) (faithful : IsFaithful codec) where
    abbrev state : env.World → RoutingState
    state w = stored env codec url topic_gdp quiet faithful w

    -- With the role of a publisher, the node is a publisher of the topic in the second world, and with that
    -- of a proxy it is a proxy; nothing else is new, and nothing gone.
    pub record Registered (w w' : env.World) : Type 0 where
      pub publishers :
          (m : Text)
          → contains (state w').publishers m
            ≡ (role == codes "publisher" && m == show_name me || contains (state w).publishers m)
      pub proxies :
          (m : Text)
          → contains (state w').proxies m
            ≡ (role == codes "proxy" && m == show_name me || contains (state w).proxies m)
      pub edges : (state w').edges ≡ (state w).edges

    -- On a server that no other client uses, that opens and commits, and with a codec that reads back what
    -- it writes, setting up a topic leaves under the key of the topic's GDP name the state of before, with
    -- the node as a publisher if that is its role and as a proxy if that is its role. Any other role
    -- registers nothing, also not that of a subscriber.
    pub setup_topic-registers :
        (w : env.World)
        → Registered w (setup_topic env codec url sha256 topic_name topic_type role secret me w).1
    unfolding setup_topic ◌==◌
    setup_topic-registers w = elim (Bool-cases (role == codes "publisher")) [
      | inl e ↦
          let h =
            register_publisher-Publishes env codec url topic_gdp quiet faithful me topic_name w in
          let apart : (role == codes "proxy") ≡ false =
            subst (λ r. (r == codes "proxy") ≡ false) (sym ((eq_iff role (codes "publisher")).0 e))
              refl in
          rw e (record {
            publishers = λ m. h.1 m ∙ (rw e refl);
            proxies = λ m. ap (λ ps. contains ps m) h.2 ∙ (rw apart refl);
            edges = h.3;
          })
      | inr e ↦ elim (Bool-cases (role == codes "subscriber")) [
        | inl f ↦
            let apart : (role == codes "proxy") ≡ false =
              subst (λ r. (r == codes "proxy") ≡ false)
                (sym ((eq_iff role (codes "subscriber")).0 f)) refl in
            rw e (
              rw f (record {
                publishers = λ m. rw e refl;
                proxies = λ m. rw apart refl;
                edges = refl;
              }))
        | inr f ↦ elim (Bool-cases (role == codes "proxy")) [
          | inl g ↦
              let h =
                register_proxy-Offers env codec url topic_gdp quiet faithful me topic_name w in
              rw e (
                rw f (
                  rw g (record {
                    publishers = λ m. ap (λ ps. contains ps m) h.1 ∙ (rw e refl);
                    proxies = λ m. h.2 m ∙ (rw g refl);
                    edges = h.3;
                  })))
          | inr g ↦ rw e (
              rw f (
                rw g
                  (record { publishers = λ m. rw e refl; proxies = λ m. rw g refl; edges = refl })))
        ]
      ]
    ]
