-- ===== src/Config/Valid.antt =====
-- Which configurations are accepted.
use fogros2_sgc.Base.{ℕ, ◌+◌, ◌≡◌, refl, ◌↔◌, Bool, true, false, not, List, [], ◌∷◌, ◌++◌, arith}
use fogros2_sgc.Text.{Text}
use fogros2_sgc.Config.{
  validate, config_errors, ok_if_none, signaling_errors, starts_with, AppConfig, Topic, is_empty,
  is_role, has_scheme, topic_errors, complain,
}
use fogros2_sgc.Base.Result.{ok}

abbrev pub TopicsGood : List Topic → Type 0
TopicsGood [] = Unit {0}
TopicsGood (t ∷ ts) =
    (is_empty t.name ≡ false)
    × (is_empty t.topic_type ≡ false)
    × (is_role t.role ≡ true)
    × TopicsGood ts

complain-none : (b : Bool) (msg : Text) → (complain b msg ≡ []) ↔ (b ≡ false)
complain-none true msg = (λ e. absurd (cc), λ e. absurd (cc))
complain-none false msg = (λ e. refl, λ e. refl)

pub append-none : (xs ys : List Text) → (xs ++ ys ≡ []) ↔ ((xs ≡ []) × (ys ≡ []))
append-none [] ys = (λ e. (refl, e), λ h. h.1)
append-none (x ∷ xs) ys = (λ e. absurd (cc), λ h. absurd (cc (h.0)))

not-false : (b : Bool) → (not b ≡ false) ↔ (b ≡ true)
not-false b = ground arith

topic_errors-none : (i : ℕ) (ts : List Topic) → (topic_errors i ts ≡ []) ↔ TopicsGood ts
unfolding topic_errors
topic_errors-none i [] = (λ e. tt, λ h. refl)
topic_errors-none i (t ∷ ts) = (
  λ e.
      let (a, rest) = (append-none _ _).0 e in
      let (b, rest2) = (append-none _ _).0 rest in
      let (c, more) = (append-none _ _).0 rest2 in
      (
        (complain-none _ _).0 a,
        (complain-none _ _).0 b,
        (not-false _).0 ((complain-none _ _).0 c),
        (topic_errors-none (i + 1) ts).0 more,
      ),
  λ h. (append-none _ _).1 (
    (complain-none _ _).1 h.0,
    (append-none _ _).1 (
      (complain-none _ _).1 h.1,
      (append-none _ _).1
          ((complain-none _ _).1 ((not-false _).1 h.2), (topic_errors-none (i + 1) ts).1 h.3),
    ),
  ),
)

-- What `validate` asks of a configuration.
pub record IsAccepted (config : AppConfig) : Type 0 where
  pub secret : is_empty config.group_secret ≡ false
  pub server : has_scheme config.signaling_server ≡ true
  pub routing : is_empty config.routing_server ≡ false
  pub topics_good : TopicsGood config.topics

signaling_errors-none : (s : Text) → (signaling_errors s ≡ []) ↔ (has_scheme s ≡ true)
unfolding starts_with
signaling_errors-none [] = (λ e. absurd (cc), λ e. absurd (cc))
signaling_errors-none (b ∷ bs) =
    (λ e. (not-false _).0 ((complain-none _ _).0 e), λ h. (complain-none _ _).1 ((not-false _).1 h))

ok_if_none-ok : (es : List Text) → (ok_if_none es ≡ ok tt) ↔ (es ≡ [])
ok_if_none-ok [] = (λ e. refl, λ e. refl)
ok_if_none-ok (x ∷ es) = (λ e. absurd (cc), λ e. absurd (cc))

-- `validate` accepts a configuration exactly if the secret and the routing server are not empty, the
-- signaling server starts with ws:// or wss://, and each topic has a name, a type and one of the three
-- roles. There may be no topics.
pub validate_iff : (config : AppConfig) → (validate config ≡ ok tt) ↔ IsAccepted config
unfolding validate
validate_iff config = (
  λ e.
      let (a, rest) = (append-none _ _).0 ((ok_if_none-ok (config_errors config)).0 e) in
      let (b, rest2) = (append-none _ _).0 rest in
      let (c, more) = (append-none _ _).0 rest2 in
      record {
        secret = (complain-none _ _).0 a;
        server = (signaling_errors-none config.signaling_server).0 b;
        routing = (complain-none _ _).0 c;
        topics_good = (topic_errors-none 0 config.topics).0 more;
      },
  λ h. (ok_if_none-ok (config_errors config)).1 (
      (append-none _ _).1 (
        (complain-none _ _).1 h.secret,
        (append-none _ _).1 (
          (signaling_errors-none config.signaling_server).1 h.server,
          (append-none _ _).1 (
            (complain-none _ _).1 h.routing,
            (topic_errors-none 0 config.topics).1 h.topics_good,
          ),
        ),
      )),
)
