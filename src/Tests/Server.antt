-- ===== src/Tests/Server.antt =====
-- A server with one client, whose world is the list of its keys: a write always commits.
use fogros2_sgc.Base.{subst, inl, inr, none, some, List, [], Bool-cases}
use fogros2_sgc.Text.{Text, ◌==◌, eq_iff, codes}
use fogros2_sgc.Redis.{Command, or_default, Env}
use fogros2_sgc.Redis.Rely.{Permits, Rely}
use fogros2_sgc.Base.Int.{ℤ}
use fogros2_sgc.Text.Sets.{insert, lookup, remove, lookup-insert, lookup-remove}
use fogros2_sgc.Base.Result.{ok, Result}

abbrev pub Store : Type 0
Store = List (Text × Text)

abbrev pub answer : {A : Type 0} → Command A → Store → Result Text A × Store
answer (Command.watch k) w = (ok tt, w)
answer Command.unwatch w = (ok tt, w)
answer (Command.get k) w = (ok (lookup k w), w)
answer (Command.exec_set k v) w = (ok (some []), insert k v w)
answer (Command.del k) w = (ok tt, remove k w)
answer (Command.exists k) w = (ok (elim (lookup k w) [ none ↦ ℤ.pos 0 | some v ↦ ℤ.pos 1 ]), w)
answer (Command.setex k ttl v) w = (ok tt, insert k v w)
answer (Command.hset k f v) w = (ok tt, w)
answer (Command.hsetnx k f n) w = (ok (ℤ.pos 1), w)
answer (Command.hdel k f) w = (ok tt, w)
answer (Command.sadd k v) w = (ok tt, w)
answer (Command.config_set k v) w = (ok tt, w)
answer Command.ping w = (ok (codes "PONG"), w)

abbrev pub lone_server : Env
lone_server = record {
  World = Store;
  Client = Unit {0};
  Conn = Unit {0};
  RedisError = Text;
  error_text = λ e. e;
  open_client = λ url. ok tt;
  get_connection = λ c w. (ok tt, w);
  query = λ A con c w. answer c w;
  clock = λ w. (some 1000, w);
  sleep_ms = λ ms w. w;
  hostname = some (codes "robot");
  fanout_factor = some (codes "2");
}

-- Every value of the store is good for its key, and so is a missing one.
abbrev pub AllGood : (Text → Text → Type 0) → Store → Type 0
AllGood good w = (k : Text) → good k (or_default (lookup k w))

AllGood-insert :
    (good : Text → Text → Type 0) (k v : Text) (w : Store)
    → good k v
    → AllGood good w
    → AllGood good (insert k v w)
AllGood-insert good k v w g h j = elim (Bool-cases (k == j)) [
  | inl same ↦ rw (lookup-insert k j v w, same) (subst (λ x. good x v) ((eq_iff k j).0 same) g)
  | inr other ↦ rw (lookup-insert k j v w, other) (h j)
]

AllGood-remove :
    (good : Text → Text → Type 0) (k : Text) (w : Store)
    → good k []
    → AllGood good w
    → AllGood good (remove k w)
AllGood-remove good k w g h j = elim (Bool-cases (k == j)) [
  | inl same ↦ rw (lookup-remove k j w, same) (subst (λ x. good x []) ((eq_iff k j).0 same) g)
  | inr other ↦ rw (lookup-remove k j w, other) (h j)
]

answer-AllGood :
    (good : Text → Text → Type 0) {A : Type 0} (c : Command A) (w : Store)
    → Permits good c
    → AllGood good w
    → AllGood good (answer c w).1
answer-AllGood good (Command.exec_set k v) w g h = AllGood-insert good k v w g h
answer-AllGood good (Command.del k) w g h = AllGood-remove good k w g h
answer-AllGood good (Command.setex k ttl v) w g h = AllGood-insert good k v w g h
answer-AllGood good _ w g h = h

pub lone_rely : (good : Text → Text → Type 0) → Rely lone_server good
lone_rely good = record {
  holds = AllGood good;
  on_connection = λ c w h. h;
  on_query = λ A con c w g h. answer-AllGood good c w g h;
  on_get = λ con key w v h e.
      subst (λ x. good key (or_default x)) {x = lookup key w} {y = v} (cc e) (h key);
  on_clock = λ w h. h;
  on_sleep = λ ms w h. h;
}

pub lone-holds :
    (good : Text → Text → Type 0) (w : Store) → AllGood good w → (lone_rely good).holds w
unfolding lone_rely
lone-holds good w h = h
