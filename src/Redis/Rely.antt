-- ===== src/Redis/Rely.antt =====
-- What a client may rely on: a property of the world that connecting, waiting and every command
-- keep, as long as each value written is good for its key, and under which each value read is good.
-- Other clients act inside the commands; they are assumed to write good values too.
use fogros2_sgc.Base.{zero, false, suc, true, inr, inl, List, Bool, Option, [], ℕ, ◌≡◌}
use fogros2_sgc.Text.{◌==◌, Text}
use fogros2_sgc.Redis.{
  atomic_update, unwatch, is_some, proxy_alive_key, exists, or_default, watch, commit_if, connect,
  get_string, is_proxy_alive, now_ms, try_atomic_update, Command, exec_set, setex, del, get, Env,
}
use fogros2_sgc.Base.Exec.{◌>>◌, pure, ◌>>=◌, lift, Exec}
use fogros2_sgc.Base.Result.{Result-cases, ok}
use fogros2_sgc.Name.{GdpName}
use fogros2_sgc.Base.Int.{ℤ}

abbrev pub Permits : (Text → Text → Type 0) → {A : Type 0} → Command A → Type 0
Permits good (exec_set k v) = good k v
Permits good (setex k t v) = good k v
Permits good (del k) = good k []
Permits good _ = Unit

pub record Rely (env : Env) (good : Text → Text → Type 0) : Type 1 where
  pub holds : env.World → Type 0
  pub on_connection : (c : env.Client) (w : env.World) → holds w → holds (env.get_connection c w).1
  pub on_query :
      (A : Type 0) (con : env.Conn) (c : Command A) (w : env.World)
      → Permits good c
      → holds w
      → holds (env.query A con c w).1
  pub on_get :
      (con : env.Conn) (key : Text) (w : env.World) (v : Option Text)
      → holds w
      → (env.query (Option Text) con (get key) w).0 ≡ ok v
      → good key (or_default v)
  pub on_clock : (w : env.World) → holds w → holds (env.clock w).1
  pub on_sleep : (ms : ℕ) (w : env.World) → holds w → holds (env.sleep_ms ms w)

bind-holds :
    {W E A B : Type 0} (P : W → Type 0) (m : Exec W E A) (f : A → Exec W E B) (w : W)
    → P (m w).1
    → ((a : A) → (m w).0 ≡ ok a → P (f a (m w).1).1)
    → P ((m >>= f) w).1
bind-holds P m f w h k = elim (Result-cases (m w).0) [
  | inl (a, e) ↦ rw e (k a e)
  | inr (x, e) ↦ rw e h
]

module _ (env : Env) (good : Text → Text → Type 0) (rely : Rely env good) where
  open rely use {holds, on_connection, on_query, on_get, on_clock, on_sleep}

  pub connect-holds : (url : Text) (w : env.World) → holds w → holds (connect env url w).1
  unfolding connect
  connect-holds url w h =
      bind-holds holds (lift (env.open_client url)) env.get_connection w h
        (λ c e. on_connection c w h)

  pub get_string-holds :
      (url key : Text) (w : env.World) → holds w → holds (get_string env url key w).1
  unfolding get_string
  get_string-holds url key w h =
      bind-holds holds (connect env url) (λ con. env.query (Option Text) con (get key)) w
        (connect-holds url w h)
        (λ con e. on_query (Option Text) con (get key) _ tt (connect-holds url w h))

  -- A value that is read is good for its key.
  pub get_string-good :
      (url key : Text) (w : env.World) (v : Option Text)
      → holds w
      → (get_string env url key w).0 ≡ ok v
      → good key (or_default v)
  unfolding get_string
  get_string-good url key w v h e = elim (Result-cases (connect env url w).0) [
    | inl (con, c) ↦ on_get con key (connect env url w).1 v (connect-holds url w h) (rw c at e)
    | inr (x, c) ↦ absurd (cc (rw c at e))
  ]

  commit_if-holds :
      (con : env.Conn) (key new : Text) (b : Bool) (w : env.World)
      → good key new
      → holds w
      → holds (commit_if env con key new b w).1
  unfolding commit_if
  commit_if-holds con key new true w g h =
      bind-holds holds (env.query (Option (List Text)) con (exec_set key new))
        (λ reply. pure (is_some reply)) w
        (on_query (Option (List Text)) con (exec_set key new) w g h)
        (λ reply e. on_query (Option (List Text)) con (exec_set key new) w g h)
  commit_if-holds con key new false w g h = on_query (Unit {0}) con unwatch w tt h

  pub try_atomic_update-holds :
      (url key new old : Text) (w : env.World)
      → good key new
      → holds w
      → holds (try_atomic_update env url key new old w).1
  unfolding try_atomic_update
  try_atomic_update-holds url key new old w g h =
      bind-holds holds (connect env url) (λ con. env.query (Unit {0}) con (watch key) >> rest con) w
        (connect-holds url w h)
        λ con _.
          let w1 = (connect env url w).1 in
          let h1 = on_query (Unit {0}) con (watch key) w1 tt (connect-holds url w h) in
          bind-holds holds (env.query (Unit {0}) con (watch key)) (λ _. rest con) w1 h1
            λ _ _.
              let w2 = (env.query (Unit {0}) con (watch key) w1).1 in
              let h2 = on_query (Option Text) con (get key) w2 tt h1 in
              bind-holds holds (env.query (Option Text) con (get key))
                (λ current. commit_if env con key new (or_default current == old)) w2 h2
                λ current _.
                  commit_if-holds con key new (or_default current == old)
                    (env.query (Option Text) con (get key) w2).1 g h2
    where
      rest : env.Conn → Exec env.World env.RedisError Bool
      rest con = env.query (Option Text) con (get key) >>= λ current.
          commit_if env con key new (or_default current == old)

  -- A compare-and-swap of a good value keeps the property, whatever its outcome.
  pub atomic_update-holds :
      (url key new old : Text) (tries : ℕ) (w : env.World)
      → good key new
      → holds w
      → holds (atomic_update env url key new old tries w).1
  unfolding atomic_update
  atomic_update-holds url key new old zero w g h = h
  atomic_update-holds url key new old (suc tries) w g h =
      bind-holds holds (try_atomic_update env url key new old) again w
        (try_atomic_update-holds url key new old w g h)
        λ done _.
          next done (try_atomic_update env url key new old w).1
            (atomic_update-holds url key new old tries)
            (try_atomic_update-holds url key new old w g h)
    where
      again : Bool → Exec env.World env.RedisError Bool
      again done = elim done [ true ↦ pure true | false ↦ atomic_update env url key new old tries ]

      next :
          (done : Bool) (w' : env.World)
          → ((v : env.World)
              → good key new
              → holds v
              → holds (atomic_update env url key new old tries v).1)
          → holds w'
          → holds (again done w').1
      next true w' ih h' = h'
      next false w' ih h' = ih w' g h'

  pub is_proxy_alive-holds :
      (url : Text) (topic : GdpName) (p : Text) (w : env.World)
      → holds w
      → holds (is_proxy_alive env url topic p w).1
  unfolding is_proxy_alive
  is_proxy_alive-holds url topic p w h =
      bind-holds holds (connect env url)
        (λ con. env.query ℤ con (exists (proxy_alive_key env topic p))) w (connect-holds url w h)
        (λ con e.
          on_query ℤ con (exists (proxy_alive_key env topic p)) _ tt (connect-holds url w h))

  pub now_ms-holds : (w : env.World) → holds w → holds (now_ms env w).1
  unfolding now_ms
  now_ms-holds w h = on_clock w h
