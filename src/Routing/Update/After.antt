-- ===== src/Routing/Update/After.antt =====
-- What the write of a successful compare-and-swap brings about holds when it has returned.
use fogros2_sgc.Base.{◌≡◌, inl, inr, Bool, true, false, Option, none, some, List}
use fogros2_sgc.Text.{Text, ◌==◌}
use fogros2_sgc.Redis.{
  get, watch, connect, Env, atomic_update, commit_if, exec_set, or_default, try_atomic_update,
}
use fogros2_sgc.Base.Result.{ok, Result-cases}

module _ (env : Env) (url key new old : Text) (P : env.World → Type 0)
    (executed : (con : env.Conn) (reply : List Text) (w : env.World)
      → (env.query (Option (List Text)) con (exec_set key new) w).0 ≡ ok (some reply)
      → P (env.query (Option (List Text)) con (exec_set key new) w).1) where
  commit_if-after :
      (con : env.Conn) (b : Bool) (w : env.World)
      → (commit_if env con key new b w).0 ≡ ok true
      → P (commit_if env con key new b w).1
  unfolding commit_if
  commit_if-after con false w h = absurd (cc)
  commit_if-after con true w h =
      elim (Result-cases (env.query (Option (List Text)) con (exec_set key new) w).0) [
        | inl (some reply, e) ↦ rw e (executed con reply w e)
        | inl (none, e) ↦ absurd (cc (rw e at h))
        | inr (x, e) ↦ absurd (cc (rw e at h))
      ]

  -- After a successful compare-and-swap, what the executed write brings about holds.
  pub atomic_update-after :
      (w : env.World)
      → (atomic_update env url key new old 1 w).0 ≡ ok true
      → P (atomic_update env url key new old 1 w).1
  unfolding atomic_update try_atomic_update
  atomic_update-after w h = elim (Result-cases (connect env url w).0) [
    | inr (x, e) ↦ absurd (cc (rw e at h))
    | inl (con, e) ↦
        let w1 = (connect env url w).1 in
        let h1 = rw e at h in
        rw e (elim (Result-cases (env.query (Unit {0}) con (watch key) w1).0) [
          | inr (x, f) ↦ absurd (cc (rw f at h1))
          | inl (u, f) ↦
              let w2 = (env.query (Unit {0}) con (watch key) w1).1 in
              let h2 = rw f at h1 in
              rw f (elim (Result-cases (env.query (Option Text) con (get key) w2).0) [
                | inr (x, g) ↦ absurd (cc (rw g at h2))
                | inl (current, g) ↦
                    let w3 = (env.query (Option Text) con (get key) w2).1 in
                    let b = or_default current == old in
                    let h3 = rw g at h2 in
                    rw g (elim (Result-cases (commit_if env con key new b w3).0) [
                      | inr (x, k) ↦ absurd (cc (rw k at h3))
                      | inl (false, k) ↦ absurd (cc)
                      | inl (true, k) ↦ rw k (commit_if-after con b w3 k)
                    ])
              ])
        ])
  ]
