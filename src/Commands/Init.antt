-- ===== src/Commands/Init.antt =====
-- What `init` of core/src/commands.rs leaves in the file system, and how `check` reads it.
use fogros2_sgc.Base.{ℕ, ◌≡◌, refl, ap, ◌∙◌, Bool, true, false, List, [], length}
use fogros2_sgc.Text.{Text}
use fogros2_sgc.Redis.{Env}
use fogros2_sgc.Commands.{
  init_on, write_file, create_file, make_dir, random_secret, Host, init_secret, init_steps,
  ending_of, secret_path, secret_report, file_report, returns,
}
use fogros2_sgc.Base.Exec.{Exec, ◌>>=◌, map_error, continue}
use fogros2_sgc.Base.Result.{err, ok, Result}
use fogros2_sgc.Config.{AppConfig}

-- What holds of the result and the world after an action, if it succeeds.
abbrev OnOk : {W E A : Type 0} → Exec W E A → W → (A → W → Type 0) → Type 0
OnOk m w Q = (a : _) → (m w).0 ≡ ok a → Q a (m w).1

module _ {W E A B : Type 0} (Q : B → W → Type 0) where
  continue-OnOk :
      (r : Result E A) (f : A → Exec W E B) (w : W)
      → ((a : A) → r ≡ ok a → OnOk (f a) w Q)
      → OnOk (continue r f) w Q
  continue-OnOk (ok a) f w h = h a refl
  continue-OnOk (err x) f w h = λ b e. absurd (cc (e))

  bind-OnOk :
      (m : Exec W E A) (f : A → Exec W E B) (w : W)
      → ((a : A) → (m w).0 ≡ ok a → OnOk (f a) (m w).1 Q)
      → OnOk (m >>= f) w Q
  bind-OnOk m f w h = continue-OnOk (m w).0 f (m w).1 h

module _ {E F A : Type 0} (g : F → E) where
  renamed-ok :
      (r : Result F A) (a : A)
      → elim r as (λ x. Result E A) [ ok y ↦ ok y | err x ↦ err (g x) ] ≡ ok a
      → r ≡ ok a
  renamed-ok (ok y) a e = cc (e)
  renamed-ok (err x) a e = absurd (cc (e))

  -- An error's text does not matter to success.
  map_error-ok :
      {W : Type 0} (m : Exec W F A) (w : W) (a : A) → (map_error g m w).0 ≡ ok a → (m w).0 ≡ ok a
  map_error-ok m w a e = renamed-ok (m w).0 a e

ending_of-returns : (r : Result Text (Unit {0})) → ending_of r ≡ returns → r ≡ ok tt
ending_of-returns (ok u) e = refl
ending_of-returns (err x) e = absurd (cc)

file_report-full :
    (name : Text) → file_report name true (ok 32) ≡ record { errors = []; warnings = [] }
unfolding file_report
file_report-full name = refl

module _ (env : Env) (host : Host env) where
  open env use {World}

  -- A successful `getrandom` fills the buffer, and a file that was truncated and written is there, with
  -- the length of what was written.
  pub record IsFileSystem : Type 0 where
    pub filled : (n : ℕ) (bs : List ℕ) (w : World) → (host.getrandom n w).0 ≡ ok bs → length bs ≡ n
    pub written :
        (path : Text) (bs : List ℕ) (w : World)
        → (host.create path w).0 ≡ ok tt
        → (host.write_all path bs (host.create path w).1).0 ≡ ok tt
        → (host.exists path (host.write_all path bs (host.create path w).1).1 ≡ true)
          × (host.metadata_len path (host.write_all path bs (host.create path w).1).1
              ≡ ok (length bs))

  module _ (files : IsFileSystem) where
    init_steps-writes :
        (name : Text) (w : World)
        → (init_steps env host name w).0 ≡ ok tt
        → (host.exists (secret_path name) (init_steps env host name w).1 ≡ true)
          × (host.metadata_len (secret_path name) (init_steps env host name w).1 ≡ ok 32)
    unfolding init_steps
    init_steps-writes name w e =
        bind-OnOk Written (make_dir env host name) _ w
          (λ made m. bind-OnOk Written (random_secret env host) _ _ (λ secret s.
            bind-OnOk Written (create_file env host name) _ _
              (λ created c. write_len secret _ s created c)))
          tt e
      where
        path : Text
        path = secret_path name

        Written : Unit {0} → World → Type 0
        Written u after = (host.exists path after ≡ true) × (host.metadata_len path after ≡ ok 32)

        write_len :
            (secret : List ℕ) (w0 : World)
            → (random_secret env host w0).0 ≡ ok secret
            → (u : Unit {0}) → (create_file env host name (random_secret env host w0).1).0 ≡ ok u
            → OnOk
                (write_file env host name secret)
                (create_file env host name (random_secret env host w0).1).1
                Written
        write_len secret w0 s u c v d =
            let w1 = (host.getrandom 32 w0).1 in
            let created = map_error-ok _ (host.create path) w1 u c in
            let wrote = map_error-ok _ (host.write_all path secret) (host.create path w1).1 v d in
            let (there, len) = files.written path secret w1 created wrote in
            (
              there,
              len
                  ∙ ap ok
                      (files.filled 32 secret w0 (map_error-ok _ (host.getrandom 32) w0 secret s)),
            )

    init_on-returns :
        (found : Bool) (name : Text) (w : World)
        → (init_on env host found name w).0 ≡ returns
        → (found ≡ false)
          × (host.exists (secret_path name) (init_on env host found name w).1 ≡ true)
          × (host.metadata_len (secret_path name) (init_on env host found name w).1 ≡ ok 32)
    unfolding init_on
    init_on-returns true name w e = absurd (cc)
    init_on-returns false name w e =
        let (there, len) = init_steps-writes name w (ending_of-returns _ e) in (refl, there, len)

    -- If `init` returns, the file of the secret was not there, and afterwards `check` finds it, with no
    -- error and no warning about it.
    pub init_secret-report :
        (config : AppConfig) (w : World)
        → (init_secret env host config.group_secret w).0 ≡ returns
        → (host.exists (secret_path config.group_secret) w ≡ false)
          × (secret_report env host config (init_secret env host config.group_secret w).1
              ≡ record { errors = []; warnings = [] })
    unfolding init_secret secret_report
    init_secret-report config w e =
        let (fresh, there, len) = init_on-returns _ config.group_secret w e in
        (
          fresh,
          ap
                (λ b. file_report config.group_secret b (
                  host.metadata_len (secret_path config.group_secret)
                    (init_secret env host config.group_secret w).1))
                there
              ∙ ap (file_report config.group_secret true) len
              ∙ file_report-full config.group_secret,
        )
