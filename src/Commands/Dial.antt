-- ===== src/Commands/Dial.antt =====
-- The host and port that `test_signaling_server` of core/src/commands.rs dials.
use fogros2_sgc.Base.{
  ℕ, zero, suc, ◌≡◌, refl, sym, ap, ◌∙◌, ◌≢◌, ◌⊎◌, inl, inr, Bool, true, false, Option, none, some,
  [], ◌∷◌, ◌++◌, arith, if◌then◌else◌, length,
}
use fogros2_sgc.Text.{Text, codes}
use fogros2_sgc.Commands.{add_port, authority_of, host_port, first_or}
use fogros2_sgc.Text.Trim.{trim_start_matches, trim_from, strip_prefix, has_char}
use mathlib.Core.List.{append-nil, append_assoc}
use fogros2_sgc.Text.Parts.{Avoids, split-Avoids, split-append, split}
use fogros2_sgc.Config.{show_usize, is_empty}
use fogros2_sgc.Config.Address.{show_usize-Avoids, show_usize-is_empty}
use mathlib.Core.List.{append-nil}

-- `:port` and `/path`, where there is one.
abbrev pub port_suffix : Option ℕ → Text
port_suffix none = []
port_suffix (some port) = b':' ∷ show_usize port

abbrev pub path_suffix : Option Text → Text
path_suffix none = []
path_suffix (some path) = b'/' ∷ path

abbrev pub scheme : Bool → Text
scheme false = codes "ws://"
scheme true = codes "wss://"

-- A text that does not start with the prefix is left as it is.
trim_from-stop : (fuel : ℕ) (p s : Text) → strip_prefix p s ≡ none → trim_from fuel p s ≡ s
unfolding trim_from
trim_from-stop zero p s h = refl
trim_from-stop (suc fuel) p s h = rw (h, trim_from) refl

strip_prefix-append : (p s : Text) → strip_prefix p (p ++ s) ≡ some s
unfolding strip_prefix
strip_prefix-append [] s = refl
strip_prefix-append (b ∷ bs) s = rw (strip_prefix-append bs s) (ground arith)

-- One prefix is stripped before such a text.
trim_from-once :
    (fuel : ℕ) (p s : Text)
    → strip_prefix p (p ++ s) ≡ some s
    → strip_prefix p s ≡ none
    → trim_from (suc fuel) p (p ++ s) ≡ s
unfolding trim_from
trim_from-once fuel p s e h = rw (e, trim_from) (trim_from-stop fuel p s h)

-- What follows a host: nothing, a slash, or a colon with no slash after it.
abbrev Ends : Text → Type 0
Ends [] = Unit {0}
Ends (c ∷ []) = (c ≡ b'/') ⊎ (c ≡ b':')
Ends (c ∷ d ∷ cs) = (c ≡ b'/') ⊎ ((c ≡ b':') × (d ≢ b'/'))

strip_prefix-host :
    (letters host t : Text)
    → Avoids b':' letters
    → Avoids b'/' letters
    → Avoids b':' host
    → Ends t
    → strip_prefix (letters ++ codes "://") (host ++ t) ≡ none
unfolding strip_prefix
strip_prefix-host [] [] [] a b h e = refl
strip_prefix-host [] [] (c ∷ []) a b h e = ground (arith, e)
strip_prefix-host [] [] (c ∷ d ∷ cs) a b h e = ground (arith, e)
strip_prefix-host [] (x ∷ xs) t a b h e = ground (arith, h)
strip_prefix-host (l ∷ ls) [] [] a b h e = refl
strip_prefix-host (l ∷ ls) [] (c ∷ []) a b h e = ground (arith, a, b, e)
strip_prefix-host (l ∷ ls) [] (c ∷ d ∷ cs) a b h e = ground (arith, a, b, e)
strip_prefix-host (l ∷ ls) (x ∷ xs) t a b h e =
    ground (arith, strip_prefix-host ls xs t a.1 b.1 h.1 e)

colon-Ends :
    (digits t : Text) → is_empty digits ≡ false → Avoids b'/' digits → Ends (b':' ∷ (digits ++ t))
colon-Ends [] t e h = absurd (cc (e))
colon-Ends (d ∷ ds) t e h = inr (refl, λ same. ground (arith, h.0, same))

path-Ends : (path : Option Text) → Ends (path_suffix path)
path-Ends none = tt
path-Ends (some []) = inl refl
path-Ends (some (c ∷ cs)) = inl refl

suffix-Ends : (port : Option ℕ) (path : Option Text) → Ends (port_suffix port ++ path_suffix path)
suffix-Ends none path = path-Ends path
suffix-Ends (some port) path =
    colon-Ends (show_usize port) (path_suffix path) (show_usize-is_empty port)
      (show_usize-Avoids b'/' port (inl (omega arith)))

trim-once :
    (b : ℕ) (p s : Text)
    → strip_prefix (b ∷ p) s ≡ none
    → trim_start_matches (b ∷ p) ((b ∷ p) ++ s) ≡ s
unfolding trim_start_matches
trim-once b p s h = trim_from-once (length (p ++ s)) (b ∷ p) s (strip_prefix-append (b ∷ p) s) h

trim-stop : (p s : Text) → strip_prefix p s ≡ none → trim_start_matches p s ≡ s
unfolding trim_start_matches
trim-stop p s h = trim_from-stop (length s) p s h

other_scheme : (s : Text) → strip_prefix (codes "ws://") (codes "wss://" ++ s) ≡ none
unfolding strip_prefix
other_scheme s = refl

-- Trimming both schemes leaves what follows the one that is there.
trim-scheme :
    (secure : Bool) (s : Text)
    → strip_prefix (codes "ws://") s ≡ none
    → strip_prefix (codes "wss://") s ≡ none
    → trim_start_matches (codes "wss://") (trim_start_matches (codes "ws://") (scheme secure ++ s))
      ≡ s
trim-scheme false s a b =
    ap (trim_start_matches (codes "wss://")) (trim-once b'w' (codes "s://") s a)
    ∙ trim-stop (codes "wss://") s b
trim-scheme true s a b =
    ap (trim_start_matches (codes "wss://"))
      (trim-stop (codes "ws://") (codes "wss://" ++ s) (other_scheme s))
    ∙ trim-once b'w' (codes "ss://") s b

first-part :
    (bare authority : Text) (path : Option Text)
    → Avoids b'/' authority
    → first_or bare (split b'/' (authority ++ path_suffix path)) ≡ authority
first-part bare authority none h =
    ap (first_or bare) (ap (split b'/') (append-nil authority) ∙ split-Avoids b'/' authority h)
first-part bare authority (some path) h = ap (first_or bare) (split-append b'/' authority path h)

Avoids-append : (sep : ℕ) (s t : Text) → Avoids sep s → Avoids sep t → Avoids sep (s ++ t)
Avoids-append sep [] t h k = k
Avoids-append sep (c ∷ cs) t h k = (h.0, Avoids-append sep cs t h.1 k)

has_char-Avoids : (sep : ℕ) (s : Text) → Avoids sep s → has_char sep s ≡ false
unfolding has_char
has_char-Avoids sep [] h = refl
has_char-Avoids sep (c ∷ cs) h = ground (arith, h.0, has_char-Avoids sep cs h.1)

has_char-append : (sep : ℕ) (s t : Text) → has_char sep (s ++ sep ∷ t) ≡ true
unfolding has_char
has_char-append sep [] t = ground arith
has_char-append sep (c ∷ cs) t = ground (arith, has_char-append sep cs t)

port_suffix-Avoids : (port : Option ℕ) → Avoids b'/' (port_suffix port)
port_suffix-Avoids none = tt
port_suffix-Avoids (some port) = (refl, show_usize-Avoids b'/' port (inl (omega arith)))

-- The default port is added exactly to an authority without a port.
default_port :
    (host : Text) (port : Option ℕ)
    → Avoids b':' host
    → add_port (host ++ port_suffix port)
      ≡ (host ++ elim port [ none ↦ codes ":8000" | some p ↦ b':' ∷ show_usize p ])
default_port host none h =
    ap add_port (append-nil host)
    ∙ ap (λ b. if b then host else host ++ codes ":8000") (has_char-Avoids b':' host h)
default_port host (some p) h =
    ap
      (λ b.
        if b then host ++ b':' ∷ show_usize p else (host ++ b':' ∷ show_usize p) ++ codes ":8000")
      (has_char-append b':' host (show_usize p))

-- For a signaling server with either scheme, a host without colon or slash, a port or none and a path
-- or none, the host is dialled at the port, or at 8000 if there is none.
pub host_port-parts :
    (secure : Bool) (host : Text) (port : Option ℕ) (path : Option Text)
    → Avoids b':' host
    → Avoids b'/' host
    → host_port (scheme secure ++ (host ++ (port_suffix port ++ path_suffix path)))
      ≡ host ++ elim port [ none ↦ codes ":8000" | some p ↦ b':' ∷ show_usize p ]
unfolding host_port
host_port-parts secure host port path h k =
    ap (λ bare. add_port (authority_of bare))
      (trim-scheme secure rest (stops (codes "ws") (refl, (refl, tt)) (refl, (refl, tt)))
        (stops (codes "wss") (refl, (refl, (refl, tt))) (refl, (refl, (refl, tt)))))
    ∙ (ap (λ bare. add_port (authority_of bare))
          (sym (append_assoc host (port_suffix port) (path_suffix path)))
        ∙ (ap add_port (
              first-part _ (host ++ port_suffix port) path
                (Avoids-append b'/' host (port_suffix port) k (port_suffix-Avoids port)))
            ∙ default_port host port h))
  where
    rest : Text
    rest = host ++ (port_suffix port ++ path_suffix path)

    stops :
        (letters : Text)
        → Avoids b':' letters
        → Avoids b'/' letters
        → strip_prefix (letters ++ codes "://") rest ≡ none
    stops letters a b = strip_prefix-host letters host _ a b h (suffix-Ends port path)
