-- ===== src/Tests/Coder.antt =====
-- A codec of routing states that reads back what it writes: numbers and lengths in sequence.
use fogros2_sgc.Base.{
  drop-append, take-append, ℕ, zero, suc, ◌≡◌, refl, false, Option, none, some, List, [], ◌∷◌, ◌++◌,
  length, take, drop,
}
use fogros2_sgc.Text.{Text}
use fogros2_sgc.Signaling.Cleanup.Safe.{ReadsStored}
use fogros2_sgc.Signaling.Cleanup.{Stored}
use fogros2_sgc.Routing.{RoutingState, Edge}
use fogros2_sgc.Base.Int.{ℤ}
use fogros2_sgc.Routing.Update.{Codec}
use fogros2_sgc.Routing.Update.Keeps.{IsFaithful}
use fogros2_sgc.Text.Blank.{is_blank}

pub record Coder (A : Type 0) : Type 0 where
  pub put : A → Text → Text
  pub get : Text → A × Text
  pub reads_back : (a : A) (rest : Text) → get (put a rest) ≡ (a, rest)

pub get_text : Text → Text × Text
get_text [] = ([], [])
get_text (n ∷ s) = (take n s, drop n s)

pub get_text-put : (t rest : Text) → get_text (length t ∷ (t ++ rest)) ≡ (t, rest)
unfolding get_text
get_text-put t rest = cc (take-append t rest, drop-append t rest)

text_coder : Coder Text
text_coder = record {
  put = λ t rest. length t ∷ (t ++ rest);
  get = get_text;
  reads_back = get_text-put;
}

pub get_int : Text → ℤ × Text
get_int (zero ∷ (n ∷ s)) = (ℤ.pos n, s)
get_int (suc k ∷ (n ∷ s)) = (ℤ.negsuc n, s)
get_int s = (ℤ.pos 0, [])

pub put_int : ℤ → Text → Text
put_int (ℤ.pos n) s = 0 ∷ (n ∷ s)
put_int (ℤ.negsuc n) s = 1 ∷ (n ∷ s)

pub get_int-put : (z : ℤ) (rest : Text) → get_int (put_int z rest) ≡ (z, rest)
unfolding get_int put_int
get_int-put (ℤ.pos n) s = refl
get_int-put (ℤ.negsuc n) s = refl

int_coder : Coder ℤ
int_coder = record { put = put_int; get = get_int; reads_back = get_int-put }

module _ {A : Type 0} (c : Coder A) where
  pub put_items : List A → Text → Text
  put_items [] rest = rest
  put_items (x ∷ xs) rest = c.put x (put_items xs rest)

  pub get_items : ℕ → Text → List A × Text
  get_items zero s = ([], s)
  get_items (suc n) s = let (x, s1) = c.get s in let (xs, s2) = get_items n s1 in (x ∷ xs, s2)

  pub get_items-put :
      (xs : List A) (rest : Text) → get_items (length xs) (put_items xs rest) ≡ (xs, rest)
  unfolding get_items put_items
  get_items-put [] rest = refl
  get_items-put (x ∷ xs) rest = rw (c.reads_back x (put_items xs rest), get_items-put xs rest)

  pub get_list : Text → List A × Text
  get_list [] = ([], [])
  get_list (n ∷ s) = get_items n s

  pub get_list-put :
      (xs : List A) (rest : Text) → get_list (length xs ∷ put_items xs rest) ≡ (xs, rest)
  unfolding get_list
  get_list-put xs rest = get_items-put xs rest

  list_coder : Coder (List A)
  list_coder = record {
    put = λ xs rest. length xs ∷ put_items xs rest;
    get = get_list;
    reads_back = get_list-put;
  }

pair_coder : {A B : Type 0} → Coder A → Coder B → Coder (A × B)
pair_coder c d = record {
  put = λ p rest. c.put p.0 (d.put p.1 rest);
  get = λ s. let (a, s1) = c.get s in let (b, s2) = d.get s1 in ((a, b), s2);
  reads_back = λ p rest. rw (c.reads_back p.0 (d.put p.1 rest)) (rw (d.reads_back p.1 rest));
}

edge_coder : Coder Edge
edge_coder = record {
  put = λ e rest. text_coder.put e.parent (text_coder.put e.child rest);
  get = λ s.
      let (a, s1) = text_coder.get s in
      let (b, s2) = text_coder.get s1 in (record { parent = a; child = b }, s2);
  reads_back = λ e rest.
      rw (text_coder.reads_back e.parent (text_coder.put e.child rest))
        (rw (text_coder.reads_back e.child rest));
}

texts : Coder (List Text)
texts = list_coder text_coder

times : Coder (List (Text × ℤ))
times = list_coder (pair_coder text_coder int_coder)

put_state : RoutingState → Text
put_state st =
    b'{'
    ∷ texts.put st.publishers
        (texts.put st.proxies ((list_coder edge_coder).put st.edges (times.put st.attach_ms [])))

get_state : Text → Option RoutingState
get_state [] = none
get_state (b ∷ s) =
    let (publishers, s1) = texts.get s in
    let (proxies, s2) = texts.get s1 in
    let (edges, s3) = (list_coder edge_coder).get s2 in
    let (attach_ms, s4) = times.get s3 in
    some
      (record { publishers = publishers; proxies = proxies; edges = edges; attach_ms = attach_ms })

get_state-put : (st : RoutingState) → get_state (put_state st) ≡ some st
unfolding get_state put_state
get_state-put st =
    let t3 = times.put st.attach_ms [] in
    let t2 = (list_coder edge_coder).put st.edges t3 in
    let t1 = texts.put st.proxies t2 in
    rw (texts.reads_back st.publishers t1) (
      rw (texts.reads_back st.proxies t2) (
        rw ((list_coder edge_coder).reads_back st.edges t3)
          (rw (times.reads_back st.attach_ms []))))

unfoldable pub state_codec : Codec RoutingState
unfolding get_state put_state texts times list_coder pair_coder edge_coder text_coder int_coder
    put_items get_items get_list get_text get_int put_int
state_codec = record { from_str = get_state; to_string = λ st. some (put_state st) }

not_blank : (st : RoutingState) → is_blank (put_state st) ≡ false
unfolding put_state is_blank
not_blank st = refl

pub state_codec-IsFaithful : IsFaithful state_codec
unfolding state_codec
state_codec-IsFaithful st = record {
  written = put_state st;
  read = st;
  writes = refl;
  reads = get_state-put st;
  not_blank = not_blank st;
  same_publishers = refl;
  same_proxies = refl;
  same_edges = refl;
  same_times = λ n. refl;
}

put_stored : Stored → Text
put_stored st =
    b'{' ∷ texts.put st.publishers (texts.put st.proxies ((list_coder edge_coder).put st.edges []))

get_stored : Text → Option Stored
get_stored [] = none
get_stored (b ∷ s) =
    let (publishers, s1) = texts.get s in
    let (proxies, s2) = texts.get s1 in
    let (edges, s3) = (list_coder edge_coder).get s2 in
    some (record { publishers = publishers; proxies = proxies; edges = edges })

get_stored-put : (st : Stored) → get_stored (put_stored st) ≡ some st
unfolding get_stored put_stored
get_stored-put st =
    let t2 = (list_coder edge_coder).put st.edges [] in
    let t1 = texts.put st.proxies t2 in
    rw (texts.reads_back st.publishers t1)
      (rw (texts.reads_back st.proxies t2) (rw ((list_coder edge_coder).reads_back st.edges [])))

stored-not_blank : (st : Stored) → is_blank (put_stored st) ≡ false
unfolding put_stored is_blank
stored-not_blank st = refl

pub stored_codec : Codec Stored
stored_codec = record { from_str = get_stored; to_string = λ st. some (put_stored st) }

pub stored_codec-ReadsStored : ReadsStored stored_codec
unfolding stored_codec
stored_codec-ReadsStored st = record {
  written = put_stored st;
  writes = refl;
  reads = get_stored-put st;
  not_blank = stored-not_blank st;
}
