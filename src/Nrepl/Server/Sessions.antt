-- ===== src/Nrepl/Server/Sessions.antt =====
-- The sessions and connections of the server under any order of its locked steps
-- (internal/nrepl/server.go).
use Prim.Native.String.{String}
use mathlib.Core.List.{mem-cons_self, mem-append_left, mem-append_right}
use govertone.Common.{
  ℕ, ◌+◌, ◌<◌, ◌≤◌, ◌≡◌, ◌≢◌, ◌∙◌, ap, refl, inl, inr, Bool-cases, false, ltb, leb, Option-cases,
  Option, none, some, List, [], ◌∷◌, ◌++◌, length, Mem, arith,
}
use govertone.Common.Int.{ℤ}
use govertone.Common.Maps.{
  Key, lookup, put, delete, string_key, lookup-put_other, lookup-delete, lookup-delete_same,
}
use govertone.Common.Text.{str_eq, str_eq_iff}
use govertone.Lisp.Evaluate.{Interpreter}
use govertone.Nrepl.Server.{
  Message, Field, text, bytes, words, table, Session, answer, or_default, Server, new_server,
  accept, disconnect, clone, close, begin_eval, end_eval, eval,
}

module _ {K V : Type 0} ⦃key : Key K⦄ where
  pub length-put : (k : K) (v : V) (m : List (K × V)) → length (put k v m) ≤ length m + 1
  unfolding put
  length-put k v [] = omega arith
  length-put k v (e ∷ m) = ground (arith, length-put k v m)

  pub length-put_found :
      (k : K) (v w : V) (m : List (K × V)) → lookup k m ≡ some w → length (put k v m) ≡ length m
  unfolding put lookup
  length-put_found k v w [] h = absurd (ground arith)
  length-put_found k v w (e ∷ m) h = elim (Bool-cases (key.same e.0 k)) [
    | inl hit ↦ rw hit refl
    | inr miss ↦ ground (arith, length-put_found k v w m)
  ]

  pub length-delete : (k : K) (m : List (K × V)) → length (delete k m) ≤ length m
  unfolding delete
  length-delete k [] = omega arith
  length-delete k (e ∷ m) = ground (arith, length-delete k m)

names_given : Option Field → List String → List String
names_given none names = names
names_given (some (text name)) names = name ∷ names
names_given (some (bytes b)) names = names
names_given (some (words ws)) names = names
names_given (some (table m)) names = names

-- The sessions that the answers name as new.
unfoldable pub created_names : List Message → List String
unfolding names_given
created_names [] = []
created_names (m ∷ ms) = names_given (lookup "new-session" m) (created_names ms)

module _ (lg : Interpreter) where
  open lg use {World}

  -- A locked step of some connection, with the sessions that it creates: for clone, those
  -- that its answers name. An evaluation changes the
  -- world between its two locked steps on the sessions.
  pub data Step (s : Server lg) : List String → Server lg → Type 0 where
    accepting : Step s [] (accept lg s).0
    leaving : 0 < s.connected → Step s [] (disconnect lg s)
    cloning :
        (id new_id : String)
        → Step s (created_names (clone lg s id new_id).1) (clone lg s id new_id).0
    closing : (id session : String) → Step s [] (close lg s id session).0
    evaluating : (world : World) → Step s [] (record s { world = world })
    ending : (session namespace : String) → Step s [] (end_eval lg s session namespace)

  pub data Steps (s : Server lg) : List String → Server lg → Type 0 where
    none_more : Steps s [] s
    next :
        {t u : Server lg} {created more : List String}
        → Steps s created t
        → Step t more u
        → Steps s (more ++ created) u

  -- The server is configured with the limits, and keeps within them.
  record IsWithin (connections sessions : ℕ) (s : Server lg) : Type 0 where
    pub max_connections : s.max_connections ≡ connections
    pub max_sessions : s.max_sessions ≡ sessions
    pub connected : s.connected ≤ connections
    pub held : length s.sessions ≤ sessions

  abbrev new_session : String → Session
  new_session id = record { id = id; namespace = "music.core" }

  module _ {connections sessions : ℕ} where
    clone-IsWithin :
        (s : Server lg) (id new_id : String)
        → IsWithin connections sessions s
        → IsWithin connections sessions (clone lg s id new_id).0
    unfolding clone
    clone-IsWithin s id new_id w = elim (Bool-cases (leb s.max_sessions (length s.sessions))) [
      | inl full ↦ rw (full, clone) w
      | inr room ↦
          let limit = w.max_sessions in
          rw (room, clone)
            (record {
              max_connections = w.max_connections;
              max_sessions = w.max_sessions;
              connected = w.connected;
              held =
                  let shorter : length s.sessions < s.max_sessions = ground arith in
                  omega (arith, limit, length-put new_id (new_session new_id) s.sessions);
            })
    ]

    accept-IsWithin :
        (s : Server lg)
        → IsWithin connections sessions s
        → IsWithin connections sessions (accept lg s).0
    unfolding accept
    accept-IsWithin s w = elim (Bool-cases (ltb s.connected s.max_connections)) [
      | inl room ↦
          let limit = w.max_connections in
          rw (room, accept)
            (record {
              max_connections = w.max_connections;
              max_sessions = w.max_sessions;
              connected = ground arith;
              held = w.held;
            })
      | inr full ↦ rw (full, accept) w
    ]

    end_eval-IsWithin :
        (s : Server lg) (session namespace : String)
        → IsWithin connections sessions s
        → IsWithin connections sessions (end_eval lg s session namespace)
    unfolding end_eval
    end_eval-IsWithin s session namespace w = elim (Bool-cases (str_eq session "")) [
      | inl unnamed ↦ rw (unnamed, end_eval) w
      | inr named ↦ elim (Option-cases (lookup session s.sessions)) [
        | inl gone ↦ rw (named, gone, end_eval) w
        | inr (found, here) ↦
            let same =
              length-put_found session (record found { namespace = namespace }) found s.sessions
                here in
            rw (named, here, end_eval)
              (record {
                max_connections = w.max_connections;
                max_sessions = w.max_sessions;
                connected = w.connected;
                held = omega (arith, w.held, same);
              })
      ]
    ]

    Step-IsWithin :
        {s t : Server lg} {created : List String}
        → Step s created t
        → IsWithin connections sessions s
        → IsWithin connections sessions t
    unfolding disconnect close
    Step-IsWithin {s} Step.accepting w = accept-IsWithin s w
    Step-IsWithin (Step.leaving p) w = record {
      max_connections = w.max_connections;
      max_sessions = w.max_sessions;
      connected = omega (arith, w.connected);
      held = w.held;
    }
    Step-IsWithin {s} (Step.cloning id new_id) w = clone-IsWithin s id new_id w
    Step-IsWithin {s} (Step.closing id session) w = record {
      max_connections = w.max_connections;
      max_sessions = w.max_sessions;
      connected = w.connected;
      held = omega (arith, w.held, length-delete session s.sessions);
    }
    Step-IsWithin (Step.evaluating world) w = record {
      max_connections = w.max_connections;
      max_sessions = w.max_sessions;
      connected = w.connected;
      held = w.held;
    }
    Step-IsWithin {s} (Step.ending session namespace) w = end_eval-IsWithin s session namespace w

    Steps-keep :
        {s t : Server lg} {created : List String}
        → Steps s created t
        → IsWithin connections sessions s
        → IsWithin connections sessions t
    Steps-keep Steps.none_more w = w
    Steps-keep (Steps.next steps step) w = Step-IsWithin step (Steps-keep steps w)

  -- A new server, whatever its connections do and in whatever order, handles no more connections than
  -- it was configured for (32 if no positive number is given), and holds no more sessions (128 if
  -- no positive number is given).
  pub Steps-bounded :
      (world : World) (connections sessions output : ℤ) {t : Server lg} {created : List String}
      → Steps (new_server lg world connections sessions output) created t
      → (t.connected ≤ or_default connections 32) × (length t.sessions ≤ or_default sessions 128)
  unfolding new_server
  Steps-bounded world connections sessions output steps =
      let w =
        Steps-keep {connections = or_default connections 32} {sessions = or_default sessions 128}
          steps
          (record {
            max_connections = refl;
            max_sessions = refl;
            connected = omega arith;
            held = omega arith;
          }) in
      (w.connected, w.held)

  clone-gone :
      (s : Server lg) (id new_id session : String)
      → ¬ Mem session (created_names (clone lg s id new_id).1)
      → lookup session s.sessions ≡ none
      → lookup session (clone lg s id new_id).0.sessions ≡ none
  unfolding clone created_names names_given lookup
  clone-gone s id new_id session apart gone =
      elim (Bool-cases (leb s.max_sessions (length s.sessions))) [
        | inl full ↦ rw (full, clone) gone
        | inr room ↦
            let apart' = rw room at apart in
            let other : session ≢ new_id = λ same. apart' (rw same mem-cons_self) in
            rw (room, clone)
              (lookup-put_other new_id session (new_session new_id) s.sessions other ∙ gone)
      ]

  Step-gone :
      {s t : Server lg} {created : List String} (session : String)
      → Step s created t
      → ¬ Mem session created
      → lookup session s.sessions ≡ none
      → lookup session t.sessions ≡ none
  unfolding accept disconnect clone close end_eval
  Step-gone {s} session Step.accepting apart gone =
      elim (Bool-cases (ltb s.connected s.max_connections)) [
        | inl room ↦ rw (room, accept) gone
        | inr full ↦ rw (full, accept) gone
      ]
  Step-gone session (Step.leaving p) apart gone = gone
  Step-gone {s} session (Step.cloning id new_id) apart gone =
      clone-gone s id new_id session apart gone
  Step-gone {s} session (Step.closing id closed) apart gone =
      ground (arith, lookup-delete closed session s.sessions, gone)
  Step-gone session (Step.evaluating world) apart gone = gone
  Step-gone {s} session (Step.ending named namespace) apart gone =
      elim (Bool-cases (str_eq named "")) [
        | inl unnamed ↦ rw (unnamed, end_eval) gone
        | inr e ↦ elim (Option-cases (lookup named s.sessions)) [
          | inl missing ↦ rw (e, missing, end_eval) gone
          | inr (found, here) ↦
              let other : session ≢ named =
                λ same. absurd (cc (ap (λ k. lookup k s.sessions) same)) in
              rw (e, here, end_eval)
                (lookup-put_other named session (record found { namespace = namespace }) s.sessions
                    other
                  ∙ gone)
        ]
      ]

  Steps-gone :
      {s t : Server lg} {created : List String} (session : String)
      → Steps s created t
      → ¬ Mem session created
      → lookup session s.sessions ≡ none
      → lookup session t.sessions ≡ none
  Steps-gone session Steps.none_more apart gone = gone
  Steps-gone session (Steps.next {created} {more} steps step) apart gone =
      Step-gone session step (λ m. apart (mem-append_left created m))
        (Steps-gone session steps (λ m. apart (mem-append_right more m)) gone)

  -- A session that is closed stays closed, also when an evaluation in it is still running and ends
  -- later: until clone gives its name again, eval in it answers that there is no such session, and changes
  -- nothing.
  pub close-forever :
      (s t : Server lg) (id session : String) (created : List String) (later code : String)
      → session ≢ ""
      → Steps (close lg s id session).0 created t
      → ¬ Mem session created
      → eval lg t later session code
        ≡ (t, answer later session ("done" ∷ "error" ∷ "nrepl-session-not-found" ∷ []) ∷ [])
  unfolding eval begin_eval close
  close-forever s t id session created later code named steps apart =
      let gone = Steps-gone session steps apart (lookup-delete_same session s.sessions) in
      let e : str_eq session "" ≡ false = elim (Bool-cases (str_eq session "")) [
        | inl same ↦ absurd (named ((str_eq_iff session "").0 same))
        | inr other ↦ other
      ] in
      rw (e, gone, eval) refl
