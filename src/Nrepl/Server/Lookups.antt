-- ===== src/Nrepl/Server/Lookups.antt =====
-- What a message, handled at once, does to each session (internal/nrepl/server.go).
use Prim.Native.String.{String}
use govertone.Common.{
  ◌≡◌, refl, sym, subst, inl, inr, Bool-cases, false, ltb, ◌&&◌, if◌then◌else◌, Option,
  Option-cases, none, some, List, length, arith,
}
use govertone.Common.Maps.{lookup, string_key, lookup-put, lookup-delete}
use govertone.Common.Text.{str_eq, str_eq_iff}
use govertone.Lisp.Evaluate.{Interpreter, eval_in_namespace}
use govertone.Nrepl.Server.{
  Incoming, msg_string, runes_of, Session, Server, clone, close, begin_eval, end_eval, eval, handle,
}

module _ (lg : Interpreter) where
  -- The session under the name `j` after an evaluation in the session `session`: if it is this one,
  -- its namespace is the one in which the evaluation ended.
  abbrev evaluated : Server lg → (code session j : String) → Option Session
  evaluated s code session j =
      if str_eq session ""
      then lookup j s.sessions
      else if str_eq session j
      then elim (lookup session s.sessions) [
        | none ↦ none
        | some found ↦ some (record found {
          namespace = (eval_in_namespace lg s.world (runes_of code) found.namespace).namespace;
        })
      ]
      else lookup j s.sessions

  -- The specification: the session under the name `j` after a message.
  unfoldable pub session_after :
      Server lg → List (String × Incoming) → (new_id j : String) → Option Session
  session_after s msg new_id j =
      let op = msg_string msg "op" in
      let session = msg_string msg "session" in
      if str_eq op "clone"
      then if ltb (length s.sessions) s.max_sessions && str_eq new_id j
        then some (record { id = new_id; namespace = "music.core" })
        else lookup j s.sessions
      else if str_eq op "close"
      then if str_eq session j then none else lookup j s.sessions
      else if str_eq op "eval"
      then evaluated s (msg_string msg "code") session j
      else if str_eq op "load-file"
      then evaluated s (msg_string msg "file") session j
      else lookup j s.sessions

  lookup-clone :
      (s : Server lg) (id new_id j : String)
      → lookup j (clone lg s id new_id).0.sessions ≡ (
          if ltb (length s.sessions) s.max_sessions && str_eq new_id j
          then some (record { id = new_id; namespace = "music.core" })
          else lookup j s.sessions)
  unfolding clone
  lookup-clone s id new_id j =
      ground
        (arith, lookup-put new_id j (record { id = new_id; namespace = "music.core" }) s.sessions)

  lookup-eval :
      (s : Server lg) (id session code j : String)
      → lookup j (eval lg s id session code).0.sessions ≡ evaluated s code session j
  unfolding eval begin_eval end_eval
  lookup-eval s id session code j = elim (Bool-cases (str_eq session "")) [
    | inl unnamed ↦ rw (unnamed, eval, unnamed, end_eval) refl
    | inr named ↦ elim (Option-cases (lookup session s.sessions)) [
      | inl gone ↦ rw (named, gone, eval) (ground (arith, str_eq_iff session j))
      | inr (found, here) ↦
          let e = eval_in_namespace lg s.world (runes_of code) found.namespace in
          rw (named, here, eval, named, here, end_eval)
            (lookup-put session j (record found { namespace = e.namespace }) s.sessions)
    ]
  ]

  -- After a message every name stands for the session that the specification gives: clone adds a
  -- session in music.core under the new name if the server holds fewer than its limit, close removes
  -- the session of the message, eval and load-file leave the session of the message in the
  -- namespace in which the evaluation ended, and all else leaves every session as it was.
  pub lookup-handle :
      (s : Server lg) (msg : List (String × Incoming)) (new_id j : String)
      → lookup j (handle lg s msg new_id).0.sessions ≡ session_after s msg new_id j
  unfolding handle session_after close
  lookup-handle s msg new_id j =
      let id = msg_string msg "id" in
      let session = msg_string msg "session" in
      let op = msg_string msg "op" in
      elim (Bool-cases (str_eq op "clone")) [
        | inl e ↦ rw e (lookup-clone s id new_id j)
        | inr e0 ↦ rw e0 (elim (Bool-cases (str_eq op "close")) [
          | inl e ↦ rw e (lookup-delete session j s.sessions)
          | inr e1 ↦ rw e1 (elim (Bool-cases (str_eq op "describe")) [
            | inl e ↦
                let same = sym ((str_eq_iff op "describe").0 e) in
                let no_eval : str_eq op "eval" ≡ false =
                  subst (λ w. str_eq w "eval" ≡ false) same refl in
                let no_load : str_eq op "load-file" ≡ false =
                  subst (λ w. str_eq w "load-file" ≡ false) same refl in
                rw (e, no_eval, no_load) refl
            | inr e2 ↦ rw e2 (elim (Bool-cases (str_eq op "eval")) [
              | inl e ↦ rw e (lookup-eval s id session _ j)
              | inr e3 ↦ rw e3 (elim (Bool-cases (str_eq op "load-file")) [
                | inl e ↦ rw e (lookup-eval s id session _ j)
                | inr e4 ↦ rw e4 (elim (Bool-cases (str_eq op "interrupt")) [
                  | inl e ↦ rw e refl
                  | inr e5 ↦ rw e5 (elim (Bool-cases (str_eq op "stdin")) [
                    | inl e ↦ rw e refl
                    | inr e6 ↦ rw e6 (elim (Bool-cases (str_eq op "ls-sessions")) [
                      | inl e ↦ rw e refl
                      | inr e7 ↦ rw e7 refl
                    ])
                  ])
                ])
              ])
            ])
          ])
        ])
      ]
