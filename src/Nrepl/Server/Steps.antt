-- ===== src/Nrepl/Server/Steps.antt =====
-- A message, handled at once, as locked steps (internal/nrepl/server.go).
use Prim.Native.String.{String}
use govertone.Common.{inl, inr, Bool-cases, Option-cases, List, [], ◌++◌}
use govertone.Common.Text.{str_eq}
use govertone.Lisp.Evaluate.{Interpreter, eval_in_namespace}
use govertone.Nrepl.Server.{Incoming, msg_string, runes_of, Server, begin_eval, eval, handle}
use govertone.Nrepl.Server.Sessions.{Step, Steps}

module _ (lg : Interpreter) where
  -- The server gets from the one state to the other by locked steps, which create the sessions.
  pub record Handled (s t : Server lg) : Type 0 where
    pub created : List String
    pub steps : Steps lg s created t

  idle : (s : Server lg) → Handled s s
  idle s = record { created = []; steps = Steps.none_more }

  one_step : {s t : Server lg} {created : List String} → Step lg s created t → Handled s t
  one_step {created} step = record {
    created = created ++ [];
    steps = Steps.next Steps.none_more step;
  }

  eval-Handled :
      (s : Server lg) (id session code : String) → Handled s (eval lg s id session code).0
  unfolding eval
  eval-Handled s id session code = elim (Option-cases (begin_eval lg s session)) [
    | inl unknown ↦ rw (unknown, eval) (idle s)
    | inr (namespace, known) ↦
        let e = eval_in_namespace lg s.world (runes_of code) namespace in
        rw (known, eval)
          (record {
            created = [];
            steps =
                Steps.next (Steps.next Steps.none_more (Step.evaluating e.world))
                  (Step.ending session e.namespace);
          })
  ]

  -- What a message does to the server is a sequence of the locked steps.
  pub handle-Handled :
      (s : Server lg) (msg : List (String × Incoming)) (new_id : String)
      → Handled s (handle lg s msg new_id).0
  unfolding handle
  handle-Handled s msg new_id =
      let id = msg_string msg "id" in
      let session = msg_string msg "session" in
      let op = msg_string msg "op" in
      elim (Bool-cases (str_eq op "clone")) [
        | inl e ↦ rw e (one_step (Step.cloning id new_id))
        | inr e0 ↦ rw e0 (elim (Bool-cases (str_eq op "close")) [
          | inl e ↦ rw e (one_step (Step.closing id session))
          | inr e1 ↦ rw e1 (elim (Bool-cases (str_eq op "describe")) [
            | inl e ↦ rw e (idle s)
            | inr e2 ↦ rw e2 (elim (Bool-cases (str_eq op "eval")) [
              | inl e ↦ rw e (eval-Handled s id session _)
              | inr e3 ↦ rw e3 (elim (Bool-cases (str_eq op "load-file")) [
                | inl e ↦ rw e (eval-Handled s id session _)
                | inr e4 ↦ rw e4 (elim (Bool-cases (str_eq op "interrupt")) [
                  | inl e ↦ rw e (idle s)
                  | inr e5 ↦ rw e5 (elim (Bool-cases (str_eq op "stdin")) [
                    | inl e ↦ rw e (idle s)
                    | inr e6 ↦ rw e6 (elim (Bool-cases (str_eq op "ls-sessions")) [
                      | inl e ↦ rw e (idle s)
                      | inr e7 ↦ rw e7 (idle s)
                    ])
                  ])
                ])
              ])
            ])
          ])
        ])
      ]
