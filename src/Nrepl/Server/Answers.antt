-- ===== src/Nrepl/Server/Answers.antt =====
-- The messages that the server answers with (internal/nrepl/server.go).
use Prim.Native.String.{String}
use govertone.Common.{
  ℕ, ◌≡◌, refl, inl, inr, Bool, Bool-cases, true, false, ◌||◌, leb, length, Option, Option-cases,
  none, some, List, [], ◌∷◌,
}
use govertone.Common.Maps.{lookup, string_key}
use govertone.Common.Text.{str_eq}
use govertone.Lisp.Evaluate.{Interpreter, Evaluated}
use govertone.Nrepl.Server.{
  Incoming, Message, Field, text, bytes, words, table, msg_string, answer, describe, Server, clone,
  close, begin_eval, eval, eval_answers, handle, output, overflow, result,
}

-- The text is one of the words.
abbrev pub has_word : String → List String → Bool
has_word w [] = false
has_word w (v ∷ vs) = str_eq v w || has_word w vs

abbrev is_final : Option Field → Bool
is_final none = false
is_final (some (text t)) = false
is_final (some (bytes b)) = false
is_final (some (words ws)) = has_word "done" ws
is_final (some (table m)) = false

-- The message says that the request is done.
abbrev pub is_done : Message → Bool
is_done m = is_final (lookup "status" m)

-- The answers to a request: each carries its identifier, and the last one, and no other, says
-- that it is done.
pub data Replies (id : String) : List Message → Type 0 where
  last : (m : Message) → lookup "id" m ≡ some (text id) → is_done m ≡ true → Replies id (m ∷ [])
  more :
      (m : Message) {ms : List Message}
      → lookup "id" m ≡ some (text id)
      → is_done m ≡ false
      → Replies id ms
      → Replies id (m ∷ ms)

answer-Replies :
    (id session : String) (status : List String)
    → has_word "done" status ≡ true
    → Replies id (answer id session status ∷ [])
unfolding lookup
answer-Replies id session status p = Replies.last _ refl p

module _ (lg : Interpreter) where
  result-Replies :
      (id session : String) (e : Evaluated lg)
      → Replies id (result lg id session e ∷ answer id session ("done" ∷ []) ∷ [])
  unfolding lookup
  result-Replies id session e = elim (Option-cases e.fault) [
    | inl fine ↦ rw fine (Replies.more _ refl refl (answer-Replies id session _ refl))
    | inr (why, failed) ↦ rw failed (Replies.more _ refl refl (answer-Replies id session _ refl))
  ]

  output-Replies :
      (id session key : String) (bs : List ℕ) {rest : List Message}
      → str_eq key "status" ≡ false
      → Replies id rest
      → Replies id (output lg id session key bs rest)
  unfolding lookup
  output-Replies id session key [] p rest = rest
  output-Replies id session key (b ∷ bs) p rest = Replies.more _ refl (rw p refl) rest

  overflow-Replies :
      (id session : String) (over : Bool) {rest : List Message}
      → Replies id rest
      → Replies id (overflow lg id session over rest)
  unfolding lookup
  overflow-Replies id session false rest = rest
  overflow-Replies id session true rest = Replies.more _ refl refl rest

  eval_answers-Replies :
      (s : Server lg) (id session : String) (e : Evaluated lg)
      → Replies id (eval_answers lg s id session e)
  unfolding eval_answers
  eval_answers-Replies s id session e = output-Replies id session "out" _ refl (
      output-Replies id session "err" _ refl
        (overflow-Replies id session _ (result-Replies id session e)))

  eval-Replies :
      (s : Server lg) (id session code : String) → Replies id (eval lg s id session code).1
  unfolding eval
  eval-Replies s id session code = elim (Option-cases (begin_eval lg s session)) [
    | inl unknown ↦ rw (unknown, eval) (answer-Replies id session _ refl)
    | inr (namespace, known) ↦ rw (known, eval) (eval_answers-Replies s id session _)
  ]

  clone-Replies : (s : Server lg) (id new_id : String) → Replies id (clone lg s id new_id).1
  unfolding clone lookup
  clone-Replies s id new_id = elim (Bool-cases (leb s.max_sessions (length s.sessions))) [
    | inl full ↦ rw full (Replies.last _ refl refl)
    | inr room ↦ rw room (Replies.last _ refl refl)
  ]

  close-Replies : (s : Server lg) (id session : String) → Replies id (close lg s id session).1
  unfolding close
  close-Replies s id session = elim (Option-cases (lookup session s.sessions)) [
    | inl unknown ↦ rw unknown (answer-Replies id session _ refl)
    | inr (found, known) ↦ rw known (answer-Replies id session _ refl)
  ]

  -- Every message is answered: all answers carry the identifier of the request, and the last one and
  -- no other says that the request is done.
  pub handle-Replies :
      (s : Server lg) (msg : List (String × Incoming)) (new_id : String)
      → Replies (msg_string msg "id") (handle lg s msg new_id).1
  unfolding handle describe lookup
  handle-Replies s msg new_id =
      let id = msg_string msg "id" in
      let session = msg_string msg "session" in
      let op = msg_string msg "op" in
      elim (Bool-cases (str_eq op "clone")) [
        | inl e ↦ rw e (clone-Replies s id new_id)
        | inr e0 ↦ rw e0 (elim (Bool-cases (str_eq op "close")) [
          | inl e ↦ rw e (close-Replies s id session)
          | inr e1 ↦ rw e1 (elim (Bool-cases (str_eq op "describe")) [
            | inl e ↦ rw e (Replies.last _ refl refl)
            | inr e2 ↦ rw e2 (elim (Bool-cases (str_eq op "eval")) [
              | inl e ↦ rw e (eval-Replies s id session _)
              | inr e3 ↦ rw e3 (elim (Bool-cases (str_eq op "load-file")) [
                | inl e ↦ rw e (eval-Replies s id session _)
                | inr e4 ↦ rw e4 (elim (Bool-cases (str_eq op "interrupt")) [
                  | inl e ↦ rw e (answer-Replies id session _ refl)
                  | inr e5 ↦ rw e5 (elim (Bool-cases (str_eq op "stdin")) [
                    | inl e ↦ rw e (answer-Replies id session _ refl)
                    | inr e6 ↦ rw e6 (elim (Bool-cases (str_eq op "ls-sessions")) [
                      | inl e ↦ rw e (Replies.last _ refl refl)
                      | inr e7 ↦ rw e7 (answer-Replies id session _ refl)
                    ])
                  ])
                ])
              ])
            ])
          ])
        ])
      ]
