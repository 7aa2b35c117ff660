-- ===== src/Nrepl/Tests.antt =====
-- A server over an interpreter that writes every form back, and the splitting of a source text.
use Prim.Native.String.{String}
use mathlib.Core.List.{not-mem-nil}
use govertone.Common.{ℕ, ◌≤◌, ◌≡◌, refl, true, false, none, some, List, [], ◌∷◌, ◌++◌, length}
use govertone.Common.Int.{pos}
use govertone.Common.Maps.{lookup, string_key, put}
use govertone.Common.Text.{str_eq_iff}
use govertone.Patch.Names.{is_space}
use govertone.Lisp.Forms.{Runes, split_top_level_forms}
use govertone.Lisp.Forms.Grammar.{Quoted, Inside, Word, Source}
use govertone.Lisp.Forms.Split.{split_top_level_forms-Source}
use govertone.Lisp.Evaluate.{
  Interpreter, IsInterpreter, eval_in_namespace, eval_in_namespace-current,
}
use govertone.Nrepl.Buffer.{new_bounded_buffer, write_each, write_each_lem}
use govertone.Nrepl.Server.{
  Incoming, string, msg_string, answer, Server, new_server, clone, close, eval, end_eval, handle,
}
use govertone.Nrepl.Server.Answers.{Replies, handle-Replies}
use govertone.Nrepl.Server.Sessions.{created_names, Step, Steps, Steps-bounded, close-forever}
use govertone.Nrepl.Server.Lookups.{session_after, lookup-handle}

-- The world is the name of the current namespace.
abbrev echo : Interpreter
echo = record {
  World = String;
  Value = Runes;
  Fault = String;
  nil = [];
  current = λ w. w;
  find = λ w name. (w, true);
  enter = λ w name. name;
  missing = λ name. name;
  run = λ w form. (w, (false, form) ∷ [], some form, none);
  show = λ v. "form";
  format = λ why. why;
}

echo-IsInterpreter : IsInterpreter echo
echo-IsInterpreter = record { current-enter = λ w name. refl; current-find = λ w name. refl }

-- `(a "(")` and `b `
abbrev source : Runes
source = b'(' ∷ b'a' ∷ 0x20 ∷ b'"' ∷ b'(' ∷ b'"' ∷ b')' ∷ b'b' ∷ 0x20 ∷ []

abbrev first_form : Runes
first_form = b'(' ∷ b'a' ∷ 0x20 ∷ b'"' ∷ b'(' ∷ b'"' ∷ b')' ∷ []

source-Source : Source (first_form ∷ (b'b' ∷ []) ∷ []) source
unfolding is_space
source-Source =
    Source.form b'(' b')' refl refl
      (Inside.plain b'a' refl (
        Inside.plain 0x20 refl
          (Inside.quoted (Quoted.plain b'(' refl refl Quoted.nothing) Inside.nothing)))
      (Source.word 0x20 refl (Word.last b'b' refl) Source.nothing)

split_top_level_forms-Source_example : split_top_level_forms source ≡ first_form ∷ (b'b' ∷ []) ∷ []
split_top_level_forms-Source_example = split_top_level_forms-Source source-Source

eval_in_namespace-current_example :
    (eval_in_namespace echo "user" source "music.core").world ≡ "user"
eval_in_namespace-current_example =
    eval_in_namespace-current echo echo-IsInterpreter "user" source "music.core"

abbrev written : List (List ℕ)
written = (1 ∷ 2 ∷ []) ∷ (3 ∷ 4 ∷ []) ∷ []

write_each_lem_example :
    let b = write_each (new_bounded_buffer 3) written in
    (b.buffer ≡ 1 ∷ 2 ∷ 3 ∷ []) × (b.overflowed ≡ true) × (length b.buffer ≤ 3)
write_each_lem_example = write_each_lem 3 written

abbrev server : Server echo
server = new_server echo "user" (pos 2) (pos 1) (pos 0)

limits : (server.max_output ≡ 1048576) × (server.max_sessions ≡ 1)
unfolding new_server
limits = (refl, refl)

abbrev cloned : Server echo
cloned = (clone echo server "1" "s1").0

cloned-Steps : Steps echo server (created_names (clone echo server "1" "s1").1 ++ []) cloned
cloned-Steps = Steps.next Steps.none_more (Step.cloning "1" "s1")

named_by_clone : created_names (clone echo server "1" "s1").1 ≡ "s1" ∷ []
unfolding new_server clone created_names lookup
named_by_clone = refl

Steps-bounded_example : (cloned.connected ≤ 2) × (length cloned.sessions ≤ 1)
Steps-bounded_example = Steps-bounded echo "user" (pos 2) (pos 1) (pos 0) cloned-Steps

-- An evaluation in the session ends after the session is closed.
abbrev closed : Server echo
closed = (close echo cloned "2" "s1").0

ended_late : Steps echo closed [] (end_eval echo closed "s1" "user")
ended_late = Steps.next Steps.none_more (Step.ending "s1" "user")

close-forever_example : eval echo (end_eval echo closed "s1" "user") "3" "s1" "b" ≡ (
  end_eval echo closed "s1" "user",
  answer "3" "s1" ("done" ∷ "error" ∷ "nrepl-session-not-found" ∷ []) ∷ [],
)
close-forever_example =
    close-forever echo cloned (end_eval echo closed "s1" "user") "2" "s1" [] "3" "b"
      (λ same. absurd (cc ((str_eq_iff "s1" "").1 same))) ended_late not-mem-nil

abbrev request : List (String × Incoming)
request = ("op", string "eval") ∷ ("id", string "7") ∷ ("code", string "(b)") ∷ []

handle-Replies_example : Replies "7" (handle echo server request "s1").1
unfolding msg_string lookup
handle-Replies_example = handle-Replies echo server request "s1"

abbrev closing : List (String × Incoming)
closing = ("op", string "close") ∷ ("session", string "s1") ∷ []

none_after_close : session_after echo cloned closing "s2" "s1" ≡ none
unfolding session_after new_server clone lookup msg_string put
none_after_close = refl

lookup-handle_example :
    lookup "s1" (handle echo cloned closing "s2").0.sessions
    ≡ session_after echo cloned closing "s2" "s1"
lookup-handle_example = lookup-handle echo cloned closing "s2" "s1"
