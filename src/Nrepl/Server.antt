-- ===== src/Nrepl/Server.antt =====
-- internal/nrepl/server.go: the sessions and the answers to the messages of clients. The interpreter is
-- a parameter, as is the random identifier of a new session. bencode and the sockets are left out: a
-- message comes as a decoded map, and what respond writes is a list of maps.
pub mod Answers
pub mod Lookups
pub mod Sessions
pub mod Steps
use Prim.Native.Char.{code}
use Prim.Native.String.{String, ◌++◌}
use govertone.Common.{
  ℕ, zero, suc, ◌+◌, ◌-◌, ltb, leb, Bool, true, false, ◌||◌, Option, none, some, List, [], ◌∷◌, map,
  length, if◌then◌else◌,
}
use govertone.Common.Int.{ℤ, pos, negsuc, ltb_ℤ}
use govertone.Common.Maps.{lookup, put, delete, string_key}
use govertone.Common.Text.{str_eq}
use govertone.Patch.Compiler.Normalize.{decimal}
use govertone.Lisp.Forms.{Runes}
use govertone.Lisp.Evaluate.{Interpreter, Evaluated, Written, eval_in_namespace}
use govertone.Nrepl.Buffer.{BoundedBuffer, new_bounded_buffer, write_each}

pub data Incoming : Type 0 where
  string : String → Incoming
  integer : ℤ → Incoming
  other : Incoming

mutual
  pub data Field : Type 0 where
    text : String → Field
    bytes : List ℕ → Field
    words : List String → Field
    table : Entries → Field

  -- A map within a message.
  pub data Entries : Type 0 where
    end : Entries
    entry : String → Field → Entries → Entries

abbrev pub Message : Type 0
Message = List (String × Field)

-- `strconv.FormatInt(value, 10)`
unfoldable pub format_int : ℤ → String
format_int (pos n) = decimal (suc n) n
format_int (negsuc n) = "-" ++ decimal (suc (suc n)) (suc n)

unfoldable pub msg_string : List (String × Incoming) → String → String
msg_string msg key = elim (lookup key msg) [
  | none ↦ ""
  | some value ↦ elim value [ string s ↦ s | integer n ↦ format_int n | other ↦ "" ]
]

-- A text as its runes.
unfoldable pub runes_of : String → Runes
runes_of String.[] = []
runes_of (String.◌∷◌ c s) = code c ∷ runes_of s

pub record Session : Type 0 where
  pub id : String
  pub namespace : String

-- The defaults of New.
abbrev pub or_default : ℤ → ℕ → ℕ
or_default (pos zero) n = n
or_default (pos (suc m)) n = suc m
or_default (negsuc m) n = n

abbrev operations : List String → Entries
operations [] = end
operations (name ∷ names) = entry name (table end) (operations names)

abbrev version : String → String → Field
version major minor = table (entry "major" (text major) (entry "minor" (text minor) end))

unfoldable pub describe : String → String → Message
describe id session =
    ("id", text id)
    ∷ ("session", text session)
    ∷ ("status", words ("done" ∷ []))
    ∷ (
      "ops",
      table (
          operations (
            "clone" ∷ "close" ∷ "describe" ∷ "eval" ∷ "interrupt" ∷ "load-file" ∷ "stdin"
            ∷ "ls-sessions" ∷ [])),
    )
    ∷ ("versions", table (entry "let-go" (version "1" "11") (entry "nrepl" (version "1" "0") end)))
    ∷ []

abbrev pub answer : String → String → List String → Message
answer id session status =
    ("id", text id) ∷ ("session", text session) ∷ ("status", words status) ∷ []

module _ (lg : Interpreter) where
  open lg use {World, Value, show, format}

  pub record Server : Type 0 where
    pub max_connections : ℕ
    pub max_sessions : ℕ
    pub max_output : ℕ
    pub sessions : List (String × Session)
    -- the tokens in `sem`: how many connections are handled
    pub connected : ℕ
    pub world : World

  unfoldable pub new_server : World → (max_connections max_sessions max_output : ℤ) → Server
  new_server world max_connections max_sessions max_output = record {
    max_connections = or_default max_connections 32;
    max_sessions = or_default max_sessions 128;
    max_output = or_default max_output 1048576;
    sessions = [];
    connected = 0;
    world = world;
  }

  -- The select of accept: whether the connection is handled, or closed at once.
  unfoldable pub accept : Server → Server × Bool
  accept s =
      if ltb s.connected s.max_connections
      then (record s { connected = s.connected + 1 }, true)
      else (s, false)

  -- The end of handleConn.
  unfoldable pub disconnect : Server → Server
  disconnect s = record s { connected = s.connected - 1 }

  unfoldable pub clone : Server → (id new_id : String) → Server × List Message
  clone s id new_id =
      if leb s.max_sessions (length s.sessions)
      then (
        s,
        (("id", text id)
              ∷ ("status", words ("done" ∷ "error" ∷ "session-limit-exceeded" ∷ []))
              ∷ [])
            ∷ [],
      )
      else (
        record s {
          sessions = put new_id (record { id = new_id; namespace = "music.core" }) s.sessions;
        },
        (("id", text id) ∷ ("new-session", text new_id) ∷ ("status", words ("done" ∷ [])) ∷ [])
            ∷ [],
      )

  abbrev is_found : Option Session → Bool
  is_found none = false
  is_found (some session) = true

  unfoldable pub close : Server → (id session : String) → Server × List Message
  close s id session =
      let status =
        if is_found (lookup session s.sessions)
        then "done" ∷ "session-closed" ∷ []
        else "done" ∷ "error" ∷ "nrepl-session-not-found" ∷ [] in
      (record s { sessions = delete session s.sessions }, answer id session status ∷ [])

  -- The first locked part of eval: the namespace of the session.
  unfoldable pub begin_eval : Server → String → Option String
  begin_eval s session =
      if str_eq session ""
      then some "music.core"
      else elim (lookup session s.sessions) [ none ↦ none | some found ↦ some found.namespace ]

  -- The second one: the session, if it is still there, gets the resulting namespace.
  unfoldable pub end_eval : Server → String → String → Server
  end_eval s session namespace = if str_eq session "" then s else elim (lookup session s.sessions) [
    | none ↦ s
    | some found ↦ record s {
      sessions = put session (record found { namespace = namespace }) s.sessions;
    }
  ]

  -- The pieces that were written to a stream.
  unfoldable pub pieces : Bool → List Written → List (List ℕ)
  pieces to_errors [] = []
  pieces to_errors (w ∷ ws) =
      let rest = pieces to_errors ws in
      if to_errors then if w.0 then w.1 ∷ rest else rest else if w.0 then rest else w.1 ∷ rest

  abbrev captured : Server → Bool → List Written → BoundedBuffer ℕ
  captured s to_errors ws = write_each (new_bounded_buffer s.max_output) (pieces to_errors ws)

  abbrev output : String → String → String → List ℕ → List Message → List Message
  output id session key [] rest = rest
  output id session key (b ∷ bs) rest =
      (("id", text id) ∷ ("session", text session) ∷ (key, bytes (b ∷ bs)) ∷ []) ∷ rest

  abbrev overflow : String → String → Bool → List Message → List Message
  overflow id session false rest = rest
  overflow id session true rest =
      (("id", text id)
        ∷ ("session", text session)
        ∷ ("err", text "nREPL evaluation output exceeded configured limit\n")
        ∷ ("status", words ("error" ∷ "nrepl-output-overflow" ∷ []))
        ∷ [])
      ∷ rest

  abbrev shown : Option Value → String
  shown none = "nil"
  shown (some value) = show value

  abbrev result : String → String → Evaluated lg → Message
  result id session e = elim e.fault [
    | some why ↦
        ("id", text id)
        ∷ ("session", text session)
        ∷ ("err", text (format why ++ "\n"))
        ∷ ("ex", text "let-go.lang.Error")
        ∷ ("root-ex", text "let-go.lang.Error")
        ∷ []
    | none ↦
        ("id", text id)
        ∷ ("session", text session)
        ∷ ("value", text (shown e.value))
        ∷ ("ns", text e.namespace)
        ∷ []
  ]

  -- What eval answers after the evaluation.
  unfoldable pub eval_answers : Server → (id session : String) → Evaluated lg → List Message
  eval_answers s id session e =
      let out = captured s false e.written in
      let errors = captured s true e.written in
      output id session "out" out.buffer (
        output id session "err" errors.buffer (
          overflow id session (out.overflowed || errors.overflowed)
            (result id session e ∷ answer id session ("done" ∷ []) ∷ [])))

  unfoldable pub eval : Server → (id session code : String) → Server × List Message
  eval s id session code = elim (begin_eval s session) [
    | none ↦ (s, answer id session ("done" ∷ "error" ∷ "nrepl-session-not-found" ∷ []) ∷ [])
    | some namespace ↦
        let e = eval_in_namespace lg s.world (runes_of code) namespace in
        (end_eval (record s { world = e.world }) session e.namespace, eval_answers s id session e)
  ]

  unfoldable pub handle : Server → List (String × Incoming) → String → Server × List Message
  handle s msg new_id =
      let op = msg_string msg "op" in
      let id = msg_string msg "id" in
      let session = msg_string msg "session" in
      if str_eq op "clone"
      then clone s id new_id
      else if str_eq op "close"
      then close s id session
      else if str_eq op "describe"
      then (s, describe id session ∷ [])
      else if str_eq op "eval"
      then eval s id session (msg_string msg "code")
      else if str_eq op "load-file"
      then eval s id session (msg_string msg "file")
      else if str_eq op "interrupt"
      then (s, answer id session ("done" ∷ "session-idle" ∷ []) ∷ [])
      else if str_eq op "stdin"
      then (s, answer id session ("done" ∷ []) ∷ [])
      else if str_eq op "ls-sessions"
      then (
        s,
        (("id", text id)
              ∷ ("session", text session)
              ∷ ("sessions", words (map (λ e. e.0) s.sessions))
              ∷ ("status", words ("done" ∷ []))
              ∷ [])
            ∷ [],
      )
      else (s, answer id session ("done" ∷ "error" ∷ "unknown-op" ∷ []) ∷ [])
