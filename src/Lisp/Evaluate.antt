-- ===== src/Lisp/Evaluate.antt =====
-- EvalInNamespace (internal/lisp/runtime.go): an evaluation in a namespace, with its output. The
-- interpreter, let-go, is a parameter; the lock makes an evaluation one step.
use Prim.Native.String.{String}
use govertone.Common.{
  ℕ, ◌≡◌, inl, inr, Bool, Bool-cases, Option, none, some, List, [], ◌∷◌, ◌++◌, if◌then◌else◌,
}
use govertone.Common.Text.{str_eq}
use govertone.Lisp.Forms.{Runes, split_top_level_forms}

-- What the interpreter writes: whether it goes to the error stream, and the bytes.
abbrev pub Written : Type 0
Written = Bool × List ℕ

pub record Interpreter : Type 1 where
  pub World : Type 0
  pub Value : Type 0
  pub Fault : Type 0
  pub nil : Value
  -- `rt.CurrentNS.Deref()`, by its name
  pub current : World → String
  -- `rt.NS(name)`, and whether it returned a namespace
  pub find : World → String → World × Bool
  -- `rt.CurrentNS.SetRoot`
  pub enter : World → String → World
  pub missing : String → Fault
  -- `Run`
  pub run : World → Runes → World × List Written × Option Value × Option Fault
  -- `value.String()` and `vm.FormatError`
  pub show : Value → String
  pub format : Fault → String

-- The documented behaviour that the theorems use.
pub record IsInterpreter (lg : Interpreter) : Type 0 where
  pub current-enter : (w : lg.World) (name : String) → lg.current (lg.enter w name) ≡ name
  pub current-find : (w : lg.World) (name : String) → lg.current (lg.find w name).0 ≡ lg.current w

module _ (lg : Interpreter) where
  open lg use {World, Value, Fault, nil, current, find, enter, missing, run}

  pub record Evaluated : Type 0 where
    pub world : World
    pub written : List Written
    pub value : Option Value
    pub namespace : String
    pub fault : Option Fault

  -- The loop over the forms, with the value of the last one.
  unfoldable pub run_forms :
      World → List Runes → Option Value → World × List Written × Option Value × Option Fault
  run_forms w [] value = (w, [], value, none)
  run_forms w (form ∷ forms) value =
      let ran = run w form in
      let rest = run_forms ran.0 forms ran.2 in
      elim ran.3 [ some why ↦ ran | none ↦ (rest.0, ran.1 ++ rest.1, rest.2, rest.3) ]

  abbrev or_core : String → String
  or_core namespace = if str_eq namespace "" then "music.core" else namespace

  unfoldable pub eval_in_namespace : World → Runes → String → Evaluated
  eval_in_namespace w src namespace =
      let previous = current w in
      let name = or_core namespace in
      let found = find w name in
      let ran = run_forms (enter found.0 name) (split_top_level_forms src) (some nil) in
      if found.1
      then record {
        world = enter ran.0 previous;
        written = ran.1;
        value = ran.2;
        namespace = current ran.0;
        fault = ran.3;
      }
      else record {
        world = found.0;
        written = [];
        value = some nil;
        namespace = previous;
        fault = some (missing name);
      }

  -- If entering a namespace makes it the current one and looking one up does not, an evaluation leaves
  -- the current namespace of the process as it was, whether it fails or not.
  pub eval_in_namespace-current :
      IsInterpreter lg
      → (w : World) (src : Runes) (namespace : String)
      → current (eval_in_namespace w src namespace).world ≡ current w
  unfolding eval_in_namespace
  eval_in_namespace-current law w src namespace = elim (Bool-cases (find w (or_core namespace)).1) [
    | inl found ↦ rw found (law.current-enter _ (current w))
    | inr none_found ↦ rw none_found (law.current-find w (or_core namespace))
  ]
