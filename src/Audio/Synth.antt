-- ===== src/Audio/Synth.antt =====
-- The Sointu virtual machine (third_party/sointu/vm), which the engine drives through the interface
-- `sointu.Synth` and through `controlledSynth` of internal/audio/controlled_synth.go. It is a
-- parameter of the model.
use govertone.Common.{ℕ, zero, suc, ◌<◌, ◌≤◌, ◌≡◌, Bool, Option, some, List, [], ◌∷◌}
use govertone.Common.Int.{ℤ}

-- `F` stands for float32 and float64. A call of Render returns the frames it made, or an error; the
-- setters return whether they succeeded. `controlled` is whether the synth has the control methods.
pub record Synth (F : Type 0) : Type 1 where
  pub State : Type 0
  pub Sample : Type 0
  pub Patch : Type 0
  pub update : State → Patch → ℤ → State × Bool
  pub render : State → ℕ → State × Option (List Sample)
  pub trigger : State → ℤ → ℕ → State
  pub release : State → ℤ → State
  pub controlled : Bool
  pub set_control : State → ℤ → ℤ → F → State × Bool
  pub set_instrument_control : State → ℤ → F → State × Bool
  pub clear_control : State → ℤ → ℤ → State
  pub clear_instrument_control : State → ℤ → State
  pub clear_voice_controls : State → ℤ → State

module _ {F : Type 0} (sy : Synth F) where
  open sy use {State, Sample, render}

  -- `n` frames, one after the other.
  unfoldable pub frames : (State → State × Sample) → State → ℕ → State × List Sample
  frames step s zero = (s, [])
  frames step s (suc n) =
      let one = step s in let rest = frames step one.0 n in (rest.0, one.1 ∷ rest.1)

  -- What the engine relies on: asked for some frames, Render makes at least one of them and no more
  -- than them, each by the same step from the state before it.
  pub record IsFramewise (step : State → State × Sample) : Type 0 where
    pub made : State → ℕ → ℕ
    pub some_made : (s : State) (n : ℕ) → 0 < n → 0 < made s n
    pub most : (s : State) (n : ℕ) → 0 < n → made s n ≤ n
    pub makes :
        (s : State) (n : ℕ)
        → 0 < n
        → let out = frames step s (made s n) in render s n ≡ (out.0, some out.1)
