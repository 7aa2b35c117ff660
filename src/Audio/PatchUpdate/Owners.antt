-- ===== src/Audio/PatchUpdate/Owners.antt =====
-- What an update of the patch leaves: the owners of the voices, and a second update
-- (internal/audio/engine.go, patch_update.go).
use Prim.Native.String.{String}
use govertone.Common.{
  subst, ℕ, suc, ◌==◌, ◌≡◌, refl, sym, ap, ◌∙◌, inl, inr, Bool-cases, true, false, List, [], ◌∷◌,
  ◌++◌, map, length, set, arith,
}
use govertone.Common.Int.{ℤ, pos}
use govertone.Common.Float.{Float64}
use govertone.Common.Text.{str_eq, str_eq_iff}
use govertone.Audio.Synth.{Synth}
use govertone.Audio.State.{Engine, set_owner}
use govertone.Audio.Controls.{release_voice, instrument_at_voice}
use govertone.Audio.Engine.{stop_voices}
use govertone.Audio.Engine.Queue.{stop_voices-scheduler}
use govertone.Audio.PatchUpdate.{EngineState, CompiledPatch, update_patch, install}

set-after : (pre xs : List ℕ) (x v : ℕ) → set (pre ++ x ∷ xs) (length pre) v ≡ pre ++ v ∷ xs
set-after [] xs x v = refl
set-after (p ∷ pre) xs x v = ap (λ l. p ∷ l) (set-after pre xs x v)

length-snoc : (pre : List ℕ) (v : ℕ) → length (pre ++ v ∷ []) ≡ suc (length pre)
length-snoc [] v = refl
length-snoc (p ∷ pre) v = ap suc (length-snoc pre v)

snoc-append : (pre xs : List ℕ) (v : ℕ) → (pre ++ v ∷ []) ++ xs ≡ pre ++ v ∷ xs
snoc-append [] xs v = refl
snoc-append (p ∷ pre) xs v = ap (λ l. p ∷ l) (snoc-append pre xs v)

module _ (fl : Float64) (sy : Synth fl.Float) where
  open fl use {Float, to_int}
  open sy use {State, Patch, update}

  release_voice-owners :
      (e : Engine Float State) (voice : ℤ) (instrument : String)
      → (release_voice fl sy e voice instrument).owners ≡ e.owners
  unfolding release_voice
  release_voice-owners e voice instrument = ground arith

  -- The loop clears the owners from its index on, and leaves those before it.
  stop_voices-owners :
      (ids : List ℕ) (e : Engine Float State) (pre : List ℕ) (index : ℕ)
      → length pre ≡ index
      → e.owners ≡ pre ++ ids
      → (stop_voices fl sy e ids index).owners ≡ pre ++ map (λ _. 0) ids
  unfolding stop_voices
  stop_voices-owners [] e pre index at owners = owners
  stop_voices-owners (id ∷ ids) e pre index at owners =
      let voice = pos index in
      let instrument = instrument_at_voice fl sy e.layout voice in
      let released = set_owner (release_voice fl sy e voice instrument) voice 0 in
      let next = pre ++ 0 ∷ [] in
      let next_at : length next ≡ suc index = length-snoc pre 0 ∙ ap suc at in
      let cleared : released.owners ≡ pre ++ 0 ∷ ids =
        ap (λ l. set l index 0) (release_voice-owners e voice instrument ∙ owners)
        ∙ ap (λ i. set (pre ++ id ∷ ids) i 0) (sym at)
        ∙ set-after pre ids id 0 in
      let stopped =
        stop_voices-owners ids released next (suc index) next_at
          (cleared ∙ sym (snoc-append pre ids 0))
        ∙ snoc-append pre (map (λ _. 0) ids) 0 in
      elim (Bool-cases (id == 0)) [
        | inl free ↦
            let is_zero : id ≡ 0 = grind arith in
            let kept =
              stop_voices-owners ids e next (suc index) next_at
                (owners ∙ ap (λ x. pre ++ x ∷ ids) is_zero ∙ sym (snoc-append pre ids 0))
              ∙ snoc-append pre (map (λ _. 0) ids) 0 in
            rw free kept
        | inr owned ↦ rw owned stopped
      ]

  -- When the compiled patch has another fingerprint and the synth takes it, UpdatePatch puts the
  -- patch's generation and fingerprint in place and leaves every voice without an owner, and
  -- changes neither the frame nor the events that wait in the scheduler.
  pub update_patch-stops :
      (p : EngineState fl sy) (c : CompiledPatch Float Patch) (bpm : Float)
      (changed removed : List String)
      → str_eq c.fingerprint p.fingerprint ≡ false
      → (update p.run.engine.synth c.patch (to_int bpm)).1 ≡ true
      → let after = (update_patch fl sy p c bpm changed removed).0 in
        (after.run.engine.owners ≡ map (λ _. 0) p.run.engine.owners)
        × (after.generation ≡ c.generation)
        × (after.fingerprint ≡ c.fingerprint)
        × (after.run.frame ≡ p.run.frame)
        × (after.run.engine.scheduler ≡ p.run.engine.scheduler)
  unfolding update_patch install
  update_patch-stops p c bpm changed removed new ok =
      let s = (update p.run.engine.synth c.patch (to_int bpm)).0 in
      let installed = install fl sy p.run.engine s c in
      rw (new, ok)
        (
          stop_voices-owners installed.owners installed [] 0 refl refl,
          refl,
          refl,
          refl,
          stop_voices-scheduler fl sy installed.owners installed 0,
        )

  update_same :
      (p : EngineState fl sy) (c : CompiledPatch Float Patch) (bpm : Float)
      (changed removed : List String)
      → str_eq c.fingerprint p.fingerprint ≡ true
      → (update_patch fl sy p c bpm changed removed).0 ≡ p
  unfolding update_patch
  update_same p c bpm changed removed same = rw same refl

  -- When the synth takes the compiled patch, a second UpdatePatch with the same patch leaves the
  -- whole engine as the first left it, whatever its other arguments.
  pub update_patch-again :
      (p : EngineState fl sy) (c : CompiledPatch Float Patch) (bpm bpm' : Float)
      (changed removed changed' removed' : List String)
      → (update p.run.engine.synth c.patch (to_int bpm)).1 ≡ true
      → let after = (update_patch fl sy p c bpm changed removed).0 in
        (update_patch fl sy after c bpm' changed' removed').0 ≡ after
  update_patch-again p c bpm bpm' changed removed changed' removed' ok =
      let after = (update_patch fl sy p c bpm changed removed).0 in
      elim (Bool-cases (str_eq c.fingerprint p.fingerprint)) [
        | inl same ↦
            let kept = update_same p c bpm changed removed same in
            update_same after c bpm' changed' removed' (
              subst (λ (q : EngineState fl sy). str_eq c.fingerprint q.fingerprint ≡ true)
                (sym kept) same)
        | inr new ↦
            let placed = (update_patch-stops p c bpm changed removed new ok).2 in
            update_same after c bpm' changed' removed' ((str_eq_iff _ _).1 (sym placed))
      ]
