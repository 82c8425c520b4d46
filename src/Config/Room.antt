-- ===== src/Config/Room.antt =====
-- The checks of config/ ensure what the layout of org/org.go relies on.
use gramophile.Prelude.{
  ℕ, String, false, some, List, [], ◌∷◌, ◌==◌, ◌≡◌, All, All-append, All-Memᴰ, Memᴰ,
}
use gramophile.Status.{ok}
use gramophile.Layout.Types.{Float, Organisation, Space, GroupingElement}
use gramophile.Layout.Place.{Shelf, Round, place_all}
use gramophile.Layout.Build.{with_spill}
use gramophile.Layout.Load.{FloatLaws, HasRoom, DifferentNames}
use gramophile.Layout.Capacity.{place_all-HasRoom}
use gramophile.Layout.Snapshot.{HasSpill-with_spill}
use gramophile.Config.Types.{ConfigUser}
use gramophile.Config.Mandates.{post_process_user}
use gramophile.Config.Sound.{IsSoundFor, SoundShelves}
use gramophile.Config.Validate.{validate_config, validate_config-Sound}

module _ {W : Type 0} (float : Float W) where
  DifferentNames-with_spill :
      (sps : List (Space W))
      → DifferentNames sps
      → All (λ (sp : Space W). (sp.name == "Spill") ≡ false) sps
      → DifferentNames (with_spill float sps)
  DifferentNames-with_spill [] d h = (tt, tt)
  DifferentNames-with_spill (sp ∷ sps) d h = (
    All-append (λ (q : Space W). (sp.name == q.name) ≡ false) sps _ d.0 (h.0, tt),
    DifferentNames-with_spill sps d.1 h.1,
  )

  -- If no width is above the largest number, which excludes an infinite one, then for an
  -- organisation of a configuration that ValidateConfig accepts, of whose spaces none has a
  -- negative width or the name of the spill slot, the layout of any elements, with or without a
  -- spill, ends and fills no unit of the spaces beyond its width.
  pub validate_config-HasRoom :
      (laws : FloatLaws float)
      → ((x : W) → float.gt x float.largest ≡ false)
      → (fields : List String) (u u' : ConfigUser W) (added : List String)
      → validate_config fields u ≡ some (ok (u', added))
      → (o : Organisation W) → Memᴰ o (post_process_user u.config).organisations
      → All (λ (sp : Space W). (sp.name == "Spill") ≡ false) o.spaces
      → All (λ (sp : Space W). float.gt (float.of_ℕ 0) sp.width ≡ false) o.spaces
      → (width_of : GroupingElement W → W) (describe : ℕ → W → W → W → String) (original : ℕ → ℕ)
        (es : List (GroupingElement W))
      → (s : Shelf W) × (place_all float width_of describe original o.spill
            (with_spill float o.spaces)
            es
          ≡ Round.finished s)
        × All (HasRoom float s.placements) (with_spill float o.spaces)
  unfolding SoundShelves
  validate_config-HasRoom laws never_above fields u u' added accepted o m named wide width_of
        describe original es =
      let sound = validate_config-Sound fields u u' added accepted in
      let good = All-Memᴰ (IsSoundFor (post_process_user u.config).width_enabled) _ sound.2.0 m in
      place_all-HasRoom float laws width_of describe original (with_spill float o.spaces)
        (DifferentNames-with_spill o.spaces good.2 named) o.spill es
        (HasSpill-with_spill float never_above o.spaces)
        (All-append (λ (sp : Space W). float.gt (float.of_ℕ 0) sp.width ≡ false) o.spaces _ wide
          (never_above (float.of_ℕ 0), tt))
