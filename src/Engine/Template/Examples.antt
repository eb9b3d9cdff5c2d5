-- ===== src/Engine/Template/Examples.antt =====
-- Two boots race for a template; the first puts it in place while the second builds its own.
use doze_sdk.Prelude.{Bool, Option, Text, [], codes, false, none, ok, refl, some, text_eq, ◌≡◌}
use doze_sdk.Engine.Template.{
  World, advance, set_boot, Reaches, start, moves, here, onward, look, make_tmp, write, init_ends,
  rename_ends, entered, unmade, building, built, installing, returned,
}
use doze_sdk.Engine.Template.Atomic.{IsAtomic, start-IsAtomic}

abbrev done_text : Text
done_text = codes "done"

abbrev is_done : Option Text → Bool
is_done none = false
is_done (some t) = text_eq t done_text

abbrev IsDone : Text → Type 0
IsDone t = t ≡ done_text

abbrev after_race : World Text
after_race = record {
  template = some done_text;
  boots = set_boot is_done 1 (building (codes "half")) (
      set_boot is_done 0 (returned none) (
        set_boot is_done 0 (installing done_text) (
          set_boot is_done 0 (built done_text) (
            set_boot is_done 0 (building done_text) (
              set_boot is_done 0 (building [])
                (set_boot is_done 1 unmade (set_boot is_done 0 unmade (λ i. entered))))))));
}

race : Reaches is_done IsDone (start is_done) after_race
unfolding advance
race = onward _ _ _ (moves 0 look _ unmade none tt refl) (
    onward _ _ _ (moves 1 look _ unmade none tt refl) (
      onward _ _ _ (moves 0 (make_tmp (ok [])) _ (building []) none tt refl) (
        onward _ _ _ (moves 0 (write done_text) _ (building done_text) none tt refl) (
          onward _ _ _ (moves 0 (init_ends none) _ (built done_text) none refl refl) (
            onward _ _ _ (moves 0 look _ (installing done_text) none tt refl) (
              onward _ _ _ (moves 0 (rename_ends none) _ (returned none) (some done_text) tt refl) (
                onward _ _ _
                  (moves 1 (make_tmp (ok (codes "half"))) _ (building (codes "half"))
                    (some done_text) tt refl)
                  (here _))))))))

start-IsAtomic_example : IsAtomic is_done IsDone after_race
start-IsAtomic_example = start-IsAtomic is_done IsDone after_race refl race
