-- ===== src/Plugin/Tail/Delivered.antt =====
-- What the host gets of a panel's rows (plugin/server.go, plugin/adapter.go).
use doze_sdk.Engine.Services.{Row}
use doze_sdk.Prelude.{
  List, [], ◌∷◌, ◌++◌, ◌≡◌, ◌≤◌, false, length, none, some, subst, sym, append_assoc, append-nil,
  arith, length-append, refl, ap, ◌∙◌,
}
use doze_sdk.Plugin.Tail.{
  Tailing, TailStep, TailSteps, capacity, handler_done, sending, tail_done, tail_start, ends,
  cancels, makes, sends, send_fails, drains, returns, returns_drained, takes, gives_up, hears_end,
  breaks, at_rest, and_then,
}

-- All that was made has been seen, and the module's Tail returned nil.
abbrev pub IsComplete : Tailing → Type 0
IsComplete s = (s.made ≡ s.seen) × (s.ended ≡ some none)

abbrev pub IsOrderly : Tailing → Type 0
IsOrderly s =
    (s.made ≡ s.seen ++ (s.stream ++ (s.dropped ++ s.channel)))
    × ((length s.channel ≤ capacity)
        × ((s.handler ≡ sending → s.dropped ≡ [])
            × ((s.handler ≡ handler_done none
                  → (s.dropped ≡ []) × ((s.channel ≡ []) × (s.ended ≡ some none)))
                × (s.taker ≡ tail_done none → s.cancelled ≡ false → IsComplete s))))

move_last : {A : Type 0} (xs ys : List A) (x : A) → (xs ++ x ∷ []) ++ ys ≡ xs ++ x ∷ ys
move_last xs ys x = append_assoc xs (x ∷ []) ys

-- A row more at the end of four lists
four_last :
    {A : Type 0} (a b c d : List A) (x : A)
    → (a ++ (b ++ (c ++ d))) ++ x ∷ [] ≡ a ++ (b ++ (c ++ (d ++ x ∷ [])))
four_last a b c d x =
    rw
      (
        append_assoc a (b ++ (c ++ d)) (x ∷ []),
        append_assoc b (c ++ d) (x ∷ []),
        append_assoc c d (x ∷ []),
      )
      refl

shorter :
    {A : Type 0} (xs rest : List A) (x : A)
    → xs ≡ x ∷ rest
    → length xs ≤ capacity
    → length rest ≤ capacity
shorter xs rest x e h = let k : length (x ∷ rest) ≤ capacity = rw e at h in omega (arith, k)

step-IsOrderly : (s t : Tailing) → IsOrderly s → TailStep s t → IsOrderly t
step-IsOrderly s t (whole, (room, (none_lost, (closing, in_full)))) (makes r going free is) =
    subst IsOrderly (sym is) (
      rw whole (four_last s.seen s.stream s.dropped s.channel r),
      (
        omega (arith, length-append s.channel (r ∷ []), free),
        (
          none_lost,
          (λ h. absurd (cc (going, (closing h).1.1)), λ h c. absurd (cc (going, (in_full h c).1))),
        ),
      ),
    )
step-IsOrderly s t (whole, (room, (none_lost, (closing, in_full)))) (ends e going is) =
    subst IsOrderly (sym is) (
      whole,
      (
        room,
        (
          none_lost,
          (λ h. absurd (cc (going, (closing h).1.1)), λ h c. absurd (cc (going, (in_full h c).1))),
        ),
      ),
    )
step-IsOrderly s t (whole, (room, (none_lost, (closing, in_full)))) (sends r rest at found is) =
    subst IsOrderly (sym is) (
      rw (whole, found, none_lost at, move_last s.stream rest r) refl,
      (shorter s.channel rest r found room, (none_lost, (λ h. absurd (cc (at, h)), in_full))),
    )
step-IsOrderly s t (whole, (room, (none_lost, (closing, in_full))))
      (send_fails r rest e at found is) =
    subst IsOrderly (sym is) (
      rw (whole, found, move_last s.dropped rest r) refl,
      (shorter s.channel rest r found room, (λ h. absurd (cc), (λ h. absurd (cc), in_full))),
    )
step-IsOrderly s t (whole, (room, (none_lost, (closing, in_full)))) (drains r rest e at found is) =
    subst IsOrderly (sym is) (
      rw (whole, found, move_last s.dropped rest r) refl,
      (
        shorter s.channel rest r found room,
        (λ h. absurd (cc (at, h)), (λ h. absurd (cc (at, h)), in_full)),
      ),
    )
step-IsOrderly s t (whole, (room, (none_lost, (closing, in_full)))) (returns e at bare gone is) =
    subst IsOrderly (sym is)
      (whole, (room, (λ h. absurd (cc), (λ h. (none_lost at, (bare, cc (gone, h))), in_full))))
step-IsOrderly s t (whole, (room, (none_lost, (closing, in_full))))
      (returns_drained e m at bare gone is) =
    subst IsOrderly (sym is) (whole, (room, (λ h. absurd (cc), (λ h. absurd (cc), in_full))))
step-IsOrderly s t (whole, (room, (none_lost, (closing, in_full)))) (takes r rest at found is) =
    subst IsOrderly (sym is) (
      rw (whole, found, move_last s.seen (rest ++ (s.dropped ++ s.channel)) r) refl,
      (room, (none_lost, (closing, λ h c. absurd (cc (at, h))))),
    )
step-IsOrderly s t (whole, (room, (none_lost, (closing, in_full)))) (cancels is) =
    subst IsOrderly (sym is) (whole, (room, (none_lost, (closing, λ h c. absurd (cc)))))
step-IsOrderly s t (whole, (room, (none_lost, (closing, in_full)))) (gives_up at gone is) =
    subst IsOrderly (sym is) (whole, (room, (none_lost, (closing, λ h c. absurd (cc (gone, c))))))
step-IsOrderly s t (whole, (room, (none_lost, (closing, in_full))))
      (hears_end e at bare finished is) =
    subst IsOrderly (sym is) (
      whole,
      (
        room,
        (
          none_lost,
          (
            closing,
            λ h c.
                let no_error : e ≡ none = cc (rw c at h) in
                let (no_rows, (empty_channel, fine)) =
                  closing (finished ∙ ap handler_done no_error) in
                (rw (whole, bare, no_rows, empty_channel) (append-nil s.seen), fine),
          ),
        ),
      ),
    )
step-IsOrderly s t (whole, (room, (none_lost, (closing, in_full)))) (breaks e at live is) =
    subst IsOrderly (sym is) (whole, (room, (none_lost, (closing, λ h c. absurd (cc)))))

start-IsOrderly : IsOrderly tail_start
start-IsOrderly = (refl, (omega arith, (λ h. refl, (λ h. absurd (cc), λ h c. absurd (cc)))))

steps-IsOrderly : (t : Tailing) → TailSteps tail_start t → IsOrderly t
steps-IsOrderly t at_rest = start-IsOrderly
steps-IsOrderly t (and_then {u} steps step) = step-IsOrderly u t (steps-IsOrderly u steps) step

-- However the three interleave: the channel never holds more than 64 rows; the rows that the host has
-- are the first ones that the module made, in order and none of them twice, and where the host's
-- context is not done and its Tail returned nil, they are all, and the module's Tail returned nil.
pub steps-IsDelivered :
    (t : Tailing)
    → TailSteps tail_start t
    → (length t.channel ≤ capacity)
      × (((rest : List Row) × (t.made ≡ t.seen ++ rest))
          × (t.taker ≡ tail_done none → t.cancelled ≡ false → IsComplete t))
steps-IsDelivered t steps =
    let (whole, (room, (none_lost, (closing, in_full)))) = steps-IsOrderly t steps in
    (room, ((t.stream ++ (t.dropped ++ t.channel), whole), in_full))
