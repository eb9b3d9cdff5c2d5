-- ===== src/Engine/Template.antt =====
-- engine/template.go: `EnsureTemplateDir`, as the steps of boots that may run at the same time. Between
-- two steps any other boot may take its own. The template and a temporary directory are trees; what
-- `ready` says of the template's directory is a function of what is there, and how each call ends is
-- an event. Of os.RemoveAll of a temporary directory nothing is told, since no one reads it again.
pub mod Atomic
mod Examples
use doze_sdk.Prelude.{
  Bool, Option, Result, Text, codes, err, if◌then◌else◌, nat_eq, none, ok, some, ℕ, ◌++◌, ◌≡◌,
}

-- Where a boot stands: before its first look, before and in `init` with the tree so far, after
-- `init`, before the rename, after a rename that failed, and returned with its error.
pub data Boot (Tree : Type 0) : Type 0 where
  entered : Boot Tree
  unmade : Boot Tree
  building : Tree → Boot Tree
  built : Tree → Boot Tree
  installing : Tree → Boot Tree
  lost : Text → Boot Tree
  returned : Option Text → Boot Tree

-- What happens to a boot: it looks at the template, its temporary directory is made or is not, `init`
-- writes or ends, the rename ends.
pub data Event (Tree : Type 0) : Type 0 where
  look : Event Tree
  make_tmp : Result Text Tree → Event Tree
  write : Tree → Event Tree
  init_ends : Option Text → Event Tree
  rename_ends : Option Text → Event Tree

pub record World (Tree : Type 0) : Type 0 where
  pub template : Option Tree
  pub boots : ℕ → Boot Tree

module _ {Tree : Type 0} (ready : Option Tree → Bool) where
  -- The step of a boot, with the template that it leaves; no step where the event does not fit.
  unfoldable pub advance : Event Tree → Boot Tree → Option Tree → Option (Boot Tree × Option Tree)
  advance look entered template = some (if ready template then returned none else unmade, template)
  advance look (built t) template =
      some (if ready template then returned none else installing t, template)
  advance (make_tmp (ok t)) unmade template = some (building t, template)
  advance (make_tmp (err e)) unmade template = some (returned (some e), template)
  advance (write t) (building old) template = some (building t, template)
  advance (init_ends none) (building t) template = some (built t, template)
  advance (init_ends (some e)) (building t) template = some (returned (some e), template)
  advance (rename_ends none) (installing t) template = some (returned none, some t)
  advance (rename_ends (some e)) (installing t) template = some (lost e, template)
  advance look (lost e) template = some (
    if ready template then returned none else returned (some (codes "installing template: " ++ e)),
    template,
  )
  advance event boot template = none

  abbrev pub set_boot : ℕ → Boot Tree → (ℕ → Boot Tree) → ℕ → Boot Tree
  set_boot i b boots j = if nat_eq i j then b else boots j

  -- What `init` leaves in a directory when it ends without an error is whole.
  abbrev pub Lawful : (Tree → Type 0) → Event Tree → Boot Tree → Type 0
  Lawful Whole (init_ends none) (building t) = Whole t
  Lawful Whole event boot = Unit

  -- One boot takes a step.
  pub data Step (Whole : Tree → Type 0) : World Tree → World Tree → Type 0 where
    moves :
        (i : ℕ) (event : Event Tree) (w : World Tree) (b : Boot Tree) (template : Option Tree)
        → Lawful Whole event (w.boots i)
        → advance event (w.boots i) w.template ≡ some (b, template)
        → Step Whole w (record { template = template; boots = set_boot i b w.boots })

  pub data Reaches (Whole : Tree → Type 0) : World Tree → World Tree → Type 0 where
    here : (w : World Tree) → Reaches Whole w w
    onward : (w v u : World Tree) → Step Whole w v → Reaches Whole v u → Reaches Whole w u

  -- No template yet, and no boot has begun.
  abbrev pub start : World Tree
  start = record { template = none; boots = λ i. entered }
