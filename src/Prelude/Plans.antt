-- ===== src/Prelude/Plans.antt =====
-- Runs with the list of the commands that they send, and the proof that they send these.
use Prim.Native.String.{String}
use mathlib.Core.Path.{◌≡◌, refl, ◌∙◌}
use mathlib.Core.Bool.{Bool, true, false}
use mathlib.Core.List.{List, [], ◌∷◌, ◌++◌}
use mr_cassop.Prelude.Tests.{if◌then◌else◌}
use mr_cassop.Prelude.Effects.{Outcome, ok, err, panic, Done, Exec, is_ok, pure, ◌>>◌, wrap, rewrap}
use mr_cassop.Prelude.Calls.{
  Answer, send, send_all, SameEffect, SameEffect-nil, SameEffect-one, SameEffect-append,
}

is_ok-rewrap : {A : Type 0} (w : String) (r : Outcome A) → is_ok (rewrap w r) ≡ is_ok r
is_ok-rewrap w (ok a) = refl
is_ok-rewrap w (err e) = refl
is_ok-rewrap w panic = refl

module _ {C : Type 0} (answer : Answer C) where
  abbrev pub Follows : Exec (List C) Done → List C → Type 0
  Follows m cs = (s : List C) → SameEffect (m s) (send_all answer cs s)

  abbrev pub Planned : Type 0
  Planned = (m : Exec (List C) Done) × (cs : List C) × Follows m cs

  abbrev pub planned_nothing : Planned
  planned_nothing = (pure tt, [], SameEffect-nil answer)

  abbrev pub planned_one : String → C → Planned
  planned_one w c = (wrap w (send answer c), c ∷ [], SameEffect-one answer w c)

  abbrev pub planned_then : Planned → Planned → Planned
  planned_then (m, cs, h) (n, ds, k) =
      (m >> n, cs ++ ds, λ s. SameEffect-append answer m n cs ds s (h s) k)

  pub Follows-wrap :
      (w : String) (m : Exec (List C) Done) (cs : List C) → Follows m cs → Follows (wrap w m) cs
  Follows-wrap w m cs h s = (is_ok-rewrap w (m s).0 ∙ (h s).0, (h s).1)

  abbrev pub planned_wrap : String → Planned → Planned
  planned_wrap w (m, cs, h) = (wrap w m, cs, Follows-wrap w m cs h)

  pub Follows-if :
      (b : Bool) (m n : Exec (List C) Done) (cs ds : List C)
      → Follows m cs
      → Follows n ds
      → Follows (λ s. if b then m s else n s) (if b then cs else ds)
  Follows-if true m n cs ds h k = h
  Follows-if false m n cs ds h k = k

  abbrev pub planned_if : Bool → Planned → Planned → Planned
  planned_if b (m, cs, h) (n, ds, k) =
      (λ s. if b then m s else n s, if b then cs else ds, Follows-if b m n cs ds h k)
