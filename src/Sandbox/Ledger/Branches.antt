-- ===== src/Sandbox/Ledger/Branches.antt =====
-- The account through the branches of an operation.
use prehnite.Prelude.{◌≡◌, refl, Bool, true, false, not, Option, none, some, if◌then◌else◌}
use prehnite.Text.{Str}
use prehnite.Sandbox.Start.{Outcome, left_behind}
use prehnite.Sandbox.Ledger.{IsAccounted}

pub if-IsAccounted :
    {A : Type 0} (b : Bool) (x y : Outcome A)
    → IsAccounted (left_behind x)
    → IsAccounted (left_behind y)
    → IsAccounted (left_behind (if b then x else y))
if-IsAccounted true x y h k = h
if-IsAccounted false x y h k = k

pub if-on-IsAccounted :
    {A : Type 0} (b : Bool) (x y : Outcome A)
    → (b ≡ true → IsAccounted (left_behind x))
    → IsAccounted (left_behind y)
    → IsAccounted (left_behind (if b then x else y))
if-on-IsAccounted true x y h k = h refl
if-on-IsAccounted false x y h k = k

pub if-off-IsAccounted :
    {A : Type 0} (b : Bool) (x y : Outcome A)
    → IsAccounted (left_behind x)
    → (b ≡ true → IsAccounted (left_behind y))
    → IsAccounted (left_behind (if not b then x else y))
if-off-IsAccounted true x y h k = k refl
if-off-IsAccounted false x y h k = h

pub option-IsAccounted :
    {A : Type 0} (o : Option Str) (x : Outcome A) (f : Str → Outcome A)
    → (o ≡ none → IsAccounted (left_behind x))
    → ((id : Str) → o ≡ some id → IsAccounted (left_behind (f id)))
    → IsAccounted (left_behind (elim o [ none ↦ x | some id ↦ f id ]))
option-IsAccounted none x f h k = h refl
option-IsAccounted (some id) x f h k = k id refl
