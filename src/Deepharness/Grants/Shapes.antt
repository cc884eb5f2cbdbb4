-- ===== src/Deepharness/Grants/Shapes.antt =====
-- A property of the process that every way on from a test keeps.
use remote_ops_mcp.Prelude.{Bool, true, false, Option, none, some, if◌then◌else◌}
use remote_ops_mcp.Deepharness.Model.{Process}
use remote_ops_mcp.Deepharness.Grants.{
  on_some, on_submitted, Submitted, threw, not_accepted, acknowledged,
}

pub if_keeps :
    {A : Type 0} (Q : Process → Type 0) (b : Bool) (x y : A × Process)
    → Q x.1
    → Q y.1
    → Q (if b then x else y).1
if_keeps Q true x y h k = h
if_keeps Q false x y h k = k

pub on_some_keeps :
    {A B : Type 0} (Q : Process → Type 0) (o : Option B) (x : A × Process) (next : B → A × Process)
    → Q x.1
    → ((b : B) → Q (next b).1)
    → Q (on_some o x next).1
on_some_keeps Q none x next h k = h
on_some_keeps Q (some b) x next h k = k b

pub on_submitted_keeps :
    {A : Type 0} (Q : Process → Type 0) (s : Submitted) (x y z : A × Process)
    → Q x.1
    → Q y.1
    → Q z.1
    → Q (on_submitted s x y z).1
on_submitted_keeps Q threw x y z h k l = h
on_submitted_keeps Q not_accepted x y z h k l = k
on_submitted_keeps Q acknowledged x y z h k l = l
