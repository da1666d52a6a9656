-- ===== src/Graph/Research.antt =====
-- What the researcher of graph/nodes.py leaves in the state: how many tools run, which, and what may reach a prompt.
use deskfleet_ticketwarden.Base.{ℕ, ◌≤◌, ℤ, true, false, ◌≡◌, ◌↔◌}
use deskfleet_ticketwarden.Settings.{Settings}
use deskfleet_ticketwarden.Platform.{Platform}
use deskfleet_ticketwarden.Action.{continue, ◌>>=◌, Action, Result, ok, raised}
use deskfleet_ticketwarden.Vocabulary.{ToolStatus}
use deskfleet_ticketwarden.Catalog.Tables.{Catalog}
use deskfleet_ticketwarden.Registry.{ToolRecord, is_allowed}
use deskfleet_ticketwarden.Injection.Quarantine.{IsClean}
use deskfleet_ticketwarden.Graph.State.{Fact}

-- A property of the state that a node returns, if it returns one.
abbrev pub Yields : {S A : Type 0} → (A → Type 0) → Result A × S → Type 0
Yields Q (ok a, s) = Q a
Yields Q (raised e, s) = Unit

-- The rule for a block that begins with a call.
pub Yields-bind :
    {S A B : Type 0} (Q : B → Type 0) (m : Action S A) (f : A → Action S B) (s : S)
    → ((a : A) (s' : S) → Yields Q (f a s'))
    → Yields Q ((m >>= f) s)
Yields-bind {S} {A} Q m f s k = go (m s)
  where
    go : (r : Result A × S) → Yields Q (continue r f)
    go (ok a, s') = k a s'
    go (raised e, s') = tt

-- The same, with what is known of the first call.
pub Yields-then :
    {S A B : Type 0} (P : A → Type 0) (Q : B → Type 0) (m : Action S A) (f : A → Action S B) (s : S)
    → Yields P (m s)
    → ((a : A) (s' : S) → P a → Yields Q (f a s'))
    → Yields Q ((m >>= f) s)
Yields-then {S} {A} P Q m f s known k = go (m s) known
  where
    go : (r : Result A × S) → Yields P r → Yields Q (continue r f)
    go (ok a, s') p = k a s' p
    go (raised e, s') p = tt

pub Yields-weaken :
    {S A : Type 0} (P Q : A → Type 0) (r : Result A × S)
    → ((a : A) → P a → Q a)
    → Yields P r
    → Yields Q r
Yields-weaken P Q (ok a, s) f p = f a p
Yields-weaken P Q (raised e, s) f p = tt

-- A fact may be shown to a model: it comes from a tool on the allowlist and no text among its values
-- is an injection.
abbrev pub IsSafe : Platform → Fact → Type 0
IsSafe P f = IsClean P.unicode f.found × (is_allowed f.tool ≡ true)

-- The status tells the truth about the allowlist.
abbrev pub IsMarked : ToolRecord → Type 0
IsMarked r = (r.status ≡ ToolStatus.blocked) ↔ (is_allowed r.tool_name ≡ false)

-- The bound on the rounds: as it stands where it is positive, and counted from the end of what is
-- asked for otherwise.
abbrev pub WithinRounds : ℤ → ℕ → Type 0
WithinRounds (ℤ.pos n) added = added ≤ n
WithinRounds (ℤ.negsuc n) added = Unit
