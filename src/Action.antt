-- ===== src/Action.antt =====
-- Calls that may raise, and calls that also change a state. What was changed before a raise stays
-- changed, so the state comes back beside the exception.
use deskfleet_ticketwarden.Base.{String}

-- `TypeError` is told apart, since `dispatch_tool` handles it first; each carries its message.
pub data Raised : Type 0 where
  type_error exception : String → Raised

-- `str(exc)`
abbrev pub message : Raised → String
message (type_error s) = s
message (exception s) = s

pub data Result {ℓ} (A : Type ℓ) : Type ℓ where
  ok : A → Result A
  raised : Raised → Result A

abbrev pub Action : Type 0 → Type 0 → Type 0
Action S A = S → Result A × S

module _ {S A : Type 0} where
  abbrev pub pure : A → Action S A
  pure a s = (ok a, s)

  abbrev pub raise : Raised → Action S A
  raise e s = (raised e, s)

-- What follows a call, by how it ended.
abbrev pub continue : {S A B : Type 0} → Result A × S → (A → Action S B) → Result B × S
continue (ok a, s) f = f a s
continue (raised e, s) f = (raised e, s)

infixl 5 ◌>>=◌
abbrev pub ◌>>=◌ : {S A B : Type 0} → Action S A → (A → Action S B) → Action S B
◌>>=◌ m f s = continue (m s) f
