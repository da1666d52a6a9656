-- ===== src/Injection/Quarantine.antt =====
-- `scan_tool_result` (guardrails/injection.py): every text among the values of a tool's result is scanned. The flag that
-- `_clean` sets on the way is passed along; keys of a `dict` are left as they are.
use deskfleet_ticketwarden.Base.{String, Bool, true, false, ◌≡◌, ◌↔◌, refl, ap, arith}
use deskfleet_ticketwarden.Unicode.{Database}
use deskfleet_ticketwarden.Value.{
  Value, null, bool, int, amount, text, list, dict, Elements, no_elements, element, Pairs, no_pairs,
  pair,
}
use deskfleet_ticketwarden.Injection.{is_injection}

abbrev pub marker : String
marker = "[QUARANTINED: injection signal in external data]"

-- Sequencing of the calls of `_clean` over a container, with the flag so far.
abbrev clean_text : Bool → String → Bool → Bool × Value
clean_text true s flagged = (true, text marker)
clean_text false s flagged = (flagged, text s)

unfoldable mutual
  pub clean : Database → Value → Bool → Bool × Value
  clean u null flagged = (flagged, null)
  clean u (bool b) flagged = (flagged, bool b)
  clean u (int n) flagged = (flagged, int n)
  clean u (amount n) flagged = (flagged, amount n)
  clean u (text s) flagged = clean_text (is_injection u s) s flagged
  clean u (list xs) flagged = let (f, ys) = clean_elements u xs flagged in (f, list ys)
  clean u (dict d) flagged = let (f, e) = clean_pairs u d flagged in (f, dict e)

  pub clean_elements : Database → Elements → Bool → Bool × Elements
  clean_elements u no_elements flagged = (flagged, no_elements)
  clean_elements u (element v xs) flagged =
      let (f, w) = clean u v flagged in let (g, ys) = clean_elements u xs f in (g, element w ys)

  pub clean_pairs : Database → Pairs → Bool → Bool × Pairs
  clean_pairs u no_pairs flagged = (flagged, no_pairs)
  clean_pairs u (pair k v d) flagged =
      let (f, w) = clean u v flagged in let (g, e) = clean_pairs u d f in (g, pair k w e)

unfoldable pub scan_tool_result : Database → Value → Bool × Value
unfolding clean
scan_tool_result u result = clean u result false

-- No text among the values is an injection.
abbrev mutual
  pub IsClean : Database → Value → Type 0
  IsClean u null = Unit
  IsClean u (bool b) = Unit
  IsClean u (int n) = Unit
  IsClean u (amount n) = Unit
  IsClean u (text s) = is_injection u s ≡ false
  IsClean u (list xs) = AreClean u xs
  IsClean u (dict d) = PairsClean u d

  pub AreClean : Database → Elements → Type 0
  AreClean u no_elements = Unit
  AreClean u (element v xs) = IsClean u v × AreClean u xs

  pub PairsClean : Database → Pairs → Type 0
  PairsClean u no_pairs = Unit
  PairsClean u (pair k v d) = IsClean u v × PairsClean u d

marker-IsClean : (u : Database) → is_injection u marker ≡ false
unfolding is_injection
marker-IsClean u = refl

clean_text-IsClean :
    (u : Database) (b : Bool) (s : String) (f : Bool)
    → is_injection u s ≡ b
    → IsClean u (clean_text b s f).1
clean_text-IsClean u true s f e = marker-IsClean u
clean_text-IsClean u false s f e = e

mutual
  unfolding clean

  clean-IsClean : (u : Database) (v : Value) (f : Bool) → IsClean u (clean u v f).1
  clean-IsClean u null f = tt
  clean-IsClean u (bool b) f = tt
  clean-IsClean u (int n) f = tt
  clean-IsClean u (amount n) f = tt
  clean-IsClean u (text s) f = clean_text-IsClean u (is_injection u s) s f refl
  clean-IsClean u (list xs) f = clean_elements-AreClean u xs f
  clean-IsClean u (dict d) f = clean_pairs-PairsClean u d f

  clean_elements-AreClean :
      (u : Database) (xs : Elements) (f : Bool) → AreClean u (clean_elements u xs f).1
  clean_elements-AreClean u no_elements f = tt
  clean_elements-AreClean u (element v xs) f =
      (clean-IsClean u v f, clean_elements-AreClean u xs (clean u v f).0)

  clean_pairs-PairsClean :
      (u : Database) (d : Pairs) (f : Bool) → PairsClean u (clean_pairs u d f).1
  clean_pairs-PairsClean u no_pairs f = tt
  clean_pairs-PairsClean u (pair k v d) f =
      (clean-IsClean u v f, clean_pairs-PairsClean u d (clean u v f).0)

-- A clean value passes through with the flag as it was.
mutual
  unfolding clean

  clean_self : (u : Database) (v : Value) (f : Bool) → IsClean u v → clean u v f ≡ (f, v)
  clean_self u null f h = refl
  clean_self u (bool b) f h = refl
  clean_self u (int n) f h = refl
  clean_self u (amount n) f h = refl
  clean_self u (text s) f h = rw h
  clean_self u (list xs) f h = rw (clean_elements_self u xs f h)
  clean_self u (dict d) f h = rw (clean_pairs_self u d f h)

  clean_elements_self :
      (u : Database) (xs : Elements) (f : Bool) → AreClean u xs → clean_elements u xs f ≡ (f, xs)
  clean_elements_self u no_elements f h = refl
  clean_elements_self u (element v xs) f h =
      rw (clean_self u v f h.0, clean_elements_self u xs f h.1)

  clean_pairs_self :
      (u : Database) (d : Pairs) (f : Bool) → PairsClean u d → clean_pairs u d f ≡ (f, d)
  clean_pairs_self u no_pairs f h = refl
  clean_pairs_self u (pair k v d) f h = rw (clean_self u v f h.0, clean_pairs_self u d f h.1)

-- A flag that is still down at the end was down before, and the value was clean.
mutual
  unfolding clean

  unflagged :
      (u : Database) (v : Value) (f : Bool) → (clean u v f).0 ≡ false → (f ≡ false) × IsClean u v
  unflagged u null f h = (h, tt)
  unflagged u (bool b) f h = (h, tt)
  unflagged u (int n) f h = (h, tt)
  unflagged u (amount n) f h = (h, tt)
  unflagged u (text s) f h = ground arith
  unflagged u (list xs) f h = unflagged_elements u xs f h
  unflagged u (dict d) f h = unflagged_pairs u d f h

  unflagged_elements :
      (u : Database) (xs : Elements) (f : Bool)
      → (clean_elements u xs f).0 ≡ false
      → (f ≡ false) × AreClean u xs
  unflagged_elements u no_elements f h = (h, tt)
  unflagged_elements u (element v xs) f h =
      let (mid, later) = unflagged_elements u xs (clean u v f).0 h in
      let (first, here) = unflagged u v f mid in (first, (here, later))

  unflagged_pairs :
      (u : Database) (d : Pairs) (f : Bool)
      → (clean_pairs u d f).0 ≡ false
      → (f ≡ false) × PairsClean u d
  unflagged_pairs u no_pairs f h = (h, tt)
  unflagged_pairs u (pair k v d) f h =
      let (mid, later) = unflagged_pairs u d (clean u v f).0 h in
      let (first, here) = unflagged u v f mid in (first, (here, later))

-- After the scan no text among the values of the result is an injection, the quarantine marker
-- included, and a second scan changes nothing and raises no flag.
pub scan_tool_result_safe :
    (u : Database) (v : Value)
    → let (flagged, sanitized) = scan_tool_result u v in
      IsClean u sanitized × (scan_tool_result u sanitized ≡ (false, sanitized))
unfolding scan_tool_result
scan_tool_result_safe u v =
    (clean-IsClean u v false, clean_self u (clean u v false).1 false (clean-IsClean u v false))

-- The scan raises no flag exactly when every text among the values is free of injection, and then
-- the result passes unchanged.
pub scan_tool_result_unflagged :
    (u : Database) (v : Value)
    → (((scan_tool_result u v).0 ≡ false) ↔ IsClean u v)
      × (IsClean u v → scan_tool_result u v ≡ (false, v))
unfolding scan_tool_result
scan_tool_result_unflagged u v = (
  (λ h. (unflagged u v false h).1, λ h. ap (λ (r : Bool × Value). r.0) (clean_self u v false h)),
  clean_self u v false,
)
